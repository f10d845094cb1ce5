-- ===== src/Queue/Invariant.antt =====
-- queue.rs: what every operation of a queue keeps: its messages stand under their own keys.
use voodoo_store.Prelude.{
  ℕ, ◌≡◌, ◌≢◌, sym, ap, subst, ◌∙◌, inl, inr, true, false, none, some, Bool-cases, Option,
}
use voodoo_store.Result.{Result, ok, err, ◌>>=◌}
use voodoo_store.Bytes.{Bytes, starts_with, bytes_eq, bytes_eq→eq, bytes_eq_refl}
use voodoo_store.Platform.{Platform}
use voodoo_store.Map.{get, key_eq}
use voodoo_store.Map.Unique.{IsUnique, Memᴰ-get}
use voodoo_store.Engine.Payload.{State}
use voodoo_store.Engine.Recovery.{start}
use voodoo_store.Engine.Recovery.Keys.{replay-IsUnique}
use voodoo_store.Engine.Store.{Store}
use voodoo_store.Engine.Durability.Sealing.{HasLog}
use voodoo_store.Queue.Message.{
  Queue, new, StoredMessage, message_key, encode_message, decode_message, QueueError,
}
use voodoo_store.Queue.Message.RoundTrip.{FitsMessage, decode_message-encode_message}
use voodoo_store.Queue.Keys.{Memᴰ-scan_prefix, prefixed-IsOutside}
use voodoo_store.Queue.Lease.{Saved, ClaimPost}
use voodoo_store.Queue.Fencing.{IsKeyed}
use voodoo_store.Prelude.Int.{ℤ}
use voodoo_store.Queue.{QueueMessage, as_leased}

-- The messages of a queue, as lookups find them, stand under their own keys, and their fields fit the
-- machine types.
pub record IsQueue (q : Queue) (state : State) : Type 0 where
  pub at :
      (key value : Bytes) (m : StoredMessage)
      → starts_with key q.message_prefix ≡ true
      → get state key ≡ some value
      → decode_message value ≡ ok m
      → (key ≡ message_key q m.id) × FitsMessage m

module _ ⦃d : Platform⦄ where
  pub HasLog-IsUnique : (s : Store) → HasLog s → IsUnique s.state
  HasLog-IsUnique s h =
      subst (λ x. IsUnique x) h.logged.state
        (replay-IsUnique h.logged.entries start h.at h.logged.replayed tt)

  pub IsQueue-IsKeyed : (q : Queue) (s : Store) → HasLog s → IsQueue q s.state → IsKeyed q s.state
  IsQueue-IsKeyed q s h i key m stored =
      let (entry, prefixed) =
        Memᴰ-scan_prefix key stored.value s.state q.message_prefix stored.entry in
      i.at key stored.value m prefixed
        (Memᴰ-get s.state key stored.value (HasLog-IsUnique s h) entry) stored.decoded

pub decoded_eq :
    (value : Bytes) (m n : StoredMessage)
    → encode_message m ≡ ok value
    → FitsMessage m
    → decode_message value ≡ ok n
    → m ≡ n
decoded_eq value m n e f k = ok_inj (sym decoded ∙ k)
  where
    decoded : decode_message value ≡ ok m
    decoded = ap (λ x. x >>= decode_message) (sym e) ∙ decode_message-encode_message m f

    ok_inj : ◌≡◌ {A = Result QueueError StoredMessage} (ok m) (ok n) → m ≡ n
    ok_inj h = cc

-- A message is stored under its key, and other keys of the queue are as before.
pub stored-IsQueue :
    (q : Queue) (state state' : State) (key value : Bytes) (m : StoredMessage)
    → IsQueue q state
    → key ≡ message_key q m.id
    → FitsMessage m
    → encode_message m ≡ ok value
    → get state' key ≡ some value
    → ((j : Bytes) → starts_with j q.message_prefix ≡ true → key ≢ j → get state' j ≡ get state j)
    → IsQueue q state'
stored-IsQueue q state state' key value m i own f e stored others = record { at = at }
  where
    some_inj : {v w : Bytes} → ◌≡◌ {A = Option Bytes} (some v) (some w) → v ≡ w
    some_inj h = cc

    at :
        (j v : Bytes) (n : StoredMessage)
        → starts_with j q.message_prefix ≡ true
        → get state' j ≡ some v
        → decode_message v ≡ ok n
        → (j ≡ message_key q n.id) × FitsMessage n
    at j v n prefixed found decoded = elim (Bool-cases (bytes_eq key j)) [
      | inl same ↦
          let key_same : key ≡ j = bytes_eq→eq key j same in
          let value_same : v ≡ value =
            some_inj (sym found ∙ ap (λ k. get state' k) (sym key_same) ∙ stored) in
          subst (λ (x : StoredMessage). (j ≡ message_key q x.id) × FitsMessage x)
            (decoded_eq value m n e f (ap decode_message (sym value_same) ∙ decoded))
            (sym key_same ∙ own, f)
      | inr differ ↦
          let ne : key ≢ j = λ same. differ_ne j differ same in
          i.at j v n prefixed (sym (others j prefixed ne) ∙ found) decoded
    ]
      where
        differ_ne : (j : Bytes) → bytes_eq key j ≡ false → key ≢ j
        differ_ne j h same = cc (bytes_eq_refl key)

module _ ⦃d : Platform⦄ (name : Bytes) (q : Queue) (n : new name ≡ ok q) where
  -- A saved message.
  pub Saved-IsQueue :
      (key : Bytes) (m : StoredMessage) (s s' : Store)
      → IsQueue q s.state
      → key ≡ message_key q m.id
      → FitsMessage m
      → Saved key m s s'
      → IsQueue q s'.state
  Saved-IsQueue key m s s' i own f saved =
      stored-IsQueue q s.state s'.state key saved.value m i own f saved.encoded saved.stored
        (λ j prefixed ne. saved.others j (prefixed-IsOutside name j q n prefixed) ne)

  pub unchanged-IsQueue :
      (s s' : Store) → s'.state ≡ s.state → IsQueue q s.state → IsQueue q s'.state
  unchanged-IsQueue s s' e i = subst (λ x. IsQueue q x) (sym e) i

  pub claim-IsQueue :
      (now_ms : ℤ) (duration : ℕ) (s s' : Store) (r : Result QueueError (Option QueueMessage))
      → HasLog s
      → IsQueue q s.state
      → ClaimPost q now_ms duration s r s'
      → IsQueue q s'.state
  claim-IsQueue now_ms duration s s' (ok none) h i (same, _) =
      subst (λ (x : Store). IsQueue q x.state) (sym same) i
  claim-IsQueue now_ms duration s s' (ok (some out)) h i (_, c) =
      let (own, f) = IsQueue-IsKeyed q s h i c.key c.message c.eligible.0 in
      Saved-IsQueue c.key (as_leased c.message c.generation c.until) s s' i own
        (record {
          id = f.id;
          attempts = c.generation_fits;
          priority = f.priority;
          available_at_ms = f.available_at_ms;
          lease_until_ms = c.until_fits;
          payload = f.payload;
        })
        c.saved
  claim-IsQueue now_ms duration s s' (err _) h i (_, same) = unchanged-IsQueue s s' same i
