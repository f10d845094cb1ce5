-- ===== src/Queue/Passed.antt =====
-- queue.rs: a message's lease generation never falls, whatever is called, and its id is not given again.
use mathlib.Core.List.{Memᴰ}
use voodoo_store.Prelude.{
  ℕ, ◌+◌, ◌^◌, ◌<◌, ◌≤◌, ◌≡◌, ◌≢◌, refl, sym, ap, subst, ◌∙◌, inl, inr, true, false, none, some,
  arith, Bool-cases, Option, drop, length, drop-append,
}
use voodoo_store.Prelude.Int.{ℤ}
use voodoo_store.Result.{Result, ok, err}
use voodoo_store.Bytes.{
  Bytes, to_be_bytes, from_be_bytes, starts_with, bytes_eq, bytes_eq→eq, bytes_eq_refl,
  from_be_bytes-to_be_bytes,
}
use voodoo_store.Platform.{Platform}
use voodoo_store.Map.{get, key_eq}
use voodoo_store.Map.Unique.{Memᴰ-get}
use voodoo_store.Engine.Payload.{State}
use voodoo_store.Engine.Store.{Store}
use voodoo_store.Queue.{QueueMessage, PushOptions, as_leased, pushed, next_id}
use voodoo_store.Queue.Message.{
  Queue, new, StoredMessage, QueueError, message_key, encode_message, decode_message,
}
use voodoo_store.Queue.Message.RoundTrip.{FitsMessage}
use voodoo_store.Queue.Keys.{message_key-IsOutside, Memᴰ-scan_prefix}
use voodoo_store.Queue.Lease.{Saved, Claimed, ClaimPost}
use voodoo_store.Queue.Push.{PushPost, meta_key-IsOutside, meta_ne_message}
use voodoo_store.Queue.Release.{EndPost, AckPost}
use voodoo_store.Queue.Invariant.{IsQueue, HasLog-IsUnique, IsQueue-IsKeyed, decoded_eq}
use voodoo_store.Queue.Commands.{push, FitsCommand, IsSound}
use voodoo_store.Queue.Sound.{
  meta_key-not-prefixed, message_key-prefixed, Held-IsQueue, pushed-Fits,
}

-- Where a message with this id is stored, it has come at least this far, and the id is not given again.
pub record HasPassed (q : Queue) (id generation : ℕ) (state : State) : Type 0 where
  pub low :
      (value : Bytes) (m : StoredMessage)
      → get state (message_key q id) ≡ some value
      → decode_message value ≡ ok m
      → generation ≤ m.attempts
  pub given : (k : ℕ) → next_id q state ≡ ok k → id < k

pub some_inj : {v w : Bytes} → ◌≡◌ {A = Option Bytes} (some v) (some w) → v ≡ w
some_inj h = cc

next_id_eq :
    (q : Queue) (state state' : State)
    → get state' q.meta_key ≡ get state q.meta_key
    → next_id q state' ≡ next_id q state
unfolding next_id
next_id_eq q state state' h = rw (next_id, h) refl

message_key-inj :
    (q : Queue) (i j : ℕ) → i < 2 ^ 64 → j < 2 ^ 64 → message_key q i ≡ message_key q j → i ≡ j
unfolding message_key
message_key-inj q i j fi fj h =
    sym (from_be_bytes-to_be_bytes 8 i fi)
    ∙ ap from_be_bytes (
        sym (drop-append q.message_prefix (to_be_bytes 8 i) (length q.message_prefix) refl)
        ∙ ap (drop (length q.message_prefix)) h
        ∙ drop-append q.message_prefix (to_be_bytes 8 j) (length q.message_prefix) refl)
    ∙ from_be_bytes-to_be_bytes 8 j fj

-- After a message is stored under one key.
stored_low :
    (q : Queue) (id generation : ℕ) (state state' : State) (key value : Bytes) (m : StoredMessage)
    → HasPassed q id generation state
    → FitsMessage m
    → encode_message m ≡ ok value
    → get state' key ≡ some value
    → (key ≡ message_key q id → generation ≤ m.attempts)
    → (key ≢ message_key q id → get state' (message_key q id) ≡ get state (message_key q id))
    → (v : Bytes) (n : StoredMessage) → get state' (message_key q id) ≡ some v
    → decode_message v ≡ ok n
    → generation ≤ n.attempts
stored_low q id generation state state' key value m p f e stored own others v n found decoded =
    elim (Bool-cases (bytes_eq key (message_key q id))) [
      | inl same ↦
          let key_same = bytes_eq→eq key (message_key q id) same in
          let value_same : v ≡ value =
            some_inj (sym found ∙ ap (λ k. get state' k) (sym key_same) ∙ stored) in
          subst (λ (x : StoredMessage). generation ≤ x.attempts)
            (decoded_eq value m n e f (ap decode_message (sym value_same) ∙ decoded)) (own key_same)
      | inr differ ↦ p.low v n (sym (others (differ_ne differ)) ∙ found) decoded
    ]
  where
    differ_ne : bytes_eq key (message_key q id) ≡ false → key ≢ message_key q id
    differ_ne h same = cc (bytes_eq_refl key)

module _ ⦃d : Platform⦄ where
  pub Claimed-Fits :
      (q : Queue) (now_ms : ℤ) (duration : ℕ) (s s' : Store) (out : QueueMessage)
      (c : Claimed q now_ms duration s s' out)
      → FitsMessage c.message
      → FitsMessage (as_leased c.message c.generation c.until)
  Claimed-Fits q now_ms duration s s' out c f = record {
    id = f.id;
    attempts = c.generation_fits;
    priority = f.priority;
    available_at_ms = f.available_at_ms;
    lease_until_ms = c.until_fits;
    payload = f.payload;
  }

module _ ⦃d : Platform⦄ (name : Bytes) (q : Queue) (n : new name ≡ ok q) (id generation : ℕ) where
  prefixed_ne_meta : (key : Bytes) → starts_with key q.message_prefix ≡ true → key ≢ q.meta_key
  prefixed_ne_meta key h same = cc (meta_key-not-prefixed name q n)

  Saved-HasPassed :
      (key : Bytes) (m : StoredMessage) (s s' : Store)
      → HasPassed q id generation s.state
      → starts_with key q.message_prefix ≡ true
      → FitsMessage m
      → (key ≡ message_key q id → generation ≤ m.attempts)
      → Saved key m s s'
      → HasPassed q id generation s'.state
  Saved-HasPassed key m s s' p prefixed f own saved = record {
    low =
        stored_low q id generation s.state s'.state key saved.value m p f saved.encoded saved.stored
          own (saved.others (message_key q id) (message_key-IsOutside name q id n));
    given = λ k e. p.given k (
        sym (
          next_id_eq q s.state s'.state
            (saved.others q.meta_key (meta_key-IsOutside name q n) (prefixed_ne_meta key prefixed)))
        ∙ e);
  }

  unchanged-HasPassed :
      (s s' : Store)
      → s'.state ≡ s.state
      → HasPassed q id generation s.state
      → HasPassed q id generation s'.state
  unchanged-HasPassed s s' e p = subst (λ x. HasPassed q id generation x) (sym e) p

  pub end-HasPassed :
      (id' g : ℕ) (change : StoredMessage → StoredMessage) (s s' : Store)
      (r : Result QueueError (Unit {0}))
      → ((m : StoredMessage)
          → FitsMessage m
          → ((change m).attempts ≡ m.attempts) × FitsMessage (change m))
      → IsQueue q s.state
      → HasPassed q id generation s.state
      → EndPost q id' g change s r s'
      → HasPassed q id generation s'.state
  end-HasPassed id' g change s s' (err _) keeps i p (h, same) = unchanged-HasPassed s s' same p
  end-HasPassed id' g change s s' (ok _) keeps i p (h, ended) =
      let (own, f) = Held-IsQueue name q n id' g s ended.message i ended.held in
      let (attempts, f') = keeps ended.message f in
      Saved-HasPassed (message_key q id') (change ended.message) s s' p (message_key-prefixed q id')
        f'
        (λ same.
          subst (λ x. generation ≤ x) (sym attempts)
            (p.low ended.held.value ended.message
              (subst (λ k. get s.state k ≡ some ended.held.value) same ended.held.found)
              ended.held.decoded))
        ended.saved

  pub ack-HasPassed :
      (id' g : ℕ) (s s' : Store) (r : Result QueueError (Unit {0}))
      → HasPassed q id generation s.state
      → AckPost q id' g s r s'
      → HasPassed q id generation s'.state
  ack-HasPassed id' g s s' (err _) p (h, same) = unchanged-HasPassed s s' same p
  ack-HasPassed id' g s s' (ok _) p (h, _, gone, others) = record { low = low; given = given }
    where
      none_ne_some : {v : Bytes} → ◌≢◌ {A = Option Bytes} none (some v)
      none_ne_some e = cc

      low :
          (v : Bytes) (m : StoredMessage)
          → get s'.state (message_key q id) ≡ some v
          → decode_message v ≡ ok m
          → generation ≤ m.attempts
      low v m found decoded =
          p.low v m (sym (others (message_key q id) (message_key-IsOutside name q id n) ne) ∙ found)
            decoded
        where
          ne : message_key q id' ≢ message_key q id
          ne same = none_ne_some (sym gone ∙ ap (get s'.state) same ∙ found)

      given : (k : ℕ) → next_id q s'.state ≡ ok k → id < k
      given k e = p.given k (
          sym (
            next_id_eq q s.state s'.state (
              others q.meta_key (meta_key-IsOutside name q n)
                (prefixed_ne_meta (message_key q id') (message_key-prefixed q id'))))
          ∙ e)

  pub claim-HasPassed :
      (now_ms : ℤ) (duration : ℕ) (s s' : Store) (r : Result QueueError (Option QueueMessage))
      → IsSound q s
      → HasPassed q id generation s.state
      → ClaimPost q now_ms duration s r s'
      → HasPassed q id generation s'.state
  claim-HasPassed now_ms duration s s' (ok none) i p (same, found) =
      subst (λ (x : Store). HasPassed q id generation x.state) (sym same) p
  claim-HasPassed now_ms duration s s' (err _) i p (h, same) = unchanged-HasPassed s s' same p
  claim-HasPassed now_ms duration s s' (ok (some out)) (h, i) p (h', c) =
      Saved-HasPassed c.key (as_leased c.message c.generation c.until) s s' p prefixed fits own
        c.saved
    where
      scanned :
          Memᴰ (c.key, c.eligible.0.value) s.state × (starts_with c.key q.message_prefix ≡ true)
      scanned =
          Memᴰ-scan_prefix c.key c.eligible.0.value s.state q.message_prefix c.eligible.0.entry

      prefixed : starts_with c.key q.message_prefix ≡ true
      prefixed = scanned.1

      found : get s.state c.key ≡ some c.eligible.0.value
      found = Memᴰ-get s.state c.key c.eligible.0.value (HasLog-IsUnique s h) scanned.0

      fits : FitsMessage (as_leased c.message c.generation c.until)
      fits =
          Claimed-Fits q now_ms duration s s' out c
            (IsQueue-IsKeyed q s h i c.key c.message c.eligible.0).1

      own : c.key ≡ message_key q id → generation ≤ c.generation
      own same =
          let low =
            p.low c.eligible.0.value c.message
              (subst (λ k. get s.state k ≡ some c.eligible.0.value) same found)
              c.eligible.0.decoded in
          omega (arith, low, c.next)

  pub push-HasPassed :
      (payload : Bytes) (options : PushOptions) (s s' : Store) (r : Result QueueError ℕ)
      → FitsCommand (push payload options)
      → HasPassed q id generation s.state
      → PushPost q payload options s r s'
      → HasPassed q id generation s'.state
  push-HasPassed payload options s s' (err _) f p (h, same) = unchanged-HasPassed s s' same p
  push-HasPassed payload options s s' (ok k) (fp, fa) p (h, x) = record {
    low =
        stored_low q id generation s.state s'.state (message_key q k) x.value
          (pushed k payload options) p (pushed-Fits name q n payload options s s' k (fp, fa) x)
          x.encoded x.stored (λ same. absurd (fresh same))
          (x.others (message_key q id) (message_key-IsOutside name q id n)
            (meta_ne_message name q id n));
    given = λ j e. counted j (ok_inj (sym x.next ∙ e));
  }
    where
      below : id < k
      below = p.given k x.fresh

      fresh : message_key q k ≢ message_key q id
      fresh same =
          let e =
            message_key-inj q k id (omega (arith, x.next_fits)) (omega (arith, below, x.next_fits))
              same in
          omega (arith, below, e)

      ok_inj : {i j : ℕ} → ◌≡◌ {A = Result QueueError ℕ} (ok i) (ok j) → i ≡ j
      ok_inj h = cc

      counted : (j : ℕ) → k + 1 ≡ j → id < j
      counted j e = omega (arith, below, e)
