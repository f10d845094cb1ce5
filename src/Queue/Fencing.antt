-- ===== src/Queue/Fencing.antt =====
-- queue.rs: once a message is claimed again, the worker that held it before can no longer end it.
use voodoo_store.Prelude.{ℕ, ◌≡◌, ◌≢◌, refl, sym, ap, subst, ◌∙◌, some, arith, eqb→eq}
use voodoo_store.Prelude.Int.{ℤ}
use voodoo_store.Result.{ok, err, ◌>>=◌}
use voodoo_store.Bytes.{Bytes}
use voodoo_store.Platform.{Platform}
use voodoo_store.Map.{get, key_eq}
use voodoo_store.Engine.Payload.{State}
use voodoo_store.Engine.Store.{Store, scan_prefix}
use voodoo_store.Engine.Durability.Sealing.{HasLog}
use voodoo_store.Queue.{
  QueueMessage, as_leased, load_message, checked, load_leased, claim, ack, nack, dead_letter,
}
use voodoo_store.Queue.Message.{
  Queue, new, StoredMessage, leased, QueueError, message_key, encode_message, decode_message,
  validate_lease, lease_mismatch,
}
use voodoo_store.Queue.Message.RoundTrip.{FitsMessage, decode_message-encode_message}
use voodoo_store.Queue.Claim.Best.{IsStored}
use voodoo_store.Queue.Lease.{Claimed, ClaimPost, claim-ClaimPost}

-- The messages of a queue stand under their own keys, and their fields fit the machine types.
abbrev pub IsKeyed : Queue → State → Type 0
IsKeyed q state =
    (key : Bytes) (m : StoredMessage)
    → IsStored (scan_prefix state q.message_prefix) key m
    → (key ≡ message_key q m.id) × FitsMessage m

mismatch :
    (m : StoredMessage) (g : ℕ)
    → m.state ≡ leased
    → m.attempts ≢ g
    → checked g m ≡ err (lease_mismatch m.id m.attempts g)
unfolding validate_lease
mismatch m g st ne = ground (arith, eqb→eq m.attempts g)

-- A stored, leased message turns every other generation away.
stored_mismatch :
    (q : Queue) (id g : ℕ) (state : State) (m : StoredMessage) (value : Bytes)
    → get state (message_key q id) ≡ some value
    → encode_message m ≡ ok value
    → FitsMessage m
    → m.state ≡ leased
    → m.attempts ≢ g
    → load_leased q id g state ≡ err (lease_mismatch m.id m.attempts g)
unfolding load_leased load_message
stored_mismatch q id g state m value found encoded f st ne =
    rw (load_leased, load_message, found, decoded) (mismatch m g st ne)
  where
    decoded : decode_message value ≡ ok m
    decoded = ap (λ x. x >>= decode_message) (sym encoded) ∙ decode_message-encode_message m f

module _ ⦃d : Platform⦄ where
  -- All three ways to end a message refuse, and leave the store as it is.
  abbrev pub TurnedAway : Queue → ℕ → ℕ → QueueError → Store → Type 0
  TurnedAway q id g error s =
      (ack q id g s ≡ (err error, s))
      × ((available_at_ms : ℤ) → nack q id g available_at_ms s ≡ (err error, s))
      × (dead_letter q id g s ≡ (err error, s))

  pub turned_away :
      (q : Queue) (id g : ℕ) (error : QueueError) (s : Store)
      → load_leased q id g s.state ≡ err error
      → TurnedAway q id g error s
  unfolding ack nack dead_letter
  turned_away q id g error s e = (rw e, λ available_at_ms. rw e, rw e)

  Claimed-TurnedAway :
      (q : Queue) (now_ms : ℤ) (duration : ℕ) (s s' : Store) (out : QueueMessage) (g : ℕ)
      → IsKeyed q s.state
      → Claimed q now_ms duration s s' out
      → out.lease_generation ≢ g
      → TurnedAway q out.id g (lease_mismatch out.id out.lease_generation g) s'
  Claimed-TurnedAway q now_ms duration s s' out g keyed c ne =
      subst
        (λ (x : QueueMessage).
          x.lease_generation ≢ g
          → TurnedAway q x.id g (lease_mismatch x.id x.lease_generation g) s')
        (sym c.out_eq)
        (λ ne'. turned_away q message.id g _ s' (
          stored_mismatch q message.id g s'.state message c.saved.value stored c.saved.encoded fit
            refl ne'))
        ne
    where
      message : StoredMessage
      message = as_leased c.message c.generation c.until

      well : (c.key ≡ message_key q c.message.id) × FitsMessage c.message
      well = keyed c.key c.message c.eligible.0

      stored : get s'.state (message_key q message.id) ≡ some c.saved.value
      stored = subst (λ k. get s'.state k ≡ some c.saved.value) well.0 c.saved.stored

      fit : FitsMessage message
      fit = record {
        id = well.1.id;
        attempts = c.generation_fits;
        priority = well.1.priority;
        available_at_ms = well.1.available_at_ms;
        lease_until_ms = c.until_fits;
        payload = well.1.payload;
      }

  -- When `claim` has delivered a message from a queue whose messages stand under their own keys, `ack`,
  -- `nack` and `dead_letter` with any other lease generation fail with a mismatch and change nothing.
  pub claim-fences :
      (name : Bytes) (q : Queue) (now_ms : ℤ) (duration : ℕ) (s : Store) (out : QueueMessage)
      (g : ℕ)
      → new name ≡ ok q
      → HasLog s
      → IsKeyed q s.state
      → (claim q now_ms duration s).0 ≡ ok (some out)
      → out.lease_generation ≢ g
      → TurnedAway q out.id g
          (lease_mismatch out.id out.lease_generation g)
          (claim q now_ms duration s).1
  claim-fences name q now_ms duration s out g n h keyed e =
      let post =
        subst (λ x. ClaimPost q now_ms duration s x (claim q now_ms duration s).1) e
          (claim-ClaimPost name q now_ms duration s n h) in
      Claimed-TurnedAway q now_ms duration s (claim q now_ms duration s).1 out g keyed post.1
