-- ===== src/Queue/Promises.antt =====
-- queue.rs: what `push_with_options`, `claim`, `nack` and `dead_letter` promise, said of the fields of
-- the messages.
use voodoo_store.Prelude.{
  ℕ, ◌+◌, ◌^◌, ◌<◌, ◌≡◌, ◌≢◌, refl, sym, subst, true, Option, none, some, Bool, false,
}
use voodoo_store.Prelude.Int.{ℤ, pos, ◌+ℤ◌}
use voodoo_store.Result.{Result, ok, err}
use voodoo_store.Bytes.{Bytes}
use voodoo_store.Bytes.Words.{Fits, i64_half}
use voodoo_store.Platform.{Platform}
use voodoo_store.Map.{get, key_eq}
use voodoo_store.Engine.Store.{Store, scan_prefix}
use voodoo_store.Engine.Durability.Sealing.{HasLog}
use voodoo_store.Engine.Durability.Keys.{IsOutside}
use voodoo_store.Queue.{
  QueueMessage, PushOptions, pushed, as_leased, delivered, as_ready, as_dead, claim, nack,
  dead_letter, push_with_options,
}
use voodoo_store.Queue.Message.{
  Queue, new, ready, leased, dead, StoredMessage, QueueError, message_key, encode_message,
}
use voodoo_store.Queue.Claim.Best.{IsStored, select-best}
use voodoo_store.Queue.Held.{Held}
use voodoo_store.Queue.Terms.{
  IsDue, IsFirst, Becomes, Tells, IsNew, IsNextId, eligible→IsDue, IsDue→eligible, IsFirst→precedes,
  next_id-IsNextId,
}
use voodoo_store.Queue.Lease.{Saved, ClaimPost, claim-ClaimPost}
use voodoo_store.Queue.Release.{EndPost, nack-EndPost, dead_letter-EndPost}
use voodoo_store.Queue.Push.{PushPost, push_with_options-PushPost}

module _ ⦃d : Platform⦄ where
  pub record Delivered (q : Queue) (now_ms : ℤ) (duration : ℕ) (s s' : Store) (out : QueueMessage)
      : Type 0 where
    pub key : Bytes
    pub before : StoredMessage
    pub after : StoredMessage
    pub stored : IsStored (scan_prefix s.state q.message_prefix) key before
    pub due : IsDue now_ms before
    pub first :
        (k : Bytes) (m : StoredMessage)
        → IsStored (scan_prefix s.state q.message_prefix) k m
        → IsDue now_ms m
        → ¬ IsFirst m before
    pub becomes :
        Becomes before after leased
          (before.attempts + 1)
          before.available_at_ms
          (now_ms +ℤ pos duration)
    pub attempts_fit : before.attempts + 1 < 2 ^ 32
    pub until_fits : Fits i64_half (now_ms +ℤ pos duration)
    pub tells : Tells out after
    pub saved : Saved key after s s'

  abbrev pub DeliverPost :
      Queue → ℤ → ℕ → Store → Result QueueError (Option QueueMessage) → Store → Type 0
  DeliverPost q now_ms duration s (ok (some out)) s' =
      HasLog s' × Delivered q now_ms duration s s' out
  DeliverPost q now_ms duration s (ok none) s' =
      (s' ≡ s)
      × ((k : Bytes) (m : StoredMessage)
          → IsStored (scan_prefix s.state q.message_prefix) k m
          → ¬ IsDue now_ms m)
  DeliverPost q now_ms duration s (err _) s' = HasLog s' × (s'.state ≡ s.state)

  -- The message that the worker with the generation held reads as the relation says.
  abbrev pub HandBackPost :
      (StoredMessage → StoredMessage → Type 0)
      → Queue
      → ℕ
      → ℕ
      → Store
      → Result QueueError (Unit {0})
      → Store
      → Type 0
  HandBackPost Turns q id generation s (ok _) s' =
      HasLog s'
      × ((before : StoredMessage) × (after : StoredMessage) × Held q id generation s.state before
          × Turns before after
          × Saved (message_key q id) after s s')
  HandBackPost Turns q id generation s (err _) s' = HasLog s' × (s'.state ≡ s.state)

  abbrev pub TurnsReady : ℤ → StoredMessage → StoredMessage → Type 0
  TurnsReady available_at_ms before after =
      Becomes before after ready before.attempts available_at_ms (pos 0)

  abbrev pub TurnsDead : StoredMessage → StoredMessage → Type 0
  TurnsDead before after = Becomes before after dead before.attempts before.available_at_ms (pos 0)

  -- A pushed message: it has the id that was next, and the id after it is next.
  pub record Enqueued (q : Queue) (payload : Bytes) (options : PushOptions) (s s' : Store) (id : ℕ)
      : Type 0 where
    pub fresh : IsNextId q s.state id
    pub next_fits : id + 1 < 2 ^ 64
    pub next : IsNextId q s'.state (id + 1)
    pub message : StoredMessage
    pub is_new : IsNew message id payload options
    pub value : Bytes
    pub encoded : encode_message message ≡ ok value
    pub stored : get s'.state (message_key q id) ≡ some value
    pub others :
        (j : Bytes)
        → IsOutside j
        → q.meta_key ≢ j
        → message_key q id ≢ j
        → get s'.state j ≡ get s.state j

  abbrev pub EnqueuePost :
      Queue → Bytes → PushOptions → Store → Result QueueError ℕ → Store → Type 0
  EnqueuePost q payload options s (ok id) s' = HasLog s' × Enqueued q payload options s s' id
  EnqueuePost q payload options s (err _) s' = HasLog s' × (s'.state ≡ s.state)

  module _ (name : Bytes) (q : Queue) (s : Store) (n : new name ≡ ok q) (h : HasLog s) where
    delivers :
        (now_ms : ℤ) (duration : ℕ) (r : Result QueueError (Option QueueMessage)) (s' : Store)
        → ClaimPost q now_ms duration s r s'
        → DeliverPost q now_ms duration s r s'
    delivers now_ms duration (err _) s' p = p
    delivers now_ms duration (ok none) s' (same, found) = (
      same,
      λ k m stored due.
          (select-best now_ms (scan_prefix s.state q.message_prefix) none found).1 k m stored
            (IsDue→eligible now_ms m due),
    )
    delivers now_ms duration (ok (some out)) s' (h', c) = (
      h',
      record {
        key = c.key;
        before = c.message;
        after = as_leased c.message c.generation c.until;
        stored = c.eligible.0;
        due = eligible→IsDue now_ms c.message c.eligible.1;
        first = λ k m stored due before.
            both (c.best k m stored (IsDue→eligible now_ms m due))
              (IsFirst→precedes m c.message before);
        becomes = record {
          id = refl;
          payload = refl;
          priority = refl;
          state = refl;
          attempts = c.next;
          available_at_ms = refl;
          lease_until_ms = c.until_eq;
        };
        attempts_fit = subst (λ g. g < 2 ^ 32) c.next c.generation_fits;
        until_fits = subst (Fits i64_half) c.until_eq c.until_fits;
        tells = subst (λ o. Tells o (as_leased c.message c.generation c.until)) (sym c.out_eq) told;
        saved = c.saved;
      },
    )
      where
        both : {b : Bool} → b ≡ false → b ≡ true → ⊥
        both e e' = cc

        told :
            Tells
              (delivered (as_leased c.message c.generation c.until))
              (as_leased c.message c.generation c.until)
        told = record {
          id = refl;
          payload = refl;
          attempts = refl;
          priority = refl;
          available_at_ms = refl;
          lease_until_ms = refl;
          lease_generation = refl;
        }

    -- `claim` on a store whose file holds its state delivers a message of the queue that is due, ready
    -- at its time or with a lease that has run out, such that no message that is due has a higher
    -- priority, or the same one and a lower id. The message is stored as leased until the given time,
    -- with one attempt more, which is its lease generation, and the worker is told its fields; no other
    -- key outside the change feed has changed. It finds none only if no message of the queue is due,
    -- and then nothing has changed; after an error no key has changed.
    pub claim-DeliverPost :
        (now_ms : ℤ) (duration : ℕ)
        → DeliverPost q now_ms duration s
            (claim q now_ms duration s).0
            (claim q now_ms duration s).1
    claim-DeliverPost now_ms duration =
        delivers now_ms duration _ _ (claim-ClaimPost name q now_ms duration s n h)

    handed_back :
        (Turns : StoredMessage → StoredMessage → Type 0) (change : StoredMessage → StoredMessage)
        (id generation : ℕ)
        → ((m : StoredMessage) → Turns m (change m))
        → (r : Result QueueError (Unit {0})) (s' : Store) → EndPost q id generation change s r s'
        → HandBackPost Turns q id generation s r s'
    handed_back Turns change id generation turns (err _) s' p = p
    handed_back Turns change id generation turns (ok _) s' (h', e) =
        (h', (e.message, change e.message, e.held, turns e.message, e.saved))

    -- `nack` on a store whose file holds its state succeeds only for the message that is leased with
    -- the given generation: the message is stored as ready at the given time without a lease, its other
    -- fields are the same, and no other key outside the change feed has changed; after an error no key
    -- has changed.
    pub nack-HandBackPost :
        (id generation : ℕ) (available_at_ms : ℤ)
        → HandBackPost
            (TurnsReady available_at_ms)
            q
            id
            generation
            s
            (nack q id generation available_at_ms s).0
            (nack q id generation available_at_ms s).1
    nack-HandBackPost id generation available_at_ms =
        handed_back (TurnsReady available_at_ms) (as_ready available_at_ms) id generation
          (λ m. record {
            id = refl;
            payload = refl;
            priority = refl;
            state = refl;
            attempts = refl;
            available_at_ms = refl;
            lease_until_ms = refl;
          })
          _ _ (nack-EndPost name q id generation s n h available_at_ms)

    -- `dead_letter` on a store whose file holds its state succeeds only for the message that is leased
    -- with the given generation: the message is stored as dead without a lease, its other fields are
    -- the same, and no other key outside the change feed has changed; after an error no key has
    -- changed.
    pub dead_letter-HandBackPost :
        (id generation : ℕ)
        → HandBackPost TurnsDead q id generation s
            (dead_letter q id generation s).0
            (dead_letter q id generation s).1
    dead_letter-HandBackPost id generation =
        handed_back TurnsDead as_dead id generation
          (λ m. record {
            id = refl;
            payload = refl;
            priority = refl;
            state = refl;
            attempts = refl;
            available_at_ms = refl;
            lease_until_ms = refl;
          })
          _ _ (dead_letter-EndPost name q id generation s n h)

    enqueues :
        (payload : Bytes) (options : PushOptions) (r : Result QueueError ℕ) (s' : Store)
        → PushPost q payload options s r s'
        → EnqueuePost q payload options s r s'
    enqueues payload options (err _) s' p = p
    enqueues payload options (ok id) s' (h', p) = (
      h',
      record {
        fresh = next_id-IsNextId q s.state id p.fresh;
        next_fits = p.next_fits;
        next = next_id-IsNextId q s'.state (id + 1) p.next;
        message = pushed id payload options;
        is_new = record {
          id = refl;
          payload = refl;
          priority = refl;
          state = refl;
          attempts = refl;
          available_at_ms = refl;
          lease_until_ms = refl;
        };
        value = p.value;
        encoded = p.encoded;
        stored = p.stored;
        others = p.others;
      },
    )

    -- `push_with_options` on a store whose file holds its state: on success it returns the id that was
    -- next in the queue, 1 in a new one; under that id a ready message is stored that has the given
    -- payload, priority and time, no attempts and no lease; the id after it is next, and every other
    -- key outside the change feed reads as before. After an error no key has changed.
    pub push_with_options-EnqueuePost :
        (payload : Bytes) (options : PushOptions)
        → EnqueuePost q payload options s
            (push_with_options q payload options s).0
            (push_with_options q payload options s).1
    push_with_options-EnqueuePost payload options =
        enqueues payload options _ _ (push_with_options-PushPost name q payload options s n h)
