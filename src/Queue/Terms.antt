-- ===== src/Queue/Terms.antt =====
-- queue.rs: which messages may be delivered and in which order, what becomes of the fields of a
-- message, and the id that is next, said without the code's own helpers.
use voodoo_store.Prelude.{
  ℕ, ◌<◌, ◌≡◌, ◌⊎◌, inl, inr, true, none, some, arith, length, Option-cases, ◌==◌, if◌then◌else◌,
}
use voodoo_store.Prelude.Int.{ℤ, pos, ◌≤ℤ◌, ◌<ℤ◌}
use voodoo_store.Result.{Result, ok, err}
use voodoo_store.Bytes.{Bytes, from_le_bytes}
use voodoo_store.Map.{get, key_eq}
use voodoo_store.Engine.Payload.{State}
use voodoo_store.Queue.{QueueMessage, PushOptions, next_id}
use voodoo_store.Queue.Message.{
  Queue, QueueState, ready, leased, StoredMessage, QueueError, invalid_encoding,
}
use voodoo_store.Queue.Claim.{eligible, precedes}

-- A message may be delivered from its time on while it is ready, and from the end of its lease on
-- while it is leased; a dead one never.
abbrev pub IsDue : ℤ → StoredMessage → Type 0
IsDue now_ms m =
    ((m.state ≡ ready) × (m.available_at_ms ≤ℤ now_ms))
    ⊎ ((m.state ≡ leased) × (m.lease_until_ms ≤ℤ now_ms))

-- The higher priority is first, and the lower id among those of one priority.
abbrev pub IsFirst : StoredMessage → StoredMessage → Type 0
IsFirst m n = (n.priority <ℤ m.priority) ⊎ ((m.priority ≡ n.priority) × (m.id < n.id))

pub eligible→IsDue : (now_ms : ℤ) (m : StoredMessage) → eligible now_ms m ≡ true → IsDue now_ms m
unfolding eligible
eligible→IsDue now_ms m h = ground arith

pub IsDue→eligible : (now_ms : ℤ) (m : StoredMessage) → IsDue now_ms m → eligible now_ms m ≡ true
unfolding eligible
IsDue→eligible now_ms m h = ground arith

pub IsFirst→precedes : (m n : StoredMessage) → IsFirst m n → precedes m n ≡ true
unfolding precedes
IsFirst→precedes m n h = ground arith

-- The message `after` has the id, the payload and the priority of `before`, and the given other fields.
pub record Becomes (before after : StoredMessage) (st : QueueState) (n : ℕ) (at_ms until_ms : ℤ)
    : Type 0 where
  pub id : after.id ≡ before.id
  pub payload : after.payload ≡ before.payload
  pub priority : after.priority ≡ before.priority
  pub state : after.state ≡ st
  pub attempts : after.attempts ≡ n
  pub available_at_ms : after.available_at_ms ≡ at_ms
  pub lease_until_ms : after.lease_until_ms ≡ until_ms

-- What the worker is told of a leased message.
pub record Tells (out : QueueMessage) (m : StoredMessage) : Type 0 where
  pub id : out.id ≡ m.id
  pub payload : out.payload ≡ m.payload
  pub attempts : out.attempts ≡ m.attempts
  pub priority : out.priority ≡ m.priority
  pub available_at_ms : out.available_at_ms ≡ m.available_at_ms
  pub lease_until_ms : out.lease_until_ms ≡ m.lease_until_ms
  pub lease_generation : out.lease_generation ≡ m.attempts

-- A new message.
pub record IsNew (m : StoredMessage) (id_ : ℕ) (bytes : Bytes) (options : PushOptions)
    : Type 0 where
  pub id : m.id ≡ id_
  pub payload : m.payload ≡ bytes
  pub priority : m.priority ≡ options.priority
  pub state : m.state ≡ ready
  pub attempts : m.attempts ≡ 0
  pub available_at_ms : m.available_at_ms ≡ options.available_at_ms
  pub lease_until_ms : m.lease_until_ms ≡ pos 0

-- The id that the queue gives out next: it is stored in eight bytes, and the first one is 1.
abbrev pub IsNextId : Queue → State → ℕ → Type 0
IsNextId q state id =
    ((get state q.meta_key ≡ none) × (id ≡ 1))
    ⊎ ((value : Bytes) × (get state q.meta_key ≡ some value)
        × (length value ≡ 8)
        × (id ≡ from_le_bytes value))

pub next_id-IsNextId :
    (q : Queue) (state : State) (id : ℕ) → next_id q state ≡ ok id → IsNextId q state id
unfolding next_id
next_id-IsNextId q state id h = elim (Option-cases (get state q.meta_key)) [
  | inl e ↦ inl (e, first (rw (e, next_id) at h))
  | inr (value, e) ↦
      let (whole, same) = read value (rw (e, next_id) at h) in inr (value, e, whole, same)
]
  where
    first : ◌≡◌ {A = Result QueueError ℕ} (ok 1) (ok id) → id ≡ 1
    first same = cc

    read :
        (value : Bytes)
        → (if length value == 8 then ok (from_le_bytes value) else err invalid_encoding) ≡ ok id
        → (length value ≡ 8) × (id ≡ from_le_bytes value)
    read value same = ground arith
