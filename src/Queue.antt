-- ===== src/Queue.antt =====
-- crates/voodoo-store-core/src/queue.rs: durable queues with leases over the store. A `Queue` borrows
-- the store, so its methods run on the store.
pub mod Message
pub mod Stats
pub mod Claim
pub mod Keys
pub mod Lease
pub mod Held
pub mod Release
pub mod Push
pub mod Terms
pub mod Promises
pub mod Fencing
pub mod Invariant
pub mod Commands
pub mod Sound
pub mod Passed
pub mod Tokens
mod Tests
use voodoo_store.Prelude.{
  ℕ, Bool, true, false, not, Option, none, some, List, [], ◌∷◌, length, ◌==◌, if◌then◌else◌,
}
use voodoo_store.Prelude.Int.{ℤ, pos}
use voodoo_store.Result.{Result, ok, err, ok_or}
use voodoo_store.Exec.{Exec, pure, raise, lift, gets, modify, ◌>>=◌, ◌>>◌, map_error}
use voodoo_store.Bytes.{Bytes, to_le_bytes, from_le_bytes}
use voodoo_store.Bytes.Words.{checked_add, checked_add_u32, to_i64, checked_add_i64}
use voodoo_store.Platform.{Platform}
use voodoo_store.Map.{get, key_eq}
use voodoo_store.Engine.Payload.{State, EngineError}
use voodoo_store.Engine.Store.{Store, scan_prefix, record_queue_claim, record_queue_ack}
use voodoo_store.Engine.Transaction.{Transaction, put_internal, delete_internal}
use voodoo_store.Engine.Commit.{transact, transact_from, put_internal_key, delete_internal_key}
use voodoo_store.Queue.Message.{
  QueueState, ready, leased, dead, QueueError, store, id_exhausted, attempt_exhausted,
  count_overflow, time_overflow, invalid_encoding, not_found, StoredMessage, encode_message,
  decode_message, Queue, message_key, validate_lease,
}
use voodoo_store.Queue.Claim.{Candidate, select}

pub record PushOptions : Type 0 where
  pub available_at_ms : ℤ
  pub priority : ℤ

abbrev pub default_push : PushOptions
default_push = record { available_at_ms = pos 0; priority = pos 0 }

pub record QueueMessage : Type 0 where
  pub id : ℕ
  pub payload : Bytes
  pub attempts : ℕ
  pub priority : ℤ
  pub available_at_ms : ℤ
  pub lease_until_ms : ℤ
  pub lease_generation : ℕ

unfoldable pub next_id : Queue → State → Result QueueError ℕ
next_id q state = elim (get state q.meta_key) [
  | none ↦ ok 1
  | some value ↦ if length value == 8 then ok (from_le_bytes value) else err invalid_encoding
]

unfoldable pub load_message : Bytes → State → Result QueueError (Option StoredMessage)
load_message key state = elim (get state key) [
  | none ↦ ok none
  | some value ↦ elim (decode_message value) [ ok m ↦ ok (some m) | err error ↦ err error ]
]

abbrev pub checked : ℕ → StoredMessage → Result QueueError StoredMessage
checked lease_generation m = elim (validate_lease m lease_generation) [
  | ok _ ↦ ok m
  | err error ↦ err error
]

-- `self.load_message(&key)?.ok_or(QueueError::NotFound(id))?`, then `validate_lease`.
unfoldable pub load_leased : Queue → ℕ → ℕ → State → Result QueueError StoredMessage
unfolding load_message
load_leased q id lease_generation state = elim (load_message (message_key q id) state) [
  | err error ↦ err error
  | ok none ↦ err (not_found id)
  | ok (some m) ↦ checked lease_generation m
]

-- The message that `push_with_options` stores.
abbrev pub pushed : ℕ → Bytes → PushOptions → StoredMessage
pushed id payload options = record {
  state = ready;
  id = id;
  payload = payload;
  attempts = 0;
  priority = options.priority;
  available_at_ms = options.available_at_ms;
  lease_until_ms = pos 0;
}

abbrev pub as_leased : StoredMessage → ℕ → ℤ → StoredMessage
as_leased m attempts lease_until_ms = record m {
  state = leased;
  attempts = attempts;
  lease_until_ms = lease_until_ms;
}

abbrev pub as_ready : ℤ → StoredMessage → StoredMessage
as_ready available_at_ms m = record m {
  state = ready;
  available_at_ms = available_at_ms;
  lease_until_ms = pos 0;
}

abbrev pub as_dead : StoredMessage → StoredMessage
as_dead m = record m { state = dead; lease_until_ms = pos 0 }

-- What the worker receives.
abbrev pub delivered : StoredMessage → QueueMessage
delivered m = record {
  id = m.id;
  payload = m.payload;
  attempts = m.attempts;
  priority = m.priority;
  available_at_ms = m.available_at_ms;
  lease_until_ms = m.lease_until_ms;
  lease_generation = m.attempts;
}

unfoldable pub dead_keys : State → Result QueueError (List Bytes)
dead_keys [] = ok []
dead_keys ((key, value) ∷ entries) =
    let rest = dead_keys entries in
    elim (decode_message value) [
      | err error ↦ err error
      | ok m ↦ elim rest [
        | err error ↦ err error
        | ok keys ↦ ok (elim m.state [ ready ↦ keys | leased ↦ keys | dead ↦ key ∷ keys ])
      ]
    ]

module _ ⦃d : Platform⦄ where
  -- `tx.put_internal(key, encode_message(&message)?)?`
  abbrev pub put_message : Bytes → StoredMessage → Exec Transaction QueueError (Unit {0})
  put_message key m = do value ← lift (encode_message m); map_error store (put_internal key value)

  unfoldable pub push_with_options : Queue → Bytes → PushOptions → Exec Store QueueError ℕ
  push_with_options q payload options = do
    current ← gets (λ s. next_id q s.state)
    id ← lift current
    next ← lift (ok_or (checked_add id 1) id_exhausted)
    transact_from store true (
        map_error store (put_internal q.meta_key (to_le_bytes 8 next))
        >> put_message (message_key q id) (pushed id payload options))
    pure id

  unfoldable pub push : Queue → Bytes → Exec Store QueueError ℕ
  push q payload = push_with_options q payload default_push

  unfoldable pub push_at : Queue → Bytes → ℤ → Exec Store QueueError ℕ
  push_at q payload available_at_ms =
      push_with_options q payload (record default_push { available_at_ms = available_at_ms })

  -- `self.store.put_internal(key, encode_message(&message)?)?`
  abbrev pub save_message : Bytes → StoredMessage → Exec Store QueueError (Unit {0})
  save_message key m = do
    value ← lift (encode_message m)
    map_error store (put_internal_key key value)

  unfoldable pub lease_candidate : ℤ → Candidate → Exec Store QueueError (Option QueueMessage)
  lease_candidate lease_until_ms none = pure none
  lease_candidate lease_until_ms (some (key, m)) = do
    attempts ← lift (ok_or (checked_add_u32 m.attempts 1) attempt_exhausted)
    let claimed = as_leased m attempts lease_until_ms
    save_message key claimed
    modify record_queue_claim
    pure (some (delivered claimed))

  unfoldable pub claim : Queue → ℤ → ℕ → Exec Store QueueError (Option QueueMessage)
  unfolding lease_candidate
  claim q now_ms lease_duration_ms = do
    lease_duration ← lift (ok_or (to_i64 lease_duration_ms) time_overflow)
    lease_until_ms ← lift (ok_or (checked_add_i64 now_ms lease_duration) time_overflow)
    selected ← gets (λ s. select now_ms (scan_prefix s.state q.message_prefix) none)
    candidate ← lift selected
    lease_candidate lease_until_ms candidate

  unfoldable pub ack : Queue → ℕ → ℕ → Exec Store QueueError (Unit {0})
  ack q id lease_generation = do
    loaded ← gets (λ s. load_leased q id lease_generation s.state)
    m ← lift loaded
    map_error store (delete_internal_key (message_key q id))
    modify record_queue_ack

  unfoldable pub nack : Queue → ℕ → ℕ → ℤ → Exec Store QueueError (Unit {0})
  nack q id lease_generation available_at_ms = do
    loaded ← gets (λ s. load_leased q id lease_generation s.state)
    m ← lift loaded
    save_message (message_key q id) (as_ready available_at_ms m)

  unfoldable pub dead_letter : Queue → ℕ → ℕ → Exec Store QueueError (Unit {0})
  dead_letter q id lease_generation = do
    loaded ← gets (λ s. load_leased q id lease_generation s.state)
    m ← lift loaded
    save_message (message_key q id) (as_dead m)

  unfoldable pub delete_keys : List Bytes → Exec Transaction EngineError (Unit {0})
  delete_keys [] = pure tt
  delete_keys (key ∷ keys) = delete_internal key >> delete_keys keys

  abbrev purge_keys : List Bytes → Exec Store QueueError ℕ
  purge_keys [] = pure 0
  purge_keys (key ∷ keys) = do
    map_error store (transact true (delete_keys (key ∷ keys)))
    pure (length (key ∷ keys))

  -- The count of keys fits u64.
  unfoldable pub purge_dead : Queue → Exec Store QueueError ℕ
  purge_dead q = do
    found ← gets (λ s. dead_keys (scan_prefix s.state q.message_prefix))
    keys ← lift found
    purge_keys keys
