-- ===== src/Queue/Message.antt =====
-- queue.rs: stored messages, their encoding, and the keys of a queue.
pub mod RoundTrip
use voodoo_store.Prelude.{
  ℕ, ◌+◌, Bool, true, false, not, ◌||◌, Option, none, some, List, [], ◌∷◌, ◌++◌, length, drop, ltb,
  ◌==◌, if◌then◌else◌,
}
use voodoo_store.Prelude.Int.{ℤ}
use voodoo_store.Result.{Result, ok, err, ok_or, fail_if, ◌>>=◌, ◌>>◌}
use voodoo_store.Bytes.{Bytes, to_le_bytes, from_le_bytes, to_be_bytes, slice}
use voodoo_store.Bytes.Words.{to_u32, to_bits, from_bits, i64_half, i32_half}
use voodoo_store.Log.{byte_at}
use voodoo_store.Engine.Payload.{EngineError}

-- b"\xffvds:q:"
abbrev pub queue_prefix : Bytes
queue_prefix = 0xff ∷ b'v' ∷ b'd' ∷ b's' ∷ b':' ∷ b'q' ∷ b':' ∷ []

abbrev pub message_version : ℕ
message_version = 1

pub data QueueState : Type 0 where
  ready leased dead : QueueState

pub data QueueError : Type 0 where
  store : EngineError → QueueError
  empty_name name_too_long payload_too_large id_exhausted : QueueError
  attempt_exhausted count_overflow time_overflow invalid_encoding : QueueError
  not_found not_leased : ℕ → QueueError
  lease_mismatch : ℕ → ℕ → ℕ → QueueError

-- `state as u8`, and `QueueState::try_from`.
abbrev pub state_byte : QueueState → ℕ
state_byte ready = 0
state_byte leased = 1
state_byte dead = 2

unfoldable pub state_of_byte : ℕ → Result QueueError QueueState
state_of_byte value =
    if value == 0
    then ok ready
    else if value == 1
    then ok leased
    else if value == 2
    then ok dead
    else err invalid_encoding

pub record StoredMessage : Type 0 where
  pub state : QueueState
  pub id : ℕ
  pub payload : Bytes
  pub attempts : ℕ
  pub priority : ℤ
  pub available_at_ms : ℤ
  pub lease_until_ms : ℤ

-- The head of an encoded message, up to the payload.
unfoldable pub fixed : StoredMessage → ℕ → Bytes
fixed m payload_len =
    message_version
    ∷ state_byte m.state
    ∷ (to_le_bytes 8 m.id
        ++ (to_le_bytes 4 m.attempts
            ++ (to_le_bytes 4 (to_bits i32_half m.priority)
                ++ (to_le_bytes 8 (to_bits i64_half m.available_at_ms)
                    ++ (to_le_bytes 8 (to_bits i64_half m.lease_until_ms)
                        ++ to_le_bytes 4 payload_len)))))

unfoldable pub encode_message : StoredMessage → Result QueueError Bytes
unfolding fixed
encode_message m = do
  payload_len ← ok_or (to_u32 (length m.payload)) payload_too_large
  ok (fixed m payload_len ++ m.payload)

abbrev pub fixed_len : ℕ
fixed_len = 38

unfoldable pub decode_message : Bytes → Result QueueError StoredMessage
unfolding state_of_byte
decode_message bytes = do
  fail_if (ltb (length bytes) fixed_len || not (byte_at bytes 0 == message_version))
      invalid_encoding
  state ← state_of_byte (byte_at bytes 1)
  let payload_len = from_le_bytes (slice 34 38 bytes)
  fail_if (not (length bytes == fixed_len + payload_len)) invalid_encoding
  ok (record {
    state = state;
    id = from_le_bytes (slice 2 10 bytes);
    payload = drop fixed_len bytes;
    attempts = from_le_bytes (slice 10 14 bytes);
    priority = from_bits i32_half (from_le_bytes (slice 14 18 bytes));
    available_at_ms = from_bits i64_half (from_le_bytes (slice 18 26 bytes));
    lease_until_ms = from_bits i64_half (from_le_bytes (slice 26 34 bytes));
  })

-- A handle on a queue: `Queue` without the store that it borrows.
pub record Queue : Type 0 where
  pub name : Bytes
  pub meta_key : Bytes
  pub message_prefix : Bytes

abbrev pub handle : Bytes → ℕ → Queue
handle name name_len =
    let namespace = queue_prefix ++ (to_be_bytes 4 name_len ++ name) in
    record {
      name = name;
      meta_key = namespace ++ b':' ∷ b'n' ∷ b'e' ∷ b'x' ∷ b't' ∷ [];
      message_prefix = namespace ++ b':' ∷ b'm' ∷ b':' ∷ [];
    }

-- `Queue::new`
unfoldable pub new : Bytes → Result QueueError Queue
new [] = err empty_name
new (b ∷ bs) = do
  name_len ← ok_or (to_u32 (length (b ∷ bs))) name_too_long
  ok (handle (b ∷ bs) name_len)

unfoldable pub message_key : Queue → ℕ → Bytes
message_key q id = q.message_prefix ++ to_be_bytes 8 id

unfoldable pub validate_lease : StoredMessage → ℕ → Result QueueError (Unit {0})
validate_lease m lease_generation = elim m.state [
  | leased ↦
      fail_if (not (m.attempts == lease_generation))
        (lease_mismatch m.id m.attempts lease_generation)
  | ready ↦ err (not_leased m.id)
  | dead ↦ err (not_leased m.id)
]
