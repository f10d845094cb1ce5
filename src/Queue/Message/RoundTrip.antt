-- ===== src/Queue/Message/RoundTrip.antt =====
-- queue.rs: a message that was encoded is decoded.
use voodoo_store.Prelude.{ℕ, ◌+◌, ◌^◌, ◌<◌, ◌≡◌, refl, ◌++◌, length, drop, arith, eqb_refl, lt→ltb}
use voodoo_store.Result.{ok, ◌>>=◌}
use voodoo_store.Bytes.{Bytes, to_le_bytes, slice, from_le_bytes-to_le_bytes}
use voodoo_store.Bytes.Words.{to_bits, i64_half, i32_half, Fits, to_bits-lt, from_bits-to_bits}
use voodoo_store.Queue.Message.{
  QueueState, ready, leased, dead, StoredMessage, state_byte, state_of_byte, fixed, encode_message,
  decode_message, message_version, fixed_len,
}
use voodoo_store.Log.{byte_at}

-- The machine widths of a message's fields.
pub record FitsMessage (m : StoredMessage) : Type 0 where
  pub id : m.id < 2 ^ 64
  pub attempts : m.attempts < 2 ^ 32
  pub priority : Fits i32_half m.priority
  pub available_at_ms : Fits i64_half m.available_at_ms
  pub lease_until_ms : Fits i64_half m.lease_until_ms
  pub payload : length m.payload < 2 ^ 32

state_of_byte-state_byte : (st : QueueState) → state_of_byte (state_byte st) ≡ ok st
unfolding state_of_byte
state_of_byte-state_byte ready = refl
state_of_byte-state_byte leased = refl
state_of_byte-state_byte dead = refl

length-encoded :
    (m : StoredMessage) (n : ℕ) → length (fixed m n ++ m.payload) ≡ 38 + length m.payload
unfolding fixed to_le_bytes
length-encoded m n = omega arith

module _ (m : StoredMessage) (n : ℕ) where
  abbrev bytes : Bytes
  bytes = fixed m n ++ m.payload

  version-encoded : byte_at bytes 0 ≡ message_version
  unfolding fixed
  version-encoded = refl

  state-encoded : byte_at bytes 1 ≡ state_byte m.state
  unfolding fixed
  state-encoded = refl

  id-encoded : slice 2 10 bytes ≡ to_le_bytes 8 m.id
  unfolding fixed slice to_le_bytes
  id-encoded = refl

  attempts-encoded : slice 10 14 bytes ≡ to_le_bytes 4 m.attempts
  unfolding fixed slice to_le_bytes
  attempts-encoded = refl

  priority-encoded : slice 14 18 bytes ≡ to_le_bytes 4 (to_bits i32_half m.priority)
  unfolding fixed slice to_le_bytes
  priority-encoded = refl

  available-encoded : slice 18 26 bytes ≡ to_le_bytes 8 (to_bits i64_half m.available_at_ms)
  unfolding fixed slice to_le_bytes
  available-encoded = refl

  lease-encoded : slice 26 34 bytes ≡ to_le_bytes 8 (to_bits i64_half m.lease_until_ms)
  unfolding fixed slice to_le_bytes
  lease-encoded = refl

  len-encoded : slice 34 38 bytes ≡ to_le_bytes 4 n
  unfolding fixed slice to_le_bytes
  len-encoded = refl

  payload-encoded : drop fixed_len bytes ≡ m.payload
  unfolding fixed to_le_bytes
  payload-encoded = refl

decode_message-parts :
    (m : StoredMessage)
    → FitsMessage m
    → decode_message (fixed m (length m.payload) ++ m.payload) ≡ ok m
unfolding decode_message
decode_message-parts m f =
    let n = length m.payload in
    rw
      (
        length-encoded m n,
        version-encoded m n,
        state-encoded m n,
        state_of_byte-state_byte m.state,
        len-encoded m n,
        from_le_bytes-to_le_bytes 4 n f.payload,
        eqb_refl (38 + n),
        id-encoded m n,
        from_le_bytes-to_le_bytes 8 m.id f.id,
        attempts-encoded m n,
        from_le_bytes-to_le_bytes 4 m.attempts f.attempts,
        priority-encoded m n,
        from_le_bytes-to_le_bytes 4 (to_bits i32_half m.priority)
            (to_bits-lt i32_half m.priority f.priority),
        from_bits-to_bits i32_half m.priority f.priority,
        available-encoded m n,
        from_le_bytes-to_le_bytes 8 (to_bits i64_half m.available_at_ms)
            (to_bits-lt i64_half m.available_at_ms f.available_at_ms),
        from_bits-to_bits i64_half m.available_at_ms f.available_at_ms,
        lease-encoded m n,
        from_le_bytes-to_le_bytes 8 (to_bits i64_half m.lease_until_ms)
            (to_bits-lt i64_half m.lease_until_ms f.lease_until_ms),
        from_bits-to_bits i64_half m.lease_until_ms f.lease_until_ms,
        payload-encoded m n,
      )
      (ground arith)

-- A message whose fields fit their machine types, with a payload that u32 can count, is encoded, and
-- decoding the bytes gives the message.
pub decode_message-encode_message :
    (m : StoredMessage) → FitsMessage m → (encode_message m >>= decode_message) ≡ ok m
unfolding encode_message
decode_message-encode_message m f =
    rw (lt→ltb (length m.payload) (2 ^ 32) f.payload) (decode_message-parts m f)
