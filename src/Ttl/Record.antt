-- ===== src/Ttl/Record.antt =====
-- ttl.rs: the metadata of a key, and its encoding.
use voodoo_store.Prelude.{
  ℕ, ◌+◌, Bool, false, not, ◌||◌, [], ◌∷◌, ◌++◌, length, take, drop, ◌==◌, ltb,
}
use voodoo_store.Prelude.Int.{ℤ, leb_ℤ}
use voodoo_store.Result.{Result, ok, ok_or, fail_if, ◌>>=◌, ◌>>◌}
use voodoo_store.Bytes.{Bytes, to_le_bytes, from_le_bytes, to_be_bytes, from_be_bytes, starts_with}
use voodoo_store.Bytes.Words.{to_u32, i64_half, to_bits, from_bits}
use voodoo_store.Engine.Payload.{EngineError}

-- b"\xffvds:ttl:"
abbrev pub ttl_prefix : Bytes
ttl_prefix = 0xff ∷ b'v' ∷ b'd' ∷ b's' ∷ b':' ∷ b't' ∷ b't' ∷ b'l' ∷ b':' ∷ []

pub record TtlInfo : Type 0 where
  pub expires_at_ms : ℤ

unfoldable pub is_expired : TtlInfo → ℤ → Bool
is_expired ttl now_ms = leb_ℤ ttl.expires_at_ms now_ms

pub record TtlSweepReport : Type 0 where
  pub scanned : ℕ
  pub expired : ℕ
  pub removed : ℕ

pub data TtlError : Type 0 where
  store : EngineError → TtlError
  key_too_large corrupt_metadata : TtlError

unfoldable pub ttl_key : Bytes → Result TtlError Bytes
ttl_key key = do
  key_len ← ok_or (to_u32 (length key)) key_too_large
  ok (ttl_prefix ++ (to_be_bytes 4 key_len ++ key))

unfoldable pub decode_ttl_key : Bytes → Result TtlError Bytes
decode_ttl_key encoded = do
  fail_if (not (starts_with encoded ttl_prefix)) corrupt_metadata
  let rest = drop (length ttl_prefix) encoded
  fail_if (ltb (length rest) 4) corrupt_metadata
  let key_len = from_be_bytes (take 4 rest)
  fail_if (not (length rest == 4 + key_len)) corrupt_metadata
  ok (drop 4 rest)

-- The version of the value is 1.
unfoldable pub encode_ttl : TtlInfo → Bytes
encode_ttl ttl = 1 ∷ to_le_bytes 8 (to_bits i64_half ttl.expires_at_ms)

-- The first byte, of a value that has one.
abbrev has_version : Bytes → Bool
has_version [] = false
has_version (b ∷ bs) = b == 1

unfoldable pub decode_ttl : Bytes → Result TtlError TtlInfo
decode_ttl encoded = do
  fail_if (not (length encoded == 9) || not (has_version encoded)) corrupt_metadata
  ok (record { expires_at_ms = from_bits i64_half (from_le_bytes (drop 1 encoded)) })
