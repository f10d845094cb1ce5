-- ===== src/Log.antt =====
-- crates/voodoo-store-core/src/log.rs: the checksummed records of the append-only log.
pub mod RoundTrip
use voodoo_store.Prelude.{
  ℕ, zero, suc, ◌+◌, Bool, true, false, not, List, [], ◌∷◌, ◌++◌, length, drop, ltb, ◌==◌,
  if◌then◌else◌,
}
use voodoo_store.Result.{Result, ok, err, ◌>>=◌, ◌>>◌, fail_if, ok_or}
use voodoo_store.Bytes.{Bytes, to_le_bytes, from_le_bytes, slice, bytes_eq}
use voodoo_store.Bytes.Words.{to_u32, checked_add}
use voodoo_store.Platform.{Platform}

-- b"VDS1"
abbrev pub magic : Bytes
magic = b'V' ∷ b'D' ∷ b'S' ∷ b'1' ∷ []

-- 4 + 1 + 8 + 8 + 4
abbrev pub header_len : ℕ
header_len = 25

pub data RecordKind : Type 0 where
  put delete commit : RecordKind

pub data StoreError : Type 0 where
  invalid_magic truncated_record payload_too_large : StoreError
  unknown_record_kind : ℕ → StoreError
  checksum_mismatch : ℕ → ℕ → StoreError

-- `kind as u8`
abbrev pub kind_byte : RecordKind → ℕ
kind_byte put = 1
kind_byte delete = 2
kind_byte commit = 3

-- `RecordKind::try_from`
unfoldable pub kind_of_byte : ℕ → Result StoreError RecordKind
kind_of_byte b =
    if b == 1
    then ok put
    else if b == 2
    then ok delete
    else if b == 3
    then ok commit
    else err (unknown_record_kind b)

pub record LogRecord : Type 0 where
  pub kind : RecordKind
  pub tx_id : ℕ
  pub sequence : ℕ
  pub payload : Bytes

-- `bytes[i]`, for `i < bytes.len()`.
abbrev pub byte_at : Bytes → ℕ → ℕ
byte_at [] i = 0
byte_at (b ∷ bs) zero = b
byte_at (b ∷ bs) (suc i) = byte_at bs i

-- What `encode` writes before the checksum.
unfoldable pub frame : LogRecord → Bytes
frame r =
    magic
    ++ (kind_byte r.kind ∷ []
        ++ (to_le_bytes 8 r.tx_id
            ++ (to_le_bytes 8 r.sequence ++ (to_le_bytes 4 (length r.payload) ++ r.payload))))

-- `HEADER_LEN + payload_len + 4`, checked.
unfoldable pub record_len : ℕ → Result StoreError ℕ
record_len payload_len = do
  len ← ok_or (checked_add header_len payload_len) payload_too_large
  ok_or (checked_add len 4) payload_too_large

-- `encoded_record_len_from_prefix`
unfoldable pub encoded_record_len_from_prefix : Bytes → Result StoreError ℕ
encoded_record_len_from_prefix bytes = do
  fail_if (ltb (length bytes) header_len) truncated_record
  fail_if (not (bytes_eq (slice 0 4 bytes) magic)) invalid_magic
  record_len (from_le_bytes (slice 21 25 bytes))

module _ ⦃d : Platform⦄ where
  unfoldable pub encode : LogRecord → Result StoreError Bytes
  encode r = do
    payload_len ← ok_or (to_u32 (length r.payload)) payload_too_large
    ok (frame r ++ to_le_bytes 4 (d.crc32 (frame r)))

  -- The checksum test of `decode`, and the record that it lets through.
  unfoldable pub check_record : RecordKind → ℕ → ℕ → ℕ → Bytes → Result StoreError LogRecord
  check_record kind tx_id sequence checksum_offset bytes =
      let expected = from_le_bytes (slice checksum_offset (checksum_offset + 4) bytes) in
      let actual = d.crc32 (slice 0 checksum_offset bytes) in
      if not (expected == actual)
      then err (checksum_mismatch expected actual)
      else ok (record {
        kind = kind;
        tx_id = tx_id;
        sequence = sequence;
        payload = slice header_len checksum_offset bytes;
      })

  unfoldable pub decode : Bytes → Result StoreError LogRecord
  decode bytes = do
    fail_if (ltb (length bytes) (header_len + 4)) truncated_record
    fail_if (not (bytes_eq (slice 0 4 bytes) magic)) invalid_magic
    kind ← kind_of_byte (byte_at bytes 4)
    let tx_id = from_le_bytes (slice 5 13 bytes)
    let sequence = from_le_bytes (slice 13 21 bytes)
    let payload_len = from_le_bytes (slice 21 25 bytes)
    expected_len ← record_len payload_len
    fail_if (not (length bytes == expected_len)) truncated_record
    check_record kind tx_id sequence (header_len + payload_len) bytes
