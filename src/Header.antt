-- ===== src/Header.antt =====
-- crates/voodoo-store-core/src/header.rs: the 64-byte header of every store file. The array
-- `[u8; 64]` that `encode` fills is the concatenation of what is copied into it, in order, with the
-- zeros that it leaves.
pub mod RoundTrip
use voodoo_store.Prelude.{
  ℕ, ◌+◌, Bool, true, false, not, List, [], ◌∷◌, ◌++◌, length, ltb, ◌==◌, if◌then◌else◌,
}
use voodoo_store.Prelude.Int.{ℤ}
use voodoo_store.Result.{Result, ok, err, ◌>>=◌, ◌>>◌, fail_if}
use voodoo_store.Bytes.{Bytes, to_le_bytes, from_le_bytes, slice, bytes_eq}
use voodoo_store.Bytes.Words.{to_bits, from_bits, i64_half}
use voodoo_store.Platform.{Platform}

-- b"VSTORE01"
abbrev pub store_magic : Bytes
store_magic = b'V' ∷ b'S' ∷ b'T' ∷ b'O' ∷ b'R' ∷ b'E' ∷ b'0' ∷ b'1' ∷ []

abbrev pub format_major : ℕ
format_major = 1

abbrev pub format_minor : ℕ
format_minor = 0

abbrev pub store_header_len : ℕ
store_header_len = 64

abbrev pub checksum_offset : ℕ
checksum_offset = 60

pub record StoreHeader : Type 0 where
  pub format_major : ℕ
  pub format_minor : ℕ
  pub store_id : Bytes
  pub created_at_ms : ℤ
  pub feature_flags : ℕ

pub data HeaderError : Type 0 where
  truncated invalid_magic : HeaderError
  unsupported_major : ℕ → ℕ → HeaderError
  checksum_mismatch : ℕ → ℕ → HeaderError

-- `StoreHeader::new`
unfoldable pub new : Bytes → ℤ → StoreHeader
new store_id created_at_ms = record {
  format_major = format_major;
  format_minor = format_minor;
  store_id = store_id;
  created_at_ms = created_at_ms;
  feature_flags = 0;
}

-- Bytes 44..60, which no field uses.
abbrev pub reserved : Bytes
reserved = 0 ∷ 0 ∷ 0 ∷ 0 ∷ 0 ∷ 0 ∷ 0 ∷ 0 ∷ 0 ∷ 0 ∷ 0 ∷ 0 ∷ 0 ∷ 0 ∷ 0 ∷ 0 ∷ []

-- `out[..CHECKSUM_OFFSET]`
unfoldable pub body : StoreHeader → Bytes
body h =
    store_magic
    ++ (to_le_bytes 2 h.format_major
        ++ (to_le_bytes 2 h.format_minor
            ++ (h.store_id
                ++ (to_le_bytes 8 (to_bits i64_half h.created_at_ms)
                    ++ (to_le_bytes 8 h.feature_flags ++ reserved)))))

module _ ⦃d : Platform⦄ where
  unfoldable pub encode : StoreHeader → Bytes
  encode h = body h ++ to_le_bytes 4 (d.crc32 (body h))

  unfoldable pub decode : Bytes → Result HeaderError StoreHeader
  decode bytes = do
    fail_if (ltb (length bytes) store_header_len) truncated
    fail_if (not (bytes_eq (slice 0 8 bytes) store_magic)) invalid_magic
    let expected = from_le_bytes (slice checksum_offset store_header_len bytes)
    let actual = d.crc32 (slice 0 checksum_offset bytes)
    fail_if (not (expected == actual)) (checksum_mismatch expected actual)
    let major = from_le_bytes (slice 8 10 bytes)
    let minor = from_le_bytes (slice 10 12 bytes)
    fail_if (not (major == format_major)) (unsupported_major major format_major)
    ok (record {
      format_major = major;
      format_minor = minor;
      store_id = slice 12 28 bytes;
      created_at_ms = from_bits i64_half (from_le_bytes (slice 28 36 bytes));
      feature_flags = from_le_bytes (slice 36 44 bytes);
    })
