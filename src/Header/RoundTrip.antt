-- ===== src/Header/RoundTrip.antt =====
-- header.rs: what is encoded is decoded, for every header that a store can hold.
use mathlib.Core.List.{append_assoc}
use voodoo_store.Prelude.{
  ◌^◌, ◌<◌, ◌≡◌, refl, sym, ap, ◌++◌, length, take, arith, if◌then◌else◌, ◌==◌, eqb_refl,
  length-append, take-append, drop-append, drop-append_more,
}
use voodoo_store.Result.{ok, err}
use voodoo_store.Bytes.{
  Bytes, to_le_bytes, slice, bytes_eq_refl, from_le_bytes-to_le_bytes, length-to_le_bytes,
  slice_suffix, slice_prefix,
}
use voodoo_store.Bytes.Words.{to_bits, i64_half, Fits, to_bits-lt, from_bits-to_bits}
use voodoo_store.Platform.{Platform}
use voodoo_store.Header.{
  StoreHeader, store_magic, reserved, body, encode, decode, unsupported_major,
}

-- The machine widths of a header's fields.
pub record FitsHeader (h : StoreHeader) : Type 0 where
  pub major : h.format_major < 2 ^ 16
  pub minor : h.format_minor < 2 ^ 16
  pub store_id : length h.store_id ≡ 16
  pub created_at_ms : Fits i64_half h.created_at_ms
  pub feature_flags : h.feature_flags < 2 ^ 64

-- What stands between the identity and the checksum.
abbrev tail : StoreHeader → Bytes
tail h =
    to_le_bytes 8 (to_bits i64_half h.created_at_ms) ++ (to_le_bytes 8 h.feature_flags ++ reserved)

module _ (h : StoreHeader) (f : FitsHeader h) (rest : Bytes) where
  body-magic : slice 0 8 (body h ++ rest) ≡ store_magic
  unfolding body slice to_le_bytes
  body-magic = refl

  body-major : slice 8 10 (body h ++ rest) ≡ to_le_bytes 2 h.format_major
  unfolding body slice to_le_bytes
  body-major = refl

  body-minor : slice 10 12 (body h ++ rest) ≡ to_le_bytes 2 h.format_minor
  unfolding body slice to_le_bytes
  body-minor = refl

  body-store_id : slice 12 28 (body h ++ rest) ≡ h.store_id
  unfolding body slice to_le_bytes
  body-store_id =
      rw (append_assoc h.store_id (tail h) rest) (take-append h.store_id _ 16 (sym f.store_id))

  body-created_at_ms :
      slice 28 36 (body h ++ rest) ≡ to_le_bytes 8 (to_bits i64_half h.created_at_ms)
  unfolding body slice to_le_bytes
  body-created_at_ms =
      rw (append_assoc h.store_id (tail h) rest)
        (ap (take 8) (drop-append h.store_id (tail h ++ rest) 16 (sym f.store_id)))

  body-feature_flags : slice 36 44 (body h ++ rest) ≡ to_le_bytes 8 h.feature_flags
  unfolding body slice to_le_bytes
  body-feature_flags =
      rw (append_assoc h.store_id (tail h) rest) (
        ap (take 8) (drop-append_more h.store_id (tail h ++ rest) 24 8 (omega (arith, f.store_id))))

  length-body : length (body h) ≡ 60
  unfolding body to_le_bytes
  length-body = omega (
    arith,
    f.store_id,
    length-append h.store_id (
        to_le_bytes 8 (to_bits i64_half h.created_at_ms)
        ++ (to_le_bytes 8 h.feature_flags ++ reserved)),
  )

module _ ⦃d : Platform⦄ (h : StoreHeader) (f : FitsHeader h) where
  abbrev crc : Bytes
  crc = to_le_bytes 4 (d.crc32 (body h))

  pub length-encode : length (encode h) ≡ 64
  unfolding encode
  length-encode = omega (
    arith,
    length-append (body h) crc,
    length-body h f crc,
    length-to_le_bytes 4 (d.crc32 (body h)),
  )

  -- A header that the encoder wrote is read back field by field, unless its major version is not the
  -- one that this engine supports.
  pub decode-encode_header :
      decode (encode h)
      ≡ (if h.format_major == 1 then ok h else err (unsupported_major h.format_major 1))
  unfolding decode encode
  decode-encode_header =
      rw
        (
          length-encode,
          encode,
          body-magic h f crc,
          bytes_eq_refl,
          slice_suffix (body h) crc 60 64 (sym (length-body h f crc))
              (omega (arith, length-body h f crc, length-to_le_bytes 4 (d.crc32 (body h)))),
          slice_prefix (body h) crc 60 (sym (length-body h f crc)),
          from_le_bytes-to_le_bytes 4 (d.crc32 (body h)) (d.crc32-lt (body h)),
          eqb_refl (d.crc32 (body h)),
          body-major h f crc,
          body-minor h f crc,
          body-store_id h f crc,
          body-created_at_ms h f crc,
          body-feature_flags h f crc,
          from_le_bytes-to_le_bytes 2 h.format_major f.major,
          from_le_bytes-to_le_bytes 2 h.format_minor f.minor,
          from_le_bytes-to_le_bytes 8 h.feature_flags f.feature_flags,
          from_le_bytes-to_le_bytes 8 (to_bits i64_half h.created_at_ms)
              (to_bits-lt i64_half h.created_at_ms f.created_at_ms),
          from_bits-to_bits i64_half h.created_at_ms f.created_at_ms,
        )
        (ground arith)
