-- ===== src/Jobs/Fields/RoundTrip.antt =====
-- jobs.rs: what `append_len` wrote is read back by `read_len`, wherever it stands.
use mathlib.Core.List.{append_assoc}
use voodoo_store.Prelude.{
  ℕ, ◌+◌, ◌^◌, ◌<◌, ◌≡◌, refl, sym, ap, ◌∙◌, ◌++◌, length, arith, lt→ltb, le→ltb, length-append,
}
use voodoo_store.Result.{ok}
use voodoo_store.Bytes.{
  Bytes, to_le_bytes, slice, slice-append, length-to_le_bytes, from_le_bytes-to_le_bytes,
}
use voodoo_store.Jobs.Fields.{append_len, read_len}

-- A field with its length.
abbrev pub chunk : Bytes → Bytes
chunk field = to_le_bytes 4 (length field) ++ field

pub length-chunk : (field : Bytes) → length (chunk field) ≡ 4 + length field
length-chunk field =
    length-append (to_le_bytes 4 (length field)) field
    ∙ ap (λ n. n + length field) (length-to_le_bytes 4 (length field))

pub append_len_lem : (field : Bytes) → length field < 2 ^ 32 → append_len field ≡ ok (chunk field)
unfolding append_len
append_len_lem field h = rw (lt→ltb (length field) (2 ^ 32) h) refl

module _ (read field left : Bytes) (cursor : ℕ) (at : cursor ≡ length read) where
  len_read :
      slice cursor (cursor + 4) (read ++ (chunk field ++ left)) ≡ to_le_bytes 4 (length field)
  len_read =
      ap (λ bs. slice cursor (cursor + 4) (read ++ bs))
        (append_assoc (to_le_bytes 4 (length field)) field left)
      ∙ slice-append read (to_le_bytes 4 (length field)) (field ++ left) cursor (cursor + 4) at
          (omega (arith, at, length-to_le_bytes 4 (length field)))

  field_read :
      slice (cursor + 4) (cursor + 4 + length field) (read ++ (chunk field ++ left)) ≡ field
  field_read =
      let shift =
        ap (λ bs. read ++ bs) (append_assoc (to_le_bytes 4 (length field)) field left)
        ∙ sym (append_assoc read (to_le_bytes 4 (length field)) (field ++ left)) in
      let size =
        length-append read (to_le_bytes 4 (length field))
        ∙ ap (λ n. length read + n) (length-to_le_bytes 4 (length field)) in
      ap (slice (cursor + 4) (cursor + 4 + length field)) shift
      ∙ slice-append (read ++ to_le_bytes 4 (length field)) field left (cursor + 4)
          (cursor + 4 + length field) (omega (arith, at, size)) (omega (arith, at, size))

  length-read :
      length (read ++ (chunk field ++ left)) ≡ length read + (4 + length field + length left)
  length-read =
      length-append read (chunk field ++ left)
      ∙ ap (λ n. length read + n)
          (length-append (chunk field) left ∙ ap (λ n. n + length left) (length-chunk field))

  pub read_len-chunk :
      length field < 2 ^ 32
      → length (read ++ (chunk field ++ left)) < 2 ^ 64
      → read_len (read ++ (chunk field ++ left)) cursor ≡ ok (field, cursor + 4 + length field)
  unfolding read_len
  read_len-chunk small total =
      rw
        (
          le→ltb (length (read ++ (chunk field ++ left))) (cursor + 4)
              (omega (arith, at, length-read)),
          len_read,
          from_le_bytes-to_le_bytes 4 (length field) small,
          lt→ltb (cursor + 4 + length field) (2 ^ 64) (omega (arith, at, length-read, total)),
          le→ltb (length (read ++ (chunk field ++ left))) (cursor + 4 + length field)
              (omega (arith, at, length-read)),
          field_read,
        )
        refl
