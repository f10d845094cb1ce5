-- ===== src/Log/RoundTrip.antt =====
-- log.rs: encoding a record and decoding it, alone and at the front of a longer log.
use voodoo_store.Prelude.{
  ℕ, ◌+◌, ◌^◌, ◌<◌, ◌≡◌, refl, sym, ◌++◌, length, arith, le→ltb, lt→ltb, eqb_refl, length-append,
  take-append,
}
use voodoo_store.Result.{ok, ◌>>=◌}
use voodoo_store.Bytes.{
  Bytes, to_le_bytes, slice, bytes_eq_refl, from_le_bytes-to_le_bytes, length-to_le_bytes,
  slice_suffix, slice_prefix,
}
use voodoo_store.Platform.{Platform}
use voodoo_store.Log.{
  magic, RecordKind, put, delete, commit, LogRecord, byte_at, kind_byte, kind_of_byte, frame,
  record_len, encoded_record_len_from_prefix, encode, decode, check_record,
}

-- The machine widths of a record's fields.
pub record FitsRecord (r : LogRecord) : Type 0 where
  pub tx_id : r.tx_id < 2 ^ 64
  pub sequence : r.sequence < 2 ^ 64
  pub payload : length r.payload < 2 ^ 32

module _ (r : LogRecord) (rest : Bytes) where
  frame-magic : slice 0 4 (frame r ++ rest) ≡ magic
  unfolding frame slice to_le_bytes
  frame-magic = refl

  frame-kind : byte_at (frame r ++ rest) 4 ≡ kind_byte r.kind
  unfolding frame to_le_bytes
  frame-kind = refl

  frame-tx_id : slice 5 13 (frame r ++ rest) ≡ to_le_bytes 8 r.tx_id
  unfolding frame slice to_le_bytes
  frame-tx_id = refl

  frame-sequence : slice 13 21 (frame r ++ rest) ≡ to_le_bytes 8 r.sequence
  unfolding frame slice to_le_bytes
  frame-sequence = refl

  frame-payload_len : slice 21 25 (frame r ++ rest) ≡ to_le_bytes 4 (length r.payload)
  unfolding frame slice to_le_bytes
  frame-payload_len = refl

  frame-payload : slice 25 (25 + length r.payload) (frame r ++ rest) ≡ r.payload
  unfolding frame slice to_le_bytes
  frame-payload = take-append r.payload rest _ (omega arith)

pub length-frame : (r : LogRecord) → length (frame r) ≡ 25 + length r.payload
unfolding frame to_le_bytes
length-frame r = omega arith

pub kind_of_byte-kind_byte : (k : RecordKind) → kind_of_byte (kind_byte k) ≡ ok k
unfolding kind_of_byte
kind_of_byte-kind_byte put = refl
kind_of_byte-kind_byte delete = refl
kind_of_byte-kind_byte commit = refl

pub record_len_lem : (n : ℕ) → n < 2 ^ 32 → record_len n ≡ ok (29 + n)
unfolding record_len
record_len_lem n h = ground arith

-- The length field of a record, read at the front of a longer log.
pub record_len_from_frame :
    (r : LogRecord) (rest : Bytes)
    → length r.payload < 2 ^ 32
    → encoded_record_len_from_prefix (frame r ++ rest) ≡ ok (29 + length r.payload)
unfolding encoded_record_len_from_prefix
record_len_from_frame r rest h =
    rw
      (
        frame-magic r rest,
        bytes_eq_refl,
        frame-payload_len r rest,
        from_le_bytes-to_le_bytes 4 (length r.payload) h,
        le→ltb (length (frame r ++ rest)) 25
            (omega (arith, length-append (frame r) rest, length-frame r)),
      )
      (record_len_lem (length r.payload) h)

module _ ⦃d : Platform⦄ where
  -- The bytes of a record in the log.
  unfoldable pub record_bytes : LogRecord → Bytes
  record_bytes r = frame r ++ to_le_bytes 4 (d.crc32 (frame r))

  pub length-record_bytes : (r : LogRecord) → length (record_bytes r) ≡ 29 + length r.payload
  unfolding record_bytes
  length-record_bytes r = omega (
    arith,
    length-append (frame r) (to_le_bytes 4 (d.crc32 (frame r))),
    length-to_le_bytes 4 (d.crc32 (frame r)),
    length-frame r,
  )

  pub encode_lem : (r : LogRecord) → length r.payload < 2 ^ 32 → encode r ≡ ok (record_bytes r)
  unfolding encode record_bytes
  encode_lem r h = rw (lt→ltb (length r.payload) (2 ^ 32) h)

  check_record_lem :
      (r : LogRecord)
      → check_record r.kind r.tx_id r.sequence (25 + length r.payload) (record_bytes r) ≡ ok r
  unfolding check_record record_bytes
  check_record_lem r =
      let crc = to_le_bytes 4 (d.crc32 (frame r)) in
      rw (
        slice_suffix (frame r) crc (25 + length r.payload) (25 + length r.payload + 4)
            (sym (length-frame r))
            (omega (arith, length-frame r, length-to_le_bytes 4 (d.crc32 (frame r)))),
        slice_prefix (frame r) crc (25 + length r.payload) (sym (length-frame r)),
        from_le_bytes-to_le_bytes 4 (d.crc32 (frame r)) (d.crc32-lt (frame r)),
        eqb_refl (d.crc32 (frame r)),
        frame-payload r crc,
      )

  pub decode-record_bytes : (r : LogRecord) → FitsRecord r → decode (record_bytes r) ≡ ok r
  unfolding decode record_bytes
  decode-record_bytes r f =
      let crc = to_le_bytes 4 (d.crc32 (frame r)) in
      rw
        (
          le→ltb (length (record_bytes r)) 29 (omega (arith, length-record_bytes r)),
          frame-magic r crc,
          frame-kind r crc,
          frame-tx_id r crc,
          frame-sequence r crc,
          frame-payload_len r crc,
          bytes_eq_refl,
          kind_of_byte-kind_byte,
          from_le_bytes-to_le_bytes 8 r.tx_id f.tx_id,
          from_le_bytes-to_le_bytes 8 r.sequence f.sequence,
          from_le_bytes-to_le_bytes 4 (length r.payload) f.payload,
          record_len_lem (length r.payload) f.payload,
          length-record_bytes r,
          eqb_refl (29 + length r.payload),
        )
        (check_record_lem r)

  -- Encoding a record whose fields fit their machine types succeeds, and decoding gives it back.
  pub decode-encode_record : (r : LogRecord) → FitsRecord r → (encode r >>= decode) ≡ ok r
  decode-encode_record r f = rw (encode_lem r f.payload) (decode-record_bytes r f)
