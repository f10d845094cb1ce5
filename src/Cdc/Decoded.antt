-- ===== src/Cdc/Decoded.antt =====
-- cdc.rs: the whole decoder on what the encoder wrote.
use voodoo_store.Prelude.{
  ℕ, ◌+◌, ◌^◌, ◌<◌, ◌≡◌, refl, ap, subst, ◌∙◌, not, Option, none, some, [], ◌∷◌, ◌++◌, length,
  arith, ◌==◌, lt→ltb, length-append, ◌≤◌,
}
use mathlib.Core.List.{append_assoc, append-nil}
use voodoo_store.Result.{Result, ok, fail_if, ◌>>=◌}
use voodoo_store.Exec.{gets, lift, pure, continue}
use voodoo_store.Exec
use voodoo_store.Bytes.{Bytes, to_le_bytes, length-to_le_bytes}
use voodoo_store.Cdc.Record.{
  ChangeKind, put, delete, kind_byte, ChangeRecord, encode_value, encode_change, corrupt_record,
  ChangeFeedError,
}
use voodoo_store.Cdc.Cursor.{
  take_u8, take_value, kind_of, take_change, decode_change, take_version, take_kind, end_change,
}
use voodoo_store.Bytes.Cursor.{finished}
use voodoo_store.Bytes.Cursor.Reads.{
  Reads, Ends, Ends-bind, Reads-nothing, take_u8-Reads, take_u32-Reads, take_u64-Reads,
  take_field-Reads, between,
}
use voodoo_store.Cdc.RoundTrip.{some_value-Reads, FitsValue, FitsChange}

kind_of-kind_byte : (k : ChangeKind) → kind_of (kind_byte k) ≡ ok k
unfolding kind_of
kind_of-kind_byte put = refl
kind_of-kind_byte delete = refl

-- The byte before the value, and the value.
abbrev value_tag : ChangeKind → ℕ
value_tag put = 1
value_tag delete = 0

abbrev value_chunk : Option ℕ → Option Bytes → Bytes
value_chunk (some len) (some hash) = to_le_bytes 8 len ++ hash
value_chunk (some len) none = []
value_chunk none hash = []

encode_value_lem :
    (k : ChangeKind) (len : Option ℕ) (hash : Option Bytes)
    → FitsValue k len hash
    → encode_value len hash ≡ ok (value_tag k ∷ value_chunk len hash)
encode_value_lem put (some len) (some hash) f = refl
encode_value_lem put (some len) none f = absurd f
encode_value_lem put none hash f = absurd f
encode_value_lem delete none none f = refl
encode_value_lem delete none (some hash) f = absurd f
encode_value_lem delete (some len) hash f = absurd f

take_value-Reads :
    (k : ChangeKind) (len : Option ℕ) (hash : Option Bytes)
    → FitsValue k len hash
    → Reads (take_value k (value_tag k)) (value_chunk len hash) (len, hash)
unfolding take_value
take_value-Reads put (some len) (some hash) f = some_value-Reads len hash f.0 f.1
take_value-Reads put (some len) none f = absurd f
take_value-Reads put none hash f = absurd f
take_value-Reads delete none none f = Reads-nothing (none, none)
take_value-Reads delete none (some hash) f = absurd f
take_value-Reads delete (some len) hash f = absurd f

length-value_chunk :
    (k : ChangeKind) (len : Option ℕ) (hash : Option Bytes)
    → FitsValue k len hash
    → length (value_chunk len hash) ≤ 40
length-value_chunk put (some len) (some hash) f =
    omega (arith, f.1, length-append (to_le_bytes 8 len) hash, length-to_le_bytes 8 len)
length-value_chunk put (some len) none f = absurd f
length-value_chunk put none hash f = absurd f
length-value_chunk delete none none f = omega arith
length-value_chunk delete none (some hash) f = absurd f
length-value_chunk delete (some len) hash f = absurd f

-- A byte that is tested.
tested-Reads :
    {B : Type 0} (n : ℕ) (test : ℕ → Result ChangeFeedError B) (b : B)
    → test n ≡ ok b
    → Reads (Exec.◌>>=◌ take_u8 (λ x. lift (test x))) (n ∷ []) b
tested-Reads n test b e = record {
  at = λ read left h.
      ap (λ q. continue q.0 (λ x. lift (test x)) q.1)
        ((take_u8-Reads corrupt_record n).at read left h)
      ∙ ap (λ r. (r, between (read ++ n ∷ []) left)) e;
}

take_version-Reads : Reads take_version (1 ∷ []) tt
unfolding take_version
take_version-Reads = tested-Reads 1 (λ n. fail_if (not (n == 1)) corrupt_record) tt refl

take_kind-Reads : (k : ChangeKind) → Reads take_kind (kind_byte k ∷ []) k
unfolding take_kind
take_kind-Reads k = tested-Reads (kind_byte k) kind_of k (kind_of-kind_byte k)

end_change-Ends : (c : ChangeRecord) → Ends (end_change c) [] c
unfolding end_change finished
end_change-Ends c = record {
  at = λ read h.
      let e : length read ≡ length (read ++ []) = omega (arith, length-append read []) in
      ground (arith, e);
}

module _ (c : ChangeRecord) (f : FitsChange c) where
  take_change-Ends :
      Ends take_change
        ((1 ∷ [])
          ++ (to_le_bytes 8 c.tx_id
              ++ (to_le_bytes 4 c.sequence
                  ++ ((kind_byte c.kind ∷ [])
                      ++ ((to_le_bytes 4 (length c.key) ++ c.key)
                          ++ ((value_tag c.kind ∷ [])
                              ++ (value_chunk c.value_len c.value_sha256 ++ [])))))))
        c
  unfolding take_change
  take_change-Ends = Ends-bind _ take_version-Reads (
      Ends-bind _ (take_u64-Reads corrupt_record c.tx_id f.tx_id) (
        Ends-bind _ (take_u32-Reads corrupt_record c.sequence f.sequence) (
          Ends-bind _ (take_kind-Reads c.kind) (
            Ends-bind _ (take_field-Reads corrupt_record c.key f.key) (
              Ends-bind _ (take_u8-Reads corrupt_record (value_tag c.kind)) (
                Ends-bind _ (take_value-Reads c.kind c.value_len c.value_sha256 f.value)
                  (end_change-Ends c)))))))

  bytes : Bytes
  bytes =
      to_le_bytes 8 c.tx_id
      ++ (to_le_bytes 4 c.sequence
          ++ (kind_byte c.kind
              ∷ (to_le_bytes 4 (length c.key)
                  ++ (c.key ++ value_tag c.kind ∷ value_chunk c.value_len c.value_sha256))))

  bytes_short : length bytes + 1 < 2 ^ 64
  unfolding bytes
  bytes_short =
      let value = value_chunk c.value_len c.value_sha256 in
      let field = c.key ++ value_tag c.kind ∷ value in
      let kind = kind_byte c.kind ∷ (to_le_bytes 4 (length c.key) ++ field) in
      omega (
        arith,
        f.key,
        length-value_chunk c.kind c.value_len c.value_sha256 f.value,
        length-append c.key (value_tag c.kind ∷ value),
        length-append (to_le_bytes 4 (length c.key)) field,
        length-append (to_le_bytes 4 c.sequence) kind,
        length-append (to_le_bytes 8 c.tx_id) (to_le_bytes 4 c.sequence ++ kind),
        length-to_le_bytes 4 (length c.key),
        length-to_le_bytes 4 c.sequence,
        length-to_le_bytes 8 c.tx_id,
      )

  take_change-bytes : Ends take_change (1 ∷ bytes) c
  unfolding bytes
  take_change-bytes =
      subst (λ bs. Ends take_change bs c)
        (ap
          (λ bs.
            1 ∷ (to_le_bytes 8 c.tx_id ++ (to_le_bytes 4 c.sequence ++ (kind_byte c.kind ∷ bs))))
          (append_assoc (to_le_bytes 4 (length c.key)) c.key _
            ∙ ap (λ bs. to_le_bytes 4 (length c.key) ++ (c.key ++ value_tag c.kind ∷ bs))
                (append-nil (value_chunk c.value_len c.value_sha256))))
        take_change-Ends

  -- A change record whose fields fit their machine types, with a value exactly if it is a put, is
  -- encoded, and decoding the bytes gives the record.
  pub decode_change-encode_change : (encode_change c >>= decode_change) ≡ ok c
  unfolding encode_change decode_change bytes
  decode_change-encode_change =
      rw
        (
          lt→ltb (length c.key) (2 ^ 32) f.key,
          encode_value_lem c.kind c.value_len c.value_sha256 f.value,
        )
        (take_change-bytes.at [] (omega (arith, bytes_short)))
