-- ===== src/Jobs/History/RoundTrip.antt =====
-- jobs.rs: an entry of a history that was encoded is decoded.
use mathlib.Core.List.{append-nil}
use voodoo_store.Prelude.{
  ℕ, ◌+◌, ◌^◌, ◌<◌, ◌≡◌, refl, sym, ap, subst, ◌∙◌, [], ◌∷◌, ◌++◌, length, arith, le→ltb,
  length-append, eqb_refl,
}
use voodoo_store.Result.{ok, ◌>>=◌}
use voodoo_store.Bytes.{Bytes, to_le_bytes, slice, from_le_bytes-to_le_bytes}
use voodoo_store.Bytes.Words.{Fits, to_bits, i64_half, to_bits-lt, from_bits-to_bits}
use voodoo_store.Log.{byte_at}
use voodoo_store.Jobs.Fields.{version, read_len}
use voodoo_store.Jobs.Fields.RoundTrip.{chunk, length-chunk, append_len_lem, read_len-chunk}
use voodoo_store.Jobs.History.{
  JobHistoryKind, submitted, claimed, completed, retry_scheduled, dead, cancelled, JobHistoryEntry,
  kind_byte, kind_of_byte, encode_history, decode_history,
}

pub record FitsEntry (entry : JobHistoryEntry) : Type 0 where
  pub sequence : entry.sequence < 2 ^ 64
  pub at_ms : Fits i64_half entry.at_ms
  pub detail : length entry.detail < 2 ^ 32

kind_of_byte-kind_byte : (kind : JobHistoryKind) → kind_of_byte (kind_byte kind) ≡ ok kind
unfolding kind_of_byte
kind_of_byte-kind_byte submitted = refl
kind_of_byte-kind_byte claimed = refl
kind_of_byte-kind_byte completed = refl
kind_of_byte-kind_byte retry_scheduled = refl
kind_of_byte-kind_byte dead = refl
kind_of_byte-kind_byte cancelled = refl

module _ (entry : JobHistoryEntry) where
  -- All before the detail.
  unfoldable head : Bytes
  head =
      version
      ∷ (to_le_bytes 8 entry.sequence
          ++ (to_le_bytes 8 (to_bits i64_half entry.at_ms) ++ kind_byte entry.kind ∷ []))

  length-head : length head ≡ 18
  unfolding head to_le_bytes
  length-head = refl

  version_at : byte_at (head ++ chunk entry.detail) 0 ≡ version
  unfolding head
  version_at = refl

  kind_at : byte_at (head ++ chunk entry.detail) 17 ≡ kind_byte entry.kind
  unfolding head to_le_bytes
  kind_at = refl

  sequence_at : slice 1 9 (head ++ chunk entry.detail) ≡ to_le_bytes 8 entry.sequence
  unfolding head to_le_bytes slice
  sequence_at = refl

  time_at : slice 9 17 (head ++ chunk entry.detail) ≡ to_le_bytes 8 (to_bits i64_half entry.at_ms)
  unfolding head to_le_bytes slice
  time_at = refl

  encode_history-head :
      length entry.detail < 2 ^ 32 → encode_history entry ≡ ok (head ++ chunk entry.detail)
  unfolding encode_history head to_le_bytes
  encode_history-head small = rw (append_len_lem entry.detail small) refl

  length-bytes : length (head ++ chunk entry.detail) ≡ 22 + length entry.detail
  length-bytes =
      omega (arith, length-append head (chunk entry.detail), length-head, length-chunk entry.detail)

  detail_read :
      length entry.detail < 2 ^ 32
      → read_len (head ++ chunk entry.detail) 18
        ≡ ok (entry.detail, length (head ++ chunk entry.detail))
  detail_read small =
      let whole = ap (λ bs. head ++ bs) (append-nil (chunk entry.detail)) in
      ap (λ bs. read_len bs 18) (sym whole)
      ∙ read_len-chunk head entry.detail [] 18 (sym length-head) small
          (subst (λ bs. length bs < 2 ^ 64) (sym whole) (omega (arith, length-bytes)))
      ∙ ap (λ (n : ℕ). ok (entry.detail, n)) (omega (arith, length-bytes))

  decode_history-head : FitsEntry entry → decode_history (head ++ chunk entry.detail) ≡ ok entry
  unfolding decode_history
  decode_history-head f =
      rw
        (
          le→ltb (length (head ++ chunk entry.detail)) 18 (omega (arith, length-bytes)),
          version_at,
          kind_at,
          kind_of_byte-kind_byte entry.kind,
          detail_read f.detail,
          eqb_refl (length (head ++ chunk entry.detail)),
          sequence_at,
          time_at,
          from_le_bytes-to_le_bytes 8 entry.sequence f.sequence,
          from_le_bytes-to_le_bytes 8 (to_bits i64_half entry.at_ms)
              (to_bits-lt i64_half entry.at_ms f.at_ms),
          from_bits-to_bits i64_half entry.at_ms f.at_ms,
        )
        refl

-- An entry of a history whose number and time fit their machine types, with a detail that u32 can
-- count, is encoded, and decoding the bytes gives the entry.
pub decode_history-encode_history :
    (entry : JobHistoryEntry)
    → FitsEntry entry
    → (encode_history entry >>= decode_history) ≡ ok entry
decode_history-encode_history entry f =
    rw (encode_history-head entry f.detail) (decode_history-head entry f)
