-- ===== src/Engine/Recovery/Torn.antt =====
-- A record that was cut off ends the loop of `recover`; it is no error.
use voodoo_store.Prelude.{
  ℕ, ◌≤◌, ◌<◌, ◌≡◌, none, [], length, take, ltb, inl, inr, arith, Bool-cases, length-take, subst,
}
use mathlib.Core.List.{append-nil}
use voodoo_store.Result.{ok}
use voodoo_store.Bytes.{Bytes, slice-take}
use voodoo_store.Platform.{Platform}
use voodoo_store.Log.{LogRecord, encoded_record_len_from_prefix}
use voodoo_store.Log.RoundTrip.{FitsRecord, record_bytes}
use voodoo_store.Engine.Recovery.{next_record}
use voodoo_store.Engine.Recovery.Scan.{record_len_from_record}

record_len-take :
    (n : ℕ) (bs : Bytes)
    → 25 ≤ n
    → n ≤ length bs
    → encoded_record_len_from_prefix (take n bs) ≡ encoded_record_len_from_prefix bs
unfolding encoded_record_len_from_prefix
record_len-take n bs h k = ground (
  arith,
  length-take n bs k,
  slice-take 0 4 n bs (omega arith) (omega arith),
  slice-take 21 25 n bs (omega arith) (omega arith),
)

-- The loop of recovery stops without an error at what is left of a record that was cut off.
pub next_record-torn :
    ⦃d : Platform⦄ (entry : LogRecord) (n : ℕ)
    → FitsRecord entry
    → n < length (record_bytes entry)
    → next_record (take n (record_bytes entry)) ≡ ok none
unfolding next_record
next_record-torn entry n f h = elim (Bool-cases (ltb n 25)) [
  | inl short ↦ ground (arith, length-take n (record_bytes entry))
  | inr long ↦
      ground
        (arith, length-take n (record_bytes entry), record_len-take n (record_bytes entry), whole)
]
  where
    whole : encoded_record_len_from_prefix (record_bytes entry) ≡ ok (length (record_bytes entry))
    whole =
        subst (λ bs. encoded_record_len_from_prefix bs ≡ ok (length (record_bytes entry)))
          (append-nil (record_bytes entry)) (record_len_from_record entry [] f)
