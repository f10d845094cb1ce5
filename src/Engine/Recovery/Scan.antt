-- ===== src/Engine/Recovery/Scan.antt =====
-- `recover` walks over the bytes of a log exactly as a fold over its records does.
use mathlib.Core.List.{append_assoc}
use voodoo_store.Prelude.{
  ℕ, zero, suc, ◌+◌, ◌<◌, ◌≡◌, refl, sym, ap, ◌∙◌, none, some, List, [], ◌∷◌, ◌++◌, length, take,
  arith, length-append, take-append, drop-append,
}
use voodoo_store.Result.{Result, ok, ◌>>=◌, bind_assoc_ext}
use voodoo_store.Bytes.{Bytes, to_le_bytes}
use voodoo_store.Platform.{Platform}
use voodoo_store.Log.{LogRecord, frame, encoded_record_len_from_prefix}
use voodoo_store.Log.RoundTrip.{
  FitsRecord, record_bytes, length-record_bytes, record_len_from_frame, decode-record_bytes,
}
use voodoo_store.Engine.Payload.{EngineError}
use voodoo_store.Engine.Recovery.{
  Replayed, replay_record, next_record, replay_bytes, scan, recover, finish, start,
}

-- The fold of the loop's body over decoded records.
unfoldable pub replay : Replayed → List LogRecord → Result EngineError Replayed
replay r [] = ok r
replay r (entry ∷ entries) = replay_record r entry >>= λ r'. replay r' entries

abbrev pub AllFit : List LogRecord → Type 0
AllFit [] = Unit {0}
AllFit (entry ∷ entries) = FitsRecord entry × AllFit entries

module _ ⦃d : Platform⦄ where
  abbrev pub log_bytes : List LogRecord → Bytes
  log_bytes [] = []
  log_bytes (entry ∷ entries) = record_bytes entry ++ log_bytes entries

  pub record_len_from_record :
      (entry : LogRecord) (rest : Bytes)
      → FitsRecord entry
      → encoded_record_len_from_prefix (record_bytes entry ++ rest)
        ≡ ok (length (record_bytes entry))
  unfolding record_bytes
  record_len_from_record entry rest f =
      rw (append_assoc (frame entry) (to_le_bytes 4 (d.crc32 (frame entry))) rest)
        (record_len_from_frame entry _ f.payload ∙ ap ok (sym (length-record_bytes entry)))

  pub next_record_lem :
      (entry : LogRecord) (rest : Bytes)
      → FitsRecord entry
      → next_record (record_bytes entry ++ rest) ≡ ok (some (length (record_bytes entry)))
  unfolding next_record
  next_record_lem entry rest f = ground (
    arith,
    record_len_from_record entry rest f,
    length-append (record_bytes entry) rest,
    length-record_bytes entry,
  )

  replay_bytes_lem :
      (r : Replayed) (entry : LogRecord) (rest : Bytes)
      → FitsRecord entry
      → replay_bytes r (take (length (record_bytes entry)) (record_bytes entry ++ rest))
        ≡ replay_record r entry
  unfolding replay_bytes
  replay_bytes_lem r entry rest f = rw (
    take-append (record_bytes entry) rest (length (record_bytes entry)) refl,
    decode-record_bytes entry f,
  )

  scan_tail :
      (fuel : ℕ) (done tail : Bytes) (offset : ℕ) (r : Replayed)
      → next_record tail ≡ ok none
      → offset ≡ length done
      → scan fuel (done ++ tail) offset r ≡ ok (r, offset)
  unfolding scan
  scan_tail zero done tail offset r h e = refl
  scan_tail (suc fuel) done tail offset r h e = ground (arith, h, drop-append done tail offset e)

  -- One round of the loop, at a whole record.
  scan_step :
      (fuel : ℕ) (done : Bytes) (entry : LogRecord) (rest : Bytes) (offset : ℕ) (r : Replayed)
      → FitsRecord entry
      → offset ≡ length done
      → scan (suc fuel) (done ++ (record_bytes entry ++ rest)) offset r ≡ (
          replay_record r entry
          >>= scan fuel
              (done ++ (record_bytes entry ++ rest))
              (offset + length (record_bytes entry)))
  unfolding scan
  scan_step fuel done entry rest offset r f e = ground (
    arith,
    length-append done (record_bytes entry ++ rest),
    length-append (record_bytes entry) rest,
    length-record_bytes entry,
    drop-append done (record_bytes entry ++ rest) offset e,
    next_record_lem entry rest f,
    replay_bytes_lem r entry rest f,
  )

  scan_records :
      (fuel : ℕ) (done : Bytes) (entries : List LogRecord) (tail : Bytes) (offset : ℕ)
      (r : Replayed)
      → next_record tail ≡ ok none
      → AllFit entries
      → offset ≡ length done
      → length (log_bytes entries) < fuel
      → scan fuel (done ++ (log_bytes entries ++ tail)) offset r
        ≡ (replay r entries >>= λ r'. ok (r', offset + length (log_bytes entries)))
  unfolding replay
  scan_records fuel done [] tail offset r h f e m =
      scan_tail fuel done tail offset r h e ∙ ap (λ n. ok (r, n)) (omega arith)
  scan_records (suc fuel) done (entry ∷ entries) tail offset r h f e m =
      let bytes = record_bytes entry in
      let rest = log_bytes entries ++ tail in
      rw
        (
          append_assoc bytes (log_bytes entries) tail,
          scan_step fuel done entry rest offset r f.0 e,
          ← append_assoc done bytes rest,
        )
        (bind_assoc_ext (replay_record r entry) (λ r'. replay r' entries) _ _
          (λ r'.
            scan_records fuel (done ++ bytes) entries tail (offset + length bytes) r' h f.1
              (omega (arith, length-append done bytes))
              (omega (arith, length-append bytes (log_bytes entries), length-record_bytes entry))
            ∙ ap (λ n. replay r' entries >>= λ r''. ok (r'', n))
                (omega (arith, length-append bytes (log_bytes entries)))))
  scan_records zero done (entry ∷ entries) tail offset r h f e m = absurd (omega arith)

  -- `recover` on a file of a header, whole records and a torn tail.
  pub recover_log :
      (header_bytes : Bytes) (entries : List LogRecord) (tail : Bytes)
      → length header_bytes ≡ 64
      → next_record tail ≡ ok none
      → AllFit entries
      → recover (header_bytes ++ (log_bytes entries ++ tail))
        ≡ (replay start entries >>= λ r. ok (finish (r, length (log_bytes entries))))
  unfolding recover
  recover_log header_bytes entries tail h t f =
      rw
        (
          drop-append header_bytes (log_bytes entries ++ tail) 64 (sym h),
          scan_records (suc (length (log_bytes entries ++ tail))) [] entries tail 0 start t f refl
              (omega (arith, length-append (log_bytes entries) tail)),
        )
        (sym (
          bind_assoc_ext (replay start entries) _ _ _
            (λ r. ap (λ n. ok (finish (r, n))) (omega arith))))
