-- ===== src/Engine/Open/Verify.antt =====
-- engine.rs: `Store::verify`, on the bytes of a file that another process may still be writing.
use voodoo_store.Prelude.{
  ℕ, ◌+◌, ◌≤◌, ◌<◌, ◌≡◌, refl, ap, sym, ◌∙◌, Bool, ◌++◌, length, take, ltb, arith, length-append,
  length-take, take-append, le→ltb, if◌then◌else◌, ◌==◌,
}
use mathlib.Core.List.{append_assoc}
use voodoo_store.Result.{Result, ok, err, ◌>>=◌, ◌>>◌, fail_if, map_err}
use voodoo_store.Bytes.{Bytes}
use voodoo_store.Platform.{Platform}
use voodoo_store.Header.{StoreHeader, store_header_len, unsupported_major}
use voodoo_store.Header
use voodoo_store.Header.RoundTrip.{length-encode, decode-encode_header}
use voodoo_store.Log.{LogRecord}
use voodoo_store.Log.RoundTrip.{FitsRecord, record_bytes}
use voodoo_store.Engine.Payload.{EngineError, io, other}
use voodoo_store.Engine.Payload
use voodoo_store.Engine.Store.{Store}
use voodoo_store.Engine.Recovery.{recover}
use voodoo_store.Engine.Recovery.Scan.{log_bytes}
use voodoo_store.Engine.Recovery.Torn.{next_record-torn}
use voodoo_store.Engine.Durability.Sealing.{HasLog}
use voodoo_store.Engine.Durability.Recovered.{recovery_of, recover_tail, valid_end-recovery_of}

pub record VerificationReport : Type 0 where
  pub header : StoreHeader
  pub file_bytes : ℕ
  pub valid_bytes : ℕ
  pub records : ℕ
  pub committed_transactions : ℕ
  pub pending_transactions : ℕ
  pub keys : ℕ

unfoldable pub has_torn_tail : VerificationReport → Bool
has_torn_tail report = ltb report.valid_bytes report.file_bytes

module _ ⦃d : Platform⦄ where
  -- `read_exact` fails on a file that is shorter than a header.
  unfoldable pub verify : Bytes → Result EngineError VerificationReport
  verify file = do
    fail_if (ltb (length file) store_header_len) (io other)
    found ← map_err Payload.header (Header.decode (take store_header_len file))
    recovery ← recover file
    ok (record {
      header = found;
      file_bytes = length file;
      valid_bytes = recovery.valid_end;
      records = recovery.records;
      committed_transactions = recovery.committed_transactions;
      pending_transactions = recovery.pending_transactions;
      keys = length recovery.state;
    })

  abbrev report_of : (s : Store) (h : HasLog s) → Bytes → VerificationReport
  report_of s h tail =
      let recovery = recovery_of s h in
      record {
        header = s.header;
        file_bytes = length (s.device.bytes ++ tail);
        valid_bytes = recovery.valid_end;
        records = recovery.records;
        committed_transactions = recovery.committed_transactions;
        pending_transactions = recovery.pending_transactions;
        keys = length recovery.state;
      }

  -- What `verify` says of a file that holds the store `s`, with `cut` bytes of a torn record behind it.
  pub record Reports (s : Store) (cut : ℕ) (report : VerificationReport) : Type 0 where
    pub header : report.header ≡ s.header
    pub valid_bytes : report.valid_bytes ≡ length s.device.bytes
    pub file_bytes : report.file_bytes ≡ length s.device.bytes + cut
    pub keys : report.keys ≡ length s.state
    pub torn : has_torn_tail report ≡ ltb 0 cut

  decode_header :
      (s : Store) (h : HasLog s) (tail : Bytes)
      → s.header.format_major ≡ 1
      → Header.decode (take 64 (s.device.bytes ++ tail)) ≡ ok s.header
  decode_header s h tail major =
      let l = h.logged in
      ap (λ bs. Header.decode (take 64 bs))
        (ap (λ bs. bs ++ tail) l.file
          ∙ append_assoc (Header.encode s.header) (log_bytes l.entries) tail)
      ∙ ap Header.decode (
          take-append (Header.encode s.header) (log_bytes l.entries ++ tail) 64
            (sym (length-encode s.header l.header_fits)))
      ∙ decode-encode_header s.header l.header_fits
      ∙ ap (λ (m : ℕ). if m == 1 then ok s.header else err (unsupported_major m 1)) major

  long_enough : (s : Store) (h : HasLog s) (tail : Bytes) → 64 ≤ length (s.device.bytes ++ tail)
  long_enough s h tail = omega (
    arith,
    length-append s.device.bytes tail,
    ap (λ bs. length bs) h.logged.file,
    length-append (Header.encode s.header) (log_bytes h.logged.entries),
    length-encode s.header h.logged.header_fits,
  )

  -- On the file of a store, with or without a record that a crash cut off behind it, `verify` succeeds:
  -- it reports the store's header and number of keys, that the whole records end where the store's file
  -- ended, and a torn tail exactly if a byte of the cut-off record is there.
  pub verify-Reports :
      (s : Store) (entry : LogRecord) (n : ℕ)
      → HasLog s
      → s.header.format_major ≡ 1
      → FitsRecord entry
      → n < length (record_bytes entry)
      → (report : VerificationReport) × (verify (s.device.bytes ++ take n (record_bytes entry))
          ≡ ok report)
        × Reports s n report
  unfolding verify has_torn_tail
  verify-Reports s entry n h major fe lt =
      let tail = take n (record_bytes entry) in
      let size : length (s.device.bytes ++ tail) ≡ length s.device.bytes + n =
        omega (arith, length-append s.device.bytes tail, length-take n (record_bytes entry)) in
      let valid = valid_end-recovery_of s h in
      (
        report_of s h tail,
        rw (
          le→ltb (length (s.device.bytes ++ tail)) 64 (long_enough s h tail),
          decode_header s h tail major,
          recover_tail s tail h (next_record-torn entry n fe lt),
        ),
        record {
          header = refl;
          valid_bytes = valid;
          file_bytes = size;
          keys = ap (λ m. length m) h.logged.state;
          torn = ground (arith, valid, size);
        },
      )
