-- ===== src/Engine/Durability/Append.antt =====
-- `append` writes one whole record, or fails and writes nothing.
use mathlib.Core.List.{append-nil}
use voodoo_store.Prelude.{
  ℕ, suc, ◌+◌, ◌^◌, ◌≤◌, ◌<◌, ◌≡◌, refl, ap, ◌∙◌, ◌⊎◌, inl, inr, List, [], ◌∷◌, ◌++◌, length, take,
  arith, subst,
}
use voodoo_store.Result.{Result, ok, err, ok_or}
use voodoo_store.Exec.{continue_ind}
use voodoo_store.Bytes.{Bytes}
use voodoo_store.Bytes.Words.{checked_add}
use voodoo_store.Platform.{Platform}
use voodoo_store.Log.{RecordKind, LogRecord, payload_too_large}
use voodoo_store.Log
use voodoo_store.Log.RoundTrip.{record_bytes}
use voodoo_store.Engine.Payload.{EngineError, counter_exhausted}
use voodoo_store.Engine.Device.{
  Device, Outcome, done, failed, map_io_error, write_all, write_with, next_outcome, later_outcomes,
  IsSound, WritesAreWhole,
}
use voodoo_store.Engine.Store.{Store, StoreMetrics, append, write_record, check_storage_quota}

-- What no step of a transaction touches.
pub record SameStore (s s' : Store) : Type 0 where
  pub header : s'.header ≡ s.header
  pub options : s'.options ≡ s.options
  pub state : s'.state ≡ s.state
  pub next_tx_id : s'.next_tx_id ≡ s.next_tx_id
  pub sound : IsSound s'.device

pub record IsQuiet (s s' : Store) : Type 0 where
  pub same : SameStore s s'
  pub bytes : s'.device.bytes ≡ s.device.bytes
  pub sequence : s.next_sequence ≤ s'.next_sequence
  pub sequence_fits : s'.next_sequence < 2 ^ 64

module _ ⦃d : Platform⦄ where
  pub record HasWritten (entry : LogRecord) (s s' : Store) : Type 0 where
    pub same : SameStore s s'
    pub bytes : s'.device.bytes ≡ s.device.bytes ++ record_bytes entry
    pub sequence : s'.next_sequence ≡ suc s.next_sequence
    pub sequence_fits : s'.next_sequence < 2 ^ 64
    pub payload_fits : length entry.payload < 2 ^ 32

  abbrev pub AppendPost : LogRecord → Store → Result EngineError (Unit {0}) → Store → Type 0
  AppendPost entry s (ok _) s' = HasWritten entry s s'
  AppendPost entry s (err _) s' = IsQuiet s s'

  pub encode_cases :
      (r : LogRecord)
      → ((Log.encode r ≡ ok (record_bytes r)) × (length r.payload < 2 ^ 32))
        ⊎ (Log.encode r ≡ err payload_too_large)
  unfolding Log.encode record_bytes
  encode_cases r = ground arith

WritePost : Bytes → Device → Result EngineError (Unit {0}) → Device → Type 0
WritePost chunk device (ok _) device' = (device'.bytes ≡ device.bytes ++ chunk) × IsSound device'
WritePost chunk device (err _) device' = (device'.bytes ≡ device.bytes) × IsSound device'

write_with-WritePost :
    (outcomes : List Outcome) (chunk : Bytes) (device : Device)
    → WritesAreWhole outcomes
    → IsSound device
    → let device' = record device { writes = later_outcomes outcomes } in
      WritePost chunk device
        (write_with map_io_error (next_outcome outcomes) chunk device').0
        (write_with map_io_error (next_outcome outcomes) chunk device').1
unfolding WritePost
write_with-WritePost [] chunk device w h = (refl, record { writes = tt; syncs = h.syncs })
write_with-WritePost (done ∷ outcomes) chunk device w h =
    (refl, record { writes = w; syncs = h.syncs })
write_with-WritePost (failed error written ∷ outcomes) chunk device w h = (
  ap (λ n. device.bytes ++ take n chunk) w.0 ∙ append-nil device.bytes,
  record { writes = w.1; syncs = h.syncs },
)

write_all-WritePost :
    (chunk : Bytes) (device : Device)
    → IsSound device
    → WritePost chunk device
        (write_all map_io_error chunk device).0
        (write_all map_io_error chunk device).1
unfolding write_all
write_all-WritePost chunk device h = write_with-WritePost device.writes chunk device h.writes h

module _ ⦃d : Platform⦄ (entry : LogRecord) (s : Store) (h : IsSound s.device) where
  -- The store once `append` has taken a sequence number.
  abbrev numbered : Store
  numbered = record s { next_sequence = s.next_sequence + 1 }

  numbered-IsQuiet : s.next_sequence + 1 < 2 ^ 64 → IsQuiet s numbered
  numbered-IsQuiet f = record {
    same = record { header = refl; options = refl; state = refl; next_tx_id = refl; sound = h };
    bytes = refl;
    sequence = omega arith;
    sequence_fits = f;
  }

  -- The store after the write, whatever became of it.
  write_numbered :
      (r : Result EngineError (Unit {0})) (device : Device) (metrics : StoreMetrics)
      → WritePost (record_bytes entry) s.device r device
      → s.next_sequence + 1 < 2 ^ 64
      → length entry.payload < 2 ^ 32
      → AppendPost entry s r (record numbered { device = device; metrics = metrics })
  unfolding WritePost
  write_numbered (ok _) device metrics w f p = record {
    same = record { header = refl; options = refl; state = refl; next_tx_id = refl; sound = w.1 };
    bytes = w.0;
    sequence = omega arith;
    sequence_fits = f;
    payload_fits = p;
  }
  write_numbered (err e) device metrics w f p = record {
    same = record { header = refl; options = refl; state = refl; next_tx_id = refl; sound = w.1 };
    bytes = w.0;
    sequence = omega arith;
    sequence_fits = f;
  }

  write_record-AppendPost :
      (kind : RecordKind)
      → s.next_sequence + 1 < 2 ^ 64
      → length entry.payload < 2 ^ 32
      → AppendPost entry s
          (write_record kind (record_bytes entry) numbered).0
          (write_record kind (record_bytes entry) numbered).1
  unfolding write_record
  write_record-AppendPost kind f p =
      continue_ind (AppendPost entry s)
        (check_storage_quota s.options.max_bytes (length s.device.bytes) (length bytes)) _ numbered
        (λ _ _.
          continue_ind (AppendPost entry s) (write_all map_io_error bytes s.device).0 _ _
            (λ a e. write_numbered (ok a) _ _ (written (ok a) e) f p)
            (λ error e. write_numbered (err error) _ _ (written (err error) e) f p))
        (λ _ _. numbered-IsQuiet f)
    where
      bytes : Bytes
      bytes = record_bytes entry

      written :
          (r : Result EngineError (Unit {0}))
          → (write_all map_io_error bytes s.device).0 ≡ r
          → WritePost bytes s.device r (write_all map_io_error bytes s.device).1
      written r e =
          subst (λ x. WritePost bytes s.device x (write_all map_io_error bytes s.device).1) e
            (write_all-WritePost bytes s.device h)

next_counter_lem :
    (n next : ℕ)
    → ok_or (checked_add n 1) counter_exhausted ≡ ok next
    → (next ≡ n + 1) × (n + 1 < 2 ^ 64)
next_counter_lem n next e = ground arith

module _ ⦃d : Platform⦄ (kind : RecordKind) (tx_id : ℕ) (payload : Bytes) (s : Store) where
  abbrev pub entry_of : LogRecord
  entry_of = record { kind = kind; tx_id = tx_id; sequence = s.next_sequence; payload = payload }

  -- From a sound device, `append` writes the whole record and takes one sequence number, or writes
  -- nothing.
  pub append-AppendPost :
      IsSound s.device
      → s.next_sequence < 2 ^ 64
      → AppendPost entry_of s (append kind tx_id payload s).0 (append kind tx_id payload s).1
  unfolding append
  append-AppendPost h f =
      continue_ind (AppendPost entry_of s) (ok_or (checked_add s.next_sequence 1) counter_exhausted)
        _ s
        (λ next e. rw ((next_counter_lem s.next_sequence next e).0) (elim (encode_cases entry_of) [
          | inl (encoded, short) ↦ rw encoded (
              write_record-AppendPost entry_of s h kind (next_counter_lem s.next_sequence next e).1
                short)
          | inr long ↦
              rw long (numbered-IsQuiet entry_of s h (next_counter_lem s.next_sequence next e).1)
        ]))
        (λ error e. record {
          same = record {
            header = refl;
            options = refl;
            state = refl;
            next_tx_id = refl;
            sound = h;
          };
          bytes = refl;
          sequence = omega arith;
          sequence_fits = f;
        })
