-- ===== src/Engine/Open/Reopen.antt =====
-- Opening the file that a store left, with a torn tail or without.
use voodoo_store.Prelude.{ℕ, ◌<◌, ◌≡◌, refl, ap, ◌∙◌, true, ◌++◌, length, take, arith}
use mathlib.Core.List.{append_assoc}
use voodoo_store.Prelude.Int.{ℤ}
use voodoo_store.Result.{Result, ok}
use voodoo_store.Bytes.{Bytes}
use voodoo_store.Platform.{Platform}
use voodoo_store.Header.{StoreHeader}
use voodoo_store.Header
use voodoo_store.Log.{LogRecord}
use voodoo_store.Log.RoundTrip.{FitsRecord, record_bytes}
use voodoo_store.Engine.Payload.{EngineError}
use voodoo_store.Engine.Device.{Device, IsSound}
use voodoo_store.Engine.Store.{Store, StoreOptions}
use voodoo_store.Engine.Recovery.{recover}
use voodoo_store.Engine.Recovery.Scan.{log_bytes}
use voodoo_store.Engine.Recovery.Torn.{next_record-torn}
use voodoo_store.Engine.Durability.Sealing.{HasLog}
use voodoo_store.Engine.Durability.Recovered.{recovery_of, recover_tail, valid_end-recovery_of}
use voodoo_store.Engine.Open.{open_with_options}
use voodoo_store.Engine.Open.Steps.{repair_lem, load_header, opened}

module _ ⦃d : Platform⦄ where
  -- A store whose file replays to its state is opened again with that state, also when a record was
  -- cut off behind the file by a crash; and from there its file replays to its state again.
  pub reopen_keeps_state :
      (s : Store) (entry : LogRecord) (n : ℕ) (options : StoreOptions)
      (identity : Result EngineError (Bytes × ℤ)) (device : Device)
      → HasLog s
      → s.header.format_major ≡ 1
      → FitsRecord entry
      → n < length (record_bytes entry)
      → options.repair_torn_tail ≡ true
      → IsSound device
      → device.bytes ≡ s.device.bytes ++ take n (record_bytes entry)
      → (s' : Store) × ((open_with_options options identity device).0 ≡ ok s')
        × HasLog s'
        × (s'.state ≡ s.state)
        × (s'.header ≡ s.header)
  reopen_keeps_state s entry n options identity device h major fe lt asked sound e =
      let l = h.logged in
      let tail = take n (record_bytes entry) in
      let (repaired, bytes, sound') =
        repair_lem options s.device.bytes tail device (recovery_of s h).valid_end
          (valid_end-recovery_of s h) asked sound e in
      (
        _,
        opened options identity device device s.header (recovery_of s h)
            (load_header identity s.header (log_bytes l.entries ++ tail) device l.header_fits major
              (e
                ∙ ap (λ bs. bs ++ tail) l.file
                ∙ append_assoc (Header.encode s.header) (log_bytes l.entries) tail))
            (ap recover e ∙ recover_tail s tail h (next_record-torn entry n fe lt)) repaired
            (omega (arith, l.tx_id, l.tx_id_fits)) (omega (arith, l.sequence, l.sequence_fits)),
        record {
          at = h.at;
          logged = record {
            entries = l.entries;
            file = bytes ∙ l.file;
            fits = l.fits;
            replayed = l.replayed;
            state = refl;
            sequence = omega arith;
            sequence_fits = omega (arith, l.sequence, l.sequence_fits);
            records = l.records;
            tx_id = omega arith;
            tx_id_fits = omega (arith, l.tx_id, l.tx_id_fits);
            committed = l.committed;
            pending = l.pending;
            sound = sound';
            header_fits = l.header_fits;
          };
        },
        l.state,
        refl,
      )
