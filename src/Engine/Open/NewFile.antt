-- ===== src/Engine/Open/NewFile.antt =====
-- Opening a new file.
use voodoo_store.Prelude.{◌≡◌, refl, sym, ap, ◌∙◌, List, [], ◌∷◌, ◌++◌, length, arith}
use mathlib.Core.List.{append-nil}
use voodoo_store.Prelude.Int.{ℤ}
use voodoo_store.Result.{ok}
use voodoo_store.Bytes.{Bytes}
use voodoo_store.Bytes.Words.{Fits, i64_half}
use voodoo_store.Platform.{Platform}
use voodoo_store.Header.{StoreHeader}
use voodoo_store.Header
use voodoo_store.Header.RoundTrip.{FitsHeader, length-encode}
use voodoo_store.Map.{get, contains}
use voodoo_store.Engine.Device.{
  Device, Outcome, done, failed, IsSound, WritesAreWhole, next_outcome, later_outcomes, sync_all,
  write_all, write_with,
}
use voodoo_store.Engine.Payload.{io}
use voodoo_store.Engine.Store.{Store, StoreOptions}
use voodoo_store.Engine.Recovery.{recover, finish, start, next_record}
use voodoo_store.Engine.Recovery.Scan.{replay, recover_log}
use voodoo_store.Engine.Durability.Sealing.{HasLog, sync_all_lem}
use voodoo_store.Engine.Open.{
  open_with_options, load_or_initialize_header, initialize_header, load_header_from,
}
use voodoo_store.Engine.Open.Steps.{repair_whole, opened, store_of}

pub FitsHeader-new :
    (store_id : Bytes) (created_at_ms : ℤ)
    → length store_id ≡ 16
    → Fits i64_half created_at_ms
    → FitsHeader (Header.new store_id created_at_ms)
unfolding Header.new
FitsHeader-new store_id created_at_ms e f = record {
  major = omega arith;
  minor = omega arith;
  store_id = e;
  created_at_ms = f;
  feature_flags = omega arith;
}

write_all_done :
    (chunk : Bytes) (device : Device)
    → next_outcome device.writes ≡ done
    → write_all io chunk device ≡ (
      ok tt,
      record device { bytes = device.bytes ++ chunk; writes = later_outcomes device.writes },
    )
unfolding write_all
write_all_done chunk device h =
    ap
      (λ outcome.
        write_with io outcome chunk (record device { writes = later_outcomes device.writes }))
      h

later-WritesAreWhole :
    (outcomes : List Outcome) → WritesAreWhole outcomes → WritesAreWhole (later_outcomes outcomes)
later-WritesAreWhole [] h = h
later-WritesAreWhole (done ∷ outcomes) h = h
later-WritesAreWhole (failed error written ∷ outcomes) h = h.1

module _ ⦃d : Platform⦄ where
  -- A store with nothing but its header in its file.
  pub HasLog-empty :
      (options : StoreOptions) (device : Device) (h : StoreHeader)
      → FitsHeader h
      → IsSound device
      → device.bytes ≡ Header.encode h
      → HasLog (store_of options device h (finish (start, 0)))
  unfolding replay get contains
  HasLog-empty options device h f sound e = record {
    at = start;
    logged = record {
      entries = [];
      file = e ∙ sym (append-nil (Header.encode h));
      fits = tt;
      replayed = refl;
      state = refl;
      sequence = omega arith;
      sequence_fits = omega arith;
      records = omega arith;
      tx_id = omega arith;
      tx_id_fits = omega arith;
      committed = λ id lt. refl;
      pending = λ id lt. refl;
      sound = sound;
      header_fits = f;
    };
  }

  abbrev with_header : Device → StoreHeader → Device
  with_header device h = record device {
    bytes = device.bytes ++ Header.encode h;
    writes = later_outcomes device.writes;
  }

  initialized :
      (store_id : Bytes) (created_at_ms : ℤ) (device : Device)
      → device.bytes ≡ []
      → next_outcome device.writes ≡ done
      → (sync_all io (with_header device (Header.new store_id created_at_ms))).0 ≡ ok tt
      → load_or_initialize_header (ok (store_id, created_at_ms)) device ≡ (
        ok (Header.new store_id created_at_ms),
        (sync_all io (with_header device (Header.new store_id created_at_ms))).1,
      )
  unfolding load_or_initialize_header load_header_from initialize_header
  initialized store_id created_at_ms device e writes synced = rw (
    ap (λ bs. length bs) e,
    write_all_done (Header.encode (Header.new store_id created_at_ms)) device writes,
    synced,
  )

  -- A new file gets its header, and is opened as an empty store whose file replays to its state.
  pub open_new_file :
      (options : StoreOptions) (store_id : Bytes) (created_at_ms : ℤ) (device : Device)
      → device.bytes ≡ []
      → next_outcome device.writes ≡ done
      → IsSound device
      → length store_id ≡ 16
      → Fits i64_half created_at_ms
      → (s : Store) × ((open_with_options options (ok (store_id, created_at_ms)) device).0 ≡ ok s)
        × HasLog s
        × (s.state ≡ [])
        × (s.header ≡ Header.new store_id created_at_ms)
  unfolding next_record replay
  open_new_file options store_id created_at_ms device e writes sound id_len fits =
      let h = Header.new store_id created_at_ms in
      let f = FitsHeader-new store_id created_at_ms id_len fits in
      let written = with_header device h in
      let (synced, bytes, sound') = sync_all_lem io written (record {
        writes = later-WritesAreWhole device.writes sound.writes;
        syncs = sound.syncs;
      }) in
      let device' = (sync_all io written).1 in
      let whole : device'.bytes ≡ Header.encode h = bytes ∙ ap (λ bs. bs ++ Header.encode h) e in
      let quiet =
        repair_whole options 64 device'
          (omega (arith, length-encode h f, ap (λ bs. length bs) whole)) in
      (
        store_of options device' h (finish (start, 0)),
        opened options (ok (store_id, created_at_ms)) device device' h (finish (start, 0))
              (initialized store_id created_at_ms device e writes synced)
              (ap recover (whole ∙ sym (append-nil (Header.encode h)))
                ∙ recover_log (Header.encode h) [] [] (length-encode h f) refl tt)
              (ap (λ p. p.0) quiet) (omega arith) (omega arith)
            ∙ ap (λ p. ok (store_of options p.1 h (finish (start, 0)))) quiet,
        HasLog-empty options device' h f sound' whole,
        refl,
        refl,
      )
