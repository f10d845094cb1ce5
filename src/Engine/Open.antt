-- ===== src/Engine/Open.antt =====
-- engine.rs: `open_with_options`. The lock, the path and the process-wide set of writers
-- are not modelled; `identity` is what `generate_store_id` and `unix_time_ms` give a new file.
pub mod Steps
pub mod Reopen
pub mod NewFile
pub mod Verify
use voodoo_store.Prelude.{
  ℕ, ◌+◌, Bool, true, false, ◌&&◌, Option, none, some, List, [], ◌∷◌, ◌++◌, length, take, ltb, ◌==◌,
  if◌then◌else◌,
}
use voodoo_store.Prelude.Int.{ℤ}
use voodoo_store.Result.{Result, ok, err, ok_or, map_err}
use voodoo_store.Exec.{Exec, pure, raise, lift, gets, modify, ◌>>=◌, ◌>>◌}
use voodoo_store.Bytes.{Bytes}
use voodoo_store.Bytes.Words.{checked_add}
use voodoo_store.Platform.{Platform}
use voodoo_store.Header.{StoreHeader, store_header_len, truncated}
use voodoo_store.Header
use voodoo_store.Engine.Payload.{EngineError, io, header, counter_exhausted}
use voodoo_store.Engine.Device.{Device, Durability, write_all, sync_all, sync_file}
use voodoo_store.Engine.Store.{Store, StoreOptions, zero_metrics}
use voodoo_store.Engine.Recovery.{Recovery, recover}

-- `next_counter`
unfoldable pub next_counter : ℕ → Result EngineError ℕ
next_counter max = if max == 0 then ok 1 else ok_or (checked_add max 1) counter_exhausted

-- `file.set_len(valid_end)`
abbrev pub set_len : ℕ → Device → Device
set_len n device = record device { bytes = take n device.bytes }

unfoldable pub repair : StoreOptions → ℕ → Exec Device EngineError (Unit {0})
repair options valid_end = do
  physical_len ← gets (λ device. length device.bytes)
  if ltb valid_end physical_len && options.repair_torn_tail
      then modify (set_len valid_end) >> sync_file options.durability
      else pure tt

module _ ⦃d : Platform⦄ where
  -- The header of a new file, written and synced.
  unfoldable pub initialize_header :
      Result EngineError (Bytes × ℤ) → Exec Device EngineError StoreHeader
  initialize_header identity = do
    fresh ← lift identity
    write_all io (Header.encode (Header.new fresh.0 fresh.1))
    sync_all io
    pure (Header.new fresh.0 fresh.1)

  -- `load_or_initialize_header`, on the bytes of the file.
  unfoldable pub load_header_from :
      Result EngineError (Bytes × ℤ) → Bytes → Exec Device EngineError StoreHeader
  load_header_from identity bytes =
      if length bytes == 0
      then initialize_header identity
      else if ltb (length bytes) store_header_len
      then raise (header truncated)
      else lift (map_err header (Header.decode (take store_header_len bytes)))

  unfoldable pub load_or_initialize_header :
      Result EngineError (Bytes × ℤ) → Exec Device EngineError StoreHeader
  unfolding load_header_from
  load_or_initialize_header identity = do
    bytes ← gets (λ device. device.bytes)
    load_header_from identity bytes

  unfoldable pub open_with_options :
      StoreOptions → Result EngineError (Bytes × ℤ) → Device → Result EngineError Store × Device
  unfolding load_or_initialize_header repair
  open_with_options options identity = do
    header_ ← load_or_initialize_header identity
    recovered ← gets (λ device. recover device.bytes)
    recovery ← lift recovered
    repair options recovery.valid_end
    next_tx_id ← lift (next_counter recovery.max_tx_id)
    next_sequence ← lift (next_counter recovery.max_sequence)
    gets (λ device. record {
      device = device;
      header = header_;
      options = options;
      state = recovery.state;
      next_tx_id = next_tx_id;
      next_sequence = next_sequence;
      metrics = record zero_metrics { recovery_records = recovery.records };
    })
