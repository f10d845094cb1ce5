-- ===== src/Engine/Device.antt =====
-- The file of an open store, and what the operating system answers. `writes` and `syncs` list the
-- answers to the writes and syncs to come, and `elapsed` the microseconds that the clock will measure;
-- where a list has ended, calls succeed and take no time. Reads, seeks and `metadata` succeed.
use voodoo_store.Prelude.{ℕ, List, [], ◌∷◌, ◌++◌, take, ◌≡◌}
use voodoo_store.Result.{Result, ok, err}
use voodoo_store.Exec.{Exec}
use voodoo_store.Bytes.{Bytes}
use voodoo_store.Engine.Payload.{
  IoError, storage_full, quota_exceeded, other, EngineError, io, disk_full,
}

-- A failed write may have written some bytes.
pub data Outcome : Type 0 where
  done : Outcome
  failed : IoError → ℕ → Outcome

pub record Device : Type 0 where
  pub bytes : Bytes
  pub writes : List Outcome
  pub syncs : List Outcome
  pub elapsed : List ℕ

pub data Durability : Type 0 where
  strict data_only relaxed : Durability

-- `map_io_error`
unfoldable pub map_io_error : IoError → EngineError
map_io_error storage_full = disk_full
map_io_error quota_exceeded = disk_full
map_io_error other = io other

abbrev pub next_outcome : List Outcome → Outcome
next_outcome [] = done
next_outcome (outcome ∷ outcomes) = outcome

abbrev pub later_outcomes : List Outcome → List Outcome
later_outcomes [] = []
later_outcomes (outcome ∷ outcomes) = outcomes

-- `from` is what the caller makes of an I/O error: `map_io_error`, or the conversion `io` of `?`.
abbrev pub write_with :
    (IoError → EngineError) → Outcome → Bytes → Device → Result EngineError (Unit {0}) × Device
write_with from done chunk device = (ok tt, record device { bytes = device.bytes ++ chunk })
write_with from (failed error written) chunk device =
    (err (from error), record device { bytes = device.bytes ++ take written chunk })

-- `file.write_all(&bytes)` at the end of the file.
unfoldable pub write_all : (IoError → EngineError) → Bytes → Exec Device EngineError (Unit {0})
write_all from chunk device =
    write_with from (next_outcome device.writes) chunk
      (record device { writes = later_outcomes device.writes })

abbrev pub sync_with : (IoError → EngineError) → Outcome → Result EngineError (Unit {0})
sync_with from done = ok tt
sync_with from (failed error written) = err (from error)

-- `file.sync_all()` and `file.sync_data()`.
unfoldable pub sync_all : (IoError → EngineError) → Exec Device EngineError (Unit {0})
sync_all from device = (
  sync_with from (next_outcome device.syncs),
  record device { syncs = later_outcomes device.syncs },
)

-- `sync_file`
unfoldable pub sync_file : Durability → Exec Device EngineError (Unit {0})
unfolding sync_all
sync_file relaxed device = (ok tt, device)
sync_file strict device = sync_all map_io_error device
sync_file data_only device = sync_all map_io_error device

abbrev pub next_elapsed : List ℕ → ℕ
next_elapsed [] = 0
next_elapsed (us ∷ rest) = us

abbrev pub later_elapsed : List ℕ → List ℕ
later_elapsed [] = []
later_elapsed (us ∷ rest) = rest

-- A write that fails has written nothing, and no sync fails.
abbrev pub WritesAreWhole : List Outcome → Type 0
WritesAreWhole [] = Unit {0}
WritesAreWhole (done ∷ outcomes) = WritesAreWhole outcomes
WritesAreWhole (failed error written ∷ outcomes) = (written ≡ 0) × WritesAreWhole outcomes

abbrev pub SyncsSucceed : List Outcome → Type 0
SyncsSucceed [] = Unit {0}
SyncsSucceed (done ∷ outcomes) = SyncsSucceed outcomes
SyncsSucceed (failed error written ∷ outcomes) = ⊥

pub record IsSound (device : Device) : Type 0 where
  pub writes : WritesAreWhole device.writes
  pub syncs : SyncsSucceed device.syncs
