-- ===== src/Jobs/Persist.antt =====
-- jobs.rs: reading a job, and writing it with an entry of its history in one transaction.
pub mod Effects
use voodoo_store.Prelude.{ℕ, true, Option, none, some, [], ◌∷◌}
use voodoo_store.Prelude.Int.{ℤ}
use voodoo_store.Result.{Result, ok, err}
use voodoo_store.Exec.{Exec, pure, lift, gets, ◌>>=◌, ◌>>◌, map_error}
use voodoo_store.Bytes.{Bytes}
use voodoo_store.Platform.{Platform}
use voodoo_store.Map.{get, key_eq}
use voodoo_store.Engine.Payload.{State}
use voodoo_store.Engine.Store.{Store}
use voodoo_store.Engine.Transaction.{Transaction, put_internal}
use voodoo_store.Engine.Commit.{transact_from, put_internal_key}
use voodoo_store.Jobs.Record.{JobError, store, DurableJob}
use voodoo_store.Jobs.Fields.{job_key}
use voodoo_store.Jobs.Codec.{encode_job, decode_job}
use voodoo_store.Jobs.History.{
  JobHistoryKind, JobHistoryEntry, encode_history, history_key, next_history_sequence,
}

-- `Option::map(decode_job).transpose()`
abbrev pub decoded : Option Bytes → Result JobError (Option DurableJob)
decoded none = ok none
decoded (some value) = elim (decode_job value) [ ok job ↦ ok (some job) | err error ↦ err error ]

unfoldable pub get_job : Bytes → State → Result JobError (Option DurableJob)
get_job id state = decoded (get state (job_key id))

module _ ⦃d : Platform⦄ where
  -- `tx.put_internal(job_key(&job.id), encode_job(&job)?)?`
  abbrev pub put_job : DurableJob → Exec Transaction JobError (Unit {0})
  put_job job = do
    value ← lift (encode_job job)
    map_error store (put_internal (job_key job.id) value)

  unfoldable pub append_history_tx :
      Bytes → ℕ → JobHistoryEntry → Exec Transaction JobError (Unit {0})
  append_history_tx id sequence entry = do
    value ← lift (encode_history entry)
    map_error store (put_internal (history_key id sequence) value)

  -- A job and an entry of its history.
  abbrev pub put_with_history : DurableJob → JobHistoryEntry → Exec Transaction JobError (Unit {0})
  put_with_history job entry = put_job job >> append_history_tx job.id entry.sequence entry

  unfoldable pub persist_job : DurableJob → Exec Store JobError (Unit {0})
  persist_job job = do
    value ← lift (encode_job job)
    map_error store (put_internal_key (job_key job.id) value)

  unfoldable pub persist_job_with_history :
      DurableJob → ℤ → JobHistoryKind → Bytes → Exec Store JobError (Unit {0})
  persist_job_with_history job at_ms kind detail = do
    next ← gets (λ s. next_history_sequence job.id s.state)
    sequence ← lift next
    transact_from store true (
        put_with_history job
          (record { sequence = sequence; at_ms = at_ms; kind = kind; detail = detail }))
