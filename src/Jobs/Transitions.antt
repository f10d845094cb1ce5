-- ===== src/Jobs/Transitions.antt =====
-- jobs.rs: what the operations make of a job, and the tests that they make on it.
use voodoo_store.Prelude.{ℕ, Bool, true, false, List, [], ◌∷◌, leb, ◌==◌, if◌then◌else◌}
use voodoo_store.Prelude.Int.{ℤ, pos, leb_ℤ}
use voodoo_store.Result.{Result, ok, ok_or, ◌>>=◌, ◌>>◌}
use voodoo_store.Bytes.{Bytes, codes}
use voodoo_store.Bytes.Words.{checked_add_i64}
use voodoo_store.Engine.Payload.{State}
use voodoo_store.Jobs.Record.{
  ready, leased, completed, dead, cancelled, DurableJobState, JobError, not_found, time_overflow,
  DurableJob, validate_job_lease, retry_delay_ms,
}
use voodoo_store.Jobs.Codec.{decode_job}
use voodoo_store.Jobs.History
use voodoo_store.Jobs.History.{JobHistoryKind}
use voodoo_store.Jobs.Persist.{get_job}

-- A job that is no longer leased.
abbrev pub ended : DurableJobState → DurableJob → DurableJob
ended state job = record job { state = state; lease_until_ms = pos 0 }

abbrev pub ready_at : ℤ → DurableJob → DurableJob
ready_at available_at_ms job = record job {
  state = ready;
  available_at_ms = available_at_ms;
  lease_until_ms = pos 0;
}

abbrev pub leased_as : ℕ → ℤ → DurableJob → DurableJob
leased_as attempts lease_until_ms job = record job {
  state = leased;
  attempts = attempts;
  lease_until_ms = lease_until_ms;
  lease_generation = attempts;
}

abbrev pub revived : ℤ → DurableJob → DurableJob
revived now_ms job = record job {
  state = ready;
  available_at_ms = now_ms;
  attempts = 0;
  lease_until_ms = pos 0;
  lease_generation = 0;
}

-- `job.state == Leased && job.lease_generation == lease_generation`
unfoldable pub is_held : DurableJob → ℕ → Bool
is_held job lease_generation = elim job.state [
  | leased ↦ job.lease_generation == lease_generation
  | ready ↦ false
  | completed ↦ false
  | dead ↦ false
  | cancelled ↦ false
]

-- What `fail_job` makes of a job that is leased: it dies, or it is ready after the delay.
unfoldable pub failed : ℤ → DurableJob → Result JobError (DurableJob × JobHistoryKind)
failed now_ms job =
    if leb job.max_attempts job.attempts then ok (ended dead job, History.dead) else (do
      delay ← retry_delay_ms (record job { lease_until_ms = pos 0 })
      available_at_ms ← ok_or (checked_add_i64 now_ms delay) time_overflow
      ok (ready_at available_at_ms job, History.retry_scheduled))

-- What `release_expired_jobs` makes of a job whose lease has run out.
unfoldable pub reaped : ℤ → DurableJob → DurableJob × JobHistoryKind × Bytes
reaped now_ms job =
    if leb job.max_attempts job.attempts
    then (ended dead job, History.dead, codes "lease expired: max attempts exhausted")
    else (ready_at now_ms job, History.retry_scheduled, codes "lease expired")

-- A leased job whose lease has run out.
unfoldable pub is_lost : ℤ → DurableJob → Bool
is_lost now_ms job = elim job.state [
  | leased ↦ leb_ℤ job.lease_until_ms now_ms
  | ready ↦ false
  | completed ↦ false
  | dead ↦ false
  | cancelled ↦ false
]

-- The first loop of `release_expired_jobs`.
unfoldable pub collect_lost : ℤ → State → Result JobError (List DurableJob)
collect_lost now_ms [] = ok []
collect_lost now_ms ((key, value) ∷ entries) = do
  job ← decode_job value
  lost ← collect_lost now_ms entries
  ok (if is_lost now_ms job then job ∷ lost else lost)

-- `Completed | Dead | Cancelled`
abbrev pub is_over : DurableJobState → Bool
is_over ready = false
is_over leased = false
is_over completed = true
is_over dead = true
is_over cancelled = true

abbrev pub is_dead : DurableJobState → Bool
is_dead ready = false
is_dead leased = false
is_dead completed = false
is_dead dead = true
is_dead cancelled = false

-- `self.get_job(id)?.ok_or(JobError::NotFound)?`, then `validate_job_lease`.
unfoldable pub load_held : Bytes → ℕ → State → Result JobError DurableJob
load_held id lease_generation state = do
  found ← get_job id state
  job ← ok_or found not_found
  validate_job_lease job lease_generation
  ok job
