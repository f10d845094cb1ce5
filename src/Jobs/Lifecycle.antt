-- ===== src/Jobs/Lifecycle.antt =====
-- jobs.rs: the operations on the jobs of a store, from the claim of a job to its end.
use voodoo_store.Prelude.{
  ℕ, Bool, true, false, not, Option, none, some, List, [], ◌∷◌, length, ltb, if◌then◌else◌,
}
use voodoo_store.Prelude.Int.{ℤ}
use voodoo_store.Result.{ok_or}
use voodoo_store.Exec.{Exec, pure, lift, gets, ◌>>=◌, ◌>>◌}
use voodoo_store.Bytes.{Bytes, codes}
use voodoo_store.Bytes.Words.{checked_add_u32, checked_add_i64, to_i64}
use voodoo_store.Platform.{Platform}
use voodoo_store.Engine.Store.{Store, scan_prefix}
use voodoo_store.Jobs.Record.{
  completed, dead, cancelled, DurableJobState, JobError, attempt_exhausted, time_overflow,
  DurableJob,
}
use voodoo_store.Jobs.Fields.{job_prefix}
use voodoo_store.Jobs.History
use voodoo_store.Jobs.Persist.{get_job, persist_job, persist_job_with_history}
use voodoo_store.Jobs.Claim.{nothing_found, select}
use voodoo_store.Jobs.Transitions.{
  ended, ready_at, leased_as, revived, is_held, failed, reaped, collect_lost, is_over, is_dead,
  load_held,
}

module _ ⦃d : Platform⦄ where
  -- The loop over the jobs that are too late.
  unfoldable pub expire_jobs : ℤ → List DurableJob → Exec Store JobError (Unit {0})
  expire_jobs now_ms [] = pure tt
  expire_jobs now_ms (job ∷ jobs) = do
    persist_job_with_history (ended dead job) now_ms History.dead (codes "deadline exceeded")
    expire_jobs now_ms jobs

  -- The end of `claim_job_for_handlers`, for the job that was chosen.
  unfoldable pub lease_job : ℤ → ℤ → Option DurableJob → Exec Store JobError (Option DurableJob)
  lease_job now_ms lease_until_ms none = pure none
  lease_job now_ms lease_until_ms (some job) = do
    attempts ← lift (ok_or (checked_add_u32 job.attempts 1) attempt_exhausted)
    if ltb job.max_attempts attempts
        then (do
          persist_job_with_history (ended dead (record job { attempts = attempts })) now_ms
              History.dead (codes "max attempts exceeded")
          pure none)
        else (do
          persist_job_with_history (leased_as attempts lease_until_ms job) now_ms History.claimed []
          pure (some (leased_as attempts lease_until_ms job)))

  unfoldable pub claim_job_for_handlers :
      ℤ → ℕ → List Bytes → Exec Store JobError (Option DurableJob)
  unfolding expire_jobs lease_job
  claim_job_for_handlers now_ms lease_duration_ms handlers = do
    lease_duration ← lift (ok_or (to_i64 lease_duration_ms) time_overflow)
    lease_until_ms ← lift (ok_or (checked_add_i64 now_ms lease_duration) time_overflow)
    selected ← gets (λ s. select now_ms handlers (scan_prefix s.state job_prefix) nothing_found)
    found ← lift selected
    expire_jobs now_ms found.expired
    lease_job now_ms lease_until_ms found.candidate

  unfoldable pub claim_job : ℤ → ℕ → Exec Store JobError (Option DurableJob)
  claim_job now_ms lease_duration_ms = claim_job_for_handlers now_ms lease_duration_ms []

  -- `heartbeat_job`, for what is stored under the id.
  abbrev pub extend_lease : ℕ → ℤ → ℕ → Option DurableJob → Exec Store JobError Bool
  extend_lease lease_generation now_ms lease_duration_ms none = pure false
  extend_lease lease_generation now_ms lease_duration_ms (some job) =
      if not (is_held job lease_generation) then pure false else (do
        duration ← lift (ok_or (to_i64 lease_duration_ms) time_overflow)
        lease_until_ms ← lift (ok_or (checked_add_i64 now_ms duration) time_overflow)
        persist_job (record job { lease_until_ms = lease_until_ms })
        pure true)

  unfoldable pub heartbeat_job : Bytes → ℕ → ℤ → ℕ → Exec Store JobError Bool
  heartbeat_job id lease_generation now_ms lease_duration_ms = do
    current ← gets (λ s. get_job id s.state)
    found ← lift current
    extend_lease lease_generation now_ms lease_duration_ms found

  unfoldable pub complete_job : Bytes → ℕ → ℤ → Exec Store JobError (Unit {0})
  complete_job id lease_generation now_ms = do
    loaded ← gets (λ s. load_held id lease_generation s.state)
    job ← lift loaded
    persist_job_with_history (ended completed job) now_ms History.completed []

  unfoldable pub fail_job : Bytes → ℕ → ℤ → Bytes → Exec Store JobError DurableJobState
  fail_job id lease_generation now_ms detail = do
    loaded ← gets (λ s. load_held id lease_generation s.state)
    job ← lift loaded
    (next, kind) ← lift (failed now_ms job)
    persist_job_with_history next now_ms kind detail
    pure next.state

  abbrev pub release_held : ℕ → ℤ → Option DurableJob → Exec Store JobError Bool
  release_held lease_generation now_ms none = pure false
  release_held lease_generation now_ms (some job) =
      if not (is_held job lease_generation) then pure false else (do
        persist_job_with_history (ready_at now_ms job) now_ms History.retry_scheduled
            (codes "released")
        pure true)

  unfoldable pub release_job : Bytes → ℕ → ℤ → Exec Store JobError Bool
  release_job id lease_generation now_ms = do
    current ← gets (λ s. get_job id s.state)
    found ← lift current
    release_held lease_generation now_ms found

  -- The second loop of `release_expired_jobs`.
  unfoldable pub reap_jobs : ℤ → List DurableJob → Exec Store JobError (Unit {0})
  reap_jobs now_ms [] = pure tt
  reap_jobs now_ms (job ∷ jobs) = do
    let (next, kind, detail) = reaped now_ms job
    persist_job_with_history next now_ms kind detail
    reap_jobs now_ms jobs

  unfoldable pub release_expired_jobs : ℤ → Exec Store JobError ℕ
  unfolding reap_jobs
  release_expired_jobs now_ms = do
    collected ← gets (λ s. collect_lost now_ms (scan_prefix s.state job_prefix))
    lost ← lift collected
    reap_jobs now_ms lost
    pure (length lost)

  abbrev pub revive : ℤ → Option DurableJob → Exec Store JobError (Option DurableJob)
  revive now_ms none = pure none
  revive now_ms (some job) = if not (is_dead job.state) then pure none else (do
    persist_job_with_history (revived now_ms job) now_ms History.retry_scheduled
        (codes "manual retry")
    pure (some (revived now_ms job)))

  unfoldable pub retry_job : Bytes → ℤ → Exec Store JobError (Option DurableJob)
  retry_job id now_ms = do
    current ← gets (λ s. get_job id s.state)
    found ← lift current
    revive now_ms found

  abbrev pub cancel : ℤ → Option DurableJob → Exec Store JobError Bool
  cancel now_ms none = pure false
  cancel now_ms (some job) = if is_over job.state then pure false else (do
    persist_job_with_history (ended cancelled job) now_ms History.cancelled []
    pure true)

  unfoldable pub cancel_job : Bytes → ℤ → Exec Store JobError Bool
  cancel_job id now_ms = do
    current ← gets (λ s. get_job id s.state)
    found ← lift current
    cancel now_ms found
