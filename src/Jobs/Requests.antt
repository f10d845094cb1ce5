-- ===== src/Jobs/Requests.antt =====
-- jobs.rs: `complete_job`, `fail_job`, `release_job`, `retry_job` and `cancel_job` are the moves of one
-- state machine, and each adds one entry to the history of its job.
pub mod Cases
pub mod Effects
use voodoo_store.Prelude.{
  ℕ, ◌+◌, ◌<◌, ◌≤◌, ◌≡◌, ◌≢◌, refl, sym, ap, subst, ◌∙◌, ◌⊎◌, inl, inr, Bool, true, false, not,
  Option, none, some, [], arith, Bool-cases, leb, leb→le, leb→lt,
}
use voodoo_store.Prelude.Int.{ℤ, pos, ◌+ℤ◌}
use voodoo_store.Result.{Result, ok, err, ok_or, ◌>>=◌, ◌>>◌, >>=-eq-ok}
use voodoo_store.Exec.{Exec, pure, continue, continue_ind}
use voodoo_store.Bytes.{Bytes, codes}
use voodoo_store.Bytes.Words.{Fits, i64_half, fits, fits→Fits, checked_add_i64}
use voodoo_store.Platform.{Platform}
use voodoo_store.Engine.Payload.{State}
use voodoo_store.Engine.Store.{Store}
use voodoo_store.Engine.Durability.Sealing.{HasLog}
use voodoo_store.Jobs.Record.{
  ready, leased, completed, dead, cancelled, DurableJobState, JobError, not_found, time_overflow,
  DurableJob, validate_job_lease, retry_delay_ms, percent_of,
}
use voodoo_store.Jobs.History
use voodoo_store.Jobs.History.{JobHistoryKind}
use voodoo_store.Jobs.Persist.{get_job, persist_job_with_history}
use voodoo_store.Jobs.Persist.Effects.{Persisted, persist_ind}
use voodoo_store.Jobs.Transitions.{
  ended, ready_at, revived, is_held, failed, is_over, is_dead, load_held,
}
use voodoo_store.Jobs.Lifecycle.{
  release_held, revive, cancel as cancel_found, complete_job, fail_job, release_job, retry_job,
  cancel_job,
}

-- A call on one job, with its arguments but the id and the time.
pub data Request : Type 0 where
  complete : ℕ → Request
  fail : ℕ → Bytes → Request
  release : ℕ → Request
  retry cancel : Request

-- The job is leased to the worker with this generation.
abbrev pub Holds : ℕ → DurableJob → Type 0
Holds generation job = (job.state ≡ leased) × (job.lease_generation ≡ generation)

-- A job that may still run, and one that may not.
abbrev pub IsOpen : DurableJob → Type 0
IsOpen job = (job.state ≡ ready) ⊎ (job.state ≡ leased)

abbrev pub IsEnded : DurableJob → Type 0
IsEnded job = (job.state ≡ completed) ⊎ (job.state ≡ dead) ⊎ (job.state ≡ cancelled)

abbrev pub MoveOf : Type 1
MoveOf = DurableJob → JobHistoryKind → Bytes → Type 0

-- A failed job dies after its last attempt; before, it is ready once more after its delay.
abbrev pub Fails : ℤ → DurableJob → DurableJob → JobHistoryKind → Type 0
Fails now_ms job next kind =
    ((job.max_attempts ≤ job.attempts)
      × (next ≡ record job { state = dead; lease_until_ms = pos 0 })
      × (kind ≡ History.dead))
    ⊎ ((job.attempts < job.max_attempts)
        × ((delay : ℤ) × (retry_delay_ms job ≡ ok delay)
            × Fits i64_half (now_ms +ℤ delay)
            × (next ≡ record job {
              state = ready;
              available_at_ms = now_ms +ℤ delay;
              lease_until_ms = pos 0;
            }))
        × (kind ≡ History.retry_scheduled))

-- The state machine: what a request may make of a job, and what the history says of it.
abbrev pub Moves : ℤ → Request → DurableJob → MoveOf
Moves now_ms (complete generation) job next kind detail =
    Holds generation job
    × (next ≡ record job { state = completed; lease_until_ms = pos 0 })
    × (kind ≡ History.completed)
    × (detail ≡ [])
Moves now_ms (fail generation why) job next kind detail =
    Holds generation job × Fails now_ms job next kind × (detail ≡ why)
Moves now_ms (release generation) job next kind detail =
    Holds generation job
    × (next ≡ record job { state = ready; available_at_ms = now_ms; lease_until_ms = pos 0 })
    × (kind ≡ History.retry_scheduled)
    × (detail ≡ codes "released")
Moves now_ms retry job next kind detail =
    (job.state ≡ dead)
    × (next ≡ record job {
      state = ready;
      available_at_ms = now_ms;
      attempts = 0;
      lease_until_ms = pos 0;
      lease_generation = 0;
    })
    × (kind ≡ History.retry_scheduled)
    × (detail ≡ codes "manual retry")
Moves now_ms cancel job next kind detail =
    IsOpen job
    × (next ≡ record job { state = cancelled; lease_until_ms = pos 0 })
    × (kind ≡ History.cancelled)
    × (detail ≡ [])

-- A request that is turned down without an error.
abbrev pub Stays : Request → Option DurableJob → Type 0
Stays (complete generation) found = ⊥
Stays (fail generation why) found = ⊥
Stays (release generation) none = Unit
Stays (release generation) (some job) = ¬ Holds generation job
Stays retry none = Unit
Stays retry (some job) = job.state ≢ dead
Stays cancel none = Unit
Stays cancel (some job) = IsEnded job

abbrev pub is_some : Option DurableJob → Bool
is_some none = false
is_some (some job) = true

module _ ⦃d : Platform⦄ where
  -- The call, and whether it has moved the job.
  abbrev pub run_request : Request → Bytes → ℤ → Exec Store JobError Bool
  run_request (complete generation) id now_ms s =
      continue (complete_job id generation now_ms s).0 (λ _. pure true)
        (complete_job id generation now_ms s).1
  run_request (fail generation why) id now_ms s =
      continue (fail_job id generation now_ms why s).0 (λ _. pure true)
        (fail_job id generation now_ms why s).1
  run_request (release generation) id now_ms s = release_job id generation now_ms s
  run_request retry id now_ms s =
      continue (retry_job id now_ms s).0 (λ found. pure (is_some found)) (retry_job id now_ms s).1
  run_request cancel id now_ms s = cancel_job id now_ms s

  pub record Moved (request : Request) (id : Bytes) (now_ms : ℤ) (s s' : Store) : Type 0 where
    pub job : DurableJob
    pub found : get_job id s.state ≡ ok (some job)
    pub next : DurableJob
    pub kind : JobHistoryKind
    pub detail : Bytes
    pub moves : Moves now_ms request job next kind detail
    pub persisted : Persisted next now_ms kind detail s s'

  abbrev pub MovePost : Request → Bytes → ℤ → Store → Result JobError Bool → Store → Type 0
  MovePost request id now_ms s (ok true) s' = HasLog s' × Moved request id now_ms s s'
  MovePost request id now_ms s (ok false) s' =
      (s' ≡ s)
      × ((found : Option DurableJob) × (get_job id s.state ≡ ok found) × Stays request found)
  MovePost request id now_ms s (err _) s' = HasLog s' × (s'.state ≡ s.state)
