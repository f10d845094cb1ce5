-- ===== src/Jobs/Calls.antt =====
-- jobs.rs: the calls that change jobs, and the bounds on their arguments.
pub mod Good
pub mod Written
pub mod Steps
pub mod Sound
pub mod Moves
use voodoo_store.Prelude.{ℕ, ◌^◌, ◌<◌, ◌≡◌, Bool, Option, List, [], ◌∷◌, length}
use voodoo_store.Prelude.Int.{ℤ}
use voodoo_store.Result.{Result, ok}
use voodoo_store.Bytes.{Bytes}
use voodoo_store.Bytes.Words.{Fits, i32_half, i64_half}
use voodoo_store.Platform.{Platform}
use voodoo_store.Engine.Store.{Store}
use voodoo_store.Jobs.Record.{JobError, JobSpec}
use voodoo_store.Jobs.Codec.Parts.{FitsDeadline}
use voodoo_store.Jobs.Submit.{submit_job}
use voodoo_store.Jobs.Lifecycle.{claim_job_for_handlers, heartbeat_job, release_expired_jobs}
use voodoo_store.Jobs.Requests.{Request, run_request}

pub data Call : Type 0 where
  submit : Result JobError Bytes → JobSpec → ℤ → Call
  claim : ℤ → ℕ → List Bytes → Call
  heartbeat : Bytes → ℕ → ℤ → ℕ → Call
  request : Request → Bytes → ℤ → Call
  reap : ℤ → Call

-- The numbers of a specification are values of their machine types.
pub record FitsSpec (spec : JobSpec) : Type 0 where
  pub available_at_ms : Fits i64_half spec.available_at_ms
  pub deadline_ms : FitsDeadline spec.deadline_ms
  pub priority : Fits i32_half spec.priority
  pub max_attempts : spec.max_attempts < 2 ^ 32
  pub retry_backoff_ms : spec.retry_backoff_ms < 2 ^ 64

-- Entropy gives 16 bytes, or an error.
abbrev pub IsId : Result JobError Bytes → Type 0
IsId random_id = (id : Bytes) → random_id ≡ ok id → length id ≡ 16

abbrev pub FitsCall : Call → Type 0
FitsCall (submit random_id spec now_ms) = IsId random_id × FitsSpec spec
FitsCall (claim now_ms lease_duration_ms handlers) = Unit
FitsCall (heartbeat id generation now_ms lease_duration_ms) = Unit
FitsCall (request r id now_ms) = Fits i64_half now_ms
FitsCall (reap now_ms) = Fits i64_half now_ms

abbrev pub AllFit : List Call → Type 0
AllFit [] = Unit
AllFit (c ∷ cs) = FitsCall c × AllFit cs

module _ ⦃d : Platform⦄ where
  -- The store after a call, whatever it returned.
  abbrev pub run_call : Call → Store → Store
  run_call (submit random_id spec now_ms) s = (submit_job random_id spec now_ms s).1
  run_call (claim now_ms lease_duration_ms handlers) s =
      (claim_job_for_handlers now_ms lease_duration_ms handlers s).1
  run_call (heartbeat id generation now_ms lease_duration_ms) s =
      (heartbeat_job id generation now_ms lease_duration_ms s).1
  run_call (request r id now_ms) s = (run_request r id now_ms s).1
  run_call (reap now_ms) s = (release_expired_jobs now_ms s).1

  abbrev pub run_calls : List Call → Store → Store
  run_calls [] s = s
  run_calls (c ∷ cs) s = run_calls cs (run_call c s)
