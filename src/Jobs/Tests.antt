-- ===== src/Jobs/Tests.antt =====
-- jobs.rs at concrete inputs: a job with a backoff of one second, a schedule, and small stores.
use voodoo_store.Prelude.{◌≢◌, Option, ◌≡◌, sym, ap, true, none, some, List, [], ◌∷◌, arith, length}
use voodoo_store.Prelude.Int.{pos}
use voodoo_store.Result.{Result, ok, ◌>>=◌}
use voodoo_store.Bytes.{Bytes}
use voodoo_store.Platform.{Platform, length_platform}
use voodoo_store.Map
use voodoo_store.Engine.Store.{Store}
use voodoo_store.Engine.Tests.{empty_store, empty_store-HasLog}
use voodoo_store.Jobs.Record.{DurableJob, JobSpec, JobError, leased, retry_delay_ms}
use voodoo_store.Jobs.Retry.{DelayPost, retry_delay_ms-DelayPost}
use voodoo_store.Jobs.Codec.{encode_job, decode_job}
use voodoo_store.Jobs.Codec.Parts.{FitsJob}
use voodoo_store.Jobs.Codec.RoundTrip.{decode_job-encode_job}
use voodoo_store.Jobs.History.{JobHistoryEntry, retry_scheduled, encode_history, decode_history}
use voodoo_store.Jobs.History.RoundTrip.{FitsEntry, decode_history-encode_history}
use voodoo_store.Jobs.Schedule.{DurableSchedule, interval}
use voodoo_store.Jobs.Advance.{next_run}
use voodoo_store.Jobs.Advance.Loop.{NextPost, next_run-NextPost}
use voodoo_store.Jobs.Requests.{complete, MovePost, run_request}
use voodoo_store.Jobs.Requests.Effects.{run_request-MovePost}
use voodoo_store.Jobs.Invariant.{IsJobs, IsSound}
use voodoo_store.Jobs.Calls.{Call, submit, claim, FitsSpec, run_calls}
use voodoo_store.Jobs.Calls.Sound.{run_calls-IsSound}

instance abbrev platform : Platform
platform = length_platform

abbrev id : Bytes
id = 7 ∷ 7 ∷ 7 ∷ 7 ∷ 7 ∷ 7 ∷ 7 ∷ 7 ∷ 7 ∷ 7 ∷ 7 ∷ 7 ∷ 7 ∷ 7 ∷ 7 ∷ 7 ∷ []

abbrev job : DurableJob
job = record {
  id = id;
  state = leased;
  handler = b'h' ∷ [];
  payload = [];
  available_at_ms = pos 0;
  deadline_ms = none;
  priority = pos 0;
  attempts = 3;
  max_attempts = 5;
  retry_backoff_ms = 1000;
  lease_until_ms = pos 50;
  lease_generation = 3;
  idempotency_key = none;
}

retry_delay_ms-DelayPost_example : DelayPost 3000 (retry_delay_ms job)
retry_delay_ms-DelayPost_example = retry_delay_ms-DelayPost job

job-FitsJob : FitsJob job
job-FitsJob = record {
  id = omega arith;
  handler = omega arith;
  payload = omega arith;
  available_at_ms = omega arith;
  deadline_ms = tt;
  priority = omega arith;
  attempts = omega arith;
  max_attempts = omega arith;
  retry_backoff_ms = omega arith;
  lease_until_ms = omega arith;
  lease_generation = omega arith;
  idempotency_key = tt;
}

decode_job-encode_job_example : (encode_job job >>= decode_job) ≡ ok job
decode_job-encode_job_example = decode_job-encode_job job job-FitsJob

abbrev entry : JobHistoryEntry
entry = record { sequence = 3; at_ms = pos 100; kind = retry_scheduled; detail = 7 ∷ 8 ∷ [] }

entry-FitsEntry : FitsEntry entry
entry-FitsEntry = record { sequence = omega arith; at_ms = omega arith; detail = omega arith }

decode_history-encode_history_example : (encode_history entry >>= decode_history) ≡ ok entry
decode_history-encode_history_example = decode_history-encode_history entry entry-FitsEntry

abbrev spec : JobSpec
spec = record {
  handler = b'h' ∷ [];
  payload = 1 ∷ [];
  available_at_ms = pos 0;
  deadline_ms = none;
  priority = pos 0;
  max_attempts = 3;
  retry_backoff_ms = 1000;
  idempotency_key = none;
}

abbrev schedule : DurableSchedule
schedule = record { id = id; job = spec; mode = interval 100; next_run_ms = pos 50; enabled = true }

next_run-NextPost_example : NextPost (pos 250) schedule (interval 100) (next_run (pos 250) schedule)
next_run-NextPost_example = next_run-NextPost (pos 250) schedule (omega arith)

spec-FitsSpec : FitsSpec spec
spec-FitsSpec = record {
  available_at_ms = omega arith;
  deadline_ms = tt;
  priority = omega arith;
  max_attempts = omega arith;
  retry_backoff_ms = omega arith;
}

empty_store-IsJobs : IsJobs empty_store.state
unfolding voodoo_store.Map.get
empty_store-IsJobs = record { at = λ key value j prefixed found. absurd (none_ne_some found) }
  where
    none_ne_some : {v : Bytes} → ◌≢◌ {A = Option Bytes} none (some v)
    none_ne_some e = cc

-- A job is submitted and claimed.
abbrev calls : List Call
calls = submit (ok id) spec (pos 0) ∷ claim (pos 10) 50 [] ∷ []

id_length : (b : Bytes) → ◌≡◌ {A = Result JobError Bytes} (ok id) (ok b) → length b ≡ 16
id_length b e = ap length (sym (inner e))
  where
    inner : ◌≡◌ {A = Result JobError Bytes} (ok id) (ok b) → id ≡ b
    inner q = cc

run_calls-IsSound_example : IsSound (run_calls calls empty_store)
run_calls-IsSound_example =
    run_calls-IsSound calls empty_store ((id_length, spec-FitsSpec), (tt, tt))
      (empty_store-HasLog, empty_store-IsJobs)

abbrev claimed_store : Store
claimed_store = run_calls calls empty_store

run_request-MovePost_example :
    MovePost
      (complete 1)
      id
      (pos 20)
      claimed_store
      (run_request (complete 1) id (pos 20) claimed_store).0
      (run_request (complete 1) id (pos 20) claimed_store).1
run_request-MovePost_example =
    run_request-MovePost id (pos 20) claimed_store claimed_store-IsSound.0 (complete 1)
  where
    claimed_store-IsSound : IsSound claimed_store
    claimed_store-IsSound =
        run_calls-IsSound calls empty_store ((id_length, spec-FitsSpec), (tt, tt))
          (empty_store-HasLog, empty_store-IsJobs)
