-- ===== src/Jobs/Record.antt =====
-- jobs.rs: the data of jobs, and the tests on a specification and on a lease.
use voodoo_store.Prelude.{ℕ, ◌+◌, ◌%◌, ◌/◌, not, Option, none, [], ◌∷◌, max, ◌==◌}
use voodoo_store.Prelude.Int.{ℤ, pos}
use voodoo_store.Result.{Result, ok, err, ok_or, fail_if, ◌>>=◌, ◌>>◌}
use voodoo_store.Bytes.{Bytes}
use voodoo_store.Bytes.Words.{checked_mul, to_i64}
use voodoo_store.Engine.Payload.{EngineError}

pub data DurableJobState : Type 0 where
  ready leased completed dead cancelled : DurableJobState

pub data JobError : Type 0 where
  store : EngineError → JobError
  empty_handler invalid_max_attempts invalid_schedule field_too_large corrupt_record : JobError
  not_found not_leased : JobError
  lease_mismatch : ℕ → ℕ → JobError
  attempt_exhausted history_exhausted count_overflow time_overflow entropy_unavailable : JobError

pub record JobSpec : Type 0 where
  pub handler : Bytes
  pub payload : Bytes
  pub available_at_ms : ℤ
  pub deadline_ms : Option ℤ
  pub priority : ℤ
  pub max_attempts : ℕ
  pub retry_backoff_ms : ℕ
  pub idempotency_key : Option Bytes

pub record DurableJob : Type 0 where
  pub id : Bytes
  pub state : DurableJobState
  pub handler : Bytes
  pub payload : Bytes
  pub available_at_ms : ℤ
  pub deadline_ms : Option ℤ
  pub priority : ℤ
  pub attempts : ℕ
  pub max_attempts : ℕ
  pub retry_backoff_ms : ℕ
  pub lease_until_ms : ℤ
  pub lease_generation : ℕ
  pub idempotency_key : Option Bytes

-- `JobSpec::new`
unfoldable pub new : Bytes → Bytes → JobSpec
new handler payload = record {
  handler = handler;
  payload = payload;
  available_at_ms = pos 0;
  deadline_ms = none;
  priority = pos 0;
  max_attempts = 3;
  retry_backoff_ms = 1000;
  idempotency_key = none;
}

unfoldable pub validate_job_spec : JobSpec → Result JobError (Unit {0})
validate_job_spec spec = do
  elim spec.handler [ [] ↦ err empty_handler | b ∷ bs ↦ ok tt ]
  fail_if (spec.max_attempts == 0) invalid_max_attempts

unfoldable pub validate_job_lease : DurableJob → ℕ → Result JobError (Unit {0})
validate_job_lease job generation = elim job.state [
  | leased ↦
      fail_if (not (job.lease_generation == generation))
        (lease_mismatch job.lease_generation generation)
  | ready ↦ err not_leased
  | completed ↦ err not_leased
  | dead ↦ err not_leased
  | cancelled ↦ err not_leased
]

-- The job that `build_job` makes of a specification, with a random id.
unfoldable pub build_job : Result JobError Bytes → JobSpec → Result JobError DurableJob
build_job random_id spec = do
  validate_job_spec spec
  id ← random_id
  ok (record {
    id = id;
    state = ready;
    handler = spec.handler;
    payload = spec.payload;
    available_at_ms = spec.available_at_ms;
    deadline_ms = spec.deadline_ms;
    priority = spec.priority;
    attempts = 0;
    max_attempts = spec.max_attempts;
    retry_backoff_ms = spec.retry_backoff_ms;
    lease_until_ms = pos 0;
    lease_generation = 0;
    idempotency_key = spec.idempotency_key;
  })

-- The sum of the bytes of the id, on u8.
unfoldable pub sum_bytes : ℕ → Bytes → ℕ
sum_bytes acc [] = acc
sum_bytes acc (byte ∷ bytes) = sum_bytes ((acc + byte) % 256) bytes

unfoldable pub percent_of : DurableJob → ℕ
percent_of job = 91 + (sum_bytes 0 job.id + job.attempts % 256) % 256 % 20

unfoldable pub retry_delay_ms : DurableJob → Result JobError ℤ
retry_delay_ms job = do
  base ← ok_or (checked_mul job.retry_backoff_ms (max job.attempts 1)) time_overflow
  jittered ← ok_or (checked_mul base (percent_of job)) time_overflow
  ok_or (to_i64 (jittered / 100)) time_overflow
