-- ===== src/CronScheduler/Record.antt =====
-- cron_scheduler.rs: schedules, their keys and their encoding.
use voodoo_store.Prelude.{
  ℕ, Bool, true, false, ◌||◌, Option, none, some, [], ◌∷◌, ◌++◌, length, ◌==◌,
}
use voodoo_store.Prelude.Int.{ℤ}
use voodoo_store.Result.{Result, ok, ok_or, fail_if, ◌>>=◌}
use voodoo_store.Bytes.{Bytes, to_le_bytes, to_be_bytes, codes}
use voodoo_store.Bytes.Words.{i32_half, i64_half, to_bits, to_u32}
use voodoo_store.Engine.Payload.{EngineError}
use voodoo_store.Jobs.Record.{JobError, JobSpec}
use voodoo_store.Cron.Fields.{CronError}

pub record DurableCronSchedule : Type 0 where
  pub id : Bytes
  pub expression : Bytes
  pub job : JobSpec
  pub next_run_ms : ℤ
  pub enabled : Bool
  pub fire_count : ℕ
  pub last_fired_at_ms : Option ℤ

pub record CronTickReport : Type 0 where
  pub scanned : ℕ
  pub fired : ℕ

pub data CronSchedulerError : Type 0 where
  store : EngineError → CronSchedulerError
  job : JobError → CronSchedulerError
  cron : CronError → CronSchedulerError
  invalid_utf8 corrupt_record fire_count_overflow entropy_unavailable : CronSchedulerError

abbrev pub cron_prefix : Bytes
cron_prefix = 0xff ∷ codes "vds:cron:data:"

abbrev pub version : ℕ
version = 1

unfoldable pub cron_key : Bytes → Bytes
cron_key id = cron_prefix ++ id

unfoldable pub occurrence_key : Bytes → ℤ → Bytes
occurrence_key id scheduled_at_ms =
    codes "vds:cron:" ++ (id ++ to_be_bytes 8 (to_bits i64_half scheduled_at_ms))

abbrev pub is_empty : Bytes → Bool
is_empty [] = true
is_empty (b ∷ bs) = false

unfoldable pub validate_job : JobSpec → Result CronSchedulerError (Unit {0})
validate_job spec = fail_if (is_empty spec.handler || spec.max_attempts == 0) corrupt_record

-- What `write_bytes` appends.
unfoldable pub write_bytes : Bytes → Result CronSchedulerError Bytes
write_bytes value = do
  len ← ok_or (to_u32 (length value)) corrupt_record
  ok (to_le_bytes 4 len ++ value)

abbrev pub i64_bytes : ℤ → Bytes
i64_bytes z = to_le_bytes 8 (to_bits i64_half z)

-- The `match` on a time that may be missing.
abbrev pub time_bytes : Option ℤ → Bytes
time_bytes none = 0 ∷ []
time_bytes (some value) = 1 ∷ i64_bytes value

abbrev pub key_bytes : Option Bytes → Result CronSchedulerError Bytes
key_bytes none = ok (0 ∷ [])
key_bytes (some value) = write_bytes value >>= λ chunk. ok (1 ∷ chunk)

unfoldable pub encode_job_spec : JobSpec → Result CronSchedulerError Bytes
encode_job_spec spec = do
  handler ← write_bytes spec.handler
  payload ← write_bytes spec.payload
  key ← key_bytes spec.idempotency_key
  ok (
      handler
      ++ (payload
          ++ (i64_bytes spec.available_at_ms
              ++ (time_bytes spec.deadline_ms
                  ++ (to_le_bytes 4 (to_bits i32_half spec.priority)
                      ++ (to_le_bytes 4 spec.max_attempts
                          ++ (to_le_bytes 8 spec.retry_backoff_ms ++ key)))))))

abbrev pub bool_byte : Bool → ℕ
bool_byte false = 0
bool_byte true = 1

unfoldable pub encode_schedule : DurableCronSchedule → Result CronSchedulerError Bytes
encode_schedule schedule = do
  expression ← write_bytes schedule.expression
  spec ← encode_job_spec schedule.job
  ok (
      version
      ∷ (schedule.id
          ++ (expression
              ++ (spec
                  ++ (i64_bytes schedule.next_run_ms
                      ++ bool_byte schedule.enabled
                        ∷ (to_le_bytes 8 schedule.fire_count
                            ++ time_bytes schedule.last_fired_at_ms))))))
