-- ===== src/CronScheduler/Decode.antt =====
-- cron_scheduler.rs: the decoder of schedules.
use voodoo_store.Prelude.{ℕ, Bool, true, false, not, Option, none, some, ◌==◌, if◌then◌else◌}
use voodoo_store.Prelude.Int.{ℤ}
use voodoo_store.Result.{Result, ok, err, ok_or, fail_if, map_err}
use voodoo_store.Exec.{pure, raise, lift, gets, ◌>>=◌, ◌>>◌}
use voodoo_store.Bytes.{Bytes, from_le_bytes}
use voodoo_store.Bytes.Words.{i32_half, i64_half, from_bits}
use voodoo_store.Bytes.Cursor
use voodoo_store.Bytes.Cursor.{finished}
use voodoo_store.Jobs.Record.{JobSpec}
use voodoo_store.Cron
use voodoo_store.Cron.Utf8.{from_utf8}
use voodoo_store.CronScheduler.Record.{
  DurableCronSchedule, CronSchedulerError, corrupt_record, invalid_utf8, cron, version,
  validate_job,
}

abbrev pub Decoder : Type 0 → Type 0
Decoder A = Cursor.Decoder CronSchedulerError A

abbrev pub take_u8 : Decoder ℕ
take_u8 = Cursor.take_u8 corrupt_record

abbrev pub take_u32 : Decoder ℕ
take_u32 = Cursor.take_u32 corrupt_record

abbrev pub take_u64 : Decoder ℕ
take_u64 = Cursor.take_u64 corrupt_record

abbrev pub take_bytes : ℕ → Decoder Bytes
take_bytes = Cursor.take_bytes corrupt_record

abbrev pub take_field : Decoder Bytes
take_field = Cursor.take_field corrupt_record

unfoldable pub take_i32 : Decoder ℤ
take_i32 = do value ← take_bytes 4; pure (from_bits i32_half (from_le_bytes value))

unfoldable pub take_i64 : Decoder ℤ
take_i64 = do value ← take_bytes 8; pure (from_bits i64_half (from_le_bytes value))

-- A value behind a byte that tells whether it is there.
unfoldable pub when_there : {A : Type 0} → Decoder A → ℕ → Decoder (Option A)
when_there value n =
    if n == 0
    then pure none
    else if n == 1
    then value >>= (λ a. pure (some a))
    else raise corrupt_record

abbrev pub take_option : {A : Type 0} → Decoder A → Decoder (Option A)
take_option value = take_u8 >>= when_there value

unfoldable pub bool_of : ℕ → Result CronSchedulerError Bool
bool_of n = if n == 0 then ok false else if n == 1 then ok true else err corrupt_record

abbrev pub take_bool : Decoder Bool
take_bool = take_u8 >>= λ n. lift (bool_of n)

unfoldable pub decode_job_spec : Decoder JobSpec
decode_job_spec = do
  handler ← take_field
  payload ← take_field
  available_at_ms ← take_i64
  deadline_ms ← take_option take_i64
  priority ← take_i32
  max_attempts ← take_u32
  retry_backoff_ms ← take_u64
  idempotency_key ← take_option take_field
  pure (record {
    handler = handler;
    payload = payload;
    available_at_ms = available_at_ms;
    deadline_ms = deadline_ms;
    priority = priority;
    max_attempts = max_attempts;
    retry_backoff_ms = retry_backoff_ms;
    idempotency_key = idempotency_key;
  })

abbrev pub take_version : Decoder (Unit {0})
take_version = take_u8 >>= λ n. lift (fail_if (not (n == version)) corrupt_record)

-- The tests behind the last field.
unfoldable pub checked : DurableCronSchedule → Decoder DurableCronSchedule
checked schedule = do
  all ← gets finished
  lift (fail_if (not all) corrupt_record)
  expression_str ← lift (ok_or (from_utf8 schedule.expression) invalid_utf8)
  expression ← lift (map_err cron (Cron.parse expression_str))
  lift (validate_job schedule.job)
  pure schedule

unfoldable pub take_schedule : Decoder DurableCronSchedule
unfolding checked
take_schedule = do
  take_version
  id ← take_bytes 16
  expression ← take_field
  job ← decode_job_spec
  next_run_ms ← take_i64
  enabled ← take_bool
  fire_count ← take_u64
  last_fired_at_ms ← take_option take_i64
  checked (record {
    id = id;
    expression = expression;
    job = job;
    next_run_ms = next_run_ms;
    enabled = enabled;
    fire_count = fire_count;
    last_fired_at_ms = last_fired_at_ms;
  })

unfoldable pub decode_schedule : Bytes → Result CronSchedulerError DurableCronSchedule
unfolding take_schedule
decode_schedule bytes = (take_schedule (record { bytes = bytes; pos = 0 })).0
