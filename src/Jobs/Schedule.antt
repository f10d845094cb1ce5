-- ===== src/Jobs/Schedule.antt =====
-- jobs.rs: schedules and their encoding.
use voodoo_store.Prelude.{
  ℕ, ◌+◌, Bool, true, false, not, ◌||◌, [], ◌∷◌, ◌++◌, length, ltb, ◌==◌, if◌then◌else◌,
}
use voodoo_store.Prelude.Int.{ℤ, pos}
use voodoo_store.Result.{Result, ok, err, fail_if, ◌>>=◌, ◌>>◌}
use voodoo_store.Bytes.{Bytes, to_le_bytes, from_le_bytes, slice}
use voodoo_store.Bytes.Words.{i64_half, to_bits, from_bits}
use voodoo_store.Log.{byte_at}
use voodoo_store.Jobs.Record.{ready, JobError, corrupt_record, JobSpec, DurableJob}
use voodoo_store.Jobs.Fields.{version, append_len, read_len}
use voodoo_store.Jobs.Codec.{encode_job, decode_job}

pub data ScheduleMode : Type 0 where
  once : ScheduleMode
  interval : ℕ → ScheduleMode

pub record DurableSchedule : Type 0 where
  pub id : Bytes
  pub job : JobSpec
  pub mode : ScheduleMode
  pub next_run_ms : ℤ
  pub enabled : Bool

abbrev pub zero_id : Bytes
zero_id = 0 ∷ 0 ∷ 0 ∷ 0 ∷ 0 ∷ 0 ∷ 0 ∷ 0 ∷ 0 ∷ 0 ∷ 0 ∷ 0 ∷ 0 ∷ 0 ∷ 0 ∷ 0 ∷ []

-- The job that `encode_schedule` encodes the specification as.
abbrev pub template : JobSpec → DurableJob
template spec = record {
  id = zero_id;
  state = ready;
  handler = spec.handler;
  payload = spec.payload;
  available_at_ms = spec.available_at_ms;
  deadline_ms = spec.deadline_ms;
  priority = spec.priority;
  attempts = 0;
  max_attempts = spec.max_attempts;
  retry_backoff_ms = spec.retry_backoff_ms;
  lease_until_ms = pos 0;
  lease_generation = 0;
  idempotency_key = spec.idempotency_key;
}

-- The specification that `decode_schedule` takes from the template.
abbrev pub spec_of : DurableJob → JobSpec
spec_of job = record {
  handler = job.handler;
  payload = job.payload;
  available_at_ms = job.available_at_ms;
  deadline_ms = job.deadline_ms;
  priority = job.priority;
  max_attempts = job.max_attempts;
  retry_backoff_ms = job.retry_backoff_ms;
  idempotency_key = job.idempotency_key;
}

abbrev pub encode_mode : ScheduleMode → Bytes
encode_mode once = 0 ∷ []
encode_mode (interval every_ms) = 1 ∷ to_le_bytes 8 every_ms

-- `u8::from(bool)`
abbrev pub bool_byte : Bool → ℕ
bool_byte false = 0
bool_byte true = 1

unfoldable pub encode_schedule : DurableSchedule → Result JobError Bytes
encode_schedule schedule = do
  job ← encode_job (template schedule.job)
  chunk ← append_len job
  ok (
      version
      ∷ (schedule.id
          ++ bool_byte schedule.enabled
            ∷ (to_le_bytes 8 (to_bits i64_half schedule.next_run_ms)
                ++ (encode_mode schedule.mode ++ chunk))))

unfoldable pub bool_of_byte : ℕ → Result JobError Bool
bool_of_byte value =
    if value == 0 then ok false else if value == 1 then ok true else err corrupt_record

-- The mode, and the cursor behind it.
unfoldable pub decode_interval : Bytes → ℕ → Result JobError (ScheduleMode × ℕ)
decode_interval bytes cursor = do
  fail_if (ltb (length bytes) (cursor + 8)) corrupt_record
  let every_ms = from_le_bytes (slice cursor (cursor + 8) bytes)
  fail_if (every_ms == 0) corrupt_record
  ok (interval every_ms, cursor + 8)

unfoldable pub decode_mode : Bytes → ℕ → Result JobError (ScheduleMode × ℕ)
unfolding decode_interval
decode_mode bytes mode_tag =
    if mode_tag == 0
    then ok (once, 27)
    else if mode_tag == 1
    then decode_interval bytes 27
    else err corrupt_record

unfoldable pub decode_schedule : Bytes → Result JobError DurableSchedule
decode_schedule bytes = do
  fail_if (ltb (length bytes) 27 || not (byte_at bytes 0 == version)) corrupt_record
  enabled ← bool_of_byte (byte_at bytes 17)
  (mode, cursor) ← decode_mode bytes (byte_at bytes 26)
  (encoded_job, end) ← read_len bytes cursor
  fail_if (not (end == length bytes)) corrupt_record
  job ← decode_job encoded_job
  ok (record {
    id = slice 1 17 bytes;
    job = spec_of job;
    mode = mode;
    next_run_ms = from_bits i64_half (from_le_bytes (slice 18 26 bytes));
    enabled = enabled;
  })
