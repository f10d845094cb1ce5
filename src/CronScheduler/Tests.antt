-- ===== src/CronScheduler/Tests.antt =====
-- Runs of cron_scheduler.rs.
use voodoo_store.Prelude.{length, ap, sym, inl, ◌≡◌, refl, true, none, some, arith}
use voodoo_store.Prelude.Int.{pos}
use voodoo_store.Result
use voodoo_store.Result.{Result, ok}
use voodoo_store.Bytes.{Bytes, codes}
use voodoo_store.Platform.{Platform, length_platform}
use voodoo_store.Engine.Tests.{empty_store, empty_store-HasLog}
use voodoo_store.Cron.Chars.{Text}
use voodoo_store.Cron.Utf8.{as_bytes, encode_char}
use voodoo_store.Cron.Utf8.RoundTrip.{AllScalar}
use voodoo_store.CronScheduler.{create_cron_schedule}
use voodoo_store.CronScheduler.Create.{CreatePost, create_cron_schedule-CreatePost}
use voodoo_store.Jobs.Record.{JobSpec}
use voodoo_store.Cron
use voodoo_store.CronScheduler.Record.{DurableCronSchedule, CronSchedulerError, encode_schedule}
use voodoo_store.CronScheduler.Decode.{decode_schedule}
use voodoo_store.CronScheduler.Fields.{FitsSpec}
use voodoo_store.CronScheduler.RoundTrip.{decode_schedule-encode_schedule}

abbrev spec : JobSpec
spec = record {
  handler = codes "digest";
  payload = codes "payload";
  available_at_ms = pos 0;
  deadline_ms = none;
  priority = pos 1;
  max_attempts = 3;
  retry_backoff_ms = 1000;
  idempotency_key = some (codes "k");
}

spec-FitsSpec : FitsSpec spec
spec-FitsSpec = record {
  handler = omega arith;
  payload = omega arith;
  available_at_ms = omega arith;
  deadline_ms = tt;
  priority = omega arith;
  max_attempts = omega arith;
  retry_backoff_ms = omega arith;
  idempotency_key = omega arith;
}

abbrev schedule : DurableCronSchedule
schedule = record {
  id = codes "0123456789abcdef";
  expression = codes "0 * * * *";
  job = spec;
  next_run_ms = pos 3600000;
  enabled = true;
  fire_count = 1;
  last_fired_at_ms = some (pos 0);
}

decode_schedule-encode_schedule_example :
    Result.◌>>=◌ (encode_schedule schedule) decode_schedule ≡ ok schedule
unfolding Cron.parse voodoo_store.Cron.Chars.is_whitespace voodoo_store.Cron.Chars.parse_u8
    voodoo_store.Cron.Chars.split voodoo_store.Cron.Chars.split_once
    voodoo_store.Cron.Chars.split_whitespace voodoo_store.Cron.Fields.allow
    voodoo_store.Cron.Fields.mark voodoo_store.Cron.Fields.parse voodoo_store.Cron.Fields.parse_part
    voodoo_store.Cron.Fields.parse_parts voodoo_store.Cron.Fields.parse_range
    voodoo_store.Cron.Fields.parse_step voodoo_store.Cron.Fields.parse_value
    voodoo_store.Cron.Utf8.from_utf8 voodoo_store.CronScheduler.Record.validate_job
decode_schedule-encode_schedule_example = decode_schedule-encode_schedule schedule (record {
  id = refl;
  expression = omega arith;
  text = codes "0 * * * *";
  is_text = refl;
  parsed = _;
  is_parsed = refl;
  job = spec-FitsSpec;
  is_valid = refl;
  next_run_ms = omega arith;
  fire_count = omega arith;
  last_fired_at_ms = omega arith;
})

instance abbrev platform : Platform
platform = length_platform

abbrev id : Bytes
id = codes "0123456789abcdef"

abbrev hourly : Text
hourly = codes "0 * * * *"

hourly-AllScalar : AllScalar hourly
hourly-AllScalar = (
  inl (omega arith),
  (
    inl (omega arith),
    (
      inl (omega arith),
      (
        inl (omega arith),
        (
          inl (omega arith),
          (inl (omega arith), (inl (omega arith), (inl (omega arith), (inl (omega arith), tt)))),
        ),
      ),
    ),
  ),
)

create_cron_schedule-CreatePost_example :
    CreatePost hourly spec
      (pos 0)
      empty_store
      (create_cron_schedule (ok id) hourly spec (pos 0) empty_store).0
      (create_cron_schedule (ok id) hourly spec (pos 0) empty_store).1
unfolding as_bytes encode_char
create_cron_schedule-CreatePost_example =
    create_cron_schedule-CreatePost hourly spec (pos 0) (ok id) empty_store empty_store-HasLog
      id_length hourly-AllScalar (omega arith) spec-FitsSpec (omega arith)
  where
    id_length :
        (b : Bytes) → ◌≡◌ {A = Result CronSchedulerError Bytes} (ok id) (ok b) → length b ≡ 16
    id_length b e = ap length (sym (inner e))
      where
        inner : ◌≡◌ {A = Result CronSchedulerError Bytes} (ok id) (ok b) → id ≡ b
        inner q = cc
