-- ===== src/CronScheduler/RoundTrip.antt =====
-- cron_scheduler.rs: decoding a whole schedule gives back what was encoded.
use voodoo_store.Prelude.{
  ℕ, ◌==◌, length-append, ◌^◌, ◌<◌, ◌≡◌, refl, sym, true, some, [], ◌∷◌, ◌++◌, length, arith,
}
use mathlib.Core.List.{append-nil}
use voodoo_store.Result
use voodoo_store.Result.{Result, ok}
use voodoo_store.Bytes.{Bytes, to_le_bytes, length-to_le_bytes}
use voodoo_store.Bytes.Words.{i64_half, Fits, to_bits}
use voodoo_store.Bytes.Cursor.{finished}
use voodoo_store.Bytes.Cursor.Reads.{
  Reads, Ends, Reads-bind, Ends-bind, Reads-nothing, take_u8-Reads, take_u64-Reads,
  take_field-Reads, take_bytes-Reads,
}
use voodoo_store.Cron
use voodoo_store.Cron.{CronExpression}
use voodoo_store.Cron.Chars.{Text}
use voodoo_store.Cron.Utf8.{from_utf8}
use voodoo_store.CronScheduler.Record.{
  DurableCronSchedule, corrupt_record, validate_job, i64_bytes, time_bytes, bool_byte,
  encode_schedule,
}
use voodoo_store.CronScheduler.Decode.{checked, take_schedule, decode_schedule, take_version}
use voodoo_store.CronScheduler.Fields.{
  take_i64-Reads, FitsTime, take_time-Reads, field_bytes, take_bool-Reads, write_bytes_lem,
  FitsSpec, job_chunk, encode_job_spec_lem, decode_job_spec-Reads, length-time_bytes,
  length-field_bytes, length-job_chunk,
}

-- A schedule as the operations make it: the fields fit their machine types, the expression is a text
-- that parses, and the job is one that may be submitted.
pub record FitsSchedule (s : DurableCronSchedule) : Type 0 where
  pub id : length s.id ≡ 16
  pub expression : length s.expression < 2 ^ 32
  pub text : Text
  pub is_text : from_utf8 s.expression ≡ some text
  pub parsed : CronExpression
  pub is_parsed : Cron.parse text ≡ ok parsed
  pub job : FitsSpec s.job
  pub is_valid : validate_job s.job ≡ ok tt
  pub next_run_ms : Fits i64_half s.next_run_ms
  pub fire_count : s.fire_count < 2 ^ 64
  pub last_fired_at_ms : FitsTime s.last_fired_at_ms

-- The fields behind the job.
abbrev tail : DurableCronSchedule → Bytes → Bytes
tail s rest =
    i64_bytes s.next_run_ms
    ++ ((bool_byte s.enabled ∷ [])
        ++ (to_le_bytes 8 s.fire_count ++ (time_bytes s.last_fired_at_ms ++ rest)))

abbrev layout : DurableCronSchedule → Bytes → Bytes
layout s rest = (1 ∷ []) ++ (s.id ++ (field_bytes s.expression ++ (job_chunk s.job ++ tail s rest)))

module _ (s : DurableCronSchedule) (f : FitsSchedule s) where
  encode_schedule_lem : encode_schedule s ≡ ok (layout s [])
  unfolding encode_schedule
  encode_schedule_lem =
      rw
        (
          write_bytes_lem s.expression f.expression,
          encode_job_spec_lem s.job f.job,
          append-nil (time_bytes s.last_fired_at_ms),
        )
        refl

  checked-Ends : Ends (checked s) [] s
  unfolding checked finished
  checked-Ends = record {
    at = λ read h.
        let e : length read ≡ length (read ++ []) = omega (arith, length-append read []) in
        rw (eqb_of e, f.is_text, f.is_parsed, f.is_valid) refl;
  }
    where
      eqb_of : {a b : ℕ} → a ≡ b → (a == b) ≡ true
      eqb_of e = ground arith

  take_schedule-Ends : Ends take_schedule (layout s []) s
  unfolding take_schedule
  take_schedule-Ends = Ends-bind _ version_read (
      Ends-bind _ (take_bytes-Reads corrupt_record s.id 16 (sym f.id)) (
        Ends-bind _ (take_field-Reads corrupt_record s.expression f.expression) (
          Ends-bind _ (decode_job_spec-Reads s.job f.job) (
            Ends-bind _ (take_i64-Reads s.next_run_ms f.next_run_ms) (
              Ends-bind _ (take_bool-Reads s.enabled) (
                Ends-bind _ (take_u64-Reads corrupt_record s.fire_count f.fire_count) (
                  Ends-bind _ (take_time-Reads s.last_fired_at_ms f.last_fired_at_ms)
                    checked-Ends)))))))
    where
      version_read : Reads take_version (1 ∷ []) tt
      version_read = Reads-bind _ (take_u8-Reads corrupt_record 1) (Reads-nothing tt)

  length-layout : length (layout s []) < 2 ^ 64
  length-layout =
      let times = time_bytes s.last_fired_at_ms ++ [] in
      let count = to_le_bytes 8 s.fire_count ++ times in
      let field = field_bytes s.expression in
      omega (
        arith,
        f.id,
        f.expression,
        length-append (time_bytes s.last_fired_at_ms) [],
        length-append (to_le_bytes 8 s.fire_count) times,
        length-append (i64_bytes s.next_run_ms) (bool_byte s.enabled ∷ count),
        length-append (job_chunk s.job) (tail s []),
        length-append field (job_chunk s.job ++ tail s []),
        length-append s.id (field ++ (job_chunk s.job ++ tail s [])),
        length-field_bytes s.expression,
        length-job_chunk s.job f.job,
        length-time_bytes s.last_fired_at_ms,
        length-to_le_bytes 8 s.fire_count,
        length-to_le_bytes 8 (to_bits i64_half s.next_run_ms),
      )

  -- A cron schedule whose fields fit their machine types, with an id of 16 bytes, an expression that
  -- is UTF-8 and parses, and a job with a handler and an attempt, is encoded, and decoding the bytes
  -- gives the schedule.
  pub decode_schedule-encode_schedule : Result.◌>>=◌ (encode_schedule s) decode_schedule ≡ ok s
  unfolding decode_schedule
  decode_schedule-encode_schedule = rw encode_schedule_lem (take_schedule-Ends.at [] length-layout)
