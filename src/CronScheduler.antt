-- ===== src/CronScheduler.antt =====
-- cron_scheduler.rs: the operations on cron schedules.
pub mod Record
pub mod Decode
pub mod Fields
pub mod RoundTrip
pub mod Create
mod Tests
use voodoo_store.Prelude.{
  ℕ, suc, Bool, true, false, not, ◌||◌, Option, none, some, List, [], ◌∷◌, length, ◌==◌,
}
use voodoo_store.Prelude.Int.{ℤ, ltb_ℤ}
use voodoo_store.Result.{Result, ok, err, ok_or, map_err}
use voodoo_store.Exec.{Exec, pure, lift, gets, ◌>>=◌, ◌>>◌, map_error}
use voodoo_store.Bytes.{Bytes}
use voodoo_store.Bytes.Words.{checked_add}
use voodoo_store.Platform.{Platform}
use voodoo_store.Map.{get, key_eq}
use voodoo_store.Engine.Payload.{State}
use voodoo_store.Engine.Store.{Store, scan_prefix}
use voodoo_store.Engine.Commit.{put_internal_key}
use voodoo_store.Jobs.Record.{JobError, JobSpec}
use voodoo_store.Jobs.Submit.{submit_job}
use voodoo_store.Cron
use voodoo_store.Cron.{CronExpression, next_after_utc_ms}
use voodoo_store.Cron.Chars.{Text}
use voodoo_store.Cron.Utf8.{as_bytes, from_utf8}
use voodoo_store.CronScheduler.Record.{
  DurableCronSchedule, CronTickReport, CronSchedulerError, store, job, cron, invalid_utf8,
  fire_count_overflow, cron_prefix, cron_key, occurrence_key, validate_job, encode_schedule,
}
use voodoo_store.CronScheduler.Decode.{decode_schedule}

-- `self.get(..).map(decode_schedule).transpose()`
abbrev pub decoded : Option Bytes → Result CronSchedulerError (Option DurableCronSchedule)
decoded none = ok none
decoded (some value) = elim (decode_schedule value) [
  | ok schedule ↦ ok (some schedule)
  | err error ↦ err error
]

unfoldable pub get_cron_schedule :
    Bytes → State → Result CronSchedulerError (Option DurableCronSchedule)
get_cron_schedule id state = decoded (get state (cron_key id))

-- `.map(|(_, value)| decode_schedule(&value)).collect::<Result<Vec<_>, _>>()`
unfoldable pub decode_all : State → Result CronSchedulerError (List DurableCronSchedule)
decode_all [] = ok []
decode_all ((key, value) ∷ entries) = elim (decode_schedule value) [
  | err error ↦ err error
  | ok schedule ↦ elim (decode_all entries) [
    | err error ↦ err error
    | ok schedules ↦ ok (schedule ∷ schedules)
  ]
]

-- `sort_unstable_by_key` on the next run leaves the order of equal ones open: it is an argument.
abbrev pub Sort : Type 0
Sort = List DurableCronSchedule → List DurableCronSchedule

abbrev pub sorted :
    Sort
    → Result CronSchedulerError (List DurableCronSchedule)
    → Result CronSchedulerError (List DurableCronSchedule)
sorted sort (ok schedules) = ok (sort schedules)
sorted sort (err error) = err error

unfoldable pub list_cron_schedules :
    Sort → State → Result CronSchedulerError (List DurableCronSchedule)
list_cron_schedules sort state = sorted sort (decode_all (scan_prefix state cron_prefix))

-- The specification of the job of one occurrence.
abbrev pub occurrence : DurableCronSchedule → JobSpec
occurrence schedule = record spec {
  available_at_ms = schedule.next_run_ms;
  idempotency_key = some (occurrence_key schedule.id schedule.next_run_ms);
}
  where
    spec : JobSpec
    spec = schedule.job

-- The schedule after an occurrence.
abbrev pub fired_once : ℕ → ℤ → DurableCronSchedule → DurableCronSchedule
fired_once fire_count next_run_ms schedule = record schedule {
  fire_count = fire_count;
  last_fired_at_ms = some schedule.next_run_ms;
  next_run_ms = next_run_ms;
}

unfoldable pub is_idle : ℤ → DurableCronSchedule → Bool
is_idle now_ms schedule = not schedule.enabled || ltb_ℤ now_ms schedule.next_run_ms

module _ ⦃d : Platform⦄ where
  -- `self.put_internal(cron_key(&id), encode_schedule(&schedule)?)?`
  abbrev pub save_schedule : Bytes → DurableCronSchedule → Exec Store CronSchedulerError (Unit {0})
  save_schedule id schedule = do
    value ← lift (encode_schedule schedule)
    map_error store (put_internal_key (cron_key id) value)

  unfoldable pub create_cron_schedule :
      Result CronSchedulerError Bytes → Text → JobSpec → ℤ → Exec Store CronSchedulerError Bytes
  create_cron_schedule random_id expression spec after_ms = do
    lift (validate_job spec)
    parsed ← lift (map_err cron (Cron.parse expression))
    id ← lift random_id
    next_run_ms ← lift (map_err cron (next_after_utc_ms parsed after_ms))
    save_schedule id (record {
      id = id;
      expression = as_bytes expression;
      job = spec;
      next_run_ms = next_run_ms;
      enabled = true;
      fire_count = 0;
      last_fired_at_ms = none;
    })
    pure id

  abbrev pub enable : Bytes → Bool → Option DurableCronSchedule → Exec Store CronSchedulerError Bool
  enable id enabled none = pure false
  enable id enabled (some schedule) =
      save_schedule id (record schedule { enabled = enabled }) >> pure true

  unfoldable pub set_cron_schedule_enabled : Bytes → Bool → Exec Store CronSchedulerError Bool
  set_cron_schedule_enabled id enabled = do
    current ← gets (λ s. get_cron_schedule id s.state)
    found ← lift current
    enable id enabled found

  -- The body of the loop of `tick_cron_schedules`, for a schedule that is due.
  unfoldable pub fire :
      Result JobError Bytes → ℤ → DurableCronSchedule → Exec Store CronSchedulerError (Unit {0})
  fire random_id now_ms schedule = do
    expression ← lift (ok_or (from_utf8 schedule.expression) invalid_utf8)
    parsed ← lift (map_err cron (Cron.parse expression))
    job_id ← map_error job (submit_job random_id (occurrence schedule) now_ms)
    fire_count ← lift (ok_or (checked_add schedule.fire_count 1) fire_count_overflow)
    next_run_ms ← lift (map_err cron (next_after_utc_ms parsed schedule.next_run_ms))
    save_schedule schedule.id (fired_once fire_count next_run_ms schedule)

  -- The loop over the schedules; `entropy n` is what the n-th call of `random_id` gives.
  unfoldable pub fire_all :
      (ℕ → Result JobError Bytes)
      → ℤ
      → ℕ
      → List DurableCronSchedule
      → ℕ
      → Exec Store CronSchedulerError ℕ
  unfolding fire
  fire_all entropy now_ms limit [] fired = pure fired
  fire_all entropy now_ms limit (schedule ∷ schedules) fired = elim (fired == limit) [
    | true ↦ pure fired
    | false ↦ elim (is_idle now_ms schedule) [
      | true ↦ fire_all entropy now_ms limit schedules fired
      | false ↦
          fire (entropy fired) now_ms schedule
          >> fire_all entropy now_ms limit schedules (suc fired)
    ]
  ]

  unfoldable pub tick_cron_schedules :
      Sort → (ℕ → Result JobError Bytes) → ℤ → ℕ → Exec Store CronSchedulerError CronTickReport
  unfolding fire_all
  tick_cron_schedules sort entropy now_ms limit = do
    listed ← gets (λ s. list_cron_schedules sort s.state)
    schedules ← lift listed
    fired ← fire_all entropy now_ms limit schedules 0
    pure (record { scanned = length schedules; fired = fired })
