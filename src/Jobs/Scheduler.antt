-- ===== src/Jobs/Scheduler.antt =====
-- jobs.rs: the operations on schedules.
use voodoo_store.Prelude.{
  ℕ, suc, Bool, true, false, Option, none, some, [], ◌∷◌, length, ◌==◌, if◌then◌else◌,
}
use voodoo_store.Prelude.Int.{ℤ}
use voodoo_store.Result.{Result, ok, err, fail_if}
use voodoo_store.Exec.{Exec, pure, lift, gets, ◌>>=◌, ◌>>◌, map_error}
use voodoo_store.Bytes.{Bytes, codes}
use voodoo_store.Platform.{Platform}
use voodoo_store.Map.{get, key_eq}
use voodoo_store.Engine.Payload.{State}
use voodoo_store.Engine.Store.{Store, scan_prefix}
use voodoo_store.Engine.Transaction.{Transaction, put_internal}
use voodoo_store.Engine.Commit.{transact_from, put_internal_key}
use voodoo_store.Jobs.Record.{
  JobError, store, invalid_schedule, JobSpec, validate_job_spec, build_job,
}
use voodoo_store.Jobs.Fields.{schedule_prefix, schedule_key}
use voodoo_store.Jobs.Persist.{put_with_history}
use voodoo_store.Jobs.Submit.{first_entry}
use voodoo_store.Jobs.Schedule.{
  ScheduleMode, once, interval, DurableSchedule, encode_schedule, decode_schedule,
}
use voodoo_store.Jobs.Advance.{next_run, is_due, scheduled_spec}

-- `matches!(mode, ScheduleMode::Interval { every_ms: 0 })`
abbrev pub is_idle : ScheduleMode → Bool
is_idle once = false
is_idle (interval every_ms) = every_ms == 0

abbrev pub decoded : Option Bytes → Result JobError (Option DurableSchedule)
decoded none = ok none
decoded (some value) = elim (decode_schedule value) [
  | ok schedule ↦ ok (some schedule)
  | err error ↦ err error
]

unfoldable pub get_schedule : Bytes → State → Result JobError (Option DurableSchedule)
get_schedule id state = decoded (get state (schedule_key id))

pub record SchedulerTickReport : Type 0 where
  pub scanned : ℕ
  pub fired : ℕ

module _ ⦃d : Platform⦄ where
  -- `self.put_internal(schedule_key(&id), encode_schedule(&schedule)?)?`
  abbrev pub save_schedule : Bytes → DurableSchedule → Exec Store JobError (Unit {0})
  save_schedule id schedule = do
    value ← lift (encode_schedule schedule)
    map_error store (put_internal_key (schedule_key id) value)

  unfoldable pub create_schedule :
      Result JobError Bytes → JobSpec → ScheduleMode → ℤ → Exec Store JobError Bytes
  create_schedule random_id job mode first_run_ms = do
    lift (validate_job_spec job)
    lift (fail_if (is_idle mode) invalid_schedule)
    id ← lift random_id
    save_schedule id
        (record { id = id; job = job; mode = mode; next_run_ms = first_run_ms; enabled = true })
    pure id

  abbrev pub enable : Bytes → Bool → Option DurableSchedule → Exec Store JobError Bool
  enable id enabled none = pure false
  enable id enabled (some schedule) =
      save_schedule id (record schedule { enabled = enabled }) >> pure true

  unfoldable pub set_schedule_enabled : Bytes → Bool → Exec Store JobError Bool
  set_schedule_enabled id enabled = do
    current ← gets (λ s. get_schedule id s.state)
    found ← lift current
    enable id enabled found

  -- `tx.put_internal(schedule_key(&schedule.id), encode_schedule(&schedule)?)?`
  abbrev pub put_schedule : DurableSchedule → Exec Transaction JobError (Unit {0})
  put_schedule schedule = do
    value ← lift (encode_schedule schedule)
    map_error store (put_internal (schedule_key schedule.id) value)

  -- The body of the loop of `tick_schedules`, for a schedule that is due.
  unfoldable pub fire : Result JobError Bytes → ℤ → DurableSchedule → Exec Store JobError (Unit {0})
  fire random_id now_ms schedule = do
    job ← lift (build_job random_id (scheduled_spec schedule))
    next ← lift (next_run now_ms schedule)
    transact_from store true
        (put_with_history job (first_entry now_ms (codes "scheduled")) >> put_schedule next)

  unfoldable pub fire_if_due :
      Result JobError Bytes → ℤ → ℕ → DurableSchedule → Exec Store JobError ℕ
  unfolding fire
  fire_if_due random_id now_ms fired schedule =
      if is_due now_ms schedule
      then fire random_id now_ms schedule >>= (λ _. pure (suc fired))
      else pure fired

  -- The loop over the schedules; `entropy n` is what the n-th call of `random_id` gives.
  unfoldable pub fire_schedules :
      (ℕ → Result JobError Bytes) → ℤ → ℕ → State → ℕ → Exec Store JobError ℕ
  unfolding fire_if_due
  fire_schedules entropy now_ms limit [] fired = pure fired
  fire_schedules entropy now_ms limit ((key, value) ∷ entries) fired = elim (fired == limit) [
    | true ↦ pure fired
    | false ↦ lift (decode_schedule value) >>= λ schedule.
        fire_if_due (entropy fired) now_ms fired schedule >>= λ fired'.
        fire_schedules entropy now_ms limit entries fired'
  ]

  unfoldable pub tick_schedules :
      (ℕ → Result JobError Bytes) → ℤ → ℕ → Exec Store JobError SchedulerTickReport
  unfolding fire_schedules
  tick_schedules entropy now_ms limit = do
    schedules ← gets (λ s. scan_prefix s.state schedule_prefix)
    fired ← fire_schedules entropy now_ms limit schedules 0
    pure (record { scanned = length schedules; fired = fired })
