-- ===== src/Jobs/Advance.antt =====
-- jobs.rs: when a schedule runs next, and the job that it makes.
pub mod Loop
use voodoo_store.Prelude.{
  ℕ, zero, suc, ◌++◌, Bool, true, false, not, ◌&&◌, Option, none, some, if◌then◌else◌,
}
use voodoo_store.Prelude.Int.{ℤ, pos, pos_part, ◌-ℤ◌, ltb_ℤ, leb_ℤ}
use voodoo_store.Result.{Result, ok, err, ok_or, ◌>>=◌}
use voodoo_store.Bytes.{Bytes, to_be_bytes}
use voodoo_store.Bytes.Words.{checked_add_i64, to_i64, to_bits, i64_half}
use voodoo_store.Jobs.Record.{JobError, time_overflow, JobSpec}
use voodoo_store.Jobs.Schedule.{ScheduleMode, once, interval, DurableSchedule}

-- `while next <= now_ms { next = next.checked_add(every)? }`, on fuel.
unfoldable pub advance : ℕ → ℤ → ℤ → ℤ → Result JobError ℤ
advance zero now_ms every next = ok next
advance (suc fuel) now_ms every next = elim (leb_ℤ next now_ms) [
  | false ↦ ok next
  | true ↦ elim (checked_add_i64 next every) [
    | none ↦ err time_overflow
    | some later ↦ advance fuel now_ms every later
  ]
]

-- Each round adds a millisecond at least.
abbrev pub rounds : ℤ → ℤ → ℕ
rounds now_ms next = suc (pos_part (now_ms -ℤ next))

-- The `match` on the mode in `tick_schedules`.
unfoldable pub next_for : ℤ → DurableSchedule → ScheduleMode → Result JobError DurableSchedule
next_for now_ms schedule once = ok (record schedule { enabled = false })
next_for now_ms schedule (interval every_ms) = do
  every ← ok_or (to_i64 every_ms) time_overflow
  next ← advance (rounds now_ms schedule.next_run_ms) now_ms every schedule.next_run_ms
  ok (record schedule { next_run_ms = next })

unfoldable pub next_run : ℤ → DurableSchedule → Result JobError DurableSchedule
unfolding next_for
next_run now_ms schedule = next_for now_ms schedule schedule.mode

unfoldable pub is_due : ℤ → DurableSchedule → Bool
is_due now_ms schedule = schedule.enabled && not (ltb_ℤ now_ms schedule.next_run_ms)

-- `key.extend_from_slice(&scheduled_at.to_be_bytes())`
abbrev pub extended : ℤ → Option Bytes → Option Bytes
extended scheduled_at none = none
extended scheduled_at (some key) = some (key ++ to_be_bytes 8 (to_bits i64_half scheduled_at))

abbrev pub scheduled_spec : DurableSchedule → JobSpec
scheduled_spec schedule = record spec {
  available_at_ms = schedule.next_run_ms;
  idempotency_key = extended schedule.next_run_ms spec.idempotency_key;
}
  where
    spec : JobSpec
    spec = schedule.job
