-- ===== src/Jobs/Advance/Loop.antt =====
-- jobs.rs: the loop that moves an interval schedule on ends, behind the present and not too far.
use voodoo_store.Prelude.{
  ℕ, zero, suc, ◌+◌, ◌^◌, ◌⊎◌, ltb, ◌<◌, ◌≤◌, ◌≡◌, refl, sym, subst, ◌∙◌, inl, inr, true, false,
  arith, leb→le, ltb→le, Bool-cases,
}
use voodoo_store.Prelude.Int.{
  ℤ, pos, pos_part, neg_part, ◌+ℤ◌, ◌≤ℤ◌, ◌<ℤ◌, leb_ℤ, +ℤ_parts, -ℤ_parts,
}
use voodoo_store.Prelude.Int.Steps.{
  run_at, run_at-zero, run_at-suc, run_at-one, all_times, first_time,
}
use voodoo_store.Result.{Result, ok, err, ◌>>=◌}
use voodoo_store.Bytes.Words.{fits, i64_half}
use voodoo_store.Jobs.Record.{JobError, time_overflow}
use voodoo_store.Jobs.Schedule.{ScheduleMode, DurableSchedule, once, interval}
use voodoo_store.Jobs.Advance.{advance, rounds, next_for, next_run}

-- The first run behind the present, or an overflow on the way to it.
abbrev pub AdvancePost : ℤ → ℕ → ℤ → Result JobError ℤ → Type 0
AdvancePost now_ms every next (ok later) =
    (now_ms <ℤ later)
    × ((k : ℕ) × (later ≡ run_at next every k) × ((j : ℕ) → j < k → run_at next every j ≤ℤ now_ms))
AdvancePost now_ms every next (err error) =
    (error ≡ time_overflow)
    × ((k : ℕ) × ((j : ℕ) → j ≤ k → run_at next every j ≤ℤ now_ms)
        × (fits i64_half (run_at next every (suc k)) ≡ false))

advance-zero : (now_ms every next : ℤ) → advance zero now_ms every next ≡ ok next
unfolding advance
advance-zero now_ms every next = refl

module _ (fuel : ℕ) (now_ms every next : ℤ) where
  advance_past : leb_ℤ next now_ms ≡ false → advance (suc fuel) now_ms every next ≡ ok next
  unfolding advance
  advance_past past = rw (past, advance) refl

  advance_out :
      leb_ℤ next now_ms ≡ true
      → fits i64_half (next +ℤ every) ≡ false
      → advance (suc fuel) now_ms every next ≡ err time_overflow
  unfolding advance
  advance_out due out = rw (due, out, advance) refl

  advance_on :
      leb_ℤ next now_ms ≡ true
      → fits i64_half (next +ℤ every) ≡ true
      → advance (suc fuel) now_ms every next ≡ advance fuel now_ms every (next +ℤ every)
  unfolding advance
  advance_on due fit = rw (due, fit, advance) refl

module _ (now_ms : ℤ) (every : ℕ) where
  later_post :
      (next : ℤ) (r : Result JobError ℤ)
      → next ≤ℤ now_ms
      → AdvancePost now_ms every (next +ℤ pos every) r
      → AdvancePost now_ms every next r
  later_post next (ok later) first (past, (k, e, rest)) = (
    past,
    (suc k, e ∙ run_at-suc next every k, all_times (λ z. z ≤ℤ now_ms) every next k first rest),
  )
  later_post next (err error) first (e, (k, rest, out)) = (
    e,
    (
      suc k,
      (λ j h.
          all_times (λ z. z ≤ℤ now_ms) every next (suc k) first (λ i below. rest i (omega arith)) j
            (omega arith)),
      subst (λ z. fits i64_half z ≡ false) (run_at-suc next every (suc k)) out,
    ),
  )

  advance-AdvancePost :
      (fuel : ℕ) (next : ℤ)
      → 0 < every
      → pos_part now_ms + neg_part next < fuel + (pos_part next + neg_part now_ms)
      → AdvancePost now_ms every next (advance fuel now_ms (pos every) next)
  advance-AdvancePost zero next positive enough =
      rw (advance-zero now_ms (pos every) next)
        (omega (arith, enough), (0, sym (run_at-zero next every), λ j h. absurd (omega arith)))
  advance-AdvancePost (suc fuel) next positive enough = elim (Bool-cases (leb_ℤ next now_ms)) [
    | inr past ↦
        rw (advance_past fuel now_ms (pos every) next past)
          (lt past, (0, sym (run_at-zero next every), λ j h. absurd (omega arith)))
    | inl due ↦ elim (Bool-cases (fits i64_half (next +ℤ pos every))) [
      | inr out ↦ rw (advance_out fuel now_ms (pos every) next due out) (
        refl,
        (
          0,
          first_time (λ z. z ≤ℤ now_ms) every next (leb→le _ _ due),
          subst (λ z. fits i64_half z ≡ false) (sym (run_at-one next every)) out,
        ),
      )
      | inl fit ↦ rw (advance_on fuel now_ms (pos every) next due fit) (
          later_post next _ (leb→le _ _ due) (
            advance-AdvancePost fuel (next +ℤ pos every) positive
              (omega (arith, +ℤ_parts next (pos every), positive, enough))))
    ]
  ]
    where
      lt : leb_ℤ next now_ms ≡ false → now_ms <ℤ next
      lt h = ground arith

-- What the `match` on the mode makes of a schedule that is due.
abbrev pub NextPost : ℤ → DurableSchedule → ScheduleMode → Result JobError DurableSchedule → Type 0
NextPost now_ms schedule once r = r ≡ ok (record schedule { enabled = false })
NextPost now_ms schedule (interval every) (ok next) =
    (next ≡ record schedule { next_run_ms = next.next_run_ms })
    × AdvancePost now_ms every schedule.next_run_ms (ok next.next_run_ms)
NextPost now_ms schedule (interval every) (err error) =
    (2 ^ 63 ≤ every) ⊎ AdvancePost now_ms every schedule.next_run_ms (err error)

interval_post :
    (now_ms : ℤ) (schedule : DurableSchedule) (every : ℕ) (r : Result JobError ℤ)
    → AdvancePost now_ms every schedule.next_run_ms r
    → NextPost now_ms schedule
        (interval every)
        (r >>= λ next. ok (record schedule { next_run_ms = next }))
interval_post now_ms schedule every (ok next) p = (refl, p)
interval_post now_ms schedule every (err error) p = inr p

abbrev pub IsActiveMode : ScheduleMode → Type 0
IsActiveMode once = Unit
IsActiveMode (interval every) = 0 < every

next_for-NextPost :
    (now_ms : ℤ) (schedule : DurableSchedule) (mode : ScheduleMode)
    → IsActiveMode mode
    → NextPost now_ms schedule mode (next_for now_ms schedule mode)
unfolding next_for
next_for-NextPost now_ms schedule once positive = refl
next_for-NextPost now_ms schedule (interval every) positive =
    elim (Bool-cases (ltb every (2 ^ 63))) [
      | inl fit ↦ rw fit (
          interval_post now_ms schedule every _ (
            advance-AdvancePost now_ms every (rounds now_ms schedule.next_run_ms)
              schedule.next_run_ms positive (omega (arith, -ℤ_parts now_ms schedule.next_run_ms))))
      | inr large ↦ rw large (inl (ltb→le every (2 ^ 63) large))
    ]

-- A schedule that is due is moved on: one that runs once is disabled; one with an interval runs next
-- at the first of its times behind the present. It fails only if the interval is no i64, or a time on
-- the way is none; the loop of the code always ends.
pub next_run-NextPost :
    (now_ms : ℤ) (schedule : DurableSchedule)
    → IsActiveMode schedule.mode
    → NextPost now_ms schedule schedule.mode (next_run now_ms schedule)
unfolding next_run
next_run-NextPost now_ms schedule = next_for-NextPost now_ms schedule schedule.mode
