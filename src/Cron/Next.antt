-- ===== src/Cron/Next.antt =====
-- cron.rs: the search for the next time finds the first one that matches.
use voodoo_store.Prelude.{
  ℕ, zero, suc, ◌+◌, ◌*◌, ◌/◌, ◌<◌, ◌≡◌, refl, subst, ◌∙◌, sym, ◌⊎◌, inl, inr, true, false, arith,
  Bool-cases,
}
use voodoo_store.Prelude.Int.{
  ℤ, pos, negsuc, pos_part, neg_part, ◌+ℤ◌, ◌*ℤ◌, ◌<ℤ◌, ◌≤ℤ◌, div_euclid, +ℤ_parts,
}
use voodoo_store.Prelude.Int.Steps.{
  run_at, run_at-zero, run_at-suc, run_at-one, all_times, first_time,
}
use voodoo_store.Result.{Result, ok, err, ◌>>=◌}
use voodoo_store.Bytes.Words.{fits→Fits, fits, Fits, i64_half}
use voodoo_store.Cron.{
  CronExpression, minute_ms, max_minutes, matches_utc_ms, search_from, base_after,
  next_after_utc_ms,
}
use voodoo_store.Cron.Fields.{CronError, time_overflow, invalid_field, invalid_field_count}

-- A search of some rounds from a time on: the first minute that matches, or the reason for none.
abbrev pub SearchPost : CronExpression → ℤ → ℕ → Result CronError ℤ → Type 0
SearchPost cron base rounds (ok time) =
    (k : ℕ) × (k < rounds)
    × (time ≡ run_at base minute_ms k)
    × (matches_utc_ms cron time ≡ true)
    × ((j : ℕ) → j < k → matches_utc_ms cron (run_at base minute_ms j) ≡ false)
SearchPost cron base rounds (err time_overflow) =
    (k : ℕ) × (k < rounds)
    × (fits i64_half (run_at base minute_ms (suc k)) ≡ false)
    × ((j : ℕ) → j < suc k → matches_utc_ms cron (run_at base minute_ms j) ≡ false)
SearchPost cron base rounds (err (invalid_field _)) =
    (j : ℕ) → j < rounds → matches_utc_ms cron (run_at base minute_ms j) ≡ false
SearchPost cron base rounds (err invalid_field_count) = ⊥

module _ (cron : CronExpression) where
  Misses : ℤ → Type 0
  Misses time = matches_utc_ms cron time ≡ false

  later_search :
      (base : ℤ) (rounds : ℕ) (r : Result CronError ℤ)
      → Misses base
      → SearchPost cron (base +ℤ pos minute_ms) rounds r
      → SearchPost cron base (suc rounds) r
  unfolding Misses
  later_search base rounds (ok time) first (k, below, e, hit, rest) = (
    suc k,
    omega (arith, below),
    e ∙ run_at-suc base minute_ms k,
    hit,
    all_times Misses minute_ms base k first rest,
  )
  later_search base rounds (err time_overflow) first (k, below, out, rest) = (
    suc k,
    omega (arith, below),
    subst (λ z. fits i64_half z ≡ false) (run_at-suc base minute_ms (suc k)) out,
    all_times Misses minute_ms base (suc k) first rest,
  )
  later_search base rounds (err (invalid_field _)) first rest =
      all_times Misses minute_ms base rounds first rest
  later_search base rounds (err invalid_field_count) first rest = elim rest [ ]

  search_hit :
      (rounds : ℕ) (base : ℤ)
      → matches_utc_ms cron base ≡ true
      → search_from (suc rounds) cron base ≡ ok base
  unfolding search_from
  search_hit rounds base hit = rw (hit, search_from) refl

  module _ (rounds : ℕ) (base : ℤ) (miss : matches_utc_ms cron base ≡ false) where
    search_out :
        fits i64_half (base +ℤ pos minute_ms) ≡ false
        → search_from (suc rounds) cron base ≡ err time_overflow
    unfolding search_from
    search_out out = rw (miss, out, search_from) refl

    search_on :
        fits i64_half (base +ℤ pos minute_ms) ≡ true
        → search_from (suc rounds) cron base ≡ search_from rounds cron (base +ℤ pos minute_ms)
    unfolding search_from
    search_on fit = rw (miss, fit, search_from) refl

  search_from-SearchPost :
      (rounds : ℕ) (base : ℤ) → SearchPost cron base rounds (search_from rounds cron base)
  unfolding search_from Misses
  search_from-SearchPost zero base = λ j h. absurd (omega (arith, h))
  search_from-SearchPost (suc rounds) base = elim (Bool-cases (matches_utc_ms cron base)) [
    | inl hit ↦
        rw (search_hit rounds base hit)
          (0, omega arith, sym (run_at-zero base minute_ms), hit, λ j h. absurd (omega (arith, h)))
    | inr miss ↦ elim (Bool-cases (fits i64_half (base +ℤ pos minute_ms))) [
      | inr out ↦ rw (search_out rounds base miss out) (
        0,
        omega arith,
        subst (λ z. fits i64_half z ≡ false) (sym (run_at-one base minute_ms)) out,
        (λ j h. first_time Misses minute_ms base miss j (omega (arith, h))),
      )
      | inl fit ↦
          rw (search_on rounds base miss fit) (
            later_search base rounds _ miss (search_from-SearchPost rounds (base +ℤ pos minute_ms)))
    ]
  ]

abbrev pub first_minute : ℤ → ℤ
first_minute after_ms = (div_euclid after_ms minute_ms +ℤ pos 1) *ℤ pos minute_ms

times_minute :
    (a : ℤ)
    → pos_part (a *ℤ pos minute_ms) + minute_ms * neg_part a
      ≡ neg_part (a *ℤ pos minute_ms) + minute_ms * pos_part a
unfolding ◌*ℤ◌
times_minute a = ground arith

-- The first minute is after the time, by at most a minute.
first_minute_between :
    (after_ms : ℤ)
    → (after_ms <ℤ first_minute after_ms) × (first_minute after_ms ≤ℤ after_ms +ℤ pos minute_ms)
unfolding div_euclid
first_minute_between (pos n) =
    let q = +ℤ_parts (pos (n / minute_ms)) (pos 1) in
    let t = times_minute (pos (n / minute_ms) +ℤ pos 1) in
    let s = +ℤ_parts (pos n) (pos minute_ms) in (omega (arith, q, t, s), omega (arith, q, t, s))
first_minute_between (negsuc n) =
    let q = +ℤ_parts (negsuc (n / minute_ms)) (pos 1) in
    let t = times_minute (negsuc (n / minute_ms) +ℤ pos 1) in
    let s = +ℤ_parts (negsuc n) (pos minute_ms) in (omega (arith, q, t, s), omega (arith, q, t, s))

-- The first whole minute after a time.
abbrev pub IsFirst : ℤ → ℤ → Type 0
IsFirst after_ms base =
    (after_ms <ℤ base)
    × (base ≤ℤ after_ms +ℤ pos minute_ms)
    × ((minute : ℤ) × (base ≡ minute *ℤ pos minute_ms))

-- The search starts at the first minute after the time, unless that is no i64.
abbrev pub NextPost : CronExpression → ℤ → ℕ → Result CronError ℤ → Type 0
NextPost cron after_ms rounds r =
    (base : ℤ) × IsFirst after_ms base
    × (((fits i64_half base ≡ true) × SearchPost cron base rounds r)
        ⊎ ((fits i64_half base ≡ false) × (r ≡ err time_overflow)))

minute_fits :
    (after_ms : ℤ)
    → Fits i64_half after_ms
    → fits i64_half (div_euclid after_ms minute_ms +ℤ pos 1) ≡ true
unfolding div_euclid ◌+ℤ◌
minute_fits (pos n) h = ground arith
minute_fits (negsuc n) h = ground arith

module _ (after_ms : ℤ) (fit : Fits i64_half after_ms) where
  base_fits :
      fits i64_half (first_minute after_ms) ≡ true
      → base_after after_ms ≡ ok (first_minute after_ms)
  unfolding base_after
  base_fits inside = rw (minute_fits after_ms fit, inside) refl

  base_out : fits i64_half (first_minute after_ms) ≡ false → base_after after_ms ≡ err time_overflow
  unfolding base_after
  base_out outside = rw (minute_fits after_ms fit, outside) refl

search_after-NextPost :
    (rounds : ℕ) (cron : CronExpression) (after_ms : ℤ)
    → Fits i64_half after_ms
    → NextPost cron after_ms rounds (base_after after_ms >>= search_from rounds cron)
search_after-NextPost rounds cron after_ms fit = (
  first_minute after_ms,
  (after, within, (div_euclid after_ms minute_ms +ℤ pos 1, refl)),
  elim (Bool-cases (fits i64_half (first_minute after_ms))) [
    | inl inside ↦ inl (
      inside,
      rw (base_fits after_ms fit inside)
          (search_from-SearchPost cron rounds (first_minute after_ms)),
    )
    | inr outside ↦ inr (outside, rw (base_out after_ms fit outside) refl)
  ],
)
  where
    after : after_ms <ℤ first_minute after_ms
    after = (first_minute_between after_ms).0

    within : first_minute after_ms ≤ℤ after_ms +ℤ pos minute_ms
    within = (first_minute_between after_ms).1

search_from-fits :
    (rounds : ℕ) (cron : CronExpression) (base : ℤ) {time : ℤ}
    → fits i64_half base ≡ true
    → search_from rounds cron base ≡ ok time
    → fits i64_half time ≡ true
unfolding search_from
search_from-fits zero cron base inside = λ e. cc
search_from-fits (suc rounds) cron base {time} inside =
    elim (Bool-cases (matches_utc_ms cron base)) [
      | inl hit ↦
          rw (search_hit cron rounds base hit)
            (λ e. subst (λ z. fits i64_half z ≡ true) (same e) inside)
      | inr miss ↦ elim (Bool-cases (fits i64_half (base +ℤ pos minute_ms))) [
        | inr out ↦ rw (search_out cron rounds base miss out) (λ e. cc)
        | inl fit ↦
            rw (search_on cron rounds base miss fit)
              (λ e. search_from-fits rounds cron (base +ℤ pos minute_ms) fit e)
      ]
    ]
  where
    same : {x : ℤ} → ◌≡◌ {A = Result CronError ℤ} (ok x) (ok time) → x ≡ time
    same e = cc

search_after-fits :
    (rounds : ℕ) (cron : CronExpression) (after_ms : ℤ) {time : ℤ}
    → Fits i64_half after_ms
    → (base_after after_ms >>= search_from rounds cron) ≡ ok time
    → fits i64_half time ≡ true
search_after-fits rounds cron after_ms fit =
    elim (Bool-cases (fits i64_half (first_minute after_ms))) [
      | inl inside ↦
          rw (base_fits after_ms fit inside)
            (λ e. search_from-fits rounds cron (first_minute after_ms) inside e)
      | inr outside ↦ rw (base_out after_ms fit outside) (λ e. cc)
    ]

pub next_after_utc_ms-Fits :
    (cron : CronExpression) (after_ms : ℤ) {time : ℤ}
    → Fits i64_half after_ms
    → next_after_utc_ms cron after_ms ≡ ok time
    → Fits i64_half time
unfolding next_after_utc_ms
next_after_utc_ms-Fits cron after_ms {time} fit e =
    fits→Fits i64_half time (search_after-fits max_minutes cron after_ms fit e)

-- The next time of an expression is the first whole minute strictly after the given time that matches,
-- with none that matches before it. There is none only if no minute of the search horizon matches, or
-- no minute before the end of the i64 times.
pub next_after_utc_ms-NextPost :
    (cron : CronExpression) (after_ms : ℤ)
    → Fits i64_half after_ms
    → NextPost cron after_ms max_minutes (next_after_utc_ms cron after_ms)
unfolding next_after_utc_ms
next_after_utc_ms-NextPost = search_after-NextPost max_minutes
