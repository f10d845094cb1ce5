-- ===== src/Jobs/Retry.antt =====
-- jobs.rs: the bounds of the delay of a retry.
use voodoo_store.Prelude.{
  ℕ, ◌*◌, ◌/◌, ◌^◌, ◌≤◌, ◌≡◌, refl, max, arith, ltb, ltb→le, Bool-cases, inl, inr,
}
use voodoo_store.Prelude.Int.{ℤ, pos, negsuc}
use voodoo_store.Result.{Result, ok, err, ok_or, ◌>>=◌}
use voodoo_store.Jobs.Record.{DurableJob, JobError, time_overflow, percent_of, retry_delay_ms}
use voodoo_store.Bytes.Words.{checked_mul, to_i64}
use native.Mathlib.Nat.{mul-le-mul_left}

percent_of-bounds : (job : DurableJob) → (91 ≤ percent_of job) × (percent_of job ≤ 110)
unfolding percent_of
percent_of-bounds job = (omega arith, omega arith)

-- A delay of 91 to 110 per cent of `base`, or an overflow of a large one.
abbrev pub DelayPost : ℕ → Result JobError ℤ → Type 0
DelayPost base (ok (pos delay)) = (base * 91 / 100 ≤ delay) × (delay ≤ base * 110 / 100)
DelayPost base (ok (negsuc n)) = ⊥
DelayPost base (err error) = (error ≡ time_overflow) × (2 ^ 64 ≤ base * 110)

to_i64-DelayPost :
    (base jittered : ℕ)
    → base * 91 ≤ jittered
    → jittered ≤ base * 110
    → DelayPost base (ok_or (to_i64 (jittered / 100)) time_overflow)
to_i64-DelayPost base jittered low high = elim (Bool-cases (ltb (jittered / 100) (2 ^ 63))) [
  | inl small ↦ rw small (omega (arith, low), omega (arith, high))
  | inr large ↦ rw large (refl, omega (arith, high, ltb→le (jittered / 100) (2 ^ 63) large))
]

percent-DelayPost :
    (base percent : ℕ)
    → base * 91 ≤ base * percent
    → base * percent ≤ base * 110
    → DelayPost base (
        ok_or (checked_mul base percent) time_overflow >>= λ jittered.
        ok_or (to_i64 (jittered / 100)) time_overflow)
percent-DelayPost base percent low high = elim (Bool-cases (ltb (base * percent) (2 ^ 64))) [
  | inl small ↦ rw small (to_i64-DelayPost base (base * percent) low high)
  | inr large ↦ rw large (refl, omega (arith, high, ltb→le (base * percent) (2 ^ 64) large))
]

-- The delay of a retry is between 91 and 110 per cent of the product of the backoff and the number of
-- attempts, or with that number taken as one if it is zero; the only error is an overflow of the time,
-- and only where 110 times the product does not fit u64.
pub retry_delay_ms-DelayPost :
    (job : DurableJob) → DelayPost (job.retry_backoff_ms * max job.attempts 1) (retry_delay_ms job)
unfolding retry_delay_ms
retry_delay_ms-DelayPost job =
    let base = job.retry_backoff_ms * max job.attempts 1 in
    elim (Bool-cases (ltb base (2 ^ 64))) [
      | inl small ↦ rw small (
          percent-DelayPost base (percent_of job) (mul-le-mul_left base (percent_of-bounds job).0)
            (mul-le-mul_left base (percent_of-bounds job).1))
      | inr large ↦ rw large (refl, omega (arith, ltb→le base (2 ^ 64) large))
    ]
