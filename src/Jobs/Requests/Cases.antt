-- ===== src/Jobs/Requests/Cases.antt =====
-- jobs.rs: when a call finds its job held, and what a failure makes of it.
use voodoo_store.Prelude.{
  ℕ, ◌≡◌, ◌≢◌, refl, sym, ap, subst, ◌∙◌, inl, inr, true, false, Option, none, some, arith,
  Bool-cases, leb, leb→le, leb→lt,
}
use voodoo_store.Prelude.Int.{ℤ, pos, ◌+ℤ◌}
use voodoo_store.Result.{Result, ok, err, ok_or, ◌>>=◌, ◌>>◌, >>=-eq-ok}
use voodoo_store.Bytes.{Bytes}
use voodoo_store.Bytes.Words.{Fits, i64_half, fits, fits→Fits, checked_add_i64}
use voodoo_store.Engine.Payload.{State}
use voodoo_store.Jobs.Record.{
  JobError, not_found, time_overflow, DurableJob, validate_job_lease, retry_delay_ms, percent_of,
}
use voodoo_store.Jobs.History.{JobHistoryKind}
use voodoo_store.Jobs.Persist.{get_job}
use voodoo_store.Jobs.Transitions.{is_over, ready_at, is_held, failed, load_held}
use voodoo_store.Jobs.Requests.{Holds, Fails, IsOpen, IsEnded}

retry_delay_ms-ended :
    (job : DurableJob) (lease : ℤ)
    → retry_delay_ms (record job { lease_until_ms = lease }) ≡ retry_delay_ms job
unfolding retry_delay_ms percent_of
retry_delay_ms-ended job lease = refl

held_of :
    (generation : ℕ) (found : Option DurableJob) (job : DurableJob)
    → (ok_or found not_found >>= λ j. validate_job_lease j generation >> ok j) ≡ ok job
    → (found ≡ some job) × Holds generation job
unfolding validate_job_lease
held_of generation none job h = cc
held_of generation (some j) job h = ground arith

pub load_held-Holds :
    (id : Bytes) (generation : ℕ) (state : State) (job : DurableJob)
    → load_held id generation state ≡ ok job
    → (get_job id state ≡ ok (some job)) × Holds generation job
unfolding load_held
load_held-Holds id generation state job h =
    let (found, e, rest) = >>=-eq-ok (get_job id state) _ h in
    let (same, held) = held_of generation found job rest in
    (subst (λ x. get_job id state ≡ ok x) same e, held)

pub is_held-Holds : (job : DurableJob) (g : ℕ) → is_held job g ≡ true → Holds g job
unfolding is_held
is_held-Holds job g h = ground arith

pub not_held : (job : DurableJob) (g : ℕ) → is_held job g ≡ false → ¬ Holds g job
unfolding is_held
not_held job g h (st, e) = ground arith

pub alive-IsOpen : (job : DurableJob) → is_over job.state ≡ false → IsOpen job
alive-IsOpen job h = ground arith

pub over-IsEnded : (job : DurableJob) → is_over job.state ≡ true → IsEnded job
over-IsEnded job h = ground arith

ok_pair :
    {a b : DurableJob} {k l : JobHistoryKind}
    → ◌≡◌ {A = Result JobError (DurableJob × JobHistoryKind)} (ok (a, k)) (ok (b, l))
    → (b ≡ a) × (l ≡ k)
ok_pair h = (cc, cc)

pub added :
    (a b sum : ℤ)
    → ok_or (checked_add_i64 a b) time_overflow ≡ ok sum
    → (sum ≡ a +ℤ b) × Fits i64_half (a +ℤ b)
added a b sum h = elim (Bool-cases (fits i64_half (a +ℤ b))) [
  | inl fit ↦ (ok_same (sym h ∙ rw fit refl), fits→Fits i64_half (a +ℤ b) fit)
  | inr out ↦ absurd (err_not_ok (sym (rw out at h)))
]
  where
    ok_same : {x y : ℤ} → ◌≡◌ {A = Result JobError ℤ} (ok x) (ok y) → x ≡ y
    ok_same e = cc

    err_not_ok : {x : ℤ} {e : JobError} → ◌≢◌ {A = Result JobError ℤ} (ok x) (err e)
    err_not_ok e = cc

pub failed-Fails :
    (now_ms : ℤ) (job next : DurableJob) (kind : JobHistoryKind)
    → failed now_ms job ≡ ok (next, kind)
    → Fails now_ms job next kind
unfolding failed
failed-Fails now_ms job next kind h = elim (Bool-cases (leb job.max_attempts job.attempts)) [
  | inl last ↦
      let (n, k) = ok_pair (rw (last, failed) at h) in
      inl (leb→le job.max_attempts job.attempts last, n, k)
  | inr more ↦
      let (delay, e, rest) = >>=-eq-ok (retry_delay_ms _) _ (rw (more, failed) at h) in
      let (at, sum, last) = >>=-eq-ok (ok_or (checked_add_i64 now_ms delay) time_overflow) _ rest in
      let (same, fit) = added now_ms delay at sum in
      let (n, k) = ok_pair last in
      inr (
        leb→lt job.max_attempts job.attempts more,
        (delay, sym (retry_delay_ms-ended job (pos 0)) ∙ e, fit, n ∙ ap (λ x. ready_at x job) same),
        k,
      )
]
