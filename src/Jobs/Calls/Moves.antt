-- ===== src/Jobs/Calls/Moves.antt =====
-- jobs.rs: the moves of the state machine lead from good jobs to good jobs.
use voodoo_store.Prelude.{ℕ, ◌^◌, ◌<◌, ◌≤◌, ◌≡◌, refl, sym, subst, inl, inr, arith}
use voodoo_store.Prelude.Int.{ℤ, pos, ◌+ℤ◌}
use voodoo_store.Bytes.{Bytes}
use voodoo_store.Bytes.Words.{Fits, i64_half}
use voodoo_store.Jobs.Record.{ready, leased, dead, cancelled, DurableJob}
use voodoo_store.Jobs.History.{JobHistoryKind}
use voodoo_store.Jobs.Transitions.{leased_as, revived}
use voodoo_store.Jobs.Requests.{Request, complete, fail, release, retry, cancel, Fails, Moves}
use voodoo_store.Jobs.Invariant.{IsGood, StateGood, FitsJob-counters}
use voodoo_store.Jobs.Calls.Written.{ended-IsGood, ready_at-IsGood, completed-IsGood}

pub leased_as-IsGood :
    (job : DurableJob) (attempts : ℕ) (until : ℤ)
    → IsGood job
    → 0 < attempts
    → attempts ≤ job.max_attempts
    → attempts < 2 ^ 32
    → Fits i64_half until
    → IsGood (leased_as attempts until job)
leased_as-IsGood job attempts until g positive most small fit = record {
  fits =
      FitsJob-counters job leased job.available_at_ms attempts attempts until g.fits.available_at_ms
        small small fit g.fits;
  counters = (positive, most, refl);
}

revived-IsGood :
    (job : DurableJob) (now_ms : ℤ)
    → IsGood job
    → Fits i64_half now_ms
    → IsGood (revived now_ms job)
revived-IsGood job now_ms g fit = record {
  fits =
      FitsJob-counters job ready now_ms 0 0 (pos 0) fit (omega arith) (omega arith) (omega arith)
        g.fits;
  counters = (omega arith, refl);
}

-- Another end of the lease of a job that is leased.
pub extended-IsGood :
    (job : DurableJob) (until : ℤ)
    → IsGood job
    → job.state ≡ leased
    → Fits i64_half until
    → IsGood (record job { lease_until_ms = until })
extended-IsGood job until g e fit = record {
  fits =
      FitsJob-counters job job.state job.available_at_ms job.attempts job.lease_generation until
        g.fits.available_at_ms g.fits.attempts g.fits.lease_generation fit g.fits;
  counters =
      subst (λ st. StateGood st (record job { lease_until_ms = until })) (sym e)
        (subst (λ st. StateGood st job) e g.counters);
}

-- A job that fails is left good.
Fails-IsGood :
    (now_ms : ℤ) (job next : DurableJob) (kind : JobHistoryKind)
    → IsGood job
    → job.state ≡ leased
    → Fails now_ms job next kind
    → IsGood next
Fails-IsGood now_ms job next kind g e (inl (_, same, _)) =
    subst IsGood (sym same) (ended-IsGood job dead refl g)
Fails-IsGood now_ms job next kind g e (inr (_, (delay, _, fit, same), _)) =
    subst IsGood (sym same) (ready_at-IsGood job (now_ms +ℤ delay) fit g e)

-- Every move of the state machine leads from a good job to a good job.
pub Moves-IsGood :
    (now_ms : ℤ) (r : Request) (job next : DurableJob) (kind : JobHistoryKind) (detail : Bytes)
    → Fits i64_half now_ms
    → IsGood job
    → Moves now_ms r job next kind detail
    → IsGood next
Moves-IsGood now_ms (complete n) job next kind detail fit g ((e, _), same, _, _) =
    subst IsGood (sym same) (completed-IsGood job g e)
Moves-IsGood now_ms (fail n why) job next kind detail fit g ((e, _), fails, _) =
    Fails-IsGood now_ms job next kind g e fails
Moves-IsGood now_ms (release n) job next kind detail fit g ((e, _), same, _, _) =
    subst IsGood (sym same) (ready_at-IsGood job now_ms fit g e)
Moves-IsGood now_ms retry job next kind detail fit g (_, same, _, _) =
    subst IsGood (sym same) (revived-IsGood job now_ms g fit)
Moves-IsGood now_ms cancel job next kind detail fit g (_, same, _, _) =
    subst IsGood (sym same) (ended-IsGood job cancelled refl g)
