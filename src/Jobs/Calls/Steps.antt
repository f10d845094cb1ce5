-- ===== src/Jobs/Calls/Steps.antt =====
-- jobs.rs: claims, leases, heartbeats and the reaping of leases keep the jobs of a store sound.
use voodoo_store.Prelude.{
  ℕ, ◌^◌, ◌<◌, ◌≡◌, refl, sym, subst, inl, inr, Option, none, some, List, [], ◌∷◌, arith,
  Bool-cases, ltb, ltb→le,
}
use voodoo_store.Prelude.Int.{ℤ, pos}
use voodoo_store.Result.{Result, ok, err, ok_or}
use voodoo_store.Exec.{Exec, continue, continue_ind}
use voodoo_store.Bytes.{Bytes, codes}
use voodoo_store.Bytes.Words.{Fits, i64_half, checked_add_u32, checked_add_i64, to_i64}
use voodoo_store.Platform.{Platform}
use voodoo_store.Engine.Payload.{EngineError, put}
use voodoo_store.Engine.Store.{Store, scan_prefix}
use voodoo_store.Engine.Commit.{put_internal_key}
use voodoo_store.Engine.Durability.Sealing.{HasLog}
use voodoo_store.Engine.Durability.Keys.{KeyPost, put_internal_key-KeyPost}
use voodoo_store.Jobs.Record.{dead, JobError, attempt_exhausted, time_overflow, DurableJob}
use voodoo_store.Jobs.Fields.{job_prefix, job_key}
use voodoo_store.Jobs.Codec.{encode_job}
use voodoo_store.Jobs.History
use voodoo_store.Jobs.History.{JobHistoryKind}
use voodoo_store.Jobs.Persist.{get_job, persist_job, persist_job_with_history}
use voodoo_store.Jobs.Persist.Effects.{Persisted, persist_ind}
use voodoo_store.Jobs.Claim.{nothing_found, select}
use voodoo_store.Jobs.Transitions.{ended, leased_as, is_held, reaped, collect_lost}
use voodoo_store.Jobs.Lifecycle.{
  expire_jobs, lease_job, claim_job_for_handlers, extend_lease, heartbeat_job, reap_jobs,
  release_expired_jobs,
}
use voodoo_store.Jobs.Invariant.{
  IsGood, IsSound, unchanged-IsJobs, Written-IsJobs, put-IsJobs, FitsJob-counters,
}
use voodoo_store.Jobs.Calls.Good.{
  AllGood, OptionGood, AllLeased, select-SelectionGood, collect_lost-AllLeased, scanned-good,
  get_job-IsOwn,
}
use voodoo_store.Jobs.Calls.Moves.{leased_as-IsGood, extended-IsGood}
use voodoo_store.Jobs.Requests.Cases.{is_held-Holds, added}
use voodoo_store.Jobs.Calls.Written.{ended-IsGood, reaped-IsGood}

module _ ⦃d : Platform⦄ where
  pub Persisted-IsSound :
      (job : DurableJob) (at_ms : ℤ) (kind : JobHistoryKind) (detail : Bytes) (s s' : Store)
      → IsSound s
      → IsGood job
      → HasLog s'
      → Persisted job at_ms kind detail s s'
      → IsSound s'
  Persisted-IsSound job at_ms kind detail s s' (h, i) g h' p =
      (h', Written-IsJobs job _ s s' g i p.written)

  pub failed-IsSound : (s s' : Store) → IsSound s → HasLog s' → s'.state ≡ s.state → IsSound s'
  failed-IsSound s s' (h, i) h' same = (h', unchanged-IsJobs s s' same i)

  -- A chain that begins by persisting a good job.
  persist-IsSound :
      {A : Type 0} (job : DurableJob) (at_ms : ℤ) (kind : JobHistoryKind) (detail : Bytes)
      (f : Unit {0} → Exec Store JobError A) (s : Store)
      → IsSound s
      → IsGood job
      → ((s' : Store) → IsSound s' → IsSound ((f tt s').1))
      → IsSound
          (continue
            (persist_job_with_history job at_ms kind detail s).0
            f
            (persist_job_with_history job at_ms kind detail s).1).1
  persist-IsSound job at_ms kind detail f s (h, i) g rest =
      persist_ind (λ r s'. IsSound s') job at_ms kind detail f s h
        (λ s' h' p. rest s' (Persisted-IsSound job at_ms kind detail s s' (h, i) g h' p))
        (λ error s' h' same. failed-IsSound s s' (h, i) h' same)

  expire-IsSound :
      (now_ms : ℤ) (jobs : List DurableJob) (s : Store)
      → IsSound s
      → AllGood jobs
      → IsSound ((expire_jobs now_ms jobs s).1)
  unfolding expire_jobs
  expire-IsSound now_ms [] s sound good = sound
  expire-IsSound now_ms (job ∷ jobs) s sound (g, good) =
      persist-IsSound (ended dead job) now_ms History.dead (codes "deadline exceeded")
        (λ _. expire_jobs now_ms jobs) s sound (ended-IsGood job dead refl g)
        (λ s' sound'. expire-IsSound now_ms jobs s' sound' good)

  reap-IsSound :
      (now_ms : ℤ) (jobs : List DurableJob) (s : Store)
      → Fits i64_half now_ms
      → IsSound s
      → AllLeased jobs
      → IsSound ((reap_jobs now_ms jobs s).1)
  unfolding reap_jobs
  reap-IsSound now_ms [] s fit sound good = sound
  reap-IsSound now_ms (job ∷ jobs) s fit sound (g, e, good) =
      persist-IsSound ((reaped now_ms job).0) now_ms ((reaped now_ms job).1) ((reaped now_ms job).2)
        (λ _. reap_jobs now_ms jobs) s sound (reaped-IsGood now_ms job fit g e)
        (λ s' sound'. reap-IsSound now_ms jobs s' fit sound' good)

  lease-IsSound :
      (now_ms until : ℤ) (found : Option DurableJob) (s : Store)
      → Fits i64_half until
      → IsSound s
      → OptionGood found
      → IsSound ((lease_job now_ms until found s).1)
  unfolding lease_job
  lease-IsSound now_ms until none s fit sound g = sound
  lease-IsSound now_ms until (some job) s fit sound g =
      continue_ind (λ r s'. IsSound s') (ok_or (checked_add_u32 job.attempts 1) attempt_exhausted) _
        s
        (λ n e. elim (Bool-cases (ltb job.max_attempts n)) [
          | inl over ↦ rw over (
              persist-IsSound (ended dead (record job { attempts = n })) now_ms History.dead
                (codes "max attempts exceeded") _ s sound
                (record {
                  fits =
                      FitsJob-counters job dead job.available_at_ms n job.lease_generation (pos 0)
                        g.fits.available_at_ms (counted n e).1 g.fits.lease_generation (omega arith)
                        g.fits;
                  counters = refl;
                })
                (λ s' sound'. sound'))
          | inr more ↦ rw more (
              persist-IsSound (leased_as n until job) now_ms History.claimed [] _ s sound
                (leased_as-IsGood job n until g (counted n e).0 (ltb→le _ _ more) (counted n e).1
                  fit)
                (λ s' sound'. sound'))
        ])
        (λ _ _. sound)
    where
      counted :
          (n : ℕ)
          → ok_or (checked_add_u32 job.attempts 1) attempt_exhausted ≡ ok n
          → (0 < n) × (n < 2 ^ 32)
      counted n e = ground arith

  pub claim-IsSound :
      (now_ms : ℤ) (duration : ℕ) (handlers : List Bytes) (s : Store)
      → IsSound s
      → IsSound ((claim_job_for_handlers now_ms duration handlers s).1)
  unfolding claim_job_for_handlers
  claim-IsSound now_ms duration handlers s sound =
      continue_ind (λ r s'. IsSound s') (ok_or (to_i64 duration) time_overflow) _ s
        (λ period _.
          continue_ind (λ r s'. IsSound s') (ok_or (checked_add_i64 now_ms period) time_overflow) _
            s
            (λ until e.
              continue_ind (λ r s'. IsSound s')
                (select now_ms handlers (scan_prefix s.state job_prefix) nothing_found) _ s
                (λ found chosen.
                  let (c, late) =
                    select-SelectionGood now_ms handlers (scan_prefix s.state job_prefix)
                      nothing_found found (scanned-good s sound) (tt, tt) chosen in
                  let (same, fit) = added now_ms period until e in
                  continue_ind (λ r s'. IsSound s') (expire_jobs now_ms found.expired s).0 _
                    (expire_jobs now_ms found.expired s).1
                    (λ _ _.
                      lease-IsSound now_ms until found.candidate
                        (expire_jobs now_ms found.expired s).1
                        (subst (λ z. Fits i64_half z) (sym same) fit)
                        (expire-IsSound now_ms found.expired s sound late) c)
                    (λ _ _. expire-IsSound now_ms found.expired s sound late))
                (λ _ _. sound))
            (λ _ _. sound))
        (λ _ _. sound)

  pub reap_all-IsSound :
      (now_ms : ℤ) (s : Store)
      → Fits i64_half now_ms
      → IsSound s
      → IsSound ((release_expired_jobs now_ms s).1)
  unfolding release_expired_jobs
  reap_all-IsSound now_ms s fit sound =
      continue_ind (λ r s'. IsSound s') (collect_lost now_ms (scan_prefix s.state job_prefix)) _ s
        (λ lost e.
          let leased_ones =
            collect_lost-AllLeased now_ms (scan_prefix s.state job_prefix) lost
              (scanned-good s sound) e in
          continue_ind (λ r s'. IsSound s') (reap_jobs now_ms lost s).0 _
            (reap_jobs now_ms lost s).1 (λ _ _. reap-IsSound now_ms lost s fit sound leased_ones)
            (λ _ _. reap-IsSound now_ms lost s fit sound leased_ones))
        (λ _ _. sound)

  -- A job that is stored without an entry of its history.
  put-IsSound :
      (job : DurableJob) (value : Bytes) (s s' : Store) (r : Result EngineError (Unit {0}))
      → IsSound s
      → IsGood job
      → encode_job job ≡ ok value
      → KeyPost (put (job_key job.id) value) s r s'
      → IsSound s'
  put-IsSound job value s s' (ok _) (h, i) g e (h', reads) =
      (h', put-IsJobs job value s s' g e reads i)
  put-IsSound job value s s' (err _) sound g e (h', same) = failed-IsSound s s' sound h' same

  persist_job-IsSound :
      (job : DurableJob) (s : Store) → IsSound s → IsGood job → IsSound ((persist_job job s).1)
  unfolding persist_job
  persist_job-IsSound job s sound g =
      continue_ind (λ r s'. IsSound s') (encode_job job) _ s
        (λ value e.
          put-IsSound job value s _ (put_internal_key (job_key job.id) value s).0 sound g e
            (put_internal_key-KeyPost (job_key job.id) value s sound.0))
        (λ _ _. sound)

  extend-IsSound :
      (id : Bytes) (generation : ℕ) (now_ms : ℤ) (duration : ℕ) (found : Option DurableJob)
      (s : Store)
      → IsSound s
      → get_job id s.state ≡ ok found
      → IsSound ((extend_lease generation now_ms duration found s).1)
  extend-IsSound id generation now_ms duration none s sound e = sound
  extend-IsSound id generation now_ms duration (some job) s sound e =
      elim (Bool-cases (is_held job generation)) [
        | inr other ↦ rw other sound
        | inl mine ↦ rw mine (
            continue_ind (λ r s'. IsSound s') (ok_or (to_i64 duration) time_overflow) _ s
              (λ period _.
                continue_ind (λ r s'. IsSound s')
                  (ok_or (checked_add_i64 now_ms period) time_overflow) _ s
                  (λ until sum.
                    let (same, fit) = added now_ms period until sum in
                    let kept =
                      persist_job-IsSound (record job { lease_until_ms = until }) s sound
                        (extended-IsGood job until (get_job-IsOwn id s.state job sound.1 e).1
                          (is_held-Holds job generation mine).0
                          (subst (λ z. Fits i64_half z) (sym same) fit)) in
                    continue_ind (λ r s'. IsSound s')
                      (persist_job (record job { lease_until_ms = until }) s).0 _
                      (persist_job (record job { lease_until_ms = until }) s).1 (λ _ _. kept)
                      (λ _ _. kept))
                  (λ _ _. sound))
              (λ _ _. sound))
      ]

  pub heartbeat-IsSound :
      (id : Bytes) (generation : ℕ) (now_ms : ℤ) (duration : ℕ) (s : Store)
      → IsSound s
      → IsSound ((heartbeat_job id generation now_ms duration s).1)
  unfolding heartbeat_job
  heartbeat-IsSound id generation now_ms duration s sound =
      continue_ind (λ r s'. IsSound s') (get_job id s.state) _ s
        (λ found e. extend-IsSound id generation now_ms duration found s sound e) (λ _ _. sound)
