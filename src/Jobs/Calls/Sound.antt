-- ===== src/Jobs/Calls/Sound.antt =====
-- jobs.rs: every call keeps the jobs of a store sound, and so does a sequence of calls.
use voodoo_store.Prelude.{◌≡◌, sym, subst, true, false, Option, none, some, List, [], ◌∷◌, Bool}
use voodoo_store.Prelude.Int.{ℤ}
use voodoo_store.Result.{Result, ok, err}
use voodoo_store.Exec.{continue_ind, pure}
use voodoo_store.Bytes.{Bytes}
use voodoo_store.Bytes.Words.{Fits, i64_half}
use voodoo_store.Platform.{Platform}
use voodoo_store.Engine.Store.{Store, scan_prefix}
use voodoo_store.Jobs.Record.{JobError, DurableJob, JobSpec, validate_job_spec, build_job}
use voodoo_store.Jobs.Fields.{job_prefix}
use voodoo_store.Jobs.Persist.Effects.{WritePost, write-WritePost}
use voodoo_store.Jobs.Submit.{submit_job, submit_new, existing, first_entry}
use voodoo_store.Jobs.Requests.{Request, MovePost, run_request}
use voodoo_store.Jobs.Invariant.{IsSound, Written-IsJobs}
use voodoo_store.Jobs.Calls.{
  Call, submit, claim, heartbeat, request, reap, IsId, FitsSpec, FitsCall, AllFit, run_call,
  run_calls,
}
use voodoo_store.Jobs.Calls.Good.{get_job-IsOwn}
use voodoo_store.Jobs.Calls.Moves.{Moves-IsGood}
use voodoo_store.Jobs.Requests.Effects.{run_request-MovePost}
use voodoo_store.Jobs.Calls.Written.{build_job-IsGood}
use voodoo_store.Jobs.Calls.Steps.{
  Persisted-IsSound, failed-IsSound, claim-IsSound, reap_all-IsSound, heartbeat-IsSound,
}

module _ ⦃d : Platform⦄ where
  moved-IsSound :
      (r : Request) (id : Bytes) (now_ms : ℤ) (s s' : Store) (result : Result JobError Bool)
      → Fits i64_half now_ms
      → IsSound s
      → MovePost r id now_ms s result s'
      → IsSound s'
  moved-IsSound r id now_ms s s' (ok true) fit (h, i) (h', m) =
      Persisted-IsSound m.next now_ms m.kind m.detail s s' (h, i)
        (Moves-IsGood now_ms r m.job m.next m.kind m.detail fit
          (get_job-IsOwn id s.state m.job i m.found).1 m.moves)
        h' m.persisted
  moved-IsSound r id now_ms s s' (ok false) fit sound (same, _) = subst IsSound (sym same) sound
  moved-IsSound r id now_ms s s' (err _) fit sound (h', same) = failed-IsSound s s' sound h' same

  written-IsSound :
      (random_id : Result JobError Bytes) (spec : JobSpec) (now_ms : ℤ) (job : DurableJob)
      (s s' : Store) (r : Result JobError (Unit {0}))
      → IsSound s
      → IsId random_id
      → FitsSpec spec
      → build_job random_id spec ≡ ok job
      → WritePost job (first_entry now_ms []) s r s'
      → IsSound s'
  written-IsSound random_id spec now_ms job s s' (ok _) (h, i) is_id f e (h', w) = (
    h',
    Written-IsJobs job _ s s' (build_job-IsGood random_id spec job w.value is_id f e w.encoded) i w,
  )
  written-IsSound random_id spec now_ms job s s' (err _) sound is_id f e (h', same) =
      failed-IsSound s s' sound h' same

  submit_new-IsSound :
      (random_id : Result JobError Bytes) (spec : JobSpec) (now_ms : ℤ) (found : Option Bytes)
      (s : Store)
      → IsSound s
      → IsId random_id
      → FitsSpec spec
      → IsSound ((submit_new random_id spec now_ms found s).1)
  unfolding submit_new
  submit_new-IsSound random_id spec now_ms (some id) s sound is_id f = sound
  submit_new-IsSound random_id spec now_ms none s sound is_id f =
      continue_ind (λ r s'. IsSound s') (build_job random_id spec) _ s
        (λ job e.
          let kept =
            written-IsSound random_id spec now_ms job s _ _ sound is_id f e
              (write-WritePost job (first_entry now_ms []) s sound.0) in
          continue_ind (λ r s'. IsSound s') _ (λ _. pure job.id) _ (λ _ _. kept) (λ _ _. kept))
        (λ _ _. sound)

  submit-IsSound :
      (random_id : Result JobError Bytes) (spec : JobSpec) (now_ms : ℤ) (s : Store)
      → IsSound s
      → IsId random_id
      → FitsSpec spec
      → IsSound ((submit_job random_id spec now_ms s).1)
  unfolding submit_job
  submit-IsSound random_id spec now_ms s sound is_id f =
      continue_ind (λ r s'. IsSound s') (validate_job_spec spec) _ s
        (λ _ _.
          continue_ind (λ r s'. IsSound s')
            (existing spec.idempotency_key (scan_prefix s.state job_prefix)) _ s
            (λ found _. submit_new-IsSound random_id spec now_ms found s sound is_id f)
            (λ _ _. sound))
        (λ _ _. sound)

  run_call-IsSound : (c : Call) (s : Store) → FitsCall c → IsSound s → IsSound (run_call c s)
  run_call-IsSound (submit random_id spec now_ms) s (is_id, f) sound =
      submit-IsSound random_id spec now_ms s sound is_id f
  run_call-IsSound (claim now_ms duration handlers) s f sound =
      claim-IsSound now_ms duration handlers s sound
  run_call-IsSound (heartbeat id generation now_ms duration) s f sound =
      heartbeat-IsSound id generation now_ms duration s sound
  run_call-IsSound (request r id now_ms) s f sound =
      moved-IsSound r id now_ms s _ (run_request r id now_ms s).0 f sound
        (run_request-MovePost id now_ms s sound.0 r)
  run_call-IsSound (reap now_ms) s f sound = reap_all-IsSound now_ms s f sound

  -- Any sequence of submissions, claims, heartbeats, completions, failures, releases, retries,
  -- cancellations and releases of expired leases, failed ones included, with arguments of their machine
  -- types and ids of 16 random bytes, keeps the jobs of a store sound: the file holds the store's
  -- state, and every job stands under the key of its id, with fields that fit their machine types,
  -- has no more attempts than it may while it is ready, leased or completed, has its number of attempts
  -- as its lease generation while it is leased, and has no lease otherwise.
  pub run_calls-IsSound :
      (calls : List Call) (s : Store) → AllFit calls → IsSound s → IsSound (run_calls calls s)
  run_calls-IsSound [] s f sound = sound
  run_calls-IsSound (c ∷ cs) s (f, fs) sound =
      run_calls-IsSound cs (run_call c s) fs (run_call-IsSound c s f sound)
