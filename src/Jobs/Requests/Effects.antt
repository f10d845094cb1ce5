-- ===== src/Jobs/Requests/Effects.antt =====
-- jobs.rs: the calls that move a job are moves of its state machine.
use voodoo_store.Prelude.{
  ℕ, ◌≡◌, ◌≢◌, refl, inl, inr, Bool, true, false, Option, none, some, [], arith, Bool-cases,
}
use voodoo_store.Prelude.Int.{ℤ}
use voodoo_store.Result.{Result, ok, err}
use voodoo_store.Exec.{pure, continue, continue_ind}
use voodoo_store.Bytes.{Bytes, codes}
use voodoo_store.Platform.{Platform}
use voodoo_store.Engine.Store.{Store}
use voodoo_store.Engine.Durability.Sealing.{HasLog}
use voodoo_store.Jobs.Record.{completed, dead, cancelled, JobError, DurableJob}
use voodoo_store.Jobs.History
use voodoo_store.Jobs.History.{JobHistoryKind}
use voodoo_store.Jobs.Persist.{get_job, persist_job_with_history}
use voodoo_store.Jobs.Persist.Effects.{persist_ind}
use voodoo_store.Jobs.Transitions.{
  ended, ready_at, revived, is_held, failed, is_over, is_dead, load_held,
}
use voodoo_store.Jobs.Lifecycle.{
  release_held, revive, cancel as cancel_found, complete_job, fail_job, release_job, retry_job,
  cancel_job,
}
use voodoo_store.Jobs.Requests.{
  Request, complete, fail, release, retry, cancel, Moves, is_some, run_request, MovePost,
}
use voodoo_store.Jobs.Requests.Cases.{
  load_held-Holds, is_held-Holds, not_held, failed-Fails, alive-IsOpen, over-IsEnded,
}

module _ ⦃d : Platform⦄ (id : Bytes) (now_ms : ℤ) (s : Store) (h : HasLog s) where
  module _ (request : Request) where
    -- After a chain that goes on by returning whether it has moved the job.
    abbrev Then : {A : Type 0} → (A → Bool) → Result JobError A → Store → Type 0
    Then answer r s' =
        MovePost request id now_ms s (continue r (λ a. pure (answer a)) s').0
          (continue r (λ a. pure (answer a)) s').1

    -- A move is made by writing the job with an entry of its history.
    persisted_move :
        {A : Type 0} (P : Result JobError A → Store → Type 0) (a : A) (job next : DurableJob)
        (kind : JobHistoryKind) (detail : Bytes)
        → get_job id s.state ≡ ok (some job)
        → Moves now_ms request job next kind detail
        → ((s' : Store) → MovePost request id now_ms s (ok true) s' → P (ok a) s')
        → ((error : JobError) (s' : Store)
            → MovePost request id now_ms s (err error) s'
            → P (err error) s')
        → P
            (continue
              (persist_job_with_history next now_ms kind detail s).0
              (λ _. pure a)
              (persist_job_with_history next now_ms kind detail s).1).0
            (continue
              (persist_job_with_history next now_ms kind detail s).0
              (λ _. pure a)
              (persist_job_with_history next now_ms kind detail s).1).1
    persisted_move P a job next kind detail found moves good bad =
        persist_ind P next now_ms kind detail (λ _. pure a) s h
          (λ s' h' p. good s' (
            h',
            record {
              job = job;
              found = found;
              next = next;
              kind = kind;
              detail = detail;
              moves = moves;
              persisted = p;
            },
          ))
          (λ error s' h' same. bad error s' (h', same))

    -- A method that returns whether it has moved the job.
    bool_move :
        (job next : DurableJob) (kind : JobHistoryKind) (detail : Bytes)
        → get_job id s.state ≡ ok (some job)
        → Moves now_ms request job next kind detail
        → Then
            (λ _. true)
            (persist_job_with_history next now_ms kind detail s).0
            (persist_job_with_history next now_ms kind detail s).1
    bool_move job next kind detail found moves =
        persisted_move (MovePost request id now_ms s) true job next kind detail found moves
          (λ s' p. p) (λ error s' p. p)

  complete-MovePost :
      (g : ℕ)
      → MovePost
          (complete g)
          id
          now_ms
          s
          (run_request (complete g) id now_ms s).0
          (run_request (complete g) id now_ms s).1
  unfolding complete_job
  complete-MovePost g =
      continue_ind (Then (complete g) (λ _. true)) (load_held id g s.state) _ s
        (λ job e.
          let (found, held) = load_held-Holds id g s.state job e in
          bool_move (complete g) job (ended completed job) History.completed [] found
            (held, refl, refl, refl))
        (λ _ _. (h, refl))

  fail-MovePost :
      (g : ℕ) (why : Bytes)
      → MovePost
          (fail g why)
          id
          now_ms
          s
          (run_request (fail g why) id now_ms s).0
          (run_request (fail g why) id now_ms s).1
  unfolding fail_job
  fail-MovePost g why =
      continue_ind (Then (fail g why) (λ _. true)) (load_held id g s.state) _ s
        (λ job e.
          let (found, held) = load_held-Holds id g s.state job e in
          continue_ind (Then (fail g why) (λ _. true)) (failed now_ms job) _ s
            (λ p e'.
              persisted_move (fail g why) (Then (fail g why) (λ _. true)) (p.0).state job p.0 p.1
                why found (held, failed-Fails now_ms job p.0 p.1 e', refl) (λ s' p. p)
                (λ error s' p. p))
            (λ _ _. (h, refl)))
        (λ _ _. (h, refl))

  release-MovePost :
      (g : ℕ)
      → MovePost
          (release g)
          id
          now_ms
          s
          (run_request (release g) id now_ms s).0
          (run_request (release g) id now_ms s).1
  unfolding release_job
  release-MovePost g =
      continue_ind (MovePost (release g) id now_ms s) (get_job id s.state) _ s held
        (λ _ _. (h, refl))
    where
      held :
          (found : Option DurableJob)
          → get_job id s.state ≡ ok found
          → MovePost
              (release g)
              id
              now_ms
              s
              (release_held g now_ms found s).0
              (release_held g now_ms found s).1
      held none e = (refl, (none, e, tt))
      held (some job) e = elim (Bool-cases (is_held job g)) [
        | inl mine ↦ rw mine (
            bool_move (release g) job (ready_at now_ms job) History.retry_scheduled
              (codes "released") e (is_held-Holds job g mine, refl, refl, refl))
        | inr other ↦ rw other (refl, (some job, e, not_held job g other))
      ]

  retry-MovePost :
      MovePost retry id now_ms s (run_request retry id now_ms s).0 (run_request retry id now_ms s).1
  unfolding retry_job
  retry-MovePost =
      continue_ind (Then retry is_some) (get_job id s.state) _ s dead_one (λ _ _. (h, refl))
    where
      is_dead-eq : (job : DurableJob) → is_dead job.state ≡ true → job.state ≡ dead
      is_dead-eq job e = ground arith

      not_dead : (job : DurableJob) → is_dead job.state ≡ false → job.state ≢ dead
      not_dead job e same = ground arith

      dead_one :
          (found : Option DurableJob)
          → get_job id s.state ≡ ok found
          → Then retry is_some (revive now_ms found s).0 (revive now_ms found s).1
      dead_one none e = (refl, (none, e, tt))
      dead_one (some job) e = elim (Bool-cases (is_dead job.state)) [
        | inl mine ↦ rw mine (
            persisted_move retry (Then retry is_some) (some (revived now_ms job)) job
              (revived now_ms job) History.retry_scheduled (codes "manual retry") e
              (is_dead-eq job mine, refl, refl, refl) (λ s' p. p) (λ error s' p. p))
        | inr other ↦ rw other (refl, (some job, e, not_dead job other))
      ]

  cancel-MovePost :
      MovePost cancel id now_ms s
        (run_request cancel id now_ms s).0
        (run_request cancel id now_ms s).1
  unfolding cancel_job
  cancel-MovePost =
      continue_ind (MovePost cancel id now_ms s) (get_job id s.state) _ s active (λ _ _. (h, refl))
    where
      active :
          (found : Option DurableJob)
          → get_job id s.state ≡ ok found
          → MovePost cancel id now_ms s
              (cancel_found now_ms found s).0
              (cancel_found now_ms found s).1
      active none e = (refl, (none, e, tt))
      active (some job) e = elim (Bool-cases (is_over job.state)) [
        | inl over ↦ rw over (refl, (some job, e, over-IsEnded job over))
        | inr alive ↦ rw alive (
            bool_move cancel job (ended cancelled job) History.cancelled [] e
              (alive-IsOpen job alive, refl, refl, refl))
      ]

  -- `complete_job`, `fail_job`, `release_job`, `retry_job` and `cancel_job` on a store whose file holds
  -- its state are moves of the state machine `Moves`: a call that succeeds has found a job that the
  -- machine may move, and has stored the moved job and one entry of its history, with the number after
  -- that in the last key of the history, 0 in a new one, and the machine's kind and detail, and no
  -- other key outside the change feed has changed; a call that returns that it did nothing has found
  -- no job that may move, and the store is the same; after an error no key has changed.
  pub run_request-MovePost :
      (request : Request)
      → MovePost request id now_ms s
          (run_request request id now_ms s).0
          (run_request request id now_ms s).1
  run_request-MovePost (complete g) = complete-MovePost g
  run_request-MovePost (fail g why) = fail-MovePost g why
  run_request-MovePost (release g) = release-MovePost g
  run_request-MovePost retry = retry-MovePost
  run_request-MovePost cancel = cancel-MovePost
