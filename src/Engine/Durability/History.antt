-- ===== src/Engine/Durability/History.antt =====
-- Whole histories of transactions, and what recovery makes of the file at any moment of one.
use voodoo_store.Prelude.{
  ◌+◌, ◌^◌, ◌<◌, ◌≡◌, refl, ap, ◌⊎◌, inl, inr, Bool, false, List, [], ◌∷◌, arith,
}
use voodoo_store.Result.{Result, ok, err}
use voodoo_store.Platform.{Platform}
use voodoo_store.Map.{id_eq}
use voodoo_store.Engine.Payload.{Operation, put, delete, EngineError, counter_exhausted}
use voodoo_store.Engine.Store.{Store, next_transaction}
use voodoo_store.Engine.Transaction.{
  Transaction, begin_with_cdc, put_internal, delete_internal, rollback,
}
use voodoo_store.Engine.Commit.{commit}
use voodoo_store.Engine.Recovery.{or_empty}
use voodoo_store.Engine.Durability.Staging.{
  IsOpen, StagePost, put_internal-StagePost, delete_internal-StagePost,
}
use voodoo_store.Engine.Durability.Sealing.{HasLog}
use voodoo_store.Engine.Durability.Commit.{commit-CommitPost, CommitPost}

-- How a transaction ends: `drop` without a commit leaves the store as `rollback` does.
pub data End : Type 0 where
  commits rolls_back : End

-- One transaction of a client, that goes on after an operation fails.
pub record Session : Type 0 where
  pub emit_cdc : Bool
  pub operations : List Operation
  pub ending : End

module _ ⦃d : Platform⦄ where
  unfoldable pub run_operation : Operation → Transaction → Transaction
  run_operation (put key value) t = (put_internal key value t).1
  run_operation (delete key) t = (delete_internal key t).1

  unfoldable pub run_operations : List Operation → Transaction → Transaction
  unfolding run_operation
  run_operations [] t = t
  run_operations (operation ∷ operations) t = run_operations operations (run_operation operation t)

  unfoldable pub end_session : End → Transaction → Store
  end_session commits t = (commit t).1
  end_session rolls_back t = (rollback t).1

  abbrev pub session_from : Session → Result EngineError Transaction → Store → Store
  session_from session (err _) s = s
  session_from session (ok t) s = end_session session.ending (run_operations session.operations t)

  unfoldable pub run_session : Session → Store → Store
  unfolding end_session run_operations
  run_session session s =
      session_from session (begin_with_cdc session.emit_cdc s).0
        (begin_with_cdc session.emit_cdc s).1

  unfoldable pub run_sessions : List Session → Store → Store
  unfolding run_session
  run_sessions [] s = s
  run_sessions (session ∷ sessions) s = run_sessions sessions (run_session session s)

  -- What a new transaction looks like.
  abbrev pub begun : Store → Bool → Transaction
  begun s emit_cdc = record {
    store = record s { next_tx_id = s.next_tx_id + 1 };
    tx_id = s.next_tx_id;
    operations = [];
    emit_cdc = emit_cdc;
    finished = false;
  }

  pub next_transaction_cases :
      (s : Store)
      → ((next_transaction s ≡ (ok s.next_tx_id, record s { next_tx_id = s.next_tx_id + 1 }))
          × (s.next_tx_id + 1 < 2 ^ 64))
        ⊎ (next_transaction s ≡ (err counter_exhausted, s))
  unfolding next_transaction
  next_transaction_cases s = ground arith

  pub IsOpen-begun :
      (s : Store)
      → HasLog s
      → (emit_cdc : Bool) → s.next_tx_id + 1 < 2 ^ 64
      → IsOpen (begun s emit_cdc)
  IsOpen-begun s h emit_cdc f =
      let l = h.logged in
      record {
        at = h.at;
        logged = record {
          entries = l.entries;
          file = l.file;
          fits = l.fits;
          replayed = l.replayed;
          state = l.state;
          sequence = l.sequence;
          sequence_fits = l.sequence_fits;
          records = l.records;
          tx_id = omega (arith, l.tx_id);
          tx_id_fits = f;
          committed = l.committed;
          pending = l.pending;
          sound = l.sound;
          header_fits = l.header_fits;
        };
        staged = record {
          operations = ap or_empty (l.pending s.next_tx_id l.tx_id);
          fresh = l.committed s.next_tx_id l.tx_id;
          below = omega arith;
        };
      }

  stage_opened :
      (operation : Operation) (t : Transaction) (r : Result EngineError (Unit {0}))
      (t' : Transaction)
      → StagePost operation t r t'
      → IsOpen t'
  stage_opened operation t (ok _) t' h = h.0
  stage_opened operation t (err _) t' h = h.0

  commit-HasLog :
      (t : Transaction) (r : Result EngineError (Unit {0})) (s' : Store)
      → CommitPost t r s'
      → HasLog s'
  commit-HasLog t (ok _) s' h = h.0
  commit-HasLog t (err _) s' h = h.0

  abbrev pub BeginPost : Store → Result EngineError Transaction → Store → Type 0
  BeginPost s (ok t) s' = IsOpen t × (t.store.state ≡ s.state) × (t.operations ≡ [])
  BeginPost s (err _) s' = s' ≡ s

  pub begin-BeginPost :
      (emit_cdc : Bool) (s : Store)
      → HasLog s
      → BeginPost s (begin_with_cdc emit_cdc s).0 (begin_with_cdc emit_cdc s).1
  unfolding begin_with_cdc
  begin-BeginPost emit_cdc s h = elim (next_transaction_cases s) [
    | inl (e, fits) ↦ rw e (IsOpen-begun s h emit_cdc fits, refl, refl)
    | inr e ↦ rw e
  ]

  pub run_operation-IsOpen :
      (operation : Operation) (t : Transaction) → IsOpen t → IsOpen (run_operation operation t)
  unfolding run_operation
  run_operation-IsOpen (put key value) t o =
      stage_opened (put key value) t (put_internal key value t).0 (put_internal key value t).1
        (put_internal-StagePost t o key value)
  run_operation-IsOpen (delete key) t o =
      stage_opened (delete key) t (delete_internal key t).0 (delete_internal key t).1
        (delete_internal-StagePost t o key)

  pub run_operations-IsOpen :
      (operations : List Operation) (t : Transaction)
      → IsOpen t
      → IsOpen (run_operations operations t)
  unfolding run_operations
  run_operations-IsOpen [] t o = o
  run_operations-IsOpen (operation ∷ operations) t o =
      run_operations-IsOpen operations (run_operation operation t)
        (run_operation-IsOpen operation t o)

  end_session-HasLog : (ending : End) (t : Transaction) → IsOpen t → HasLog (end_session ending t)
  unfolding end_session rollback
  end_session-HasLog commits t o = commit-HasLog t (commit t).0 (commit t).1 (commit-CommitPost t o)
  end_session-HasLog rolls_back t o = record { at = o.at; logged = o.logged }

  pub run_session-HasLog :
      (session : Session) (s : Store) → HasLog s → HasLog (run_session session s)
  unfolding run_session
  run_session-HasLog session s h =
      from (begin_with_cdc session.emit_cdc s).0 (begin_with_cdc session.emit_cdc s).1
        (begin-BeginPost session.emit_cdc s h)
    where
      from :
          (r : Result EngineError Transaction) (s' : Store)
          → BeginPost s r s'
          → HasLog (session_from session r s')
      from (ok t) s' (o, _, _) =
          end_session-HasLog session.ending _ (run_operations-IsOpen session.operations t o)
      from (err _) s' e = rw e h

  -- Whatever transactions run, with errors or without, committed or not, the file keeps replaying to
  -- the state.
  pub run_sessions-HasLog :
      (sessions : List Session) (s : Store) → HasLog s → HasLog (run_sessions sessions s)
  unfolding run_sessions
  run_sessions-HasLog [] s h = h
  run_sessions-HasLog (session ∷ sessions) s h =
      run_sessions-HasLog sessions (run_session session s) (run_session-HasLog session s h)
