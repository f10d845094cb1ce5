-- ===== src/Engine/Durability/Cuts.antt =====
-- engine.rs: a crash at any byte of a history of transactions.
use voodoo_store.Prelude.{◌≡◌, refl, ◌∙◌, inl, inr, List, [], ◌∷◌, Bool}
use voodoo_store.Result.{Result, ok, err}
use voodoo_store.Platform.{Platform}
use voodoo_store.Engine.Payload.{Operation, put, delete, EngineError}
use voodoo_store.Engine.Store.{Store}
use voodoo_store.Engine.Transaction.{Transaction, begin_with_cdc, rollback}
use voodoo_store.Engine.Durability.Staging.{
  IsOpen, StagePost, put_internal-StagePost, delete_internal-StagePost,
}
use voodoo_store.Engine.Durability.Sealing.{HasLog}
use voodoo_store.Engine.Durability.History.{
  End, commits, rolls_back, Session, run_operation, run_operations, end_session, session_from,
  run_session, run_operation-IsOpen, run_operations-IsOpen, next_transaction_cases, IsOpen-begun,
}
use voodoo_store.Engine.Durability.Crash.{
  Grows, Grows-same, Grows-trans, put_internal-Grows, delete_internal-Grows,
}
use voodoo_store.Engine.Durability.CommitCrash.{commit-Grows}

module _ ⦃d : Platform⦄ where
  staged-state :
      (operation : Operation) (t : Transaction) (r : Result EngineError (Unit {0}))
      (t' : Transaction)
      → StagePost operation t r t'
      → t'.store.state ≡ t.store.state
  staged-state operation t (ok _) t' p = p.1.state
  staged-state operation t (err _) t' p = p.1.state

  run_operation-state :
      (operation : Operation) (t : Transaction)
      → IsOpen t
      → (run_operation operation t).store.state ≡ t.store.state
  unfolding run_operation
  run_operation-state (put key value) t o =
      staged-state (put key value) t _ _ (put_internal-StagePost t o key value)
  run_operation-state (delete key) t o =
      staged-state (delete key) t _ _ (delete_internal-StagePost t o key)

  run_operations-state :
      (operations : List Operation) (t : Transaction)
      → IsOpen t
      → (run_operations operations t).store.state ≡ t.store.state
  unfolding run_operations
  run_operations-state [] t o = refl
  run_operations-state (operation ∷ operations) t o =
      run_operations-state operations (run_operation operation t)
        (run_operation-IsOpen operation t o)
      ∙ run_operation-state operation t o

  run_operation-Grows :
      (operation : Operation) (t : Transaction)
      → IsOpen t
      → Grows t.store (run_operation operation t).store
  unfolding run_operation
  run_operation-Grows (put key value) t o = put_internal-Grows t o key value
  run_operation-Grows (delete key) t o = delete_internal-Grows t o key

  run_operations-Grows :
      (operations : List Operation) (t : Transaction)
      → IsOpen t
      → Grows t.store (run_operations operations t).store
  unfolding run_operations
  run_operations-Grows [] t o = Grows-same t.store t.store refl
  run_operations-Grows (operation ∷ operations) t o =
      Grows-trans t.store (run_operation operation t).store _ (run_operation-state operation t o)
        (run_operation-Grows operation t o)
        (run_operations-Grows operations (run_operation operation t)
          (run_operation-IsOpen operation t o))

  end_session-Grows :
      (ending : End) (t : Transaction) → IsOpen t → Grows t.store (end_session ending t)
  unfolding end_session rollback
  end_session-Grows commits t o = commit-Grows t o
  end_session-Grows rolls_back t o = Grows-same t.store t.store refl

  -- `begin` writes nothing.
  abbrev Begun : Store → Result EngineError Transaction → Store → Type 0
  Begun s (ok t) s' = IsOpen t × (t.store.state ≡ s.state) × (t.store.device.bytes ≡ s.device.bytes)
  Begun s (err _) s' = s'.device.bytes ≡ s.device.bytes

  begin-Begun :
      (emit_cdc : Bool) (s : Store)
      → HasLog s
      → Begun s (begin_with_cdc emit_cdc s).0 (begin_with_cdc emit_cdc s).1
  unfolding begin_with_cdc
  begin-Begun emit_cdc s h = elim (next_transaction_cases s) [
    | inl (e, fits) ↦ rw e (IsOpen-begun s h emit_cdc fits, refl, refl)
    | inr e ↦ rw e refl
  ]

  session_from-Grows :
      (session : Session) (s : Store) (r : Result EngineError Transaction) (s' : Store)
      → Begun s r s'
      → Grows s (session_from session r s')
  session_from-Grows session s (err _) s' e = Grows-same s s' e
  session_from-Grows session s (ok t) s' (o, state, bytes) =
      Grows-trans s t.store _ state (Grows-same s t.store bytes) (
        Grows-trans t.store (run_operations session.operations t).store _
          (run_operations-state session.operations t o)
          (run_operations-Grows session.operations t o)
          (end_session-Grows session.ending (run_operations session.operations t)
            (run_operations-IsOpen session.operations t o)))

  -- A crash inside of a transaction undoes it.
  pub run_session-Grows :
      (session : Session) (s : Store) → HasLog s → Grows s (run_session session s)
  unfolding run_session
  run_session-Grows session s h =
      session_from-Grows session s (begin_with_cdc session.emit_cdc s).0
        (begin_with_cdc session.emit_cdc s).1 (begin-Begun session.emit_cdc s h)
