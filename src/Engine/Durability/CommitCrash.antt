-- ===== src/Engine/Durability/CommitCrash.antt =====
-- engine.rs: a crash inside of a commit undoes the transaction.
use voodoo_store.Prelude.{ℕ, ◌≡◌, refl, Bool, true, false, Option, none, some, List, [], ◌∷◌}
use voodoo_store.Result.{Result, ok, err, map_err}
use voodoo_store.Exec.{continue_ind}
use voodoo_store.Bytes.{Bytes}
use voodoo_store.Platform.{Platform}
use voodoo_store.Log
use voodoo_store.Engine.Payload.{Operation, EngineError}
use voodoo_store.Engine.Store.{Store, append}
use voodoo_store.Engine.Quota.{check_namespace_quota}
use voodoo_store.Engine.Transaction.{Transaction, ensure_open, put_internal}
use voodoo_store.Engine.Commit.{
  commit, commit_inner, count_error, seal, sync_store, stage_if, elapsed_us, publish,
}
use voodoo_store.Engine.Durability.Staging.{IsOpen}
use voodoo_store.Engine.Durability.Feed.{stage_if-FeedPost, stage_change-FeedPost}
use voodoo_store.Engine.Durability.Crash.{
  Grows, Grows-same, Grows-later, Grows-trans, append-Grows, IsOpen-HasLog, tx_id_fits,
  put_internal-Grows,
}
use voodoo_store.Cdc.Record.{ChangeRecord, change_key, encode_change, map_cdc_error}
use voodoo_store.Cdc.Stage.{change_of, stage_change, stage_from, stage_changes}
use voodoo_store.Engine.Device.{Device, Durability, strict, data_only, relaxed, sync_file, sync_all}

module _ ⦃d : Platform⦄ where
  stage_change-Grows :
      (sequence : ℕ) (change : Option ChangeRecord) (t : Transaction)
      → IsOpen t
      → Grows t.store (stage_change sequence change t).1.store
  unfolding stage_change
  stage_change-Grows sequence none t o = Grows-same t.store t.store refl
  stage_change-Grows sequence (some change) t o =
      continue_ind {A = Bytes} {B = ℕ} (λ _ t'. Grows t.store t'.store)
        (map_err map_cdc_error (encode_change change)) _ t
        (λ encoded _.
          let key = change_key change.tx_id sequence in
          continue_ind {A = Unit {0}} {B = ℕ} (λ _ t'. Grows t.store t'.store)
            (put_internal key encoded t).0 _ (put_internal key encoded t).1
            (λ _ _. put_internal-Grows t o key encoded) (λ _ _. put_internal-Grows t o key encoded))
        (λ _ _. Grows-same t.store t.store refl)

  stage_from-Grows :
      (sequence : ℕ) (operations : List Operation) (t : Transaction)
      → IsOpen t
      → Grows t.store (stage_from sequence operations t).1.store
  unfolding stage_from
  stage_from-Grows sequence [] t o = Grows-same t.store t.store refl
  stage_from-Grows sequence (operation ∷ operations) t o =
      let change = change_of t.tx_id sequence operation in
      let step = stage_change sequence change t in
      let first = stage_change-FeedPost sequence change t o in
      continue_ind {A = ℕ} {B = Unit {0}} (λ _ t'. Grows t.store t'.store) step.0 _ step.1
        (λ next _.
          Grows-trans t.store step.1.store _ first.continues.state
            (stage_change-Grows sequence change t o)
            (stage_from-Grows next operations step.1 first.opened))
        (λ _ _. stage_change-Grows sequence change t o)

  stage_if-Grows :
      (emit_cdc : Bool) (operations : List Operation) (t : Transaction)
      → IsOpen t
      → Grows t.store (stage_if emit_cdc operations t).1.store
  unfolding stage_if stage_changes
  stage_if-Grows true operations t o = stage_from-Grows 0 operations t o
  stage_if-Grows false operations t o = Grows-same t.store t.store refl

  sync_file-bytes :
      (durability : Durability) (device : Device)
      → (sync_file durability device).1.bytes ≡ device.bytes
  unfolding sync_file sync_all
  sync_file-bytes relaxed device = refl
  sync_file-bytes strict device = refl
  sync_file-bytes data_only device = refl

  -- The commit record is the last that a transaction writes.
  seal-Grows : (t : Transaction) → IsOpen t → Grows t.store (seal t.tx_id t.operations t.store).1
  unfolding seal sync_store elapsed_us publish
  seal-Grows t o =
      let s' = (append Log.commit t.tx_id [] t.store).1 in
      let written =
        append-Grows Log.commit t.tx_id [] t.store (IsOpen-HasLog t o) (tx_id_fits t o) in
      let same = sync_file-bytes s'.options.durability s'.device in
      continue_ind P (append Log.commit t.tx_id [] t.store).0 _ s'
        (λ _ _.
          continue_ind P (sync_store s').0 _ _ (λ _ _. Grows-later t.store s' _ same written)
            (λ _ _. Grows-later t.store s' _ same written))
        (λ _ _. written)
    where
      P : Result EngineError (Unit {0}) → Store → Type 0
      P _ x = Grows t.store x

  commit_inner-Grows : (t : Transaction) → IsOpen t → Grows t.store (commit_inner t).1.store
  unfolding commit_inner
  commit_inner-Grows t o =
      let u = (stage_if t.emit_cdc t.operations t).1 in
      let p = stage_if-FeedPost t.emit_cdc t.operations t o in
      let g = stage_if-Grows t.emit_cdc t.operations t o in
      let whole = Grows-trans t.store u.store _ p.continues.state g (seal-Grows u p.opened) in
      continue_ind P (ensure_open t) _ t
        (λ _ _.
          continue_ind P (stage_if t.emit_cdc t.operations t).0 _ u
            (λ _ _.
              continue_ind P
                (check_namespace_quota u.store.options.namespace_max_bytes u.store.state
                  u.operations)
                _ u
                (λ _ _.
                  continue_ind P (seal u.tx_id u.operations u.store).0 _ _ (λ _ _. whole)
                    (λ _ _. whole))
                (λ _ _. g))
            (λ _ _. g))
        (λ _ _. Grows-same t.store t.store refl)
    where
      P : Result EngineError (Unit {0}) → Transaction → Type 0
      P _ t' = Grows t.store t'.store

  count_error-bytes :
      (r : Result EngineError (Unit {0})) (s : Store)
      → (count_error r s).device.bytes ≡ s.device.bytes
  count_error-bytes (ok _) s = refl
  count_error-bytes (err _) s = refl

  -- A crash inside of a commit, before its commit record is whole, undoes the transaction.
  pub commit-Grows : (t : Transaction) → IsOpen t → Grows t.store (commit t).1
  unfolding commit
  commit-Grows t o =
      Grows-later t.store (commit_inner t).1.store _
        (count_error-bytes (commit_inner t).0 (commit_inner t).1.store) (commit_inner-Grows t o)
