-- ===== src/Engine/Commit.antt =====
-- engine.rs: the commit of a transaction, and the one-operation transactions of the store.
use voodoo_store.Prelude.{ℕ, Bool, true, max, List, [], if◌then◌else◌}
use voodoo_store.Result.{Result, ok, err, map_err}
use voodoo_store.Exec.{Exec, pure, lift, gets, modify, ◌>>=◌, ◌>>◌}
use voodoo_store.Bytes.{Bytes}
use voodoo_store.Bytes.Words.{saturating_add}
use voodoo_store.Platform.{Platform}
use voodoo_store.Log
use voodoo_store.Engine.Payload.{Operation, EngineError, apply_operations}
use voodoo_store.Engine.Device.{sync_file, next_elapsed, later_elapsed}
use voodoo_store.Engine.Store.{Store, StoreMetrics, append}
use voodoo_store.Engine.Quota.{check_namespace_quota}
use voodoo_store.Engine.Transaction.{
  Transaction, begin_with_cdc, on_store, ensure_open, put_internal, delete_internal, put_user,
  delete_user,
}
use voodoo_store.Cdc.Stage.{stage_changes}

-- `sync_file(&self.store.file, self.store.options.durability)?`
unfoldable pub sync_store : Exec Store EngineError (Unit {0})
sync_store s = (
  (sync_file s.options.durability s.device).0,
  record s { device = (sync_file s.options.durability s.device).1 },
)

-- A reading of `Instant::elapsed`, in microseconds that fit u64.
unfoldable pub elapsed_us : Exec Store EngineError ℕ
elapsed_us s = (
  ok (next_elapsed s.device.elapsed),
  record s { device = record device { elapsed = later_elapsed s.device.elapsed } },
)
  where
    open s use {device}

unfoldable pub count_latency : ℕ → ℕ → StoreMetrics → StoreMetrics
count_latency elapsed fsync m = record m {
  commit_latency_total_us = saturating_add m.commit_latency_total_us elapsed;
  commit_latency_max_us = max m.commit_latency_max_us elapsed;
  fsync_latency_total_us = saturating_add m.fsync_latency_total_us fsync;
  fsync_latency_max_us = max m.fsync_latency_max_us fsync;
}

-- The state after the commit record is durable.
unfoldable pub publish : List Operation → Store → Store
publish operations s = record s { state = apply_operations s.state operations }

module _ ⦃d : Platform⦄ where
  unfoldable pub stage_if : Bool → List Operation → Exec Transaction EngineError (Unit {0})
  stage_if emit_cdc operations = if emit_cdc then stage_changes operations else pure tt

  -- From the commit record to the metrics.
  unfoldable pub seal : ℕ → List Operation → Exec Store EngineError (Unit {0})
  seal tx_id operations = do
    append Log.commit tx_id []
    sync_store
    fsync ← elapsed_us
    modify (publish operations)
    elapsed ← elapsed_us
    modify (λ s. record s { metrics = count_latency elapsed fsync s.metrics })

  unfoldable pub commit_inner : Exec Transaction EngineError (Unit {0})
  unfolding seal stage_if
  commit_inner = do
    open_ ← gets ensure_open
    lift open_
    committed_operations ← gets (λ t. t.operations)
    emit_cdc ← gets (λ t. t.emit_cdc)
    stage_if emit_cdc committed_operations
    quota ←
        gets (λ t.
          check_namespace_quota t.store.options.namespace_max_bytes t.store.state t.operations)
    lift quota
    tx_id ← gets (λ t. t.tx_id)
    operations ← gets (λ t. t.operations)
    on_store (seal tx_id operations)
    modify (λ t. record t { finished = true })

  abbrev pub count_error : Result EngineError (Unit {0}) → Store → Store
  count_error (ok _) s = s
  count_error (err _) s = record s {
    metrics = record m { commit_errors = saturating_add m.commit_errors 1 };
  }
    where
      m : StoreMetrics
      m = s.metrics

  -- `commit` consumes the transaction and gives the store back.
  unfoldable pub commit : Transaction → Result EngineError (Unit {0}) × Store
  unfolding commit_inner
  commit t = ((commit_inner t).0, count_error (commit_inner t).0 (commit_inner t).1.store)

  -- `let mut tx = self.begin()?; body(tx)?; tx.commit()`: where `body` fails, the transaction is
  -- dropped and the store stays as `body` left it.
  abbrev pub finish_with :
      Result EngineError (Unit {0}) → Transaction → Result EngineError (Unit {0}) × Store
  finish_with (ok _) t = commit t
  finish_with (err error) t = (err error, t.store)

  abbrev pub run_in :
      Exec Transaction EngineError (Unit {0})
      → Result EngineError Transaction
      → Exec Store EngineError (Unit {0})
  run_in body (err error) s = (err error, s)
  run_in body (ok t) s = finish_with (body t).0 (body t).1

  unfoldable pub transact :
      Bool → Exec Transaction EngineError (Unit {0}) → Exec Store EngineError (Unit {0})
  transact emit_cdc body s = run_in body (begin_with_cdc emit_cdc s).0 (begin_with_cdc emit_cdc s).1

  -- The same in a method with an error type of its own, which the conversion `from` enters.
  abbrev pub finish_from {ℓ} :
      {E : Type ℓ}
      → (EngineError → E)
      → Result E (Unit {0})
      → Transaction
      → Result E (Unit {0}) × Store
  finish_from from (ok _) t = (map_err from (commit t).0, (commit t).1)
  finish_from from (err error) t = (err error, t.store)

  abbrev pub run_from {ℓ} :
      {E : Type ℓ}
      → (EngineError → E)
      → Exec Transaction E (Unit {0})
      → Result EngineError Transaction
      → Exec Store E (Unit {0})
  run_from from body (err error) s = (err (from error), s)
  run_from from body (ok t) s = finish_from from (body t).0 (body t).1

  unfoldable pub transact_from {ℓ} :
      {E : Type ℓ}
      → (EngineError → E)
      → Bool
      → Exec Transaction E (Unit {0})
      → Exec Store E (Unit {0})
  transact_from from emit_cdc body s =
      run_from from body (begin_with_cdc emit_cdc s).0 (begin_with_cdc emit_cdc s).1

  -- `Store::put`, `Store::delete`, `Store::put_internal` and `Store::delete_internal`.
  unfoldable pub put_key : Bytes → Bytes → Exec Store EngineError (Unit {0})
  put_key key value = transact true (put_user key value)

  unfoldable pub delete_key : Bytes → Exec Store EngineError (Unit {0})
  delete_key key = transact true (delete_user key)

  unfoldable pub put_internal_key : Bytes → Bytes → Exec Store EngineError (Unit {0})
  put_internal_key key value = transact true (put_internal key value)

  unfoldable pub delete_internal_key : Bytes → Exec Store EngineError (Unit {0})
  delete_internal_key key = transact true (delete_internal key)
