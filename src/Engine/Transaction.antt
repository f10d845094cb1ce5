-- ===== src/Engine/Transaction.antt =====
-- engine.rs: transactions, up to their end.
use voodoo_store.Prelude.{
  ℕ, Bool, false, Option, none, some, List, [], ◌∷◌, ◌++◌, reverse, if◌then◌else◌,
}
use voodoo_store.Result.{Result, ok, fail_if}
use voodoo_store.Exec.{Exec, lift, gets, modify, ◌>>=◌, ◌>>◌}
use voodoo_store.Bytes.{Bytes, bytes_eq, starts_with}
use voodoo_store.Platform.{Platform}
use voodoo_store.Log.{RecordKind}
use voodoo_store.Log
use voodoo_store.Map.{get, insert, remove, key_eq, sort_by_key}
use voodoo_store.Engine.Payload.{
  State, Operation, put, delete, EngineError, transaction_finished, encode_put, encode_delete,
}
use voodoo_store.Engine.Quota.{ensure_user_key}
use voodoo_store.Engine.Store.{Store, append, next_transaction, scan_prefix}

-- A transaction borrows the store, so it holds the store until it ends.
pub record Transaction : Type 0 where
  pub store : Store
  pub tx_id : ℕ
  pub operations : List Operation
  pub emit_cdc : Bool
  pub finished : Bool

-- `begin_with_cdc`: the transaction, or the error and the store.
unfoldable pub begin_with_cdc : Bool → Store → Result EngineError Transaction × Store
begin_with_cdc emit_cdc = do
  tx_id ← next_transaction
  λ s. (
    ok (record {
      store = s;
      tx_id = tx_id;
      operations = [];
      emit_cdc = emit_cdc;
      finished = false;
    }),
    s,
  )

abbrev pub on_store {ℓ} : {A : Type ℓ} → Exec Store EngineError A → Exec Transaction EngineError A
on_store m t = ((m t.store).0, record t { store = (m t.store).1 })

unfoldable pub ensure_open : Transaction → Result EngineError (Unit {0})
ensure_open t = fail_if t.finished transaction_finished

module _ ⦃d : Platform⦄ where
  -- The body that `put_internal` and `delete_internal` share: the payload, the kind of record, and the
  -- operation.
  unfoldable pub stage_operation :
      Result EngineError Bytes → RecordKind → Operation → Exec Transaction EngineError (Unit {0})
  stage_operation encoded kind operation = do
    open_ ← gets ensure_open
    lift open_
    payload ← lift encoded
    tx_id ← gets (λ t. t.tx_id)
    on_store (append kind tx_id payload)
    modify (λ t. record t { operations = t.operations ++ operation ∷ [] })

  unfoldable pub put_internal : Bytes → Bytes → Exec Transaction EngineError (Unit {0})
  unfolding stage_operation
  put_internal key value = stage_operation (encode_put key value) Log.put (put key value)

  unfoldable pub delete_internal : Bytes → Exec Transaction EngineError (Unit {0})
  unfolding stage_operation
  delete_internal key = stage_operation (encode_delete key) Log.delete (delete key)

  unfoldable pub put_user : Bytes → Bytes → Exec Transaction EngineError (Unit {0})
  put_user key value = do lift (ensure_user_key key); put_internal key value

  unfoldable pub delete_user : Bytes → Exec Transaction EngineError (Unit {0})
  delete_user key = do lift (ensure_user_key key); delete_internal key

-- `get_internal`: the last staged mutation of the key, or else the committed value. The list is the
-- operations in reverse.
unfoldable pub staged : List Operation → Bytes → Option Bytes → Option Bytes
staged [] key committed = committed
staged (put staged_key value ∷ operations) key committed =
    if bytes_eq staged_key key then some value else staged operations key committed
staged (delete staged_key ∷ operations) key committed =
    if bytes_eq staged_key key then none else staged operations key committed

unfoldable pub get_internal : Transaction → Bytes → Option Bytes
unfolding staged
get_internal t key = staged (reverse t.operations) key (get t.store.state key)

-- `scan_prefix_internal`
unfoldable pub overlay : State → Bytes → List Operation → State
overlay entries prefix [] = entries
overlay entries prefix (put key value ∷ operations) =
    overlay (if starts_with key prefix then insert entries key value else entries) prefix operations
overlay entries prefix (delete key ∷ operations) =
    overlay (if starts_with key prefix then remove entries key else entries) prefix operations

unfoldable pub scan_prefix_internal : Transaction → Bytes → State
unfolding overlay
scan_prefix_internal t prefix =
    sort_by_key (overlay (scan_prefix t.store.state prefix) prefix t.operations)

-- `rollback`
unfoldable pub rollback : Transaction → Result EngineError (Unit {0}) × Store
rollback t = (ensure_open t, t.store)
