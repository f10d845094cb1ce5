-- ===== src/Cdc/Stage.antt =====
-- cdc.rs: `stage_changes`, which a commit runs over the operations of its transaction.
use voodoo_store.Prelude.{ℕ, Option, none, some, List, [], ◌∷◌, length, if◌then◌else◌}
use voodoo_store.Result.{ok_or, map_err}
use voodoo_store.Exec.{Exec, pure, lift, gets, ◌>>=◌, ◌>>◌}
use voodoo_store.Bytes.{starts_with}
use voodoo_store.Bytes.Words.{checked_add_u32}
use voodoo_store.Platform.{Platform}
use voodoo_store.Engine.Payload.{Operation, EngineError, counter_exhausted}
use voodoo_store.Engine.Payload
use voodoo_store.Engine.Transaction.{Transaction, put_internal}
use voodoo_store.Cdc.Record.{
  ChangeRecord, put, delete, cdc_prefix, change_key, encode_change, map_cdc_error,
}

module _ ⦃d : Platform⦄ where
  -- The record of an operation; `none` for one on the feed's own keys.
  unfoldable pub change_of : ℕ → ℕ → Operation → Option ChangeRecord
  change_of tx_id sequence (Payload.put key value) =
      if starts_with key cdc_prefix
      then none
      else some (record {
        tx_id = tx_id;
        sequence = sequence;
        kind = put;
        key = key;
        value_len = some (length value);
        value_sha256 = some (d.sha256 value);
      })
  change_of tx_id sequence (Payload.delete key) =
      if starts_with key cdc_prefix
      then none
      else some (record {
        tx_id = tx_id;
        sequence = sequence;
        kind = delete;
        key = key;
        value_len = none;
        value_sha256 = none;
      })

  -- What the loop does with a change: write it, and count.
  unfoldable pub stage_change : ℕ → Option ChangeRecord → Exec Transaction EngineError ℕ
  stage_change sequence none = pure sequence
  stage_change sequence (some change) = do
    encoded ← lift (map_err map_cdc_error (encode_change change))
    put_internal (change_key change.tx_id sequence) encoded
    lift (ok_or (checked_add_u32 sequence 1) counter_exhausted)

  unfoldable pub stage_from : ℕ → List Operation → Exec Transaction EngineError (Unit {0})
  unfolding change_of stage_change
  stage_from sequence [] = pure tt
  stage_from sequence (operation ∷ operations) = do
    tx_id ← gets (λ t. t.tx_id)
    next ← stage_change sequence (change_of tx_id sequence operation)
    stage_from next operations

  unfoldable pub stage_changes : List Operation → Exec Transaction EngineError (Unit {0})
  unfolding stage_from
  stage_changes operations = stage_from 0 operations
