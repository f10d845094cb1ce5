-- ===== src/Cdc/Reader.antt =====
-- cdc.rs: the methods that read and prune the change feed.
use voodoo_store.Prelude.{
  ℕ, Bool, true, false, Option, none, some, List, [], ◌∷◌, ◌++◌, length, ◌==◌, leb, ltb,
  if◌then◌else◌,
}
use voodoo_store.Result.{Result, ok, err}
use voodoo_store.Result
use voodoo_store.Exec.{Exec, pure, lift, gets, ◌>>=◌, ◌>>◌, map_error}
use voodoo_store.Bytes.{Bytes}
use voodoo_store.Platform.{Platform}
use voodoo_store.Engine.Payload.{State}
use voodoo_store.Engine.Store.{Store, scan_prefix}
use voodoo_store.Engine.Transaction.{Transaction, delete_internal}
use voodoo_store.Engine.Commit.{transact_from}
use voodoo_store.Cdc.Record.{ChangeRecord, ChangeFeedError, store, cdc_prefix, change_tx_prefix}
use voodoo_store.Cdc.Cursor.{decode_change}

-- `after_tx_id.is_some_and(|after| change.tx_id <= after)`
unfoldable pub is_seen : Option ℕ → ChangeRecord → Bool
is_seen none change = false
is_seen (some after) change = leb change.tx_id after

-- The loop of `changes_after`.
unfoldable pub collect_after :
    Option ℕ → ℕ → State → List ChangeRecord → Result ChangeFeedError (List ChangeRecord)
collect_after after limit [] changes = ok changes
collect_after after limit ((key, encoded) ∷ entries) changes = elim (decode_change encoded) [
  | err error ↦ err error
  | ok change ↦ elim (is_seen after change) [
    | true ↦ collect_after after limit entries changes
    | false ↦ elim (length (changes ++ change ∷ []) == limit) [
      | true ↦ ok (changes ++ change ∷ [])
      | false ↦ collect_after after limit entries (changes ++ change ∷ [])
    ]
  ]
]

unfoldable pub changes_after : Option ℕ → ℕ → State → Result ChangeFeedError (List ChangeRecord)
unfolding collect_after
changes_after after_tx_id limit state =
    if limit == 0 then ok [] else collect_after after_tx_id limit (scan_prefix state cdc_prefix) []

-- `sort_unstable_by_key(|change| change.sequence)`: the sequences of a transaction differ.
unfoldable pub insert_change : ChangeRecord → List ChangeRecord → List ChangeRecord
insert_change change [] = change ∷ []
insert_change change (other ∷ changes) =
    let rest = insert_change change changes in
    if ltb other.sequence change.sequence then other ∷ rest else change ∷ other ∷ changes

unfoldable pub sort_changes : List ChangeRecord → List ChangeRecord
unfolding insert_change
sort_changes [] = []
sort_changes (change ∷ changes) = insert_change change (sort_changes changes)

unfoldable pub decode_all : State → Result ChangeFeedError (List ChangeRecord)
decode_all [] = ok []
decode_all ((key, encoded) ∷ entries) =
    Result.◌>>=◌ (decode_change encoded)
      (λ change. Result.◌>>=◌ (decode_all entries) (λ changes. ok (change ∷ changes)))

unfoldable pub changes_for_transaction : ℕ → State → Result ChangeFeedError (List ChangeRecord)
unfolding decode_all sort_changes
changes_for_transaction tx_id state =
    elim (decode_all (scan_prefix state (change_tx_prefix tx_id))) [
      | err error ↦ err error
      | ok changes ↦ ok (sort_changes changes)
    ]

-- The loop of `prune_changes_through`.
unfoldable pub collect_keys : ℕ → ℕ → State → List Bytes → Result ChangeFeedError (List Bytes)
collect_keys tx_id limit [] keys = ok keys
collect_keys tx_id limit ((key, encoded) ∷ entries) keys = elim (decode_change encoded) [
  | err error ↦ err error
  | ok change ↦ elim (ltb tx_id change.tx_id) [
    | true ↦ ok keys
    | false ↦ elim (length (keys ++ key ∷ []) == limit) [
      | true ↦ ok (keys ++ key ∷ [])
      | false ↦ collect_keys tx_id limit entries (keys ++ key ∷ [])
    ]
  ]
]

module _ ⦃d : Platform⦄ where
  unfoldable pub delete_changes : List Bytes → Exec Transaction ChangeFeedError (Unit {0})
  delete_changes [] = pure tt
  delete_changes (key ∷ keys) = do map_error store (delete_internal key); delete_changes keys

  -- `prune_changes_through`, once the keys are known.
  unfoldable pub prune_keys : List Bytes → Exec Store ChangeFeedError ℕ
  unfolding delete_changes
  prune_keys [] = pure 0
  prune_keys (key ∷ keys) = do
    transact_from store false (delete_changes (key ∷ keys))
    pure (length (key ∷ keys))

  unfoldable pub prune_changes_through : ℕ → ℕ → Exec Store ChangeFeedError ℕ
  unfolding prune_keys
  prune_changes_through tx_id limit = if limit == 0 then pure 0 else (do
    collected ← gets (λ s. collect_keys tx_id limit (scan_prefix s.state cdc_prefix) [])
    keys ← lift collected
    prune_keys keys)
