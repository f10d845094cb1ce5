-- ===== src/Engine/Recovery.antt =====
-- engine.rs: `recover`, which rebuilds a store from the bytes of its file.
pub mod Replay
pub mod Scan
pub mod Torn
pub mod Keys
use voodoo_store.Prelude.{
  ℕ, zero, suc, ◌+◌, Bool, true, false, not, ◌&&◌, max, Option, none, some, List, [], ◌∷◌, ◌++◌,
  length, take, drop, leb, ltb, ◌==◌, if◌then◌else◌,
}
use voodoo_store.Result.{Result, ok, err, ◌>>=◌, ◌>>◌, fail_if, ok_or, map_err}
use voodoo_store.Bytes.{Bytes}
use voodoo_store.Bytes.Words.{checked_add}
use voodoo_store.Platform.{Platform}
use voodoo_store.Header.{store_header_len}
use voodoo_store.Log.{
  LogRecord, RecordKind, truncated_record, header_len, encoded_record_len_from_prefix, decode,
}
use voodoo_store.Log
use voodoo_store.Map.{Map, get, insert, remove, contains, add, id_eq}
use voodoo_store.Engine.Payload.{
  State, Operation, EngineError, log, counter_exhausted, non_monotonic_sequence,
  record_after_commit, apply_operations, decode_put, decode_delete,
}

-- The variables of the loop of `recover`, but for its offset.
pub record Replayed : Type 0 where
  pub state : State
  pub pending : Map ℕ (List Operation)
  pub committed : List ℕ
  pub max_tx_id : ℕ
  pub max_sequence : ℕ
  pub records : ℕ

abbrev pub start : Replayed
start = record {
  state = [];
  pending = [];
  committed = [];
  max_tx_id = 0;
  max_sequence = 0;
  records = 0;
}

abbrev pub or_empty : Option (List Operation) → List Operation
or_empty none = []
or_empty (some operations) = operations

-- `pending.entry(tx_id).or_default().push(operation)`
unfoldable pub push_pending : Map ℕ (List Operation) → ℕ → Operation → Map ℕ (List Operation)
push_pending pending tx_id operation =
    insert pending tx_id (or_empty (get pending tx_id) ++ operation ∷ [])

-- `if let Some(operations) = pending.remove(&tx_id) { apply_operations(..) }`
abbrev pub apply_pending : State → Option (List Operation) → State
apply_pending state none = state
apply_pending state (some operations) = apply_operations state operations

-- The `match record.kind` of the loop.
unfoldable pub replay_kind : RecordKind → ℕ → Bytes → Replayed → Result EngineError Replayed
replay_kind Log.put tx_id payload r = do
  operation ← decode_put payload
  ok (record r { pending = push_pending r.pending tx_id operation })
replay_kind Log.delete tx_id payload r = do
  operation ← decode_delete payload
  ok (record r { pending = push_pending r.pending tx_id operation })
replay_kind Log.commit tx_id payload r = ok (record r {
  state = apply_pending r.state (get r.pending tx_id);
  pending = remove r.pending tx_id;
  committed = add r.committed tx_id;
})

-- The loop's body, for a record that was decoded.
unfoldable pub replay_record : Replayed → LogRecord → Result EngineError Replayed
replay_record r entry = do
  fail_if (leb entry.sequence r.max_sequence && not (r.max_sequence == 0))
      (non_monotonic_sequence r.max_sequence entry.sequence)
  fail_if (contains r.committed entry.tx_id) (record_after_commit entry.tx_id)
  records ← ok_or (checked_add r.records 1) counter_exhausted
  replay_kind entry.kind entry.tx_id entry.payload (record r {
    max_sequence = entry.sequence;
    max_tx_id = max r.max_tx_id entry.tx_id;
    records = records;
  })

-- The loop's tests on the bytes that remain: the length of a whole record, or `none` for `break`.
unfoldable pub next_record : Bytes → Result EngineError (Option ℕ)
next_record remaining =
    if ltb (length remaining) header_len
    then ok none
    else elim (encoded_record_len_from_prefix remaining) [
      | ok record_len ↦ ok (if ltb (length remaining) record_len then none else some record_len)
      | err truncated_record ↦ ok none
      | err error ↦ err (log error)
    ]

-- What `recover` returns.
pub record Recovery : Type 0 where
  pub state : State
  pub max_tx_id : ℕ
  pub max_sequence : ℕ
  pub valid_end : ℕ
  pub records : ℕ
  pub committed_transactions : ℕ
  pub pending_transactions : ℕ

abbrev pub finish : Replayed × ℕ → Recovery
finish (r, offset) = record {
  state = r.state;
  max_tx_id = r.max_tx_id;
  max_sequence = r.max_sequence;
  valid_end = store_header_len + offset;
  records = r.records;
  committed_transactions = length r.committed;
  pending_transactions = length r.pending;
}

module _ ⦃d : Platform⦄ where
  -- `LogRecord::decode(..)?` and the body of the loop.
  unfoldable pub replay_bytes : Replayed → Bytes → Result EngineError Replayed
  replay_bytes r bytes = do entry ← map_err log (decode bytes); replay_record r entry

  -- `while offset < bytes.len()`. The fuel is the length of the log and one more; a record has 29
  -- bytes at least.
  unfoldable pub scan : ℕ → Bytes → ℕ → Replayed → Result EngineError (Replayed × ℕ)
  scan zero bytes offset r = ok (r, offset)
  scan (suc fuel) bytes offset r = elim (ltb offset (length bytes)) [
    | false ↦ ok (r, offset)
    | true ↦ elim (next_record (drop offset bytes)) [
      | err error ↦ err error
      | ok none ↦ ok (r, offset)
      | ok (some record_len) ↦ elim (replay_bytes r (take record_len (drop offset bytes))) [
        | err error ↦ err error
        | ok r' ↦ scan fuel bytes (offset + record_len) r'
      ]
    ]
  ]

  -- `recover`, on the bytes of the file.
  unfoldable pub recover : Bytes → Result EngineError Recovery
  unfolding scan
  recover file = do
    let bytes = drop store_header_len file
    end ← scan (suc (length bytes)) bytes 0 start
    ok (finish end)
