-- ===== src/Engine/Tests.antt =====
-- engine.rs, log.rs and header.rs at concrete inputs: an empty store, a history of two transactions, and
-- a record of three bytes that a crash cuts off.
use voodoo_store.Prelude.{refl, true, false, List, [], ◌∷◌, arith, ◌≡◌, ◌++◌, length, take, ℕ}
use voodoo_store.Prelude.Int.{pos}
use voodoo_store.Bytes.{Bytes, to_le_bytes}
use voodoo_store.Platform.{Platform, length_platform}
use voodoo_store.Header.{StoreHeader}
use voodoo_store.Header
use voodoo_store.Engine.Payload.{
  put, delete, randomness, encode_put, decode_put, decode_put-encode_put, encode_delete,
  decode_delete, decode_delete-encode_delete,
}
use voodoo_store.Engine.Device.{Device}
use voodoo_store.Engine.Store.{Store, default_options}
use voodoo_store.Engine.Recovery.{start, finish, recover}
use voodoo_store.Engine.Durability.Sealing.{HasLog}
use voodoo_store.Engine.Durability.History.{
  Session, commits, rolls_back, run_sessions, run_sessions-HasLog, run_operations,
  run_operations-IsOpen, begun, IsOpen-begun,
}
use voodoo_store.Engine.Durability.Recovered.{Recovers, history-Recovers, crash-Recovers}
use voodoo_store.Engine.Open.Steps.{store_of}
use voodoo_store.Engine.Open.NewFile.{HasLog-empty, FitsHeader-new, open_new_file}
use voodoo_store.Log.{LogRecord}
use voodoo_store.Log
use voodoo_store.Log.RoundTrip.{FitsRecord, record_bytes, length-record_bytes, decode-encode_record}
use voodoo_store.Engine.Transaction.{Transaction}
use voodoo_store.Engine.Durability.Staging.{IsOpen}
use voodoo_store.Engine.Durability.Commit.{CommitPost, commit-CommitPost}
use voodoo_store.Result.{ok, err, ◌>>=◌}
use voodoo_store.Engine.Open.{open_with_options}
use voodoo_store.Engine.Open.Reopen.{reopen_keeps_state}
use voodoo_store.Engine.Open.Verify.{VerificationReport, verify, Reports, verify-Reports}
use voodoo_store.Engine.Durability.Keys.{
  KeyPost, put_internal_key-KeyPost, delete_internal_key-KeyPost,
}
use voodoo_store.Engine.Commit.{put_internal_key, delete_internal_key, commit}
use voodoo_store.Engine.Recovery.Scan.{replay, log_bytes, recover_log}
use voodoo_store.Engine.Recovery.Torn.{next_record-torn}
use voodoo_store.Header.RoundTrip.{FitsHeader, length-encode, decode-encode_header}
use voodoo_store.Engine.Durability.Crash.{Finds}
use voodoo_store.Engine.Durability.CrashHistory.{crash-Finds}

instance abbrev pub platform : Platform
platform = length_platform

abbrev store_id : Bytes
store_id = 7 ∷ 7 ∷ 7 ∷ 7 ∷ 7 ∷ 7 ∷ 7 ∷ 7 ∷ 7 ∷ 7 ∷ 7 ∷ 7 ∷ 7 ∷ 7 ∷ 7 ∷ 7 ∷ []

abbrev header : StoreHeader
header = Header.new store_id (pos 42)

header-FitsHeader : FitsHeader header
header-FitsHeader = FitsHeader-new store_id (pos 42) refl (omega arith)

abbrev device : Device
device = record { bytes = Header.encode header; writes = []; syncs = []; elapsed = [] }

abbrev pub empty_store : Store
empty_store = store_of default_options device header (finish (start, 0))

pub empty_store-HasLog : HasLog empty_store
empty_store-HasLog =
    HasLog-empty default_options device header header-FitsHeader
      (record { writes = tt; syncs = tt }) refl

abbrev sessions : List Session
sessions =
    record {
      emit_cdc = true;
      operations = put (b'a' ∷ []) (1 ∷ 2 ∷ []) ∷ put (b'b' ∷ []) [] ∷ [];
      ending = commits;
    }
    ∷ record { emit_cdc = false; operations = delete (b'a' ∷ []) ∷ []; ending = rolls_back }
    ∷ []

history-Recovers_example :
    Recovers (run_sessions sessions empty_store).device.bytes (run_sessions sessions empty_store)
history-Recovers_example = history-Recovers sessions empty_store empty_store-HasLog

abbrev entry : LogRecord
entry = record { kind = Log.put; tx_id = 2; sequence = 3; payload = 9 ∷ 9 ∷ 9 ∷ [] }

entry-FitsRecord : FitsRecord entry
entry-FitsRecord = record { tx_id = omega arith; sequence = omega arith; payload = omega arith }

-- A store with a committed transaction.
abbrev used_store : Store
used_store = run_sessions sessions empty_store

used_store-HasLog : HasLog used_store
used_store-HasLog = run_sessions-HasLog sessions empty_store empty_store-HasLog

crash-Recovers_example :
    Recovers (used_store.device.bytes ++ take 20 (record_bytes entry)) used_store
crash-Recovers_example =
    crash-Recovers used_store entry 20 used_store-HasLog entry-FitsRecord
      (omega (arith, length-record_bytes entry))

abbrev transaction : Transaction
transaction = run_operations (put (b'a' ∷ []) (1 ∷ []) ∷ []) (begun empty_store true)

transaction-IsOpen : IsOpen transaction
transaction-IsOpen =
    run_operations-IsOpen (put (b'a' ∷ []) (1 ∷ []) ∷ []) (begun empty_store true)
      (IsOpen-begun empty_store empty_store-HasLog true (omega arith))

commit-CommitPost_example : CommitPost transaction (commit transaction).0 (commit transaction).1
commit-CommitPost_example = commit-CommitPost transaction transaction-IsOpen

abbrev torn_device : Device
torn_device = record {
  bytes = empty_store.device.bytes ++ take 20 (record_bytes entry);
  writes = [];
  syncs = [];
  elapsed = [];
}

reopen_keeps_state_example :
    (s' : Store) × ((open_with_options default_options (err (randomness [])) torn_device).0 ≡ ok s')
    × HasLog s'
    × (s'.state ≡ [])
    × (s'.header ≡ header)
unfolding Header.new
reopen_keeps_state_example =
    reopen_keeps_state empty_store entry 20 default_options (err (randomness [])) torn_device
      empty_store-HasLog refl entry-FitsRecord (omega (arith, length-record_bytes entry)) refl
      (record { writes = tt; syncs = tt }) refl

abbrev new_device : Device
new_device = record { bytes = []; writes = []; syncs = []; elapsed = [] }

open_new_file_example :
    (s : Store) × ((open_with_options default_options (ok (store_id, pos 42)) new_device).0 ≡ ok s)
    × HasLog s
    × (s.state ≡ [])
    × (s.header ≡ Header.new store_id (pos 42))
open_new_file_example =
    open_new_file default_options store_id (pos 42) new_device refl refl
      (record { writes = tt; syncs = tt }) refl (omega arith)

verify-Reports_example :
    (report : VerificationReport) × (verify
        (empty_store.device.bytes ++ take 20 (record_bytes entry))
      ≡ ok report)
    × Reports empty_store 20 report
unfolding Header.new
verify-Reports_example =
    verify-Reports empty_store entry 20 empty_store-HasLog refl entry-FitsRecord
      (omega (arith, length-record_bytes entry))

put_internal_key-KeyPost_example :
    KeyPost
      (put (b'a' ∷ []) (1 ∷ []))
      empty_store
      (put_internal_key (b'a' ∷ []) (1 ∷ []) empty_store).0
      (put_internal_key (b'a' ∷ []) (1 ∷ []) empty_store).1
put_internal_key-KeyPost_example =
    put_internal_key-KeyPost (b'a' ∷ []) (1 ∷ []) empty_store empty_store-HasLog

delete_internal_key-KeyPost_example :
    KeyPost
      (delete (b'a' ∷ []))
      used_store
      (delete_internal_key (b'a' ∷ []) used_store).0
      (delete_internal_key (b'a' ∷ []) used_store).1
delete_internal_key-KeyPost_example =
    delete_internal_key-KeyPost (b'a' ∷ []) used_store used_store-HasLog

recover_log_example :
    recover (Header.encode header ++ (log_bytes (entry ∷ []) ++ take 20 (record_bytes entry)))
    ≡ (replay start (entry ∷ []) >>= λ r. ok (finish (r, length (log_bytes (entry ∷ [])))))
recover_log_example =
    recover_log (Header.encode header) (entry ∷ []) (take 20 (record_bytes entry))
      (length-encode header header-FitsHeader)
      (next_record-torn entry 20 entry-FitsRecord (omega (arith, length-record_bytes entry)))
      (entry-FitsRecord, tt)

decode-encode_header_example : Header.decode (Header.encode header) ≡ ok header
unfolding Header.new
decode-encode_header_example = decode-encode_header header header-FitsHeader

decode-encode_record_example : (Log.encode entry >>= Log.decode) ≡ ok entry
decode-encode_record_example = decode-encode_record entry entry-FitsRecord

decode_put-encode_put_example :
    decode_put (1 ∷ 0 ∷ 0 ∷ 0 ∷ b'a' ∷ 5 ∷ []) ≡ ok (put (b'a' ∷ []) (5 ∷ []))
unfolding encode_put to_le_bytes
decode_put-encode_put_example =
    decode_put-encode_put (b'a' ∷ []) (5 ∷ []) (1 ∷ 0 ∷ 0 ∷ 0 ∷ b'a' ∷ 5 ∷ []) refl

decode_delete-encode_delete_example :
    decode_delete (1 ∷ 0 ∷ 0 ∷ 0 ∷ b'a' ∷ []) ≡ ok (delete (b'a' ∷ []))
unfolding encode_delete to_le_bytes
decode_delete-encode_delete_example =
    decode_delete-encode_delete (b'a' ∷ []) (1 ∷ 0 ∷ 0 ∷ 0 ∷ b'a' ∷ []) refl

history_length : length (run_sessions sessions empty_store).device.bytes ≡ 439
unfolding Header.encode Header.body Header.new run_sessions Log.encode Log.frame commit
    encode_delete encode_put run_operations to_le_bytes voodoo_store.Bytes.bytes_eq
    voodoo_store.Bytes.starts_with voodoo_store.Cdc.Record.change_key
    voodoo_store.Cdc.Record.change_tx_prefix voodoo_store.Cdc.Record.encode_change
    voodoo_store.Cdc.Record.map_cdc_error voodoo_store.Cdc.Stage.change_of
    voodoo_store.Cdc.Stage.stage_change voodoo_store.Cdc.Stage.stage_changes
    voodoo_store.Cdc.Stage.stage_from voodoo_store.Engine.Commit.commit_inner
    voodoo_store.Engine.Commit.count_latency voodoo_store.Engine.Commit.elapsed_us
    voodoo_store.Engine.Commit.publish voodoo_store.Engine.Commit.seal
    voodoo_store.Engine.Commit.stage_if voodoo_store.Engine.Commit.sync_store
    voodoo_store.Engine.Device.map_io_error voodoo_store.Engine.Device.sync_all
    voodoo_store.Engine.Device.sync_file voodoo_store.Engine.Device.write_all
    voodoo_store.Engine.Durability.History.end_session
    voodoo_store.Engine.Durability.History.run_operation
    voodoo_store.Engine.Durability.History.run_session voodoo_store.Engine.Payload.apply_operation
    voodoo_store.Engine.Payload.apply_operations voodoo_store.Engine.Quota.check_final
    voodoo_store.Engine.Quota.check_namespace_quota voodoo_store.Engine.Quota.final_values
    voodoo_store.Engine.Quota.first_segment voodoo_store.Engine.Quota.namespace_for_key
    voodoo_store.Engine.Quota.namespace_total voodoo_store.Engine.Quota.namespace_totals
    voodoo_store.Engine.Store.append voodoo_store.Engine.Store.check_storage_quota
    voodoo_store.Engine.Store.count_append voodoo_store.Engine.Store.count_record
    voodoo_store.Engine.Store.next_transaction voodoo_store.Engine.Store.write_record
    voodoo_store.Engine.Transaction.begin_with_cdc voodoo_store.Engine.Transaction.delete_internal
    voodoo_store.Engine.Transaction.ensure_open voodoo_store.Engine.Transaction.put_internal
    voodoo_store.Engine.Transaction.rollback voodoo_store.Engine.Transaction.stage_operation
    voodoo_store.Map.get voodoo_store.Map.insert voodoo_store.Map.remove
history_length = refl

-- The cut lies inside of the first change record of the first transaction.
crash-Finds_example :
    (k : ℕ) × Finds
      (take 200 (run_sessions sessions empty_store).device.bytes)
      (run_sessions (take k sessions) empty_store).state
crash-Finds_example =
    crash-Finds sessions empty_store 200 empty_store-HasLog
      (omega (arith, length-encode header header-FitsHeader)) (omega (arith, history_length))
