-- ===== src/Engine/Store.antt =====
-- engine.rs: the open store, `append` and `begin`.
use voodoo_store.Prelude.{ℕ, Bool, true, Option, none, some, [], ◌∷◌, length, ltb, if◌then◌else◌}
use voodoo_store.Result.{Result, ok, err, ok_or, map_err}
use voodoo_store.Exec.{Exec, pure, lift, gets, modify, ◌>>=◌, ◌>>◌}
use voodoo_store.Bytes.{Bytes, starts_with}
use voodoo_store.Bytes.Words.{checked_add, saturating_add}
use voodoo_store.Platform.{Platform}
use voodoo_store.Header.{StoreHeader}
use voodoo_store.Log.{RecordKind, LogRecord}
use voodoo_store.Log
use voodoo_store.Map.{key_eq, sort_by_key}
use voodoo_store.Engine.Payload.{State, EngineError, log, counter_exhausted, storage_quota_exceeded}
use voodoo_store.Engine.Device.{Device, Durability, data_only, write_all, map_io_error}

pub record StoreOptions : Type 0 where
  pub durability : Durability
  pub repair_torn_tail : Bool
  pub max_bytes : Option ℕ
  pub namespace_max_bytes : Option ℕ

abbrev pub default_options : StoreOptions
default_options = record {
  durability = data_only;
  repair_torn_tail = true;
  max_bytes = none;
  namespace_max_bytes = none;
}

pub record StoreMetrics : Type 0 where
  pub commits : ℕ
  pub puts : ℕ
  pub deletes : ℕ
  pub records_appended : ℕ
  pub bytes_appended : ℕ
  pub recovery_records : ℕ
  pub commit_latency_total_us : ℕ
  pub commit_latency_max_us : ℕ
  pub fsync_latency_total_us : ℕ
  pub fsync_latency_max_us : ℕ
  pub commit_errors : ℕ
  pub queue_claims : ℕ
  pub queue_acks : ℕ
  pub object_puts : ℕ
  pub object_bytes_written : ℕ
  pub object_gc_runs : ℕ
  pub object_gc_removed : ℕ

abbrev pub zero_metrics : StoreMetrics
zero_metrics = record {
  commits = 0;
  puts = 0;
  deletes = 0;
  records_appended = 0;
  bytes_appended = 0;
  recovery_records = 0;
  commit_latency_total_us = 0;
  commit_latency_max_us = 0;
  fsync_latency_total_us = 0;
  fsync_latency_max_us = 0;
  commit_errors = 0;
  queue_claims = 0;
  queue_acks = 0;
  object_puts = 0;
  object_bytes_written = 0;
  object_gc_runs = 0;
  object_gc_removed = 0;
}

-- The lock and the path of the file are not modelled.
pub record Store : Type 0 where
  pub device : Device
  pub header : StoreHeader
  pub options : StoreOptions
  pub state : State
  pub next_tx_id : ℕ
  pub next_sequence : ℕ
  pub metrics : StoreMetrics

unfoldable pub record_queue_claim : Store → Store
record_queue_claim s = record s {
  metrics = record m { queue_claims = saturating_add m.queue_claims 1 };
}
  where
    m : StoreMetrics
    m = s.metrics

unfoldable pub record_queue_ack : Store → Store
record_queue_ack s = record s { metrics = record m { queue_acks = saturating_add m.queue_acks 1 } }
  where
    m : StoreMetrics
    m = s.metrics

unfoldable pub filter_prefix : State → Bytes → State
filter_prefix [] prefix = []
filter_prefix ((key, value) ∷ state) prefix =
    let rest = filter_prefix state prefix in
    if starts_with key prefix then (key, value) ∷ rest else rest

-- `scan_prefix`
unfoldable pub scan_prefix : State → Bytes → State
unfolding filter_prefix
scan_prefix state prefix = sort_by_key (filter_prefix state prefix)

-- `begin_with_cdc`: the new transaction's id.
unfoldable pub next_transaction : Exec Store EngineError ℕ
next_transaction = do
  tx_id ← gets (λ s. s.next_tx_id)
  next ← lift (ok_or (checked_add tx_id 1) counter_exhausted)
  modify (λ s. record s { next_tx_id = next })
  pure tx_id

-- The quota test of `append`.
unfoldable pub check_storage_quota : Option ℕ → ℕ → ℕ → Result EngineError (Unit {0})
check_storage_quota none current added = ok tt
check_storage_quota (some max_bytes) current added = elim (checked_add current added) [
  | none ↦ err (storage_quota_exceeded max_bytes)
  | some projected ↦
      if ltb max_bytes projected then err (storage_quota_exceeded max_bytes) else ok tt
]

abbrev on_device {ℓ} : {A : Type ℓ} → Exec Device EngineError A → Exec Store EngineError A
on_device m s = ((m s.device).0, record s { device = (m s.device).1 })

-- What `append` adds to the metrics for a kind of record.
unfoldable pub count_record : RecordKind → StoreMetrics → StoreMetrics
count_record Log.put m = record m { puts = saturating_add m.puts 1 }
count_record Log.delete m = record m { deletes = saturating_add m.deletes 1 }
count_record Log.commit m = record m { commits = saturating_add m.commits 1 }

unfoldable pub count_append : RecordKind → ℕ → StoreMetrics → StoreMetrics
unfolding count_record
count_append kind bytes m = count_record kind (record m {
  records_appended = saturating_add m.records_appended 1;
  bytes_appended = saturating_add m.bytes_appended bytes;
})

-- `append`, once the record is encoded.
unfoldable pub write_record : RecordKind → Bytes → Exec Store EngineError (Unit {0})
unfolding check_storage_quota
write_record kind bytes = do
  max_bytes ← gets (λ s. s.options.max_bytes)
  current ← gets (λ s. length s.device.bytes)
  lift (check_storage_quota max_bytes current (length bytes))
  on_device (write_all map_io_error bytes)
  modify (λ s. record s { metrics = count_append kind (length bytes) s.metrics })

module _ ⦃d : Platform⦄ where
  unfoldable pub append : RecordKind → ℕ → Bytes → Exec Store EngineError (Unit {0})
  append kind tx_id payload = do
    sequence ← gets (λ s. s.next_sequence)
    next ← lift (ok_or (checked_add sequence 1) counter_exhausted)
    modify (λ s. record s { next_sequence = next })
    bytes ← lift (
        map_err log (
          Log.encode
            (record { kind = kind; tx_id = tx_id; sequence = sequence; payload = payload })))
    write_record kind bytes
