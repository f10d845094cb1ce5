-- ===== src/Queue/Tests.antt =====
-- queue.rs at concrete inputs: a queue into which one message is pushed and from which it is claimed.
mod Commands
use voodoo_store.Prelude.{
  ◌∙◌, ◌<◌, ◌≢◌, ℕ, ◌≡◌, refl, some, [], ◌∷◌, Option, none, sym, ap, subst, ◌⊎◌, inl, inr, arith,
}
use voodoo_store.Prelude.Int.{pos}
use voodoo_store.Result.{Result, ok, err, ◌>>=◌}
use voodoo_store.Bytes.{Bytes, from_le_bytes, slice}
use voodoo_store.Map.{sort_by_key, insert_sorted}
use voodoo_store.Platform.{Platform, length_platform}
use voodoo_store.Engine.Payload.{State}
use voodoo_store.Engine.Store.{Store, scan_prefix}
use voodoo_store.Engine.Tests.{empty_store, empty_store-HasLog}
use voodoo_store.Engine.Durability.Sealing.{HasLog}
use voodoo_store.Queue.{
  PushOptions, QueueMessage, pushed, push_with_options, claim, ack, nack, dead_letter, next_id,
}
use voodoo_store.Queue.Message.{
  Queue, StoredMessage, QueueError, lease_mismatch, handle, new, message_key, state_of_byte,
  decode_message, encode_message,
}
use voodoo_store.Queue.Message.RoundTrip.{FitsMessage, decode_message-encode_message}
use voodoo_store.Queue.Lease.{ClaimPost, claim-ClaimPost}
use voodoo_store.Queue.Fencing.{TurnedAway}
use voodoo_store.Queue.Invariant.{IsQueue}
use voodoo_store.Queue.Release.{AckPost, ack-AckPost}
use voodoo_store.Queue.Promises.{
  DeliverPost, HandBackPost, TurnsReady, TurnsDead, EnqueuePost, claim-DeliverPost,
  nack-HandBackPost, dead_letter-HandBackPost, push_with_options-EnqueuePost,
}
use voodoo_store.Queue.Push.{PushPost, push_with_options-PushPost}

instance abbrev platform : Platform
platform = length_platform

abbrev pub name : Bytes
name = b'q' ∷ []

abbrev pub queue : Queue
queue = handle name 1

abbrev pub payload : Bytes
payload = 5 ∷ 6 ∷ []

abbrev pub options : PushOptions
options = record { available_at_ms = pos 10; priority = pos 3 }

abbrev pub pushed_store : Store
pushed_store = (push_with_options queue payload options empty_store).1

abbrev pub delivered_message : QueueMessage
delivered_message = record {
  id = 1;
  payload = payload;
  attempts = 1;
  priority = pos 3;
  available_at_ms = pos 10;
  lease_until_ms = pos 150;
  lease_generation = 1;
}

pub new-queue : new name ≡ ok queue
unfolding new
new-queue = refl

push_result : (push_with_options queue payload options empty_store).0 ≡ ok 1
unfolding push_with_options voodoo_store.Bytes.bytes_eq voodoo_store.Bytes.from_le_bytes
    voodoo_store.Bytes.starts_with voodoo_store.Bytes.to_le_bytes voodoo_store.Cdc.Record.change_key
    voodoo_store.Cdc.Record.change_tx_prefix voodoo_store.Cdc.Record.encode_change
    voodoo_store.Cdc.Record.map_cdc_error voodoo_store.Cdc.Stage.change_of
    voodoo_store.Cdc.Stage.stage_change voodoo_store.Cdc.Stage.stage_changes
    voodoo_store.Cdc.Stage.stage_from voodoo_store.Engine.Commit.commit
    voodoo_store.Engine.Commit.commit_inner voodoo_store.Engine.Commit.count_latency
    voodoo_store.Engine.Commit.elapsed_us voodoo_store.Engine.Commit.publish
    voodoo_store.Engine.Commit.seal voodoo_store.Engine.Commit.stage_if
    voodoo_store.Engine.Commit.sync_store voodoo_store.Engine.Commit.transact_from
    voodoo_store.Engine.Device.map_io_error voodoo_store.Engine.Device.sync_all
    voodoo_store.Engine.Device.sync_file voodoo_store.Engine.Device.write_all
    voodoo_store.Engine.Payload.apply_operation voodoo_store.Engine.Payload.apply_operations
    voodoo_store.Engine.Payload.encode_put voodoo_store.Engine.Quota.check_final
    voodoo_store.Engine.Quota.check_namespace_quota voodoo_store.Engine.Quota.final_values
    voodoo_store.Engine.Quota.first_segment voodoo_store.Engine.Quota.namespace_for_key
    voodoo_store.Engine.Quota.namespace_total voodoo_store.Engine.Quota.namespace_totals
    voodoo_store.Engine.Store.append voodoo_store.Engine.Store.check_storage_quota
    voodoo_store.Engine.Store.count_append voodoo_store.Engine.Store.count_record
    voodoo_store.Engine.Store.next_transaction voodoo_store.Engine.Store.write_record
    voodoo_store.Engine.Transaction.begin_with_cdc voodoo_store.Engine.Transaction.ensure_open
    voodoo_store.Engine.Transaction.put_internal voodoo_store.Engine.Transaction.stage_operation
    voodoo_store.Log.encode voodoo_store.Log.frame voodoo_store.Map.get voodoo_store.Map.insert
    voodoo_store.Map.remove voodoo_store.Queue.Message.encode_message
    voodoo_store.Queue.Message.fixed voodoo_store.Queue.Message.message_key
    voodoo_store.Queue.next_id
push_result = refl

pub claim_result : (claim queue (pos 100) 50 pushed_store).0 ≡ ok (some delivered_message)
unfolding claim push_with_options voodoo_store.Bytes.bytes_eq voodoo_store.Bytes.bytes_lt
    voodoo_store.Bytes.from_le_bytes voodoo_store.Bytes.slice voodoo_store.Bytes.starts_with
    voodoo_store.Bytes.to_le_bytes voodoo_store.Cdc.Record.change_key
    voodoo_store.Cdc.Record.change_tx_prefix voodoo_store.Cdc.Record.encode_change
    voodoo_store.Cdc.Record.map_cdc_error voodoo_store.Cdc.Stage.change_of
    voodoo_store.Cdc.Stage.stage_change voodoo_store.Cdc.Stage.stage_changes
    voodoo_store.Cdc.Stage.stage_from voodoo_store.Engine.Commit.commit
    voodoo_store.Engine.Commit.commit_inner voodoo_store.Engine.Commit.count_latency
    voodoo_store.Engine.Commit.elapsed_us voodoo_store.Engine.Commit.publish
    voodoo_store.Engine.Commit.put_internal_key voodoo_store.Engine.Commit.seal
    voodoo_store.Engine.Commit.stage_if voodoo_store.Engine.Commit.sync_store
    voodoo_store.Engine.Commit.transact voodoo_store.Engine.Commit.transact_from
    voodoo_store.Engine.Device.map_io_error voodoo_store.Engine.Device.sync_all
    voodoo_store.Engine.Device.sync_file voodoo_store.Engine.Device.write_all
    voodoo_store.Engine.Payload.apply_operation voodoo_store.Engine.Payload.apply_operations
    voodoo_store.Engine.Payload.encode_put voodoo_store.Engine.Quota.check_final
    voodoo_store.Engine.Quota.check_namespace_quota voodoo_store.Engine.Quota.final_values
    voodoo_store.Engine.Quota.first_segment voodoo_store.Engine.Quota.namespace_for_key
    voodoo_store.Engine.Quota.namespace_total voodoo_store.Engine.Quota.namespace_totals
    voodoo_store.Engine.Store.append voodoo_store.Engine.Store.check_storage_quota
    voodoo_store.Engine.Store.count_append voodoo_store.Engine.Store.count_record
    voodoo_store.Engine.Store.filter_prefix voodoo_store.Engine.Store.next_transaction
    voodoo_store.Engine.Store.record_queue_claim voodoo_store.Engine.Store.scan_prefix
    voodoo_store.Engine.Store.write_record voodoo_store.Engine.Transaction.begin_with_cdc
    voodoo_store.Engine.Transaction.ensure_open voodoo_store.Engine.Transaction.put_internal
    voodoo_store.Engine.Transaction.stage_operation voodoo_store.Log.encode voodoo_store.Log.frame
    voodoo_store.Map.get voodoo_store.Map.insert voodoo_store.Map.insert_sorted
    voodoo_store.Map.remove voodoo_store.Map.sort_by_key voodoo_store.Prelude.Int.◌+ℤ◌
    voodoo_store.Queue.Claim.consider voodoo_store.Queue.Claim.eligible
    voodoo_store.Queue.Claim.precedes voodoo_store.Queue.Claim.replaces
    voodoo_store.Queue.Claim.select voodoo_store.Queue.Message.decode_message
    voodoo_store.Queue.Message.encode_message voodoo_store.Queue.Message.fixed
    voodoo_store.Queue.Message.message_key voodoo_store.Queue.Message.state_of_byte
    voodoo_store.Queue.lease_candidate voodoo_store.Queue.next_id
claim_result = refl

PushPost-HasLog :
    (q : Queue) (bytes : Bytes) (o : PushOptions) (s s' : Store) (r : Result QueueError ℕ)
    → PushPost q bytes o s r s'
    → HasLog s'
PushPost-HasLog q bytes o s s' (ok _) h = h.0
PushPost-HasLog q bytes o s s' (err _) h = h.0

pushed_store-HasLog : HasLog pushed_store
pushed_store-HasLog =
    PushPost-HasLog queue payload options empty_store pushed_store
      (push_with_options queue payload options empty_store).0
      (push_with_options-PushPost name queue payload options empty_store new-queue
        empty_store-HasLog)

abbrev pushed_message : StoredMessage
pushed_message = pushed 1 payload options

abbrev pushed_value : Bytes
pushed_value =
    1 ∷ 0 ∷ 1 ∷ 0 ∷ 0 ∷ 0 ∷ 0 ∷ 0 ∷ 0 ∷ 0 ∷ 0 ∷ 0 ∷ 0 ∷ 0 ∷ 3 ∷ 0 ∷ 0 ∷ 0 ∷ 10 ∷ 0 ∷ 0 ∷ 0 ∷ 0 ∷ 0
    ∷ 0 ∷ 0 ∷ 0 ∷ 0 ∷ 0 ∷ 0 ∷ 0 ∷ 0 ∷ 0 ∷ 0 ∷ 2 ∷ 0 ∷ 0 ∷ 0 ∷ 5 ∷ 6 ∷ []

pushed_message-FitsMessage : FitsMessage pushed_message
pushed_message-FitsMessage = record {
  id = omega arith;
  attempts = omega arith;
  priority = omega arith;
  available_at_ms = omega arith;
  lease_until_ms = omega arith;
  payload = omega arith;
}

decode_message-encode_message_example :
    (encode_message pushed_message >>= decode_message) ≡ ok pushed_message
decode_message-encode_message_example =
    decode_message-encode_message pushed_message pushed_message-FitsMessage

push_with_options-EnqueuePost_example :
    EnqueuePost queue payload options empty_store
      (push_with_options queue payload options empty_store).0
      (push_with_options queue payload options empty_store).1
push_with_options-EnqueuePost_example =
    push_with_options-EnqueuePost name queue empty_store new-queue empty_store-HasLog payload
      options

claim-DeliverPost_example :
    DeliverPost queue
      (pos 100)
      50
      pushed_store
      (claim queue (pos 100) 50 pushed_store).0
      (claim queue (pos 100) 50 pushed_store).1
claim-DeliverPost_example =
    claim-DeliverPost name queue pushed_store new-queue pushed_store-HasLog (pos 100) 50

abbrev pub claimed_store : Store
claimed_store = (claim queue (pos 100) 50 pushed_store).1

ClaimPost-HasLog :
    (s' : Store) (r : Result QueueError (Option QueueMessage))
    → ClaimPost queue (pos 100) 50 pushed_store r s'
    → HasLog s'
ClaimPost-HasLog s' (ok none) h = subst HasLog (sym h.0) pushed_store-HasLog
ClaimPost-HasLog s' (ok (some m)) h = h.0
ClaimPost-HasLog s' (err _) h = h.0

claimed_store-HasLog : HasLog claimed_store
claimed_store-HasLog =
    ClaimPost-HasLog claimed_store (claim queue (pos 100) 50 pushed_store).0
      (claim-ClaimPost name queue (pos 100) 50 pushed_store new-queue pushed_store-HasLog)

ack-AckPost_example :
    AckPost queue 1 1 claimed_store (ack queue 1 1 claimed_store).0 (ack queue 1 1 claimed_store).1
ack-AckPost_example = ack-AckPost name queue 1 1 claimed_store new-queue claimed_store-HasLog

nack-HandBackPost_example :
    HandBackPost
      (TurnsReady (pos 200))
      queue
      1
      1
      claimed_store
      (nack queue 1 1 (pos 200) claimed_store).0
      (nack queue 1 1 (pos 200) claimed_store).1
nack-HandBackPost_example =
    nack-HandBackPost name queue claimed_store new-queue claimed_store-HasLog 1 1 (pos 200)

dead_letter-HandBackPost_example :
    HandBackPost TurnsDead queue 1 1 claimed_store
      (dead_letter queue 1 1 claimed_store).0
      (dead_letter queue 1 1 claimed_store).1
dead_letter-HandBackPost_example =
    dead_letter-HandBackPost name queue claimed_store new-queue claimed_store-HasLog 1 1
