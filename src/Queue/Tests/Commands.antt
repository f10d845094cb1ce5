-- ===== src/Queue/Tests/Commands.antt =====
-- queue.rs: sequences of calls on a queue, on small stores.
use voodoo_store.Prelude.{
  ◌∙◌, ◌<◌, ◌≢◌, ℕ, ◌≡◌, refl, some, [], ◌∷◌, Option, none, sym, ap, subst, ◌⊎◌, inl, inr, arith,
}
use voodoo_store.Prelude.Int.{pos}
use voodoo_store.Result.{Result, ok}
use voodoo_store.Bytes.{Bytes, from_le_bytes, slice}
use voodoo_store.Map.{sort_by_key, insert_sorted}
use voodoo_store.Platform.{Platform, length_platform}
use voodoo_store.Engine.Payload.{State}
use voodoo_store.Engine.Store.{Store, scan_prefix}
use voodoo_store.Engine.Tests.{empty_store, empty_store-HasLog}
use voodoo_store.Queue.{
  PushOptions, QueueMessage, pushed, push_with_options, claim, ack, nack, dead_letter, as_ready,
  as_dead, next_id,
}
use voodoo_store.Queue.Message.{
  Queue, StoredMessage, QueueError, lease_mismatch, handle, new, message_key, state_of_byte,
  decode_message, encode_message,
}
use voodoo_store.Queue.Fencing.{TurnedAway}
use voodoo_store.Queue.Invariant.{IsQueue}
use voodoo_store.Queue.Tokens.{run_commands-turn_away}
use voodoo_store.Queue.Commands.{push, claim_next, nack_one, run_commands, IsSound}
use voodoo_store.Queue.Sound.{run_commands-IsSound, run_commands-fences}
use voodoo_store.Queue.Tests.{
  name, queue, payload, options, pushed_store, delivered_message, claimed_store, new-queue,
  claim_result,
}

instance abbrev platform : Platform
platform = length_platform

empty_store-IsQueue : IsQueue queue empty_store.state
unfolding voodoo_store.Map.get
empty_store-IsQueue = record { at = λ key value m prefixed found. absurd (none_ne_some found) }
  where
    none_ne_some : {v : Bytes} → ◌≢◌ {A = Option Bytes} none (some v)
    none_ne_some e = cc

run_commands-IsSound_example : IsSound queue (
    run_commands queue
      (push payload options ∷ claim_next (pos 100) 50 ∷ nack_one 1 1 (pos 200) ∷ [])
      empty_store)
run_commands-IsSound_example =
    run_commands-IsSound name queue new-queue
      (push payload options ∷ claim_next (pos 100) 50 ∷ nack_one 1 1 (pos 200) ∷ []) empty_store
      ((omega arith, omega arith), (tt, (omega arith, tt)))
      (empty_store-HasLog, empty_store-IsQueue)

run_commands-fences_example :
    TurnedAway queue 1 7 (lease_mismatch 1 1 7) (claim queue (pos 100) 50 pushed_store).1
run_commands-fences_example =
    run_commands-fences name queue new-queue (push payload options ∷ []) empty_store (pos 100) 50
      delivered_message 7 ((omega arith, omega arith), tt) (empty_store-HasLog, empty_store-IsQueue)
      claim_result (λ e. omega (arith, e))

-- The lease has run out, and the message is claimed once more.
abbrev again_message : QueueMessage
again_message = record delivered_message {
  attempts = 2;
  lease_generation = 2;
  lease_until_ms = pos 250;
}

again_result : (claim queue (pos 200) 50 claimed_store).0 ≡ ok (some again_message)
unfolding claim push_with_options voodoo_store.Bytes.bytes_eq voodoo_store.Bytes.bytes_lt
    voodoo_store.Bytes.from_le_bytes voodoo_store.Bytes.slice voodoo_store.Bytes.starts_with
    voodoo_store.Bytes.to_le_bytes voodoo_store.Cdc.Record.change_key
    voodoo_store.Cdc.Record.change_tx_prefix voodoo_store.Cdc.Record.encode_change
    voodoo_store.Cdc.Record.map_cdc_error voodoo_store.Cdc.Stage.change_of
    voodoo_store.Cdc.Stage.stage_change voodoo_store.Cdc.Stage.stage_changes
    voodoo_store.Cdc.Stage.stage_from voodoo_store.Engine.Commit.commit
    voodoo_store.Engine.Commit.commit_inner voodoo_store.Engine.Commit.count_latency
    voodoo_store.Engine.Commit.elapsed_us voodoo_store.Engine.Commit.publish
    voodoo_store.Engine.Commit.put_internal_key voodoo_store.Engine.Commit.seal
    voodoo_store.Engine.Commit.stage_if voodoo_store.Engine.Commit.sync_store
    voodoo_store.Engine.Commit.transact voodoo_store.Engine.Commit.transact_from
    voodoo_store.Engine.Device.map_io_error voodoo_store.Engine.Device.sync_all
    voodoo_store.Engine.Device.sync_file voodoo_store.Engine.Device.write_all
    voodoo_store.Engine.Payload.apply_operation voodoo_store.Engine.Payload.apply_operations
    voodoo_store.Engine.Payload.encode_put voodoo_store.Engine.Quota.check_final
    voodoo_store.Engine.Quota.check_namespace_quota voodoo_store.Engine.Quota.final_values
    voodoo_store.Engine.Quota.first_segment voodoo_store.Engine.Quota.namespace_for_key
    voodoo_store.Engine.Quota.namespace_total voodoo_store.Engine.Quota.namespace_totals
    voodoo_store.Engine.Store.append voodoo_store.Engine.Store.check_storage_quota
    voodoo_store.Engine.Store.count_append voodoo_store.Engine.Store.count_record
    voodoo_store.Engine.Store.filter_prefix voodoo_store.Engine.Store.next_transaction
    voodoo_store.Engine.Store.record_queue_claim voodoo_store.Engine.Store.scan_prefix
    voodoo_store.Engine.Store.write_record voodoo_store.Engine.Transaction.begin_with_cdc
    voodoo_store.Engine.Transaction.ensure_open voodoo_store.Engine.Transaction.put_internal
    voodoo_store.Engine.Transaction.stage_operation voodoo_store.Log.encode voodoo_store.Log.frame
    voodoo_store.Map.get voodoo_store.Map.insert voodoo_store.Map.insert_sorted
    voodoo_store.Map.remove voodoo_store.Map.sort_by_key voodoo_store.Prelude.Int.◌+ℤ◌
    voodoo_store.Queue.Claim.consider voodoo_store.Queue.Claim.eligible
    voodoo_store.Queue.Claim.precedes voodoo_store.Queue.Claim.replaces
    voodoo_store.Queue.Claim.select voodoo_store.Queue.Message.decode_message
    voodoo_store.Queue.Message.encode_message voodoo_store.Queue.Message.fixed
    voodoo_store.Queue.Message.message_key voodoo_store.Queue.Message.state_of_byte
    voodoo_store.Queue.lease_candidate voodoo_store.Queue.next_id
again_result = refl

again_next : next_id queue (claim queue (pos 200) 50 claimed_store).1.state ≡ ok 2
unfolding claim push_with_options voodoo_store.Bytes.bytes_eq voodoo_store.Bytes.bytes_lt
    voodoo_store.Bytes.from_le_bytes voodoo_store.Bytes.slice voodoo_store.Bytes.starts_with
    voodoo_store.Bytes.to_le_bytes voodoo_store.Cdc.Record.change_key
    voodoo_store.Cdc.Record.change_tx_prefix voodoo_store.Cdc.Record.encode_change
    voodoo_store.Cdc.Record.map_cdc_error voodoo_store.Cdc.Stage.change_of
    voodoo_store.Cdc.Stage.stage_change voodoo_store.Cdc.Stage.stage_changes
    voodoo_store.Cdc.Stage.stage_from voodoo_store.Engine.Commit.commit
    voodoo_store.Engine.Commit.commit_inner voodoo_store.Engine.Commit.count_latency
    voodoo_store.Engine.Commit.elapsed_us voodoo_store.Engine.Commit.publish
    voodoo_store.Engine.Commit.put_internal_key voodoo_store.Engine.Commit.seal
    voodoo_store.Engine.Commit.stage_if voodoo_store.Engine.Commit.sync_store
    voodoo_store.Engine.Commit.transact voodoo_store.Engine.Commit.transact_from
    voodoo_store.Engine.Device.map_io_error voodoo_store.Engine.Device.sync_all
    voodoo_store.Engine.Device.sync_file voodoo_store.Engine.Device.write_all
    voodoo_store.Engine.Payload.apply_operation voodoo_store.Engine.Payload.apply_operations
    voodoo_store.Engine.Payload.encode_put voodoo_store.Engine.Quota.check_final
    voodoo_store.Engine.Quota.check_namespace_quota voodoo_store.Engine.Quota.final_values
    voodoo_store.Engine.Quota.first_segment voodoo_store.Engine.Quota.namespace_for_key
    voodoo_store.Engine.Quota.namespace_total voodoo_store.Engine.Quota.namespace_totals
    voodoo_store.Engine.Store.append voodoo_store.Engine.Store.check_storage_quota
    voodoo_store.Engine.Store.count_append voodoo_store.Engine.Store.count_record
    voodoo_store.Engine.Store.filter_prefix voodoo_store.Engine.Store.next_transaction
    voodoo_store.Engine.Store.record_queue_claim voodoo_store.Engine.Store.scan_prefix
    voodoo_store.Engine.Store.write_record voodoo_store.Engine.Transaction.begin_with_cdc
    voodoo_store.Engine.Transaction.ensure_open voodoo_store.Engine.Transaction.put_internal
    voodoo_store.Engine.Transaction.stage_operation voodoo_store.Log.encode voodoo_store.Log.frame
    voodoo_store.Map.get voodoo_store.Map.insert voodoo_store.Map.insert_sorted
    voodoo_store.Map.remove voodoo_store.Map.sort_by_key voodoo_store.Prelude.Int.◌+ℤ◌
    voodoo_store.Queue.Claim.consider voodoo_store.Queue.Claim.eligible
    voodoo_store.Queue.Claim.precedes voodoo_store.Queue.Claim.replaces
    voodoo_store.Queue.Claim.select voodoo_store.Queue.Message.decode_message
    voodoo_store.Queue.Message.encode_message voodoo_store.Queue.Message.fixed
    voodoo_store.Queue.Message.message_key voodoo_store.Queue.Message.state_of_byte
    voodoo_store.Queue.lease_candidate voodoo_store.Queue.next_id
again_next = refl

run_commands-turn_away_example :
    (error : QueueError) × TurnedAway queue 1 1 error (
      run_commands queue
        (nack_one 1 1 (pos 300) ∷ claim_next (pos 400) 50 ∷ [])
        (claim queue (pos 200) 50 claimed_store).1)
run_commands-turn_away_example =
    run_commands-turn_away name queue new-queue (pos 200) 50 claimed_store again_message
      (nack_one 1 1 (pos 300) ∷ claim_next (pos 400) 50 ∷ []) 1
      (run_commands-IsSound name queue new-queue
        (push payload options ∷ claim_next (pos 100) 50 ∷ []) empty_store
        ((omega arith, omega arith), (tt, tt)) (empty_store-HasLog, empty_store-IsQueue))
      again_result (λ k e. ok_lt k (sym again_next ∙ e)) (omega arith, (tt, tt)) (omega arith)
  where
    ok_lt : (k : ℕ) → ◌≡◌ {A = Result QueueError ℕ} (ok 2) (ok k) → 1 < k
    ok_lt k e = ground (arith, e)
