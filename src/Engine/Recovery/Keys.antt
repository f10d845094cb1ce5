-- ===== src/Engine/Recovery/Keys.antt =====
-- engine.rs: the state that recovery builds lists no key twice.
use voodoo_store.Prelude.{
  ◌≡◌, refl, Option, none, some, List, [], ◌∷◌, ℕ, subst, sym, ap, ◌∙◌, leb, not, ◌&&◌, ◌==◌,
}
use voodoo_store.Result.{Result, ok, >>=-eq-ok, fail_if, ok_or}
use voodoo_store.Bytes.{Bytes}
use voodoo_store.Map.{get, insert, remove, key_eq, contains, id_eq}
use voodoo_store.Map.Unique.{IsUnique, insert-IsUnique, remove-IsUnique}
use voodoo_store.Log.{LogRecord, RecordKind}
use voodoo_store.Log
use voodoo_store.Engine.Payload.{
  State, Operation, put, delete, EngineError, apply_operation, apply_operations, decode_put,
  decode_delete, non_monotonic_sequence, record_after_commit, counter_exhausted,
}
use voodoo_store.Engine.Recovery.{Replayed, replay_kind, replay_record, apply_pending}
use voodoo_store.Engine.Recovery.Scan.{replay}
use voodoo_store.Bytes.Words.{checked_add}

pub apply_operations-IsUnique :
    (operations : List Operation) (state : State)
    → IsUnique state
    → IsUnique (apply_operations state operations)
unfolding apply_operations apply_operation
apply_operations-IsUnique [] state h = h
apply_operations-IsUnique (put key value ∷ operations) state h =
    apply_operations-IsUnique operations (insert state key value)
      (insert-IsUnique state key value h)
apply_operations-IsUnique (delete key ∷ operations) state h =
    apply_operations-IsUnique operations (remove state key) (remove-IsUnique state key h)

apply_pending-IsUnique :
    (state : State) (operations : Option (List Operation))
    → IsUnique state
    → IsUnique (apply_pending state operations)
apply_pending-IsUnique state none h = h
apply_pending-IsUnique state (some operations) h = apply_operations-IsUnique operations state h

ok_inj : {r r' : Replayed} → ◌≡◌ {A = Result EngineError Replayed} (ok r) (ok r') → r ≡ r'
ok_inj h = cc

same_state :
    (r r' : Replayed) (q : Replayed)
    → q.state ≡ r.state
    → ◌≡◌ {A = Result EngineError Replayed} (ok q) (ok r')
    → IsUnique r.state
    → IsUnique r'.state
same_state r r' q e h u =
    subst (λ x. IsUnique x) (sym e ∙ ap (λ (x : Replayed). x.state) (ok_inj h)) u

replay_kind-IsUnique :
    (kind : RecordKind) (tx_id : ℕ) (payload : Bytes) (r r' : Replayed)
    → replay_kind kind tx_id payload r ≡ ok r'
    → IsUnique r.state
    → IsUnique r'.state
unfolding replay_kind
replay_kind-IsUnique Log.put tx_id payload r r' e u =
    let (operation, _, h) = >>=-eq-ok (decode_put payload) _ e in same_state r r' _ refl h u
replay_kind-IsUnique Log.delete tx_id payload r r' e u =
    let (operation, _, h) = >>=-eq-ok (decode_delete payload) _ e in same_state r r' _ refl h u
replay_kind-IsUnique Log.commit tx_id payload r r' e u =
    subst (λ x. IsUnique x) (ap (λ (x : Replayed). x.state) (ok_inj e))
      (apply_pending-IsUnique r.state (get r.pending tx_id) u)

replay_record-IsUnique :
    (r r' : Replayed) (entry : LogRecord)
    → replay_record r entry ≡ ok r'
    → IsUnique r.state
    → IsUnique r'.state
unfolding replay_record
replay_record-IsUnique r r' entry e h =
    let (_, _, e1) =
      >>=-eq-ok
        (fail_if (leb entry.sequence r.max_sequence && not (r.max_sequence == 0))
          (non_monotonic_sequence r.max_sequence entry.sequence))
        _ e in
    let (_, _, e2) =
      >>=-eq-ok (fail_if (contains r.committed entry.tx_id) (record_after_commit entry.tx_id)) _
        e1 in
    let (records, _, e3) = >>=-eq-ok (ok_or (checked_add r.records 1) counter_exhausted) _ e2 in
    replay_kind-IsUnique entry.kind entry.tx_id entry.payload _ r' e3 h

-- Replaying records keeps the keys of the state apart.
pub replay-IsUnique :
    (entries : List LogRecord) (r r' : Replayed)
    → replay r entries ≡ ok r'
    → IsUnique r.state
    → IsUnique r'.state
unfolding replay
replay-IsUnique [] r r' e h = subst (λ x. IsUnique x) (ap (λ (x : Replayed). x.state) (ok_inj e)) h
replay-IsUnique (entry ∷ entries) r r' e h =
    let (r1, e1, e2) = >>=-eq-ok (replay_record r entry) (λ x. replay x entries) e in
    replay-IsUnique entries r1 r' e2 (replay_record-IsUnique r r1 entry e1 h)
