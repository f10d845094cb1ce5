-- ===== src/Engine/Recovery/Replay.antt =====
-- The fold of recovery's loop body over the records of a log.
use mathlib.Core.List.{append_assoc, append-nil}
use voodoo_store.Prelude.{
  ℕ, ◌+◌, ◌^◌, ◌≤◌, ◌<◌, ◌≡◌, ◌≢◌, sym, ap, ◌∙◌, false, max, some, List, [], ◌∷◌, ◌++◌, arith,
}
use voodoo_store.Result.{ok, >>=-eq-ok, bind-ok}
use voodoo_store.Platform.{Platform}
use voodoo_store.Log.{LogRecord}
use voodoo_store.Log.RoundTrip.{FitsRecord, record_bytes}
use voodoo_store.Map.{Map, get, contains, add, id_eq, get-insert_self, get-insert_ne}
use voodoo_store.Engine.Payload.{Operation}
use voodoo_store.Engine.Recovery.{Replayed, replay_record, replay_kind, push_pending, or_empty}
use voodoo_store.Engine.Recovery.Scan.{replay, AllFit, log_bytes}

pub replay-snoc :
    (r r' : Replayed) (entries : List LogRecord) (entry : LogRecord)
    → replay r entries ≡ ok r'
    → replay r (entries ++ entry ∷ []) ≡ replay_record r' entry
unfolding replay
replay-snoc r r' [] entry e = bind-ok (replay_record r entry) ∙ ap (λ x. replay_record x entry) (cc)
replay-snoc r r' (x ∷ entries) entry e =
    let (a, first, rest) = >>=-eq-ok (replay_record r x) (λ y. replay y entries) e in
    rw first (replay-snoc a r' entries entry rest)

pub AllFit-snoc :
    (entries : List LogRecord) (entry : LogRecord)
    → AllFit entries
    → FitsRecord entry
    → AllFit (entries ++ entry ∷ [])
AllFit-snoc [] entry h f = (f, tt)
AllFit-snoc (x ∷ entries) entry h f = (h.0, AllFit-snoc entries entry h.1 f)

pub log_bytes-snoc :
    ⦃d : Platform⦄ (entries : List LogRecord) (entry : LogRecord)
    → log_bytes (entries ++ entry ∷ []) ≡ log_bytes entries ++ record_bytes entry
log_bytes-snoc [] entry = append-nil (record_bytes entry)
log_bytes-snoc (x ∷ entries) entry =
    ap (λ bs. record_bytes x ++ bs) (log_bytes-snoc entries entry)
    ∙ sym (append_assoc (record_bytes x) (log_bytes entries) (record_bytes entry))

-- What the loop's tests let through, for a record with the next number and a new transaction.
pub record Accepts (r : Replayed) (tx_id sequence : ℕ) : Type 0 where
  pub sequence_grows : r.max_sequence < sequence
  pub sequence_fits : sequence < 2 ^ 64
  pub records : r.records ≤ r.max_sequence
  pub fresh : contains r.committed tx_id ≡ false

abbrev pub numbered : Replayed → ℕ → ℕ → Replayed
numbered r tx_id sequence = record r {
  max_sequence = sequence;
  max_tx_id = max r.max_tx_id tx_id;
  records = r.records + 1;
}

pub replay_record-Accepts :
    (r : Replayed) (entry : LogRecord)
    → Accepts r entry.tx_id entry.sequence
    → replay_record r entry
      ≡ replay_kind entry.kind entry.tx_id entry.payload (numbered r entry.tx_id entry.sequence)
unfolding replay_record
replay_record-Accepts r entry h = ground arith

pub get-push_pending :
    (pending : Map ℕ (List Operation)) (tx_id : ℕ) (operation : Operation)
    → get (push_pending pending tx_id operation) tx_id
      ≡ some (or_empty (get pending tx_id) ++ operation ∷ [])
unfolding push_pending
get-push_pending pending tx_id operation = get-insert_self pending tx_id _

pub get-push_pending_ne :
    (pending : Map ℕ (List Operation)) (tx_id other : ℕ) (operation : Operation)
    → tx_id ≢ other
    → get (push_pending pending tx_id operation) other ≡ get pending other
unfolding push_pending
get-push_pending_ne pending tx_id other operation h = get-insert_ne pending tx_id other _ h

pub contains-add_ne : (s : List ℕ) (k j : ℕ) → k ≢ j → contains (add s k) j ≡ contains s j
unfolding add contains
contains-add_ne s k j h = ground arith
