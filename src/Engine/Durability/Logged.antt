-- ===== src/Engine/Durability/Logged.antt =====
-- The file replays to the state, between transactions and inside one.
use voodoo_store.Prelude.{
  ℕ, ◌+◌, ◌^◌, ◌≤◌, ◌<◌, ◌≡◌, refl, sym, ap, ap₂, ◌∙◌, false, max, Option, none, some, List, [],
  ◌∷◌, ◌++◌, arith,
}
use mathlib.Core.List.{append_assoc}
use voodoo_store.Result.{ok}
use voodoo_store.Bytes.{Bytes}
use voodoo_store.Platform.{Platform}
use voodoo_store.Header
use voodoo_store.Header.RoundTrip.{FitsHeader}
use voodoo_store.Log.{LogRecord, RecordKind}
use voodoo_store.Log
use voodoo_store.Log.RoundTrip.{record_bytes}
use voodoo_store.Map.{get, remove, contains, add, id_eq, get-remove_ne}
use voodoo_store.Engine.Payload.{State, Operation, apply_operations}
use voodoo_store.Engine.Device.{IsSound}
use voodoo_store.Engine.Store.{Store}
use voodoo_store.Engine.Transaction.{Transaction}
use voodoo_store.Engine.Recovery.{
  Replayed, start, replay_record, replay_kind, push_pending, apply_pending, or_empty,
}
use voodoo_store.Engine.Recovery.Scan.{replay, AllFit, log_bytes}
use voodoo_store.Engine.Recovery.Replay.{
  replay-snoc, AllFit-snoc, log_bytes-snoc, Accepts, numbered, replay_record-Accepts,
  get-push_pending, get-push_pending_ne, contains-add_ne,
}
use voodoo_store.Engine.Durability.Append.{IsQuiet, HasWritten, entry_of}

-- The records of a file, what they replay to, and how the counters of the store bound them.
pub record IsLogged ⦃d : Platform⦄ (s : Store) (at : Replayed) : Type 0 where
  pub entries : List LogRecord
  pub file : s.device.bytes ≡ Header.encode s.header ++ log_bytes entries
  pub fits : AllFit entries
  pub replayed : replay start entries ≡ ok at
  pub state : at.state ≡ s.state
  pub sequence : at.max_sequence < s.next_sequence
  pub sequence_fits : s.next_sequence < 2 ^ 64
  pub records : at.records ≤ at.max_sequence
  pub tx_id : at.max_tx_id < s.next_tx_id
  pub tx_id_fits : s.next_tx_id < 2 ^ 64
  pub committed : (id : ℕ) → at.max_tx_id < id → contains at.committed id ≡ false
  pub pending : (id : ℕ) → at.max_tx_id < id → get at.pending id ≡ none
  pub sound : IsSound s.device
  pub header_fits : FitsHeader s.header

-- A transaction that is not committed: its operations are what the log holds for its id.
pub record IsStaged (t : Transaction) (at : Replayed) : Type 0 where
  pub operations : or_empty (get at.pending t.tx_id) ≡ t.operations
  pub fresh : contains at.committed t.tx_id ≡ false
  pub below : t.tx_id < t.store.next_tx_id

apply_pending_lem :
    (state : State) (operations : Option (List Operation))
    → apply_pending state operations ≡ apply_operations state (or_empty operations)
unfolding apply_operations
apply_pending_lem state none = refl
apply_pending_lem state (some operations) = refl

module _ ⦃d : Platform⦄ where
  pub IsLogged-quiet :
      (s s' : Store) (at : Replayed) → IsLogged s at → IsQuiet s s' → IsLogged s' at
  IsLogged-quiet s s' at l q = record {
    entries = l.entries;
    file = rw (q.bytes, q.same.header) l.file;
    fits = l.fits;
    replayed = l.replayed;
    state = rw q.same.state l.state;
    sequence = omega arith;
    sequence_fits = q.sequence_fits;
    records = l.records;
    tx_id = rw q.same.next_tx_id l.tx_id;
    tx_id_fits = rw q.same.next_tx_id l.tx_id_fits;
    committed = l.committed;
    pending = l.pending;
    sound = q.same.sound;
    header_fits = rw q.same.header l.header_fits;
  }

  -- One more record, which recovery's loop takes from `at` to `at'`.
  IsLogged-written :
      (kind : RecordKind) (tx_id : ℕ) (payload : Bytes) (s s' : Store) (at at' : Replayed)
      (state : State)
      → IsLogged s at
      → HasWritten (entry_of kind tx_id payload s) s s'
      → tx_id < s.next_tx_id
      → replay_record at (entry_of kind tx_id payload s) ≡ ok at'
      → at'.max_sequence ≡ s.next_sequence
      → at'.max_tx_id ≡ max at.max_tx_id tx_id
      → at'.records ≡ at.records + 1
      → ((id : ℕ) → at'.max_tx_id < id → contains at'.committed id ≡ false)
      → ((id : ℕ) → at'.max_tx_id < id → get at'.pending id ≡ none)
      → at'.state ≡ state
      → IsLogged (record s' { state = state }) at'
  IsLogged-written kind tx_id payload s s' at at' state l w b e seq tx recs comm pend st = record {
    entries = l.entries ++ entry ∷ [];
    file =
        w.bytes
        ∙ ap (λ bs. bs ++ record_bytes entry) l.file
        ∙ append_assoc (Header.encode s.header) (log_bytes l.entries) (record_bytes entry)
        ∙ rw (w.same.header, log_bytes-snoc l.entries entry);
    fits = AllFit-snoc l.entries entry l.fits (record {
      tx_id = omega (arith, l.tx_id_fits);
      sequence = l.sequence_fits;
      payload = w.payload_fits;
    });
    replayed = replay-snoc start at l.entries entry l.replayed ∙ e;
    state = st;
    sequence = omega (arith, w.sequence);
    sequence_fits = w.sequence_fits;
    records = omega (arith, l.records, l.sequence);
    tx_id = rw w.same.next_tx_id (omega (arith, tx, l.tx_id, b));
    tx_id_fits = rw w.same.next_tx_id l.tx_id_fits;
    committed = comm;
    pending = pend;
    sound = w.same.sound;
    header_fits = rw w.same.header l.header_fits;
  }
    where
      entry : LogRecord
      entry = entry_of kind tx_id payload s

  Accepts-IsLogged :
      (s : Store) (at : Replayed) (tx_id : ℕ)
      → IsLogged s at
      → contains at.committed tx_id ≡ false
      → Accepts at tx_id s.next_sequence
  Accepts-IsLogged s at tx_id l f = record {
    sequence_grows = l.sequence;
    sequence_fits = l.sequence_fits;
    records = l.records;
    fresh = f;
  }

  -- The recovered values once an operation of transaction `tx_id` is in the log.
  abbrev pub after_stage : Replayed → ℕ → ℕ → Operation → Replayed
  after_stage at tx_id sequence operation = record at {
    pending = push_pending at.pending tx_id operation;
    max_sequence = sequence;
    max_tx_id = max at.max_tx_id tx_id;
    records = at.records + 1;
  }

  -- The recovered values once the commit of transaction `tx_id` is in the log.
  abbrev pub after_commit : Replayed → ℕ → ℕ → Replayed
  after_commit at tx_id sequence = record {
    state = apply_pending at.state (get at.pending tx_id);
    pending = remove at.pending tx_id;
    committed = add at.committed tx_id;
    max_sequence = sequence;
    max_tx_id = max at.max_tx_id tx_id;
    records = at.records + 1;
  }

  -- An operation of an open transaction is written, and its memory follows.
  pub IsLogged-staged :
      (kind : RecordKind) (payload : Bytes) (operation : Operation) (t : Transaction) (s' : Store)
      (at : Replayed)
      → IsLogged t.store at
      → IsStaged t at
      → HasWritten (entry_of kind t.tx_id payload t.store) t.store s'
      → ((r : Replayed)
          → replay_kind kind t.tx_id payload r
            ≡ ok (record r { pending = push_pending r.pending t.tx_id operation }))
      → let at' = after_stage at t.tx_id t.store.next_sequence operation in
        IsLogged s' at'
        × IsStaged (record t { store = s'; operations = t.operations ++ operation ∷ [] }) at'
  IsLogged-staged kind payload operation t s' at l st w decoded = (
    IsLogged-written kind t.tx_id payload t.store s' at at' s'.state l w st.below
        (replay_record-Accepts at (entry_of kind t.tx_id payload t.store)
            (Accepts-IsLogged t.store at t.tx_id l st.fresh)
          ∙ decoded (numbered at t.tx_id t.store.next_sequence))
        refl refl refl (λ id h. l.committed id (omega arith))
        (λ id h.
          get-push_pending_ne at.pending t.tx_id id operation (λ (same : t.tx_id ≡ id). omega arith)
          ∙ l.pending id (omega arith))
        (l.state ∙ sym w.same.state),
    record {
      operations =
          ap or_empty (get-push_pending at.pending t.tx_id operation)
          ∙ ap (λ operations. operations ++ operation ∷ []) st.operations;
      fresh = st.fresh;
      below = rw w.same.next_tx_id st.below;
    },
  )
    where
      at' : Replayed
      at' = after_stage at t.tx_id t.store.next_sequence operation

  -- The commit record of an open transaction is written.
  pub IsLogged-committed :
      (t : Transaction) (s' : Store) (at : Replayed)
      → IsLogged t.store at
      → IsStaged t at
      → HasWritten (entry_of Log.commit t.tx_id [] t.store) t.store s'
      → IsLogged
          (record s' { state = apply_operations t.store.state t.operations })
          (after_commit at t.tx_id t.store.next_sequence)
  unfolding replay_kind
  IsLogged-committed t s' at l st w =
      IsLogged-written Log.commit t.tx_id [] t.store s' at
        (after_commit at t.tx_id t.store.next_sequence)
        (apply_operations t.store.state t.operations) l w st.below
        (replay_record-Accepts at (entry_of Log.commit t.tx_id [] t.store)
          (Accepts-IsLogged t.store at t.tx_id l st.fresh))
        refl refl refl
        (λ id h.
          contains-add_ne at.committed t.tx_id id (λ (same : t.tx_id ≡ id). omega arith)
          ∙ l.committed id (omega arith))
        (λ id h.
          get-remove_ne at.pending t.tx_id id (λ (same : t.tx_id ≡ id). omega arith)
          ∙ l.pending id (omega arith))
        (apply_pending_lem at.state (get at.pending t.tx_id)
          ∙ ap₂ apply_operations l.state st.operations)
