-- ===== src/Jobs/Persist/Effects.antt =====
-- jobs.rs: what `persist_job_with_history` and `persist_job` do to the store.
use voodoo_store.Prelude.{ℕ, ◌≡◌, ◌≢◌, refl, ap, sym, ◌∙◌, true, some, List, [], ◌∷◌, ◌++◌, arith}
use voodoo_store.Prelude.Int.{ℤ}
use voodoo_store.Result.{Result, ok, err}
use voodoo_store.Exec.{Exec, continue, continue_ind}
use voodoo_store.Bytes.{Bytes, starts_with}
use voodoo_store.Platform.{Platform}
use voodoo_store.Log.{byte_at}
use voodoo_store.Map.{get, insert, key_eq, get-insert_self, get-insert_ne}
use voodoo_store.Engine.Payload.{Operation, put, apply_operation, apply_operations}
use voodoo_store.Engine.Store.{Store}
use voodoo_store.Engine.Commit.{transact_from}
use voodoo_store.Engine.Durability.Sealing.{HasLog}
use voodoo_store.Engine.Durability.Keys.{IsOutside}
use voodoo_store.Engine.Durability.Batch.{
  Stages, Stages-put, Stages-bind, Stages-lift, Stages-weaken, Both, BatchPost,
  transact_from-BatchPost,
}
use voodoo_store.Jobs.Record.{JobError, store, DurableJob}
use voodoo_store.Jobs.Fields.{job_key, history_prefix}
use voodoo_store.Jobs.Codec.{encode_job}
use voodoo_store.Jobs.History.{
  JobHistoryKind, JobHistoryEntry, encode_history, history_key, next_history_sequence,
}
use voodoo_store.Jobs.History.Sequence.{IsNextSequence, next_history_sequence-IsNextSequence}
use voodoo_store.Jobs.Persist.{
  put_job, append_history_tx, put_with_history, persist_job_with_history,
}

pub job_key-IsOutside : (id : Bytes) → IsOutside (job_key id)
unfolding job_key starts_with
job_key-IsOutside id = refl

pub history_key-IsOutside : (id : Bytes) (sequence : ℕ) → IsOutside (history_key id sequence)
unfolding history_key history_prefix starts_with
history_key-IsOutside id sequence = refl

-- The two kinds of keys differ in the byte behind the common prefix.
pub job_key_ne_history : (id other : Bytes) (sequence : ℕ) → job_key id ≢ history_key other sequence
unfolding job_key history_key history_prefix
job_key_ne_history id other sequence same = omega (arith, ap (λ bs. byte_at bs 9) same)

-- A job and an entry of its history are stored, and no other key outside the feed has changed.
pub record Written (job : DurableJob) (entry : JobHistoryEntry) (s s' : Store) : Type 0 where
  pub value : Bytes
  pub encoded : encode_job job ≡ ok value
  pub stored : get s'.state (job_key job.id) ≡ some value
  pub entry_value : Bytes
  pub entry_encoded : encode_history entry ≡ ok entry_value
  pub recorded : get s'.state (history_key job.id entry.sequence) ≡ some entry_value
  pub others :
      (j : Bytes)
      → IsOutside j
      → job_key job.id ≢ j
      → history_key job.id entry.sequence ≢ j
      → get s'.state j ≡ get s.state j

module _ ⦃d : Platform⦄ where
  abbrev pub WritePost :
      {A : Type 0} → DurableJob → JobHistoryEntry → Store → Result JobError A → Store → Type 0
  WritePost job entry s (ok _) s' = HasLog s' × Written job entry s s'
  WritePost job entry s (err _) s' = HasLog s' × (s'.state ≡ s.state)

  module _ (job : DurableJob) (entry : JobHistoryEntry) where
    JobWrite : List Operation → Type 0
    JobWrite operations =
        (value : Bytes) × (encode_job job ≡ ok value)
        × (operations ≡ put (job_key job.id) value ∷ [])

    EntryWrite : List Operation → Type 0
    EntryWrite operations =
        (value : Bytes) × (encode_history entry ≡ ok value)
        × (operations ≡ put (history_key job.id entry.sequence) value ∷ [])

    abbrev pub Writes : List Operation → Type 0
    Writes operations =
        (value : Bytes) × (entry_value : Bytes) × (encode_job job ≡ ok value)
        × (encode_history entry ≡ ok entry_value)
        × (operations
            ≡ put (job_key job.id) value ∷ put (history_key job.id entry.sequence) entry_value ∷ [])

    pub put_with_history-Stages : Stages Writes (put_with_history job entry)
    unfolding JobWrite EntryWrite append_history_tx
    put_with_history-Stages = Stages-weaken joined (Stages-bind job_staged (λ _. entry_staged))
      where
        job_staged : Stages JobWrite (put_job job)
        job_staged = Stages-lift (encode_job job) _ (λ value e.
            Stages-weaken (λ operations o. (value, e, o)) (Stages-put store (job_key job.id) value))

        entry_staged : Stages EntryWrite (append_history_tx job.id entry.sequence entry)
        entry_staged = Stages-lift (encode_history entry) _ (λ value e.
            Stages-weaken (λ operations o. (value, e, o))
              (Stages-put store (history_key job.id entry.sequence) value))

        joined :
            (operations : List Operation) → Both JobWrite EntryWrite operations → Writes operations
        joined operations (xs, ys, o, (value, e, first), (entry_value, g, second)) = (
          value,
          entry_value,
          e,
          g,
          o ∙ ap (λ x. x ++ ys) first ∙ ap (λ y. put (job_key job.id) value ∷ y) second,
        )

    pub written :
        (s s' : Store) (operations : List Operation)
        → Writes operations
        → ((j : Bytes) → IsOutside j → get s'.state j ≡ get (apply_operations s.state operations) j)
        → Written job entry s s'
    unfolding apply_operations apply_operation
    written s s' operations (value, entry_value, e, g, o) reads = record {
      value = value;
      encoded = e;
      stored =
          after (job_key job.id) (job_key-IsOutside job.id)
          ∙ get-insert_ne (insert s.state (job_key job.id) value)
              (history_key job.id entry.sequence) (job_key job.id) entry_value
              (λ same. job_key_ne_history job.id job.id entry.sequence (sym same))
          ∙ get-insert_self s.state (job_key job.id) value;
      entry_value = entry_value;
      entry_encoded = g;
      recorded =
          after (history_key job.id entry.sequence) (history_key-IsOutside job.id entry.sequence)
          ∙ get-insert_self _ (history_key job.id entry.sequence) entry_value;
      others = λ j outside job_ne entry_ne.
          after j outside
          ∙ get-insert_ne _ (history_key job.id entry.sequence) j entry_value entry_ne
          ∙ get-insert_ne s.state (job_key job.id) j value job_ne;
    }
      where
        after :
            (j : Bytes)
            → IsOutside j
            → get s'.state j
              ≡ get
                  (insert
                    (insert s.state (job_key job.id) value)
                    (history_key job.id entry.sequence)
                    entry_value)
                  j
        after j outside = reads j outside ∙ ap (λ x. get (apply_operations s.state x) j) o

    batch_written :
        (s : Store) (r : Result JobError (Unit {0})) (s' : Store)
        → BatchPost Writes s r s'
        → WritePost job entry s r s'
    batch_written s (ok _) s' (h, (operations, w, reads)) = (h, written s s' operations w reads)
    batch_written s (err _) s' p = p

    pub write-WritePost :
        (s : Store)
        → HasLog s
        → WritePost job entry s
            (transact_from store true (put_with_history job entry) s).0
            (transact_from store true (put_with_history job entry) s).1
    write-WritePost s h =
        batch_written s _ _
          (transact_from-BatchPost Writes store true _ s put_with_history-Stages h)

  -- The next entry of the job's history has been added, and the job is stored.
  pub record Persisted (job : DurableJob) (at_ms : ℤ) (kind : JobHistoryKind) (detail : Bytes)
      (s s' : Store) : Type 0 where
    pub sequence : ℕ
    pub next : IsNextSequence job.id s.state sequence
    pub written :
        Written job
          (record { sequence = sequence; at_ms = at_ms; kind = kind; detail = detail })
          s
          s'

  abbrev pub PersistPost :
      DurableJob → ℤ → JobHistoryKind → Bytes → Store → Result JobError (Unit {0}) → Store → Type 0
  PersistPost job at_ms kind detail s (ok _) s' = HasLog s' × Persisted job at_ms kind detail s s'
  PersistPost job at_ms kind detail s (err _) s' = HasLog s' × (s'.state ≡ s.state)

  -- `persist_job_with_history` on a store whose file holds its state: on success the job is stored
  -- under its key and the entry under the next sequence of its history, and every other key outside the
  -- change feed reads as before; after an error no key has changed.
  pub persist_job_with_history-PersistPost :
      (job : DurableJob) (at_ms : ℤ) (kind : JobHistoryKind) (detail : Bytes) (s : Store)
      → HasLog s
      → PersistPost job at_ms kind detail s
          (persist_job_with_history job at_ms kind detail s).0
          (persist_job_with_history job at_ms kind detail s).1
  unfolding persist_job_with_history
  persist_job_with_history-PersistPost job at_ms kind detail s h =
      continue_ind (PersistPost job at_ms kind detail s) (next_history_sequence job.id s.state) _ s
        (λ sequence e. from sequence e _ _ (
          write-WritePost job
            (record { sequence = sequence; at_ms = at_ms; kind = kind; detail = detail }) s h))
        (λ _ _. (h, refl))
    where
      from :
          (sequence : ℕ)
          → next_history_sequence job.id s.state ≡ ok sequence
          → (r : Result JobError (Unit {0})) (s' : Store)
          → WritePost job
              (record { sequence = sequence; at_ms = at_ms; kind = kind; detail = detail })
              s
              r
              s'
          → PersistPost job at_ms kind detail s r s'
      from sequence e (ok _) s' (h', w) = (
        h',
        record {
          sequence = sequence;
          next = next_history_sequence-IsNextSequence job.id s.state sequence e;
          written = w;
        },
      )
      from sequence e (err _) s' p = p

  -- The rule for a chain that begins with `persist_job_with_history`.
  pub persist_ind :
      {A : Type 0} (P : Result JobError A → Store → Type 0) (job : DurableJob) (at_ms : ℤ)
      (kind : JobHistoryKind) (detail : Bytes) (f : Unit {0} → Exec Store JobError A) (s : Store)
      → HasLog s
      → ((s' : Store)
          → HasLog s'
          → Persisted job at_ms kind detail s s'
          → P (f tt s').0 (f tt s').1)
      → ((error : JobError) (s' : Store) → HasLog s' → s'.state ≡ s.state → P (err error) s')
      → P
          (continue
            (persist_job_with_history job at_ms kind detail s).0
            f
            (persist_job_with_history job at_ms kind detail s).1).0
          (continue
            (persist_job_with_history job at_ms kind detail s).0
            f
            (persist_job_with_history job at_ms kind detail s).1).1
  persist_ind {A} P job at_ms kind detail f s h good bad =
      from (persist_job_with_history job at_ms kind detail s).0 _
        (persist_job_with_history-PersistPost job at_ms kind detail s h)
    where
      from :
          (r : Result JobError (Unit {0})) (s' : Store)
          → PersistPost job at_ms kind detail s r s'
          → P (continue r f s').0 (continue r f s').1
      from (ok _) s' (h', p) = good s' h' p
      from (err error) s' (h', same) = bad error s' h' same
