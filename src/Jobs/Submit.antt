-- ===== src/Jobs/Submit.antt =====
-- jobs.rs: new jobs, of which an active one with the same idempotency key takes the place.
use voodoo_store.Prelude.{Bool, true, false, ◌&&◌, Option, none, some, [], ◌∷◌}
use voodoo_store.Prelude.Int.{ℤ}
use voodoo_store.Result.{Result, ok, err}
use voodoo_store.Exec.{Exec, pure, lift, gets, ◌>>=◌, ◌>>◌}
use voodoo_store.Bytes.{Bytes, bytes_eq}
use voodoo_store.Platform.{Platform}
use voodoo_store.Engine.Payload.{State}
use voodoo_store.Engine.Store.{Store, scan_prefix}
use voodoo_store.Engine.Transaction.{Transaction, scan_prefix_internal}
use voodoo_store.Engine.Commit.{transact_from}
use voodoo_store.Jobs.Record.{
  ready, leased, completed, dead, cancelled, DurableJobState, JobError, store, JobSpec,
  validate_job_spec, build_job,
}
use voodoo_store.Jobs.Fields.{job_prefix}
use voodoo_store.Jobs.Codec.{decode_job}
use voodoo_store.Jobs.History.{JobHistoryEntry, submitted}
use voodoo_store.Jobs.Persist.{put_with_history}

abbrev pub is_active : DurableJobState → Bool
is_active ready = true
is_active leased = true
is_active completed = false
is_active dead = false
is_active cancelled = false

-- `job.idempotency_key.as_deref() == Some(key)`
abbrev pub has_key : Option Bytes → Bytes → Bool
has_key none key = false
has_key (some k) key = bytes_eq k key

-- The loop of `find_active_job_by_idempotency`, and the one in `enqueue_job_tx`.
unfoldable pub find_active : Bytes → State → Result JobError (Option Bytes)
find_active key [] = ok none
find_active key ((k, value) ∷ entries) = elim (decode_job value) [
  | err error ↦ err error
  | ok job ↦ elim (is_active job.state && has_key job.idempotency_key key) [
    | true ↦ ok (some job.id)
    | false ↦ find_active key entries
  ]
]

abbrev pub existing : Option Bytes → State → Result JobError (Option Bytes)
existing none entries = ok none
existing (some key) entries = find_active key entries

abbrev pub first_entry : ℤ → Bytes → JobHistoryEntry
first_entry now_ms detail = record {
  sequence = 0;
  at_ms = now_ms;
  kind = submitted;
  detail = detail;
}

module _ ⦃d : Platform⦄ where
  -- `submit_job`, once it is known whether there is such a job.
  unfoldable pub submit_new :
      Result JobError Bytes → JobSpec → ℤ → Option Bytes → Exec Store JobError Bytes
  submit_new random_id spec now_ms (some id) = pure id
  submit_new random_id spec now_ms none = do
    job ← lift (build_job random_id spec)
    transact_from store true (put_with_history job (first_entry now_ms []))
    pure job.id

  -- `random_id` is what the operating system's entropy gives at this call.
  unfoldable pub submit_job : Result JobError Bytes → JobSpec → ℤ → Exec Store JobError Bytes
  unfolding submit_new
  submit_job random_id spec now_ms = do
    lift (validate_job_spec spec)
    found ← gets (λ s. existing spec.idempotency_key (scan_prefix s.state job_prefix))
    id ← lift found
    submit_new random_id spec now_ms id

  unfoldable pub enqueue_new :
      Result JobError Bytes → JobSpec → ℤ → Bytes → Option Bytes → Exec Transaction JobError Bytes
  enqueue_new random_id spec now_ms detail (some id) = pure id
  enqueue_new random_id spec now_ms detail none = do
    job ← lift (build_job random_id spec)
    put_with_history job (first_entry now_ms detail)
    pure job.id

  unfoldable pub enqueue_job_tx :
      Result JobError Bytes → JobSpec → ℤ → Bytes → Exec Transaction JobError Bytes
  unfolding enqueue_new
  enqueue_job_tx random_id spec now_ms detail = do
    lift (validate_job_spec spec)
    found ← gets (λ t. existing spec.idempotency_key (scan_prefix_internal t job_prefix))
    id ← lift found
    enqueue_new random_id spec now_ms detail id
