-- ===== src/Jobs/Invariant.antt =====
-- jobs.rs: what is so of every stored job: it stands under the key of its id, its fields fit their
-- machine types, and its counters agree with its state.
use voodoo_store.Prelude.{ℕ, ◌^◌, ◌<◌, ◌≤◌, ◌≡◌, ◌≢◌, refl, sym, ap, subst, ◌∙◌, true, false, arith}
use voodoo_store.Prelude.Int.{ℤ, pos}
use voodoo_store.Result.{ok, ◌>>=◌}
use voodoo_store.Bytes.{Bytes, starts_with}
use voodoo_store.Bytes.Prefix.{starts_with-parts_from}
use voodoo_store.Bytes.Words.{Fits, i64_half}
use voodoo_store.Platform.{Platform}
use voodoo_store.Cdc.Record.{cdc_prefix}
use voodoo_store.Map.{get, key_eq, get-insert_self, get-insert_ne}
use voodoo_store.Map.Table.{IsTable, IsTable-stored}
use voodoo_store.Engine.Payload.{State, put, apply_operation}
use voodoo_store.Engine.Store.{Store}
use voodoo_store.Engine.Durability.Sealing.{HasLog}
use voodoo_store.Engine.Durability.Keys.{IsOutside}
use voodoo_store.Jobs.Record.{
  DurableJobState, ready, leased, completed, dead, cancelled, DurableJob,
}
use voodoo_store.Jobs.Fields.{job_prefix, job_key, history_prefix}
use voodoo_store.Jobs.Codec.{encode_job, decode_job}
use voodoo_store.Jobs.Codec.Parts.{FitsJob}
use voodoo_store.Jobs.History.{JobHistoryEntry, history_key}
use voodoo_store.Jobs.Persist.Effects.{Written}
use voodoo_store.Jobs.Transitions.{ended, ready_at}
use voodoo_store.Jobs.Codec.RoundTrip.{decode_job-encode_job}

-- The counters of a job in a state.
abbrev pub StateGood : DurableJobState → DurableJob → Type 0
StateGood ready job = (job.attempts ≤ job.max_attempts) × (job.lease_until_ms ≡ pos 0)
StateGood leased job =
    (0 < job.attempts) × (job.attempts ≤ job.max_attempts) × (job.lease_generation ≡ job.attempts)
StateGood completed job = (job.attempts ≤ job.max_attempts) × (job.lease_until_ms ≡ pos 0)
StateGood dead job = job.lease_until_ms ≡ pos 0
StateGood cancelled job = job.lease_until_ms ≡ pos 0

pub record IsGood (job : DurableJob) : Type 0 where
  pub fits : FitsJob job
  pub counters : StateGood job.state job

abbrev pub IsOwn : Bytes → DurableJob → Type 0
IsOwn key job = (key ≡ job_key job.id) × IsGood job

abbrev pub IsJobs : State → Type 0
IsJobs = IsTable job_prefix decode_job IsOwn

pub job_key-prefixed : (id : Bytes) → starts_with (job_key id) job_prefix ≡ true
unfolding job_key starts_with
job_key-prefixed id = refl

history_key-not-prefixed :
    (id : Bytes) (sequence : ℕ) → starts_with (history_key id sequence) job_prefix ≡ false
unfolding history_key history_prefix starts_with
history_key-not-prefixed id sequence = refl

prefixed-IsOutside : (key : Bytes) → starts_with key job_prefix ≡ true → IsOutside key
prefixed-IsOutside key = starts_with-parts_from key job_prefix cdc_prefix refl

not_prefixed_ne :
    (key j : Bytes) → starts_with key job_prefix ≡ false → starts_with j job_prefix ≡ true → key ≢ j
not_prefixed_ne key j h k same = cc

encoded_decoded :
    (job : DurableJob) (value : Bytes)
    → FitsJob job
    → encode_job job ≡ ok value
    → decode_job value ≡ ok job
encoded_decoded job value f e = ap (λ r. r >>= decode_job) (sym e) ∙ decode_job-encode_job job f

module _ (job : DurableJob) where
  -- With other counters and another lease.
  pub FitsJob-counters :
      (state : DurableJobState) (at : ℤ) (attempts generation : ℕ) (until : ℤ)
      → Fits i64_half at
      → attempts < 2 ^ 32
      → generation < 2 ^ 32
      → Fits i64_half until
      → FitsJob job
      → FitsJob (record job {
        state = state;
        available_at_ms = at;
        attempts = attempts;
        lease_until_ms = until;
        lease_generation = generation;
      })
  FitsJob-counters state at attempts generation until at_fits n g until_fits f = record {
    id = f.id;
    handler = f.handler;
    payload = f.payload;
    available_at_ms = at_fits;
    deadline_ms = f.deadline_ms;
    priority = f.priority;
    attempts = n;
    max_attempts = f.max_attempts;
    retry_backoff_ms = f.retry_backoff_ms;
    lease_until_ms = until_fits;
    lease_generation = g;
    idempotency_key = f.idempotency_key;
  }

  pub FitsJob-ended : (state : DurableJobState) → FitsJob job → FitsJob (ended state job)
  FitsJob-ended state f =
      FitsJob-counters state job.available_at_ms job.attempts job.lease_generation (pos 0)
        f.available_at_ms f.attempts f.lease_generation (omega arith) f

  pub FitsJob-ready_at : (at : ℤ) → Fits i64_half at → FitsJob job → FitsJob (ready_at at job)
  FitsJob-ready_at at fit f =
      FitsJob-counters ready at job.attempts job.lease_generation (pos 0) fit f.attempts
        f.lease_generation (omega arith) f

module _ ⦃d : Platform⦄ where
  -- The file holds the store's state, and every job is sound.
  abbrev pub IsSound : Store → Type 0
  IsSound s = HasLog s × IsJobs s.state

  pub unchanged-IsJobs : (s s' : Store) → s'.state ≡ s.state → IsJobs s.state → IsJobs s'.state
  unchanged-IsJobs s s' e i = subst IsJobs (sym e) i

  pub Written-IsJobs :
      (job : DurableJob) (entry : JobHistoryEntry) (s s' : Store)
      → IsGood job
      → IsJobs s.state
      → Written job entry s s'
      → IsJobs s'.state
  Written-IsJobs job entry s s' good i w =
      IsTable-stored s.state s'.state i (job_key job.id) w.value job w.stored
        (encoded_decoded job w.value good.fits w.encoded) (refl, good)
        (λ j prefixed ne. w.others j (prefixed-IsOutside j prefixed) ne (
          not_prefixed_ne (history_key job.id entry.sequence) j
            (history_key-not-prefixed job.id entry.sequence) prefixed))

  -- A job that `persist_job` has stored.
  pub put-IsJobs :
      (job : DurableJob) (value : Bytes) (s s' : Store)
      → IsGood job
      → encode_job job ≡ ok value
      → ((j : Bytes)
          → IsOutside j
          → get s'.state j ≡ get (apply_operation s.state (put (job_key job.id) value)) j)
      → IsJobs s.state
      → IsJobs s'.state
  unfolding apply_operation
  put-IsJobs job value s s' good e reads i =
      IsTable-stored s.state s'.state i (job_key job.id) value job
        (reads (job_key job.id) (prefixed-IsOutside (job_key job.id) (job_key-prefixed job.id))
          ∙ get-insert_self s.state (job_key job.id) value)
        (encoded_decoded job value good.fits e) (refl, good)
        (λ j prefixed ne.
          reads j (prefixed-IsOutside j prefixed)
          ∙ get-insert_ne s.state (job_key job.id) j value ne)
