-- ===== src/Jobs/Calls/Written.antt =====
-- jobs.rs: the jobs that the calls write are good.
use voodoo_store.Prelude.{
  ◌^◌, ◌<◌, ◌≤◌, ◌≡◌, refl, sym, subst, inl, inr, Option, none, some, arith, Bool-cases, length,
  leb,
}
use voodoo_store.Prelude.Int.{ℤ, pos}
use voodoo_store.Result.{Result, ok, >>=-eq-ok}
use voodoo_store.Bytes.{Bytes}
use voodoo_store.Bytes.Words.{Fits, i64_half}
use voodoo_store.Map.{key_eq}
use voodoo_store.Jobs.Record.{
  DurableJobState, ready, leased, completed, dead, JobError, DurableJob, JobSpec, build_job,
  validate_job_spec,
}
use voodoo_store.Jobs.Fields.{append_len}
use voodoo_store.Jobs.Codec.{encode_job, encode_key}
use voodoo_store.Jobs.Codec.Parts.{FitsKey}
use voodoo_store.Jobs.Transitions.{ended, ready_at, reaped}
use voodoo_store.Jobs.Invariant.{IsGood, StateGood, FitsJob-ended, FitsJob-ready_at}
use voodoo_store.Jobs.Calls.{IsId, FitsSpec}

leased-counters :
    (job : DurableJob)
    → IsGood job
    → job.state ≡ leased
    → (0 < job.attempts) × (job.attempts ≤ job.max_attempts) × (job.lease_generation ≡ job.attempts)
leased-counters job g e = subst (λ st. StateGood st job) e g.counters

pub ended-IsGood :
    (job : DurableJob) (state : DurableJobState)
    → StateGood state (ended state job)
    → IsGood job
    → IsGood (ended state job)
ended-IsGood job state counters g = record {
  fits = FitsJob-ended job state g.fits;
  counters = counters;
}

pub ready_at-IsGood :
    (job : DurableJob) (at : ℤ)
    → Fits i64_half at
    → IsGood job
    → job.state ≡ leased
    → IsGood (ready_at at job)
ready_at-IsGood job at fit g e = record {
  fits = FitsJob-ready_at job at fit g.fits;
  counters = ((leased-counters job g e).1, refl);
}

pub completed-IsGood :
    (job : DurableJob) → IsGood job → job.state ≡ leased → IsGood (ended completed job)
completed-IsGood job g e = ended-IsGood job completed ((leased-counters job g e).1, refl) g

pub reaped-IsGood :
    (now_ms : ℤ) (job : DurableJob)
    → Fits i64_half now_ms
    → IsGood job
    → job.state ≡ leased
    → IsGood ((reaped now_ms job).0)
unfolding reaped
reaped-IsGood now_ms job fit g e = elim (Bool-cases (leb job.max_attempts job.attempts)) [
  | inl last ↦ rw last (ended-IsGood job dead refl g)
  | inr more ↦ rw more (ready_at-IsGood job now_ms fit g e)
]

append_len-lt : (bytes chunk : Bytes) → append_len bytes ≡ ok chunk → length bytes < 2 ^ 32
unfolding append_len
append_len-lt bytes chunk h = ground arith

encode_key-FitsKey : (o : Option Bytes) (chunk : Bytes) → encode_key o ≡ ok chunk → FitsKey o
unfolding encode_key
encode_key-FitsKey none chunk h = tt
encode_key-FitsKey (some key) chunk h =
    let (c, e, rest) = >>=-eq-ok (append_len key) _ h in append_len-lt key c e

-- A job that is encoded has fields that u32 can count.
pub encode_job-lengths :
    (job : DurableJob) (value : Bytes)
    → encode_job job ≡ ok value
    → (length job.handler < 2 ^ 32) × (length job.payload < 2 ^ 32) × FitsKey job.idempotency_key
unfolding encode_job
encode_job-lengths job value h =
    let (handler, e, rest) = >>=-eq-ok (append_len job.handler) _ h in
    let (payload, e', rest') = >>=-eq-ok (append_len job.payload) _ rest in
    let (key, e'', last) = >>=-eq-ok (encode_key job.idempotency_key) _ rest' in
    (
      append_len-lt job.handler handler e,
      append_len-lt job.payload payload e',
      encode_key-FitsKey job.idempotency_key key e'',
    )

pub build_job-IsGood :
    (random_id : Result JobError Bytes) (spec : JobSpec) (job : DurableJob) (value : Bytes)
    → IsId random_id
    → FitsSpec spec
    → build_job random_id spec ≡ ok job
    → encode_job job ≡ ok value
    → IsGood job
unfolding build_job
build_job-IsGood random_id spec job value is_id f h e =
    let (_, _, rest) = >>=-eq-ok (validate_job_spec spec) _ h in
    let (id, entropy, last) = >>=-eq-ok random_id _ rest in
    let (handler, payload, key) = encode_job-lengths job value e in
    subst IsGood (ok_inj last) (from id (is_id id entropy) (sym (ok_inj last)) handler payload key)
  where
    ok_inj : {x y : DurableJob} → ◌≡◌ {A = Result JobError DurableJob} (ok x) (ok y) → x ≡ y
    ok_inj q = cc

    new_job : Bytes → DurableJob
    new_job id = record {
      id = id;
      state = ready;
      handler = spec.handler;
      payload = spec.payload;
      available_at_ms = spec.available_at_ms;
      deadline_ms = spec.deadline_ms;
      priority = spec.priority;
      attempts = 0;
      max_attempts = spec.max_attempts;
      retry_backoff_ms = spec.retry_backoff_ms;
      lease_until_ms = pos 0;
      lease_generation = 0;
      idempotency_key = spec.idempotency_key;
    }

    from :
        (id : Bytes)
        → length id ≡ 16
        → job ≡ new_job id
        → length job.handler < 2 ^ 32
        → length job.payload < 2 ^ 32
        → FitsKey job.idempotency_key
        → IsGood (new_job id)
    from id n same handler payload key = record {
      fits = record {
        id = n;
        handler = subst (λ (x : DurableJob). length x.handler < 2 ^ 32) same handler;
        payload = subst (λ (x : DurableJob). length x.payload < 2 ^ 32) same payload;
        available_at_ms = f.available_at_ms;
        deadline_ms = f.deadline_ms;
        priority = f.priority;
        attempts = omega arith;
        max_attempts = f.max_attempts;
        retry_backoff_ms = f.retry_backoff_ms;
        lease_until_ms = omega arith;
        lease_generation = omega arith;
        idempotency_key = subst (λ (x : DurableJob). FitsKey x.idempotency_key) same key;
      };
      counters = (omega arith, refl);
    }
