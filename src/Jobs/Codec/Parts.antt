-- ===== src/Jobs/Codec/Parts.antt =====
-- jobs.rs: the layout of an encoded job.
use voodoo_store.Prelude.{
  ℕ, ◌+◌, ◌^◌, ◌<◌, ◌≡◌, ◌≢◌, refl, ◌∙◌, false, Option, none, some, [], ◌∷◌, ◌++◌, length, arith,
}
use voodoo_store.Prelude.Int.{ℤ, eqb_ℤ, eq_of_parts}
use voodoo_store.Result.{ok}
use voodoo_store.Bytes.{Bytes, to_le_bytes, slice, slice-append, slice-skip}
use voodoo_store.Bytes.Words.{to_bits, i64_half, i32_half, Fits}
use voodoo_store.Jobs.Record.{
  DurableJobState, ready, leased, completed, dead, cancelled, DurableJob,
}
use voodoo_store.Jobs.Fields.{version}
use voodoo_store.Jobs.Fields.RoundTrip.{chunk, append_len_lem}
use voodoo_store.Jobs.Codec.{
  state_byte, state_of_byte, i64_min, or_min, deadline_of, numbers, encode_key, encode_job,
}

-- `i64::MIN` is no deadline that the encoding can tell from none.
abbrev pub FitsDeadline : Option ℤ → Type 0
FitsDeadline none = Unit
FitsDeadline (some deadline) = Fits i64_half deadline × (deadline ≢ i64_min)

abbrev pub FitsKey : Option Bytes → Type 0
FitsKey none = Unit
FitsKey (some key) = length key < 2 ^ 32

-- The machine widths of a job's fields.
pub record FitsJob (job : DurableJob) : Type 0 where
  pub id : length job.id ≡ 16
  pub handler : length job.handler < 2 ^ 32
  pub payload : length job.payload < 2 ^ 32
  pub available_at_ms : Fits i64_half job.available_at_ms
  pub deadline_ms : FitsDeadline job.deadline_ms
  pub priority : Fits i32_half job.priority
  pub attempts : job.attempts < 2 ^ 32
  pub max_attempts : job.max_attempts < 2 ^ 32
  pub retry_backoff_ms : job.retry_backoff_ms < 2 ^ 64
  pub lease_until_ms : Fits i64_half job.lease_until_ms
  pub lease_generation : job.lease_generation < 2 ^ 32
  pub idempotency_key : FitsKey job.idempotency_key

pub state_of_byte-state_byte : (st : DurableJobState) → state_of_byte (state_byte st) ≡ ok st
unfolding state_of_byte
state_of_byte-state_byte ready = refl
state_of_byte-state_byte leased = refl
state_of_byte-state_byte completed = refl
state_of_byte-state_byte dead = refl
state_of_byte-state_byte cancelled = refl

pub or_min-Fits : (o : Option ℤ) → FitsDeadline o → Fits i64_half (or_min o)
or_min-Fits none h = omega arith
or_min-Fits (some z) h = h.0

differs : (z : ℤ) → z ≢ i64_min → eqb_ℤ z i64_min ≡ false
differs z h = ground (arith, eq_of_parts z i64_min)

pub deadline_of-or_min : (o : Option ℤ) → FitsDeadline o → deadline_of (or_min o) ≡ o
deadline_of-or_min none h = refl
deadline_of-or_min (some z) h = rw (differs z h.1) refl

-- What `encode_key` writes.
abbrev pub key_chunk : Option Bytes → Bytes
key_chunk none = 0 ∷ []
key_chunk (some key) = 1 ∷ chunk key

encode_key_lem : (o : Option Bytes) → FitsKey o → encode_key o ≡ ok (key_chunk o)
unfolding encode_key
encode_key_lem none h = refl
encode_key_lem (some key) h = rw (append_len_lem key h) refl

-- The bytes in front of the fields with a length.
abbrev pub head : DurableJob → Bytes
head job = version ∷ state_byte job.state ∷ job.id

abbrev pub job_bytes : DurableJob → Bytes
job_bytes job =
    head job
    ++ (numbers job ++ (chunk job.handler ++ (chunk job.payload ++ key_chunk job.idempotency_key)))

pub encode_job_lem : (job : DurableJob) → FitsJob job → encode_job job ≡ ok (job_bytes job)
unfolding encode_job
encode_job_lem job f =
    rw
      (
        append_len_lem job.handler f.handler,
        append_len_lem job.payload f.payload,
        encode_key_lem job.idempotency_key f.idempotency_key,
      )
      refl

pub length-numbers : (job : DurableJob) → length (numbers job) ≡ 48
unfolding numbers to_le_bytes
length-numbers job = refl

module _ (job : DurableJob) (rest : Bytes) (f : FitsJob job) where
  -- A slice behind the id is one of the numbers.
  number :
      (a b : ℕ) (chunk : Bytes)
      → slice a b (numbers job ++ rest) ≡ chunk
      → slice (18 + a) (18 + b) (head job ++ (numbers job ++ rest)) ≡ chunk
  number a b chunk e = slice-skip (head job) (numbers job ++ rest) 18 a b (omega (arith, f.id)) ∙ e

  pub id_at : slice 2 18 (head job ++ (numbers job ++ rest)) ≡ job.id
  id_at =
      slice-append (version ∷ state_byte job.state ∷ []) job.id (numbers job ++ rest) 2 18 refl
        (omega (arith, f.id))

  pub available_at :
      slice 18 26 (head job ++ (numbers job ++ rest))
      ≡ to_le_bytes 8 (to_bits i64_half job.available_at_ms)
  unfolding numbers slice to_le_bytes
  available_at = number 0 8 _ refl

  pub deadline_at :
      slice 26 34 (head job ++ (numbers job ++ rest))
      ≡ to_le_bytes 8 (to_bits i64_half (or_min job.deadline_ms))
  unfolding numbers slice to_le_bytes
  deadline_at = number 8 16 _ refl

  pub priority_at :
      slice 34 38 (head job ++ (numbers job ++ rest))
      ≡ to_le_bytes 4 (to_bits i32_half job.priority)
  unfolding numbers slice to_le_bytes
  priority_at = number 16 20 _ refl

  pub attempts_at : slice 38 42 (head job ++ (numbers job ++ rest)) ≡ to_le_bytes 4 job.attempts
  unfolding numbers slice to_le_bytes
  attempts_at = number 20 24 _ refl

  pub max_attempts_at :
      slice 42 46 (head job ++ (numbers job ++ rest)) ≡ to_le_bytes 4 job.max_attempts
  unfolding numbers slice to_le_bytes
  max_attempts_at = number 24 28 _ refl

  pub retry_backoff_at :
      slice 46 54 (head job ++ (numbers job ++ rest)) ≡ to_le_bytes 8 job.retry_backoff_ms
  unfolding numbers slice to_le_bytes
  retry_backoff_at = number 28 36 _ refl

  pub lease_until_at :
      slice 54 62 (head job ++ (numbers job ++ rest))
      ≡ to_le_bytes 8 (to_bits i64_half job.lease_until_ms)
  unfolding numbers slice to_le_bytes
  lease_until_at = number 36 44 _ refl

  pub lease_generation_at :
      slice 62 66 (head job ++ (numbers job ++ rest)) ≡ to_le_bytes 4 job.lease_generation
  unfolding numbers slice to_le_bytes
  lease_generation_at = number 44 48 _ refl
