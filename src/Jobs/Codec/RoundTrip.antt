-- ===== src/Jobs/Codec/RoundTrip.antt =====
-- jobs.rs: a job that was encoded is decoded.
use mathlib.Core.List.{append_assoc, append-nil}
use voodoo_store.Prelude.{
  ℕ, zero, suc, ◌+◌, ◌^◌, ◌<◌, ◌≡◌, refl, sym, ap, subst, ◌∙◌, false, Option, none, some, [], ◌∷◌,
  ◌++◌, length, arith, le→ltb, length-append, eqb_refl, leb,
}
use voodoo_store.Result.{ok, ◌>>=◌}
use voodoo_store.Bytes.{Bytes, from_le_bytes-to_le_bytes}
use voodoo_store.Bytes.Words.{to_bits, i64_half, i32_half, to_bits-lt, from_bits-to_bits}
use voodoo_store.Log.{byte_at}
use voodoo_store.Jobs.Record.{DurableJob}
use voodoo_store.Jobs.Fields.{read_len}
use voodoo_store.Jobs.Fields.RoundTrip.{chunk, length-chunk, read_len-chunk}
use voodoo_store.Jobs.Codec.{or_min, numbers, encode_job, decode_key, decode_job}
use voodoo_store.Jobs.Codec.Parts.{
  FitsKey, FitsJob, state_of_byte-state_byte, or_min-Fits, deadline_of-or_min, key_chunk, head,
  job_bytes, encode_job_lem, length-numbers, id_at, available_at, deadline_at, priority_at,
  attempts_at, max_attempts_at, retry_backoff_at, lease_until_at, lease_generation_at,
}

-- The byte behind a prefix.
byte_at-append :
    (pre rest : Bytes) (cursor b : ℕ) → cursor ≡ length pre → byte_at (pre ++ b ∷ rest) cursor ≡ b
byte_at-append [] rest zero b e = refl
byte_at-append [] rest (suc n) b e = absurd (omega arith)
byte_at-append (x ∷ pre) rest zero b e = absurd (omega arith)
byte_at-append (x ∷ pre) rest (suc n) b e = byte_at-append pre rest n b (omega arith)

decode_key_lem :
    (read : Bytes) (o : Option Bytes) (cursor : ℕ)
    → cursor ≡ length read
    → FitsKey o
    → length (read ++ key_chunk o) < 2 ^ 64
    → decode_key (read ++ key_chunk o) cursor ≡ ok (o, length (read ++ key_chunk o))
unfolding decode_key
decode_key_lem read none cursor at f total =
    rw (byte_at-append read [] cursor 0 at, length-append read (0 ∷ []), at) refl
decode_key_lem read (some key) cursor at f total =
    rw (byte_at-append read (chunk key) cursor 1 at, key_read)
      (ap (λ n. ok (some key, n)) (omega (arith, at, size)))
  where
    shift : read ++ 1 ∷ chunk key ≡ (read ++ 1 ∷ []) ++ (chunk key ++ [])
    shift =
        ap (λ bs. read ++ 1 ∷ bs) (sym (append-nil (chunk key)))
        ∙ sym (append_assoc read (1 ∷ []) (chunk key ++ []))

    size : length (read ++ 1 ∷ chunk key) ≡ length read + (5 + length key)
    size = omega (arith, length-append read (1 ∷ chunk key), length-chunk key)

    key_read : read_len (read ++ 1 ∷ chunk key) (cursor + 1) ≡ ok (key, cursor + 1 + 4 + length key)
    key_read =
        ap (λ bs. read_len bs (cursor + 1)) shift
        ∙ read_len-chunk (read ++ 1 ∷ []) key [] (cursor + 1)
            (omega (arith, at, length-append read (1 ∷ []))) f
            (subst (λ bs. length bs < 2 ^ 64) shift total)

length-key :
    (o : Option Bytes) → FitsKey o → (0 < length (key_chunk o)) × (length (key_chunk o) < 2 ^ 33)
length-key none f = omega arith
length-key (some key) f = omega (arith, length-chunk key)

module _ (job : DurableJob) (f : FitsJob job) where
  abbrev first : Bytes
  first = head job ++ numbers job

  abbrev second : Bytes
  second = first ++ chunk job.handler

  abbrev third : Bytes
  third = second ++ chunk job.payload

  length-first : length first ≡ 66
  length-first = omega (arith, length-append (head job) (numbers job), length-numbers job, f.id)

  length-second : length second ≡ 70 + length job.handler
  length-second =
      omega (arith, length-append first (chunk job.handler), length-chunk job.handler, length-first)

  length-third : length third ≡ 74 + length job.handler + length job.payload
  length-third =
      omega
        (arith, length-append second (chunk job.payload), length-chunk job.payload, length-second)

  from_first :
      job_bytes job
      ≡ first ++ (chunk job.handler ++ (chunk job.payload ++ key_chunk job.idempotency_key))
  from_first = sym (append_assoc (head job) (numbers job) _)

  from_second : job_bytes job ≡ second ++ (chunk job.payload ++ key_chunk job.idempotency_key)
  from_second = from_first ∙ sym (append_assoc first (chunk job.handler) _)

  from_third : job_bytes job ≡ third ++ key_chunk job.idempotency_key
  from_third = from_second ∙ sym (append_assoc second (chunk job.payload) _)

  length-job_bytes :
      length (job_bytes job)
      ≡ 74 + length job.handler + length job.payload + length (key_chunk job.idempotency_key)
  length-job_bytes =
      ap length from_third
      ∙ omega (arith, length-append third (key_chunk job.idempotency_key), length-third)

  pub length-job_bytes-lt : length (job_bytes job) < 2 ^ 35
  length-job_bytes-lt =
      let (low, high) = length-key job.idempotency_key f.idempotency_key in
      omega (arith, length-job_bytes, f.handler, f.payload, high)

  handler_read : read_len (job_bytes job) 66 ≡ ok (job.handler, 70 + length job.handler)
  handler_read =
      ap (λ bs. read_len bs 66) from_first
      ∙ read_len-chunk first job.handler _ 66 (sym length-first) f.handler
          (subst (λ bs. length bs < 2 ^ 64) from_first (omega (arith, length-job_bytes-lt)))

  payload_read :
      read_len (job_bytes job) (70 + length job.handler)
      ≡ ok (job.payload, 74 + length job.handler + length job.payload)
  payload_read =
      ap (λ bs. read_len bs (70 + length job.handler)) from_second
      ∙ read_len-chunk second job.payload _ (70 + length job.handler) (sym length-second) f.payload
          (subst (λ bs. length bs < 2 ^ 64) from_second (omega (arith, length-job_bytes-lt)))
      ∙ ap (λ (n : ℕ). ok (job.payload, n)) (omega arith)

  key_read :
      decode_key (job_bytes job) (74 + length job.handler + length job.payload)
      ≡ ok (job.idempotency_key, length (job_bytes job))
  key_read =
      ap (λ bs. decode_key bs (74 + length job.handler + length job.payload)) from_third
      ∙ decode_key_lem third job.idempotency_key _ (sym length-third) f.idempotency_key
          (subst (λ bs. length bs < 2 ^ 64) from_third (omega (arith, length-job_bytes-lt)))
      ∙ ap (λ bs. ok (job.idempotency_key, length bs)) (sym from_third)

decode_job-parts : (job : DurableJob) → FitsJob job → decode_job (job_bytes job) ≡ ok job
unfolding decode_job
decode_job-parts job f =
    let rest = chunk job.handler ++ (chunk job.payload ++ key_chunk job.idempotency_key) in
    rw
      (
        le→ltb (length (job_bytes job)) 66 (omega (arith, length-job_bytes job f)),
        state_of_byte-state_byte job.state,
        handler_read job f,
        payload_read job f,
        lt→leb (length (job_bytes job)) (74 + length job.handler + length job.payload) (
            omega
              (arith, length-job_bytes job f, length-key job.idempotency_key f.idempotency_key)),
        key_read job f,
        eqb_refl (length (job_bytes job)),
        id_at job rest f,
        available_at job rest f,
        deadline_at job rest f,
        priority_at job rest f,
        attempts_at job rest f,
        max_attempts_at job rest f,
        retry_backoff_at job rest f,
        lease_until_at job rest f,
        lease_generation_at job rest f,
        from_le_bytes-to_le_bytes 8 (to_bits i64_half job.available_at_ms)
            (to_bits-lt i64_half job.available_at_ms f.available_at_ms),
        from_bits-to_bits i64_half job.available_at_ms f.available_at_ms,
        from_le_bytes-to_le_bytes 8 (to_bits i64_half (or_min job.deadline_ms)) (
            to_bits-lt i64_half (or_min job.deadline_ms)
              (or_min-Fits job.deadline_ms f.deadline_ms)),
        from_bits-to_bits i64_half (or_min job.deadline_ms)
            (or_min-Fits job.deadline_ms f.deadline_ms),
        deadline_of-or_min job.deadline_ms f.deadline_ms,
        from_le_bytes-to_le_bytes 4 (to_bits i32_half job.priority)
            (to_bits-lt i32_half job.priority f.priority),
        from_bits-to_bits i32_half job.priority f.priority,
        from_le_bytes-to_le_bytes 4 job.attempts f.attempts,
        from_le_bytes-to_le_bytes 4 job.max_attempts f.max_attempts,
        from_le_bytes-to_le_bytes 8 job.retry_backoff_ms f.retry_backoff_ms,
        from_le_bytes-to_le_bytes 8 (to_bits i64_half job.lease_until_ms)
            (to_bits-lt i64_half job.lease_until_ms f.lease_until_ms),
        from_bits-to_bits i64_half job.lease_until_ms f.lease_until_ms,
        from_le_bytes-to_le_bytes 4 job.lease_generation f.lease_generation,
      )
      refl
  where
    lt→leb : (a b : ℕ) → b < a → leb a b ≡ false
    lt→leb a b h = ground arith

-- A job whose fields fit their machine types, with an id of 16 bytes, fields that u32 can count and no
-- deadline at the least i64, is encoded, and decoding the bytes gives the job.
pub decode_job-encode_job :
    (job : DurableJob) → FitsJob job → (encode_job job >>= decode_job) ≡ ok job
decode_job-encode_job job f = rw (encode_job_lem job f) (decode_job-parts job f)
