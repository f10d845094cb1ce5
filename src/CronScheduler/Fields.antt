-- ===== src/CronScheduler/Fields.antt =====
-- cron_scheduler.rs: decoding the fields of a schedule and its job gives back what was encoded.
use voodoo_store.Prelude.{
  ℕ, ◌≤◌, length-append, ◌+◌, ◌*◌, subst, lt→ltb, ◌^◌, ◌<◌, ◌≡◌, refl, sym, ap, ◌∙◌, Bool, true,
  false, Option, none, some, [], ◌∷◌, ◌++◌, length, arith,
}
use voodoo_store.Prelude.Int.{ℤ}
use voodoo_store.Result.{ok}
use voodoo_store.Exec.{pure, ◌>>=◌}
use voodoo_store.Bytes.{
  Bytes, to_le_bytes, from_le_bytes, length-to_le_bytes, from_le_bytes-to_le_bytes,
}
use voodoo_store.Bytes.Words.{
  i32_half, i64_half, Fits, to_bits, from_bits, to_bits-lt, from_bits-to_bits,
}
use voodoo_store.Bytes.Cursor.Reads.{
  Reads, Reads-bind, Reads-pure, Reads-nothing, take_u8-Reads, take_u32-Reads, take_u64-Reads,
  take_field-Reads, take_bytes-Reads,
}
use voodoo_store.Jobs.Record.{JobSpec}
use voodoo_store.Jobs.Codec.Parts.{FitsKey}
use voodoo_store.CronScheduler.Record.{
  corrupt_record, write_bytes, i64_bytes, time_bytes, key_bytes, encode_job_spec, bool_byte,
}
use voodoo_store.CronScheduler.Decode.{
  take_i32, take_i64, when_there, take_option, take_bool, bool_of, take_field, take_bytes,
  decode_job_spec,
}

-- A signed number of the given width, behind its bytes.
signed :
    (w half : ℕ) (z : ℤ)
    → 2 * half ≡ 256 ^ w
    → Fits half z
    → Reads
        (take_bytes w >>= λ value. pure (from_bits half (from_le_bytes value)))
        (to_le_bytes w (to_bits half z))
        z
signed w half z size fit =
    Reads-pure (λ value. from_bits half (from_le_bytes value))
      (take_bytes-Reads corrupt_record (to_le_bytes w (to_bits half z)) w
        (sym (length-to_le_bytes w (to_bits half z))))
      (ap (from_bits half) (
          from_le_bytes-to_le_bytes w (to_bits half z)
            (subst (λ n. to_bits half z < n) size (to_bits-lt half z fit)))
        ∙ from_bits-to_bits half z fit)

pub take_i64-Reads : (z : ℤ) → Fits i64_half z → Reads take_i64 (i64_bytes z) z
unfolding take_i64
take_i64-Reads z fit = signed 8 i64_half z refl fit

take_i32-Reads : (z : ℤ) → Fits i32_half z → Reads take_i32 (to_le_bytes 4 (to_bits i32_half z)) z
unfolding take_i32
take_i32-Reads z fit = signed 4 i32_half z refl fit

abbrev pub FitsTime : Option ℤ → Type 0
FitsTime none = Unit
FitsTime (some z) = Fits i64_half z

pub take_time-Reads :
    (time : Option ℤ) → FitsTime time → Reads (take_option take_i64) (time_bytes time) time
unfolding when_there
take_time-Reads none fit = Reads-bind _ (take_u8-Reads corrupt_record 0) (Reads-nothing none)
take_time-Reads (some z) fit =
    Reads-bind _ (take_u8-Reads corrupt_record 1) (Reads-pure some (take_i64-Reads z fit) refl)

abbrev pub field_bytes : Bytes → Bytes
field_bytes value = to_le_bytes 4 (length value) ++ value

abbrev key_chunk : Option Bytes → Bytes
key_chunk none = 0 ∷ []
key_chunk (some key) = 1 ∷ field_bytes key

take_key-Reads :
    (key : Option Bytes) → FitsKey key → Reads (take_option take_field) (key_chunk key) key
unfolding when_there
take_key-Reads none fit = Reads-bind _ (take_u8-Reads corrupt_record 0) (Reads-nothing none)
take_key-Reads (some key) fit =
    Reads-bind _ (take_u8-Reads corrupt_record 1)
      (Reads-pure some (take_field-Reads corrupt_record key fit) refl)

pub take_bool-Reads : (b : Bool) → Reads take_bool (bool_byte b ∷ []) b
unfolding bool_of
take_bool-Reads false = Reads-bind _ (take_u8-Reads corrupt_record 0) (Reads-nothing false)
take_bool-Reads true = Reads-bind _ (take_u8-Reads corrupt_record 1) (Reads-nothing true)

pub write_bytes_lem :
    (value : Bytes) → length value < 2 ^ 32 → write_bytes value ≡ ok (field_bytes value)
unfolding write_bytes
write_bytes_lem value fit = rw (lt→ltb (length value) (2 ^ 32) fit) refl

key_bytes_lem : (key : Option Bytes) → FitsKey key → key_bytes key ≡ ok (key_chunk key)
key_bytes_lem none fit = refl
key_bytes_lem (some key) fit = rw (write_bytes_lem key fit) refl

-- The machine widths of the fields of a specification.
pub record FitsSpec (spec : JobSpec) : Type 0 where
  pub handler : length spec.handler < 2 ^ 32
  pub payload : length spec.payload < 2 ^ 32
  pub available_at_ms : Fits i64_half spec.available_at_ms
  pub deadline_ms : FitsTime spec.deadline_ms
  pub priority : Fits i32_half spec.priority
  pub max_attempts : spec.max_attempts < 2 ^ 32
  pub retry_backoff_ms : spec.retry_backoff_ms < 2 ^ 64
  pub idempotency_key : FitsKey spec.idempotency_key

-- The fields between the payload and the key.
abbrev numbers : JobSpec → Bytes → Bytes
numbers spec rest =
    i64_bytes spec.available_at_ms
    ++ (time_bytes spec.deadline_ms
        ++ (to_le_bytes 4 (to_bits i32_half spec.priority)
            ++ (to_le_bytes 4 spec.max_attempts ++ (to_le_bytes 8 spec.retry_backoff_ms ++ rest))))

abbrev pub job_chunk : JobSpec → Bytes
job_chunk spec =
    field_bytes spec.handler
    ++ (field_bytes spec.payload ++ numbers spec (key_chunk spec.idempotency_key))

module _ (spec : JobSpec) (f : FitsSpec spec) where
  pub encode_job_spec_lem : encode_job_spec spec ≡ ok (job_chunk spec)
  unfolding encode_job_spec
  encode_job_spec_lem =
      rw
        (
          write_bytes_lem spec.handler f.handler,
          write_bytes_lem spec.payload f.payload,
          key_bytes_lem spec.idempotency_key f.idempotency_key,
        )
        refl

  pub decode_job_spec-Reads : Reads decode_job_spec (job_chunk spec) spec
  unfolding decode_job_spec
  decode_job_spec-Reads = Reads-bind _ (take_field-Reads corrupt_record spec.handler f.handler) (
      Reads-bind _ (take_field-Reads corrupt_record spec.payload f.payload) (
        Reads-bind _ (take_i64-Reads spec.available_at_ms f.available_at_ms) (
          Reads-bind _ (take_time-Reads spec.deadline_ms f.deadline_ms) (
            Reads-bind _ (take_i32-Reads spec.priority f.priority) (
              Reads-bind _ (take_u32-Reads corrupt_record spec.max_attempts f.max_attempts) (
                Reads-bind _
                  (take_u64-Reads corrupt_record spec.retry_backoff_ms f.retry_backoff_ms)
                  (Reads-pure _ (take_key-Reads spec.idempotency_key f.idempotency_key) refl)))))))

pub length-time_bytes : (time : Option ℤ) → length (time_bytes time) ≤ 9
length-time_bytes none = omega arith
length-time_bytes (some z) = omega (arith, length-to_le_bytes 8 (to_bits i64_half z))

length-key_chunk : (key : Option Bytes) → FitsKey key → length (key_chunk key) ≤ 2 ^ 32 + 5
length-key_chunk none fit = omega arith
length-key_chunk (some key) fit =
    omega (
      arith,
      fit,
      length-append (to_le_bytes 4 (length key)) key,
      length-to_le_bytes 4 (length key),
    )

pub length-field_bytes : (value : Bytes) → length (field_bytes value) ≡ 4 + length value
length-field_bytes value =
    omega (
      arith,
      length-append (to_le_bytes 4 (length value)) value,
      length-to_le_bytes 4 (length value),
    )

length-numbers : (spec : JobSpec) (rest : Bytes) → length (numbers spec rest) ≤ 33 + length rest
length-numbers spec rest =
    let backoff = to_le_bytes 8 spec.retry_backoff_ms ++ rest in
    let attempts = to_le_bytes 4 spec.max_attempts ++ backoff in
    let priority = to_le_bytes 4 (to_bits i32_half spec.priority) ++ attempts in
    omega (
      arith,
      length-append (to_le_bytes 8 spec.retry_backoff_ms) rest,
      length-append (to_le_bytes 4 spec.max_attempts) backoff,
      length-append (to_le_bytes 4 (to_bits i32_half spec.priority)) attempts,
      length-append (time_bytes spec.deadline_ms) priority,
      length-append (i64_bytes spec.available_at_ms) (time_bytes spec.deadline_ms ++ priority),
      length-time_bytes spec.deadline_ms,
      length-to_le_bytes 8 spec.retry_backoff_ms,
      length-to_le_bytes 4 spec.max_attempts,
      length-to_le_bytes 4 (to_bits i32_half spec.priority),
      length-to_le_bytes 8 (to_bits i64_half spec.available_at_ms),
    )

pub length-job_chunk : (spec : JobSpec) → FitsSpec spec → length (job_chunk spec) < 2 ^ 35
length-job_chunk spec f =
    let key = key_chunk spec.idempotency_key in
    omega (
      arith,
      f.handler,
      f.payload,
      length-field_bytes spec.handler,
      length-field_bytes spec.payload,
      length-numbers spec key,
      length-key_chunk spec.idempotency_key f.idempotency_key,
      length-append (field_bytes spec.payload) (numbers spec key),
      length-append (field_bytes spec.handler) (field_bytes spec.payload ++ numbers spec key),
    )
