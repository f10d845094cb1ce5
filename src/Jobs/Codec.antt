-- ===== src/Jobs/Codec.antt =====
-- jobs.rs: `encode_job` and `decode_job`.
pub mod RoundTrip
pub mod Parts
use voodoo_store.Prelude.{
  ℕ, ◌+◌, ◌^◌, ◌-◌, Bool, not, ◌||◌, Option, none, some, [], ◌∷◌, ◌++◌, length, leb, ltb, ◌==◌,
  if◌then◌else◌,
}
use voodoo_store.Prelude.Int.{ℤ, negsuc, eqb_ℤ}
use voodoo_store.Result.{Result, ok, err, fail_if, ◌>>=◌, ◌>>◌}
use voodoo_store.Bytes.{Bytes, to_le_bytes, from_le_bytes, slice}
use voodoo_store.Bytes.Words.{i32_half, i64_half, to_bits, from_bits}
use voodoo_store.Log.{byte_at}
use voodoo_store.Jobs.Record.{
  DurableJobState, ready, leased, completed, dead, cancelled, JobError, corrupt_record, DurableJob,
}
use voodoo_store.Jobs.Fields.{version, append_len, read_len}

-- `state as u8`, and `DurableJobState::try_from`.
abbrev pub state_byte : DurableJobState → ℕ
state_byte ready = 0
state_byte leased = 1
state_byte completed = 2
state_byte dead = 3
state_byte cancelled = 4

unfoldable pub state_of_byte : ℕ → Result JobError DurableJobState
state_of_byte value =
    if value == 0
    then ok ready
    else if value == 1
    then ok leased
    else if value == 2
    then ok completed
    else if value == 3
    then ok dead
    else if value == 4
    then ok cancelled
    else err corrupt_record

-- `i64::MIN`, which stands for no deadline.
abbrev pub i64_min : ℤ
i64_min = negsuc (2 ^ 63 - 1)

abbrev pub or_min : Option ℤ → ℤ
or_min none = i64_min
or_min (some deadline) = deadline

abbrev pub deadline_of : ℤ → Option ℤ
deadline_of raw = if not (eqb_ℤ raw i64_min) then some raw else none

-- The fixed part behind the id.
unfoldable pub numbers : DurableJob → Bytes
numbers job =
    to_le_bytes 8 (to_bits i64_half job.available_at_ms)
    ++ (to_le_bytes 8 (to_bits i64_half (or_min job.deadline_ms))
        ++ (to_le_bytes 4 (to_bits i32_half job.priority)
            ++ (to_le_bytes 4 job.attempts
                ++ (to_le_bytes 4 job.max_attempts
                    ++ (to_le_bytes 8 job.retry_backoff_ms
                        ++ (to_le_bytes 8 (to_bits i64_half job.lease_until_ms)
                            ++ to_le_bytes 4 job.lease_generation))))))

unfoldable pub encode_key : Option Bytes → Result JobError Bytes
encode_key none = ok (0 ∷ [])
encode_key (some key) = do chunk ← append_len key; ok (1 ∷ chunk)

unfoldable pub encode_job : DurableJob → Result JobError Bytes
encode_job job = do
  handler ← append_len job.handler
  payload ← append_len job.payload
  key ← encode_key job.idempotency_key
  ok (version ∷ state_byte job.state ∷ (job.id ++ (numbers job ++ (handler ++ (payload ++ key)))))

abbrev pub fixed_len : ℕ
fixed_len = 66

-- The `match` on the byte at the cursor.
unfoldable pub decode_key : Bytes → ℕ → Result JobError (Option Bytes × ℕ)
decode_key bytes cursor =
    if byte_at bytes cursor == 0
    then ok (none, cursor + 1)
    else if byte_at bytes cursor == 1
    then (do (key, end) ← read_len bytes (cursor + 1); ok (some key, end))
    else err corrupt_record

unfoldable pub decode_job : Bytes → Result JobError DurableJob
decode_job bytes = do
  fail_if (ltb (length bytes) fixed_len || not (byte_at bytes 0 == version)) corrupt_record
  state ← state_of_byte (byte_at bytes 1)
  (handler, after_handler) ← read_len bytes fixed_len
  (payload, after_payload) ← read_len bytes after_handler
  fail_if (leb (length bytes) after_payload) corrupt_record
  (idempotency_key, end) ← decode_key bytes after_payload
  fail_if (not (end == length bytes)) corrupt_record
  ok (record {
    id = slice 2 18 bytes;
    state = state;
    handler = handler;
    payload = payload;
    available_at_ms = from_bits i64_half (from_le_bytes (slice 18 26 bytes));
    deadline_ms = deadline_of (from_bits i64_half (from_le_bytes (slice 26 34 bytes)));
    priority = from_bits i32_half (from_le_bytes (slice 34 38 bytes));
    attempts = from_le_bytes (slice 38 42 bytes);
    max_attempts = from_le_bytes (slice 42 46 bytes);
    retry_backoff_ms = from_le_bytes (slice 46 54 bytes);
    lease_until_ms = from_bits i64_half (from_le_bytes (slice 54 62 bytes));
    lease_generation = from_le_bytes (slice 62 66 bytes);
    idempotency_key = idempotency_key;
  })
