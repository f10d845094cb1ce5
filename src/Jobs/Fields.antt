-- ===== src/Jobs/Fields.antt =====
-- jobs.rs: fields with their length before them, and the keys of jobs.
pub mod RoundTrip
use voodoo_store.Prelude.{ℕ, ◌+◌, [], ◌∷◌, ◌++◌, length, ltb}
use voodoo_store.Result.{Result, ok, ok_or, fail_if, ◌>>=◌, ◌>>◌}
use voodoo_store.Bytes.{Bytes, to_le_bytes, from_le_bytes, slice, codes}
use voodoo_store.Bytes.Words.{checked_add, to_u32}
use voodoo_store.Jobs.Record.{JobError, field_too_large, corrupt_record}

-- b"\xffvds:job:data:", b"\xffvds:job:history:" and b"\xffvds:schedule:data:"
abbrev pub job_prefix : Bytes
job_prefix = 0xff ∷ codes "vds:job:data:"

abbrev pub all_history_prefix : Bytes
all_history_prefix = 0xff ∷ codes "vds:job:history:"

abbrev pub schedule_prefix : Bytes
schedule_prefix = 0xff ∷ codes "vds:schedule:data:"

unfoldable pub job_key : Bytes → Bytes
job_key id = job_prefix ++ id

unfoldable pub history_prefix : Bytes → Bytes
history_prefix id = all_history_prefix ++ id

unfoldable pub schedule_key : Bytes → Bytes
schedule_key id = schedule_prefix ++ id

-- `VERSION`
abbrev pub version : ℕ
version = 1

-- What `append_len` appends.
unfoldable pub append_len : Bytes → Result JobError Bytes
append_len bytes = do
  len ← ok_or (to_u32 (length bytes)) field_too_large
  ok (to_le_bytes 4 len ++ bytes)

-- The field at the cursor, and the cursor behind it.
unfoldable pub read_len : Bytes → ℕ → Result JobError (Bytes × ℕ)
read_len bytes cursor = do
  fail_if (ltb (length bytes) (cursor + 4)) corrupt_record
  let len = from_le_bytes (slice cursor (cursor + 4) bytes)
  end ← ok_or (checked_add (cursor + 4) len) corrupt_record
  fail_if (ltb (length bytes) end) corrupt_record
  ok (slice (cursor + 4) end bytes, end)
