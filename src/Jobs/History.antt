-- ===== src/Jobs/History.antt =====
-- jobs.rs: the history of a job.
pub mod Sequence
pub mod RoundTrip
use voodoo_store.Prelude.{
  ℕ, ◌+◌, not, ◌||◌, Option, none, some, List, [], ◌∷◌, ◌++◌, length, drop, ltb, ◌==◌,
  if◌then◌else◌,
}
use voodoo_store.Prelude.Int.{ℤ}
use voodoo_store.Result.{Result, ok, err, ok_or, fail_if, ◌>>=◌, ◌>>◌}
use voodoo_store.Bytes.{
  Bytes, to_le_bytes, from_le_bytes, to_be_bytes, from_be_bytes, slice, starts_with,
}
use voodoo_store.Bytes.Words.{i64_half, to_bits, from_bits, checked_add}
use voodoo_store.Log.{byte_at}
use voodoo_store.Engine.Payload.{State}
use voodoo_store.Engine.Store.{scan_prefix}
use voodoo_store.Jobs.Record.{JobError, corrupt_record, history_exhausted}
use voodoo_store.Jobs.Fields.{version, append_len, read_len, history_prefix}

pub data JobHistoryKind : Type 0 where
  submitted claimed completed retry_scheduled dead cancelled : JobHistoryKind

pub record JobHistoryEntry : Type 0 where
  pub sequence : ℕ
  pub at_ms : ℤ
  pub kind : JobHistoryKind
  pub detail : Bytes

abbrev pub kind_byte : JobHistoryKind → ℕ
kind_byte submitted = 0
kind_byte claimed = 1
kind_byte completed = 2
kind_byte retry_scheduled = 3
kind_byte dead = 4
kind_byte cancelled = 5

-- The `match` in `decode_history`.
unfoldable pub kind_of_byte : ℕ → Result JobError JobHistoryKind
kind_of_byte value =
    if value == 0
    then ok submitted
    else if value == 1
    then ok claimed
    else if value == 2
    then ok completed
    else if value == 3
    then ok retry_scheduled
    else if value == 4
    then ok dead
    else if value == 5
    then ok cancelled
    else err corrupt_record

unfoldable pub encode_history : JobHistoryEntry → Result JobError Bytes
encode_history entry = do
  detail ← append_len entry.detail
  ok (
      version
      ∷ (to_le_bytes 8 entry.sequence
          ++ (to_le_bytes 8 (to_bits i64_half entry.at_ms) ++ kind_byte entry.kind ∷ detail)))

unfoldable pub decode_history : Bytes → Result JobError JobHistoryEntry
unfolding kind_of_byte
decode_history bytes = do
  fail_if (ltb (length bytes) 18 || not (byte_at bytes 0 == version)) corrupt_record
  kind ← kind_of_byte (byte_at bytes 17)
  (detail, end) ← read_len bytes 18
  fail_if (not (end == length bytes)) corrupt_record
  ok (record {
    sequence = from_le_bytes (slice 1 9 bytes);
    at_ms = from_bits i64_half (from_le_bytes (slice 9 17 bytes));
    kind = kind;
    detail = detail;
  })

unfoldable pub history_key : Bytes → ℕ → Bytes
history_key id sequence = history_prefix id ++ to_be_bytes 8 sequence

unfoldable pub decode_history_sequence : Bytes → Bytes → Result JobError ℕ
decode_history_sequence id key = do
  let prefix = history_prefix id
  fail_if (not (starts_with key prefix) || not (length key == length prefix + 8)) corrupt_record
  ok (from_be_bytes (drop (length prefix) key))

-- The key of the last entry of a scan.
unfoldable pub last_key : State → Option Bytes
last_key [] = none
last_key ((key, value) ∷ []) = some key
last_key (entry ∷ next ∷ entries) = last_key (next ∷ entries)

abbrev pub after_last : Bytes → Option Bytes → Result JobError ℕ
after_last id none = ok 0
after_last id (some key) = do
  sequence ← decode_history_sequence id key
  ok_or (checked_add sequence 1) history_exhausted

unfoldable pub next_history_sequence : Bytes → State → Result JobError ℕ
next_history_sequence id state = after_last id (last_key (scan_prefix state (history_prefix id)))

-- The loop of `job_history` over the entries, before they are sorted.
unfoldable pub decode_entries : State → Result JobError (List JobHistoryEntry)
decode_entries [] = ok []
decode_entries ((key, value) ∷ entries) = do
  entry ← decode_history value
  rest ← decode_entries entries
  ok (entry ∷ rest)

-- `sort_unstable_by_key(|entry| entry.sequence)`; the sequences of a job's entries differ.
unfoldable pub insert_entry : JobHistoryEntry → List JobHistoryEntry → List JobHistoryEntry
insert_entry entry [] = entry ∷ []
insert_entry entry (next ∷ entries) =
    if ltb next.sequence entry.sequence
    then next ∷ insert_entry entry entries
    else entry ∷ next ∷ entries

unfoldable pub sort_entries : List JobHistoryEntry → List JobHistoryEntry
unfolding insert_entry
sort_entries [] = []
sort_entries (entry ∷ entries) = insert_entry entry (sort_entries entries)

unfoldable pub job_history : Bytes → State → Result JobError (List JobHistoryEntry)
job_history id state = do
  entries ← decode_entries (scan_prefix state (history_prefix id))
  ok (sort_entries entries)
