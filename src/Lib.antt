-- ===== src/Lib.antt =====
-- Verification of Voodoo Store, an embedded durable store in one append-only file: the core crate
-- crates/voodoo-store-core.
--
-- The program. A store is a file of a header and log records and, in memory, the map of keys to values
-- that the committed records give. A transaction appends a record for each put and delete while it
-- runs, and a commit record at its end; only then the map changes. Opening a file replays its records
-- and cuts off a record that a crash left unfinished. The other components keep their data under
-- internal keys of the store: the change feed adds a record of each change to the transaction that
-- makes it, queues keep messages with leases, keys may have a time of expiry, jobs are leased to
-- workers and retried, and schedules, at an interval or by a cron expression, submit jobs.
--
-- The model.
-- - File Prelude, Result, Exec, Bytes, Map models the native numbers, integers with the sizes of
--   machine integers (Bytes.Words), results, methods on `&mut self` that may fail (`Exec`: a function
--   from the state to a result and the new state), little- and big-endian bytes, the cursors over
--   bytes that several files of the crate declare (Bytes.Cursor), and hash maps as association lists.
-- - File Platform models the code of other crates. SHA-256 and CRC-32 are functions of which only the
--   lengths are known, and a hash map is iterated over in an unknown order.
-- - File Header models crates/voodoo-store-core/src/header.rs, `StoreHeader::encode` and `decode`.
-- - File Log models crates/voodoo-store-core/src/log.rs, `LogRecord::encode` and `decode`,
--   `encoded_record_len_from_prefix`.
-- - File Engine models crates/voodoo-store-core/src/engine.rs. Payload: `Operation`, payloads of records and
--   `apply_operations`; Device: the file and what the operating system answers; Store: `Store`,
--   `append`, `begin`, scans and metrics; Transaction: staging and rollback; Quota: user keys and
--   namespace quotas; Commit: `commit`, `Store::put` and `Store::delete`; Recovery: `recover` and its
--   loop; Open: `open_with_options`, `verify`. Below these, and in Durability, stand the proofs.
-- - File Cdc models crates/voodoo-store-core/src/cdc.rs. Record: the change records and their
--   encoding; Stage: `stage_changes`, which a commit runs; Cursor: the decoder; Reader: the methods
--   that read and prune the feed.
-- - File Queue models crates/voodoo-store-core/src/queue.rs. Message: keys and encoding; Claim: the choice of the
--   message that is delivered; Stats: counts; the operations in Queue itself; Commands: sequences of
--   calls, as several workers make them one after another. Terms says when a message may be delivered
--   and what becomes of its fields without the code's own helpers. The proofs stand below these.
-- - File Atomic models crates/voodoo-store-core/src/atomic.rs, compare-and-swap and counters.
-- - File Ttl models crates/voodoo-store-core/src/ttl.rs, the expiry of keys; its child Record the
--   metadata.
-- - File Jobs models crates/voodoo-store-core/src/jobs.rs. Record: jobs, specifications and the delay
--   of a retry; Fields, Codec, History, Schedule: keys and encodings; Persist: storing a job with an
--   entry of its history; Submit, Claim, Transitions, Lifecycle: the operations on jobs; Stats:
--   listing and counts; Advance, Scheduler: schedules and their tick. Requests states the state
--   machine of a job, Calls sequences of calls; the proofs stand below these.
-- - File Cron models crates/voodoo-store-core/src/cron.rs: expressions, the times that they match and
--   the search for the next one. Chars and Utf8: texts as sequences of code points, with what the code
--   uses of Rust's texts; Fields: `Field`; Calendar: `civil_from_days`. Fields.Grammar says how a part
--   of a field is written, without the parser.
-- - File CronScheduler models crates/voodoo-store-core/src/cron_scheduler.rs. Record and Decode:
--   schedules and their encoding; the operations in CronScheduler itself.
-- A `Transaction` and a `Queue` borrow the store, so the store is a field of the transaction, and the
-- operations of a queue run on the store.
--
-- Bounds and fuel. Counters and lengths are natural numbers with the checks of the code written out at
-- 2 ^ 64 and 2 ^ 32, times are integers with checks at 64 bits. The loop of `recover` runs on fuel, the
-- number of bytes left and one more: a record has at least 29 bytes, so each round shortens the rest.
-- The loop that moves an interval schedule on has a round for each millisecond to the present, and
-- each interval has one at least; the loop over the values of a part of a cron field has a round for
-- each value of its range. The search for the next time of a cron expression has the rounds of the code.
-- The entropy of new ids is an argument of the operations on jobs and schedules, and so is the order
-- in which a sort by the next run leaves cron schedules of the same time.
-- A device lists the outcomes of its writes and syncs; theorems that need it assume a sound device, on
-- which a write that fails leaves nothing behind and no sync fails.
--
-- Not modelled. Locks, paths, directories and backup files of the engine, which are calls of the
-- operating system; the other components of the crate; the command line, the C interface and the
-- Python bindings, which convert values and call the core.
mod Prelude
pub mod Result
pub mod Exec
pub mod Bytes
pub mod Platform
pub mod Header
pub mod Log
pub mod Map
pub mod Engine
pub mod Cdc
pub mod Queue
pub mod Atomic
pub mod Ttl
pub mod Cron
pub mod Jobs
pub mod CronScheduler
