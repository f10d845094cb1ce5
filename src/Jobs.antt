-- ===== src/Jobs.antt =====
-- crates/voodoo-store-core/src/jobs.rs: durable jobs.
pub mod Record
pub mod Fields
pub mod Codec
pub mod History
pub mod Persist
pub mod Submit
pub mod Claim
pub mod Transitions
pub mod Lifecycle
pub mod Stats
pub mod Schedule
pub mod Advance
pub mod Scheduler
pub mod Requests
pub mod Invariant
pub mod Calls
pub mod Retry
mod Tests
