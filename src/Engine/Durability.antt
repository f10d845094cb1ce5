-- ===== src/Engine/Durability.antt =====
-- engine.rs: the file of a store always replays to the state that the store has in memory.
pub mod Append
pub mod Logged
pub mod Staging
pub mod Sealing
pub mod Feed
pub mod Commit
pub mod History
pub mod Recovered
pub mod Crash
pub mod CommitCrash
pub mod Cuts
pub mod CrashHistory
pub mod Keys
pub mod Batch
pub mod UserKeys
