-- ===== src/Engine.antt =====
-- crates/voodoo-store-core/src/engine.rs: the storage engine. The children model the payloads of log
-- records, recovery, the store's file, the open store, its quotas, its transactions and its opening.
pub mod Payload
pub mod Recovery
pub mod Device
pub mod Store
pub mod Quota
pub mod Transaction
pub mod Commit
pub mod Open
pub mod Durability
pub mod Tests
