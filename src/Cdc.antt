-- ===== src/Cdc.antt =====
-- crates/voodoo-store-core/src/cdc.rs: the change feed that each commit writes.
pub mod Record
pub mod Stage
pub mod Cursor
pub mod Reader
pub mod RoundTrip
pub mod Decoded
pub mod Selection
mod Tests
