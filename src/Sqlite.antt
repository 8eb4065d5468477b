-- ===== src/Sqlite.antt =====
-- crates/dovecote-sqlx-sqlite/src: the SQLite adapter.
pub mod Errors
pub mod Busy
pub mod Table
pub mod Stamps
pub mod Mutation
pub mod Claim
pub mod Import
pub mod Page
pub mod DeliveryState
pub mod Hydrate
pub mod Store
pub mod Enqueue
pub mod Finalize
