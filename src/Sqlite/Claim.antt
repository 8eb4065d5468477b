-- ===== src/Sqlite/Claim.antt =====
-- crates/dovecote-sqlx-sqlite/src/lifecycle.rs: one claim of a batch of deliveries.
pub mod Tokens
pub mod Candidates
pub mod Prepare
pub mod Run
pub mod Selection
pub mod Due
pub mod Batch
pub mod Distinct
pub mod Outcome
pub mod Fencing
pub mod Stale
pub mod Isolation
pub mod Termination
pub mod Retries
pub mod Invariant
