-- ===== src/Core.antt =====
-- crates/dovecote/src: the synchronous core crate.
pub mod Error
pub mod Crates
pub mod Bounds
pub mod Validation
pub mod Operational
pub mod Json
pub mod Codecs
pub mod Extension
pub mod Event
pub mod Serialization
pub mod Projection
pub mod Value
pub mod Widths
pub mod State
pub mod Paged
