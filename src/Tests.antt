-- ===== src/Tests.antt =====
-- Concrete runs of the model, and the theorems applied to them.
pub mod Data
mod Core
mod Mutation
mod Claim
mod Migration
mod Codec
mod Events
mod Projections
mod Outbox
mod Pages
