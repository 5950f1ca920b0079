-- ===== src/Types.antt =====
-- crates/aicortex-types: what a memory and a claim are, before anything can store one.
pub mod Error
pub mod Memory
pub mod Time
pub mod Claim
pub mod Predicate
pub mod Evidence
