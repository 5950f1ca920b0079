-- ===== src/Claims.antt =====
-- crates/aicortex-claims: the append-only history of typed claims, and its projection as of a
-- point of knowledge and of validity.
pub mod Slot
pub mod History
pub mod Window
pub mod Projection
pub mod Registry
pub mod Validate
