-- ===== src/Gate.antt =====
-- crates/aicortex-gate: what a capture must pass before a memory is stored.
pub mod Limits
pub mod Normalize
pub mod Walk
pub mod Capture
pub mod ClaimGate
