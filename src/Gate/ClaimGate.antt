-- ===== src/Gate/ClaimGate.antt =====
-- crates/aicortex-gate/src/claim_gate.rs: the admission of a proposed claim.
pub mod Policy
pub mod Grounds
pub mod Steps
pub mod Evaluate
pub mod Chain
pub mod Sound
pub mod Admission
pub mod Bounds
pub mod Inference
pub mod Relations
