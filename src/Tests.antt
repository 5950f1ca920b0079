-- ===== src/Tests.antt =====
-- The theorems at concrete inputs.
pub mod Closed
pub mod Gate
pub mod Claims
pub mod Time
pub mod Index
pub mod Registry
pub mod ClaimGate
pub mod Embed
pub mod WordPiece
pub mod Cursor
