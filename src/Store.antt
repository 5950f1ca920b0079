-- ===== src/Store.antt =====
-- crates/aicortex-store: what the store computes beside its statements.
pub mod Cursor
