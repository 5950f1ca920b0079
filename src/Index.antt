-- ===== src/Index.antt =====
-- crates/aicortex-index: the search over stored vectors.
pub mod TopK
