-- ===== src/Embed.antt =====
-- crates/aicortex-embed: chunking and embedding.
pub mod Chunk
pub mod WordPiece
