-- ===== src/Tests/Embed.antt =====
-- The chunker's theorems at a concrete body and configuration.
use aicortex.Prelude.{
  ℕ, ◌≡◌, ◌≤◌, ◌<◌, refl, true, some, List, [], ◌∷◌, ok, is_some, In, length, arith,
}
use aicortex.Text.{Text, byte_len, len_utf8, is_whitespace}
use aicortex.Text.Bytes.{usize_max, saturating_add}
use aicortex.Embed.Chunk.{ChunkConfig, Chunk, validate, split}
use aicortex.Embed.Chunk.Progress.{split_ends}
use aicortex.Embed.Chunk.Cover.{IsSplit, split-IsSplit, Holds, split_covers}
use aicortex.Embed.Chunk.Ceiling.{split-length}

-- "Ab. Cd"
abbrev body : Text
body = b'A' ∷ b'b' ∷ b'.' ∷ b' ' ∷ b'C' ∷ b'd' ∷ []

abbrev config : ChunkConfig
config = record {
  threshold_bytes = 2;
  target_bytes = 5;
  overlap_bytes = 2;
  max_chunks_per_memory = 4;
}

abbrev piece : ℕ → ℕ → ℕ → Text → Chunk
piece n start end t = record { ordinal = n; byte_start = start; byte_end = end; text = t }

abbrev pieces : List Chunk
pieces =
    piece 0 0 4 (b'A' ∷ b'b' ∷ b'.' ∷ b' ' ∷ []) ∷ piece 1 2 6 (b'.' ∷ b' ' ∷ b'C' ∷ b'd' ∷ []) ∷ []

config_valid : validate config ≡ ok config
unfolding validate
config_valid = refl

body_split : split config body ≡ some (ok pieces)
unfolding split byte_len len_utf8 is_whitespace saturating_add
body_split = refl

body_fits : byte_len body ≤ usize_max
unfolding byte_len len_utf8
body_fits = omega arith

body_pos : 0 < byte_len body
unfolding byte_len len_utf8
body_pos = omega arith

third_byte : 3 < byte_len body
unfolding byte_len len_utf8
third_byte = omega arith

split_ends_example : is_some (split config body) ≡ true
split_ends_example = split_ends config body body_fits

split-IsSplit_example : IsSplit body 0 0 pieces
split-IsSplit_example = split-IsSplit config body pieces body_fits body_pos body_split

split_covers_example : (c : Chunk) × In c pieces × Holds body 3 c
split_covers_example = split_covers config body pieces 3 body_fits body_split third_byte

split-length_example : length pieces ≤ 4
split-length_example = split-length config config body pieces config_valid body_split
