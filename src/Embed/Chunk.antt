-- ===== src/Embed/Chunk.antt =====
-- crates/aicortex-embed/src/chunk.rs: a body split at sentence boundaries, with overlap. The loop runs on
-- fuel, one unit for each byte of the body and one more. The previous chunk's end and the number of
-- chunks are passed on in place of the list that they are read from.
use aicortex.Prelude.{
  ℕ, zero, suc, ◌+◌, ◌-◌, ◌/◌, ◌≡◌, Bool, true, false, not, ◌&&◌, ◌||◌, Option, none, some, List,
  [], ◌∷◌, ◌++◌, map, ltb, leb, ◌==◌, if◌then◌else◌, Result, ok, err, ◌>>=◌,
}
use aicortex.Text.{Text, len_utf8, byte_len, is_whitespace}
use aicortex.Text.Bytes.{saturating_add, drop_bytes, is_char_boundary, slice}
pub mod Progress
pub mod Boundaries
pub mod Cover
pub mod Ceiling

pub record ChunkConfig : Type 0 where
  pub threshold_bytes : ℕ
  pub target_bytes : ℕ
  pub overlap_bytes : ℕ
  pub max_chunks_per_memory : ℕ

pub data ChunkError : Type 0 where
  config_zero : ChunkError
  config_overlap : ℕ → ℕ → ChunkError
  too_many_chunks : ℕ → ChunkError

unfoldable pub validate : ChunkConfig → Result ChunkError ChunkConfig
validate c =
    if c.threshold_bytes == 0 || c.target_bytes == 0 || c.max_chunks_per_memory == 0
    then err config_zero
    else if ltb (c.target_bytes / 2) c.overlap_bytes
    then err (config_overlap c.overlap_bytes c.target_bytes)
    else ok c

pub record Chunk : Type 0 where
  pub ordinal : ℕ
  pub byte_start : ℕ
  pub byte_end : ℕ
  pub text : Text

abbrev pub or_empty : Option Text → Text
or_empty none = []
or_empty (some t) = t

unfoldable pub chunk : Text → ℕ → ℕ → ℕ → Chunk
unfolding slice
chunk body ordinal start end = record {
  ordinal = ordinal;
  byte_start = start;
  byte_end = end;
  text = or_empty (slice body start end);
}

abbrev pub min : ℕ → ℕ → ℕ
min a b = if leb a b then a else b

unfoldable pub floor_from : Text → ℕ → ℕ
floor_from t zero = zero
floor_from t (suc n) =
    let before = floor_from t n in if is_char_boundary t (suc n) then suc n else before

unfoldable pub utf8_floor : Text → ℕ → ℕ
unfolding floor_from
utf8_floor t offset = floor_from t (min offset (byte_len t))

-- The scan over the characters, from an offset on and after the end of a sentence or not.
abbrev pub ends_sentence : ℕ → Bool
ends_sentence c = c == b'.' || c == b'!' || c == b'?'

-- Whether a boundary is pushed after the character, and whether a sentence's end stays open.
abbrev pub closes : Bool → ℕ → Bool
closes sentence_end c =
    if c == 0x0a then true else if ends_sentence c then false else sentence_end && is_whitespace c

abbrev pub opens : Bool → ℕ → Bool
opens sentence_end c =
    if c == 0x0a
    then false
    else if ends_sentence c
    then true
    else if sentence_end && is_whitespace c
    then false
    else if not (is_whitespace c)
    then false
    else sentence_end

unfoldable pub boundaries_from : ℕ → Bool → Text → List ℕ
boundaries_from offset sentence_end [] = []
boundaries_from offset sentence_end (c ∷ cs) =
    let after = saturating_add offset (len_utf8 c) in
    let rest = boundaries_from (offset + len_utf8 c) (opens sentence_end c) cs in
    if closes sentence_end c then after ∷ rest else rest

abbrev pub last_is : ℕ → List ℕ → Bool
last_is n [] = false
last_is n (x ∷ []) = x == n
last_is n (x ∷ y ∷ ys) = last_is n (y ∷ ys)

-- `sort_unstable`, of numbers, and `dedup`.
unfoldable pub insert : ℕ → List ℕ → List ℕ
insert x [] = x ∷ []
insert x (y ∷ ys) = let rest = insert x ys in if leb x y then x ∷ y ∷ ys else y ∷ rest

unfoldable pub sort : List ℕ → List ℕ
unfolding insert
sort [] = []
sort (x ∷ xs) = insert x (sort xs)

unfoldable pub dedup_after : ℕ → List ℕ → List ℕ
dedup_after x [] = []
dedup_after x (y ∷ ys) = let rest = dedup_after y ys in if x == y then rest else y ∷ rest

unfoldable pub dedup : List ℕ → List ℕ
unfolding dedup_after
dedup [] = []
dedup (x ∷ xs) = x ∷ dedup_after x xs

abbrev pub closed_at : ℕ → List ℕ → List ℕ
closed_at len boundaries = if last_is len boundaries then boundaries else boundaries ++ len ∷ []

unfoldable pub sentence_boundaries : Text → List ℕ
unfolding boundaries_from sort dedup
sentence_boundaries t = dedup (sort (closed_at (byte_len t) (0 ∷ boundaries_from 0 false t)))

-- The last boundary after `start` and up to `most`.
abbrev pub or_else : Option ℕ → Option ℕ → Option ℕ
or_else (some x) other = some x
or_else none other = other

unfoldable pub rfind : ℕ → ℕ → List ℕ → Option ℕ
rfind start most [] = none
rfind start most (b ∷ bs) =
    or_else (rfind start most bs) (if ltb start b && leb b most then some b else none)

abbrev pub value_or : ℕ → Option ℕ → ℕ
value_or default none = default
value_or default (some n) = n

-- Past the character at `start`, if another follows it.
abbrev pub second_offset : Option Text → Option ℕ
second_offset (some (c ∷ d ∷ cs)) = some (len_utf8 c)
second_offset _ = none

abbrev pub advanced : ℕ → ℕ → Option ℕ → ℕ
advanced start default none = default
advanced start default (some offset) = saturating_add start offset

unfoldable pub after_char : Text → ℕ → ℕ → ℕ
unfolding drop_bytes
after_char body start default = advanced start default (second_offset (drop_bytes body start))

abbrev pub u32_ordinal : ℕ → ℕ
u32_ordinal count = min count 0xffffffff

abbrev pub Split : Type 0
Split = Option (Result ChunkError (List Chunk))

abbrev pub before : Chunk → Split → Split
before c none = none
before c (some (err e)) = some (err e)
before c (some (ok cs)) = some (ok (c ∷ cs))

module _ (config : ChunkConfig) (body : Text) (boundaries : List ℕ) where
  abbrev pub target : ℕ → ℕ
  target start = min (saturating_add start config.target_bytes) (byte_len body)

  abbrev pub preferred_end : ℕ → ℕ
  preferred_end start =
      value_or (utf8_floor body (target start)) (rfind start (target start) boundaries)

  abbrev pub past_overlap : ℕ → ℕ → ℕ
  past_overlap start end =
      if ltb end (byte_len body) && leb (end - start) config.overlap_bytes
      then utf8_floor body (target start)
      else end

  abbrev pub past_previous : ℕ → ℕ → ℕ → ℕ
  past_previous start previous_end end =
      if leb end previous_end then utf8_floor body (target start) else end

  abbrev pub past_start : ℕ → ℕ → ℕ
  past_start start end = if leb end start then after_char body start (byte_len body) else end

  -- Where the chunk from `start` ends.
  unfoldable pub end_of : ℕ → ℕ → ℕ
  unfolding utf8_floor rfind after_char
  end_of start previous_end =
      past_start start (past_previous start previous_end (past_overlap start (preferred_end start)))

  abbrev pub desired : ℕ → ℕ
  desired end = end - config.overlap_bytes

  abbrev pub sentence_start : ℕ → ℕ → ℕ
  sentence_start start end =
      value_or (utf8_floor body (desired end)) (rfind start (desired end) boundaries)

  -- Where the chunk after it starts.
  unfoldable pub next_start : ℕ → ℕ → ℕ
  unfolding utf8_floor rfind after_char
  next_start start end =
      if ltb start (sentence_start start end)
      then sentence_start start end
      else after_char body start end

  -- One pass of the loop, with the passes after it.
  abbrev pub pass : ℕ → ℕ → ℕ → Split → Split
  pass count start end rest =
      if ltb config.max_chunks_per_memory (count + 1)
      then some (err (too_many_chunks config.max_chunks_per_memory))
      else if end == byte_len body
      then some (ok (chunk body (u32_ordinal count) start end ∷ []))
      else before (chunk body (u32_ordinal count) start end) rest

  -- `none` is for fuel that ran out.
  unfoldable pub split_from : ℕ → ℕ → ℕ → ℕ → Split
  unfolding end_of next_start chunk
  split_from zero count previous_end start = none
  split_from (suc fuel) count previous_end start =
      let end = end_of start previous_end in
      let rest = split_from fuel (count + 1) end (next_start start end) in
      if ltb start (byte_len body) then pass count start end rest else some (ok [])

unfoldable pub split : ChunkConfig → Text → Option (Result ChunkError (List Chunk))
unfolding sentence_boundaries split_from
split config body =
    if byte_len body == 0
    then some (ok [])
    else if leb (byte_len body) config.threshold_bytes
    then some (ok (chunk body 0 0 (byte_len body) ∷ []))
    else split_from config body (sentence_boundaries body) (byte_len body + 1) 0 0 0
