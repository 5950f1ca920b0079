-- ===== src/Embed/Chunk/Cover.antt =====
-- The chunks of crates/aicortex-embed/src/chunk.rs are slices of the body, in order, and leave no gap.
use aicortex.Prelude.{
  ℕ, zero, suc, ◌+◌, ◌≤◌, ◌<◌, ◌≡◌, refl, sym, ap, ◌∙◌, Bool, true, false, none, some, List, [],
  ◌∷◌, ltb, leb, ◌==◌, if◌then◌else◌, ok, err, ok-injective, In, ◌⊎◌, inl, inr, is_some, arith,
  Bool-cases, Option-cases, some-injective,
}
use mathlib.Core.Path.{subst}
use aicortex.Text.{Text, byte_len}
use aicortex.Text.Bytes.{
  usize_max, is_char_boundary, boundary-start, boundary-end, boundary-le, slice, slice_boundaries,
}
use aicortex.Embed.Chunk.{
  ChunkConfig, Chunk, too_many_chunks, chunk, or_empty, utf8_floor, rfind, value_or, target, end_of,
  desired, sentence_start, next_start, u32_ordinal, Split, before, pass, split_from,
  sentence_boundaries, split,
}
use aicortex.Embed.Chunk.Progress.{end_of-past, next_start-past}
use aicortex.Embed.Chunk.Boundaries.{
  utf8_floor-boundary, utf8_floor-le, sentence_boundaries-boundary, rfind-In, after_char-boundary,
}

-- The chunk with the index `n` is the text from `start` to its end, which is behind `start`.
pub record IsChunk (body : Text) (n start : ℕ) (c : Chunk) : Type 0 where
  pub ordinal : c.ordinal ≡ u32_ordinal n
  pub starts : c.byte_start ≡ start
  pub ends_later : start < c.byte_end
  pub text : slice body start c.byte_end ≡ some c.text

-- The chunks from the index `n` and the offset `start` on: the last one ends with the body, and each
-- other is followed by one that starts later, and not behind its end.
pub data IsSplit (body : Text) : ℕ → ℕ → List Chunk → Type 0 where
  last :
      {n start : ℕ} {c : Chunk}
      → IsChunk body n start c
      → c.byte_end ≡ byte_len body
      → IsSplit body n start (c ∷ [])
  more :
      {n start next : ℕ} {c : Chunk} {cs : List Chunk}
      → IsChunk body n start c
      → start < next
      → next ≤ c.byte_end
      → IsSplit body (n + 1) next cs
      → IsSplit body n start (c ∷ cs)

module _ (body : Text) where
  chunk-IsChunk :
      (n start end : ℕ)
      → is_char_boundary body start ≡ true
      → is_char_boundary body end ≡ true
      → start < end
      → IsChunk body n start (chunk body (u32_ordinal n) start end)
  unfolding chunk
  chunk-IsChunk n start end s e l = elim (Option-cases (slice body start end)) [
    | inl o ↦
        let h : false ≡ true =
          sym (ap is_some o) ∙ slice_boundaries body start end s e (omega arith) in
        cc
    | inr (t, o) ↦ record {
      ordinal = refl;
      starts = refl;
      ends_later = l;
      text = o ∙ ap (λ x. some (or_empty x)) (sym o);
    }
  ]

module _ (config : ChunkConfig) (body : Text) (fits : byte_len body ≤ usize_max) where
  abbrev bs : List ℕ
  bs = sentence_boundaries body

  preferred :
      (start most : ℕ)
      → is_char_boundary body (value_or (utf8_floor body most) (rfind start most bs)) ≡ true
  preferred start most = elim (Option-cases (rfind start most bs)) [
    | inl e ↦ rw e (utf8_floor-boundary body most)
    | inr (b, e) ↦ rw e (sentence_boundaries-boundary body b fits (rfind-In start most b bs e).0)
  ]

  preferred-le : (start most : ℕ) → value_or (utf8_floor body most) (rfind start most bs) ≤ most
  preferred-le start most = elim (Option-cases (rfind start most bs)) [
    | inl e ↦ rw e (utf8_floor-le body most)
    | inr (b, e) ↦ rw e (rfind-In start most b bs e).2
  ]

  -- A choice between two boundaries is one.
  chosen :
      (b : Bool) (x y : ℕ)
      → is_char_boundary body x ≡ true
      → is_char_boundary body y ≡ true
      → is_char_boundary body (if b then x else y) ≡ true
  chosen true x y p q = p
  chosen false x y p q = q

  end_of-boundary :
      (start previous_end : ℕ)
      → is_char_boundary body start ≡ true
      → start < byte_len body
      → is_char_boundary body (end_of config body bs start previous_end) ≡ true
  unfolding end_of
  end_of-boundary start previous_end s l =
      let floor = utf8_floor-boundary body (target config body bs start) in
      let after = (after_char-boundary body start (byte_len body) fits s (boundary-end body) l).0 in
      chosen _ _ _ after
        (chosen _ _ _ floor (chosen _ _ _ floor (preferred start (target config body bs start))))

  next_start-boundary :
      (start end : ℕ)
      → is_char_boundary body start ≡ true
      → is_char_boundary body end ≡ true
      → start < end
      → (is_char_boundary body (next_start config body bs start end) ≡ true)
        × (next_start config body bs start end ≤ end)
  unfolding next_start
  next_start-boundary start end s e l =
      let (k, m) = after_char-boundary body start end fits s e l in
      let below = preferred-le start (desired config body bs end) in
      elim (Bool-cases (ltb start (sentence_start config body bs start end))) [
        | inl h ↦ rw h (preferred start (desired config body bs end), omega arith)
        | inr h ↦ rw h (k, m)
      ]

  before-ok :
      (c : Chunk) (s : Split) (cs : List Chunk)
      → before c s ≡ some (ok cs)
      → (rest : List Chunk) × (s ≡ some (ok rest)) × (cs ≡ c ∷ rest)
  before-ok c none cs h = cc
  before-ok c (some (err e)) cs h = cc
  before-ok c (some (ok rest)) cs h = (rest, refl, sym (ok-injective (some-injective h)))

  pass-ok :
      (count start end : ℕ) (later : Split) (cs : List Chunk)
      → pass config body bs count start end later ≡ some (ok cs)
      → ((end ≡ byte_len body) × (cs ≡ chunk body (u32_ordinal count) start end ∷ []))
        ⊎ ((rest : List Chunk) × (later ≡ some (ok rest))
            × (cs ≡ chunk body (u32_ordinal count) start end ∷ rest)
            × ((end == byte_len body) ≡ false))
  pass-ok count start end later cs h =
      elim (Bool-cases (ltb config.max_chunks_per_memory (count + 1))) [
        | inl e ↦
            let k : some (err (too_many_chunks config.max_chunks_per_memory)) ≡ some (ok cs) =
              rw e at h in
            cc
        | inr e ↦ elim (Bool-cases (end == byte_len body)) [
          | inl d ↦
              let k : some (ok (chunk body (u32_ordinal count) start end ∷ [])) ≡ some (ok cs) =
                rw (e, d) at h in
              inl (ground arith, sym (ok-injective (some-injective k)))
          | inr d ↦ let (rest, r, p) = before-ok _ later cs (rw (e, d) at h) in inr (rest, r, p, d)
        ]
      ]

  pub split_from-IsSplit :
      (fuel count previous_end start : ℕ) (cs : List Chunk)
      → is_char_boundary body start ≡ true
      → start < byte_len body
      → split_from config body bs fuel count previous_end start ≡ some (ok cs)
      → IsSplit body count start cs
  unfolding split_from
  split_from-IsSplit zero count previous_end start cs s l h = cc
  split_from-IsSplit (suc fuel) count previous_end start cs s l h =
      let end = end_of config body bs start previous_end in
      let within : ltb start (byte_len body) ≡ true = ground arith in
      let e = end_of-boundary start previous_end s l in
      let on = end_of-past config body bs fits start previous_end l in
      let (n, reach) = next_start-boundary start end s e on in
      let later = next_start-past config body bs fits start end l on in
      let most = boundary-le body end e in
      let is = chunk-IsChunk body count start end s e on in
      elim (pass-ok count start end _ cs (rw within at h)) [
        | inl (done, p) ↦ subst (IsSplit body count start) (sym p) (IsSplit.last is done)
        | inr (rest, r, p, d) ↦
            let sooner : next_start config body bs start end < byte_len body = ground arith in
            subst (IsSplit body count start) (sym p) (
              IsSplit.more is later reach (
                split_from-IsSplit fuel (count + 1) end (next_start config body bs start end) rest n
                  sooner r))
      ]

-- For a body that is not empty and that a `usize` can measure, chunks that are returned are slices of
-- the body with the ordinals from 0 on; the first starts at 0, the last ends with the body, and each
-- other is followed by one that starts later but not behind its end.
pub split-IsSplit :
    (config : ChunkConfig) (body : Text) (cs : List Chunk)
    → byte_len body ≤ usize_max
    → 0 < byte_len body
    → split config body ≡ some (ok cs)
    → IsSplit body 0 0 cs
unfolding split
split-IsSplit config body cs fits pos h =
    let some_bytes : (byte_len body == 0) ≡ false = ground arith in
    elim (Bool-cases (leb (byte_len body) config.threshold_bytes)) [
      | inl t ↦
          let k : some (ok (chunk body 0 0 (byte_len body) ∷ [])) ≡ some (ok cs) =
            rw (some_bytes, t, split) at h in
          subst (IsSplit body 0 0) (ok-injective (some-injective k)) (
            IsSplit.last
              (chunk-IsChunk body 0 0 (byte_len body) (boundary-start body) (boundary-end body) pos)
              ends)
      | inr t ↦
          split_from-IsSplit config body fits (byte_len body + 1) 0 0 0 cs (boundary-start body) pos
            (rw (some_bytes, t, split) at h)
    ]
  where
    ends : (chunk body 0 0 (byte_len body)).byte_end ≡ byte_len body
    ends = refl

-- The byte at `i` is in the chunk, whose text is the slice that its offsets name.
abbrev pub Holds : Text → ℕ → Chunk → Type 0
Holds body i c =
    (c.byte_start ≤ i) × (i < c.byte_end) × (slice body c.byte_start c.byte_end ≡ some c.text)

IsChunk-Holds :
    (body : Text) (n start i : ℕ) (c : Chunk)
    → IsChunk body n start c
    → start ≤ i
    → i < c.byte_end
    → Holds body i c
IsChunk-Holds body n start i c k low high =
    let e = k.starts in (omega arith, high, ap (λ x. slice body x c.byte_end) k.starts ∙ k.text)

IsSplit-covers :
    (body : Text) (n start i : ℕ) (cs : List Chunk)
    → IsSplit body n start cs
    → start ≤ i
    → i < byte_len body
    → (c : Chunk) × In c cs × Holds body i c
IsSplit-covers body n start i cs (IsSplit.last {c = c} k e) low high =
    (c, inl refl, IsChunk-Holds body n start i c k low (omega arith))
IsSplit-covers body n start i cs (IsSplit.more {next = next} {c = c} {cs = rest} k on reach s) low
      high =
    elim (Bool-cases (ltb i c.byte_end)) [
      | inl h ↦ (c, inl refl, IsChunk-Holds body n start i c k low (ground arith))
      | inr h ↦
          let past : next ≤ i = ground arith in
          let (d, j, holds) = IsSplit-covers body (n + 1) next i rest s past high in
          (d, inr j, holds)
    ]

-- No byte is lost: for a body that a `usize` can measure, each byte of it is in a chunk that is
-- returned, and the chunk's text is the slice of the body between its offsets.
pub split_covers :
    (config : ChunkConfig) (body : Text) (cs : List Chunk) (i : ℕ)
    → byte_len body ≤ usize_max
    → split config body ≡ some (ok cs)
    → i < byte_len body
    → (c : Chunk) × In c cs × Holds body i c
split_covers config body cs i fits h low =
    IsSplit-covers body 0 0 i cs (split-IsSplit config body cs fits (omega arith) h) (omega arith)
      low
