-- ===== src/Embed/Chunk/Progress.antt =====
-- The loop of crates/aicortex-embed/src/chunk.rs moves on in every pass, and ends.
use aicortex.Prelude.{
  ℕ, zero, suc, ◌+◌, ◌-◌, ◌≤◌, ◌<◌, ◌≡◌, refl, true, Option, none, some, List, [], ◌∷◌, ltb, leb,
  ◌==◌, ok, err, is_some, arith, Bool-cases, inl, inr,
}
use aicortex.Text.{Text, len_utf8, len_utf8_pos, byte_len}
use aicortex.Text.Bytes.{usize_max, saturating_add, drop_bytes}
use aicortex.Embed.Chunk.{
  ChunkConfig, Chunk, second_offset, advanced, after_char, past_start, end_of, sentence_start,
  next_start, Split, before, pass, split_from, sentence_boundaries, split,
}

saturating_add-past : (a b : ℕ) → a < usize_max → 0 < b → a < saturating_add a b
unfolding saturating_add
saturating_add-past a b l p = ground arith

advanced-past :
    (start default : ℕ) (t : Option Text)
    → start < default
    → start < usize_max
    → start < advanced start default (second_offset t)
advanced-past start default none d l = d
advanced-past start default (some []) d l = d
advanced-past start default (some (c ∷ [])) d l = d
advanced-past start default (some (c ∷ x ∷ cs)) d l =
    saturating_add-past start (len_utf8 c) l (len_utf8_pos c)

pub after_char-past :
    (body : Text) (start default : ℕ)
    → start < default
    → start < usize_max
    → start < after_char body start default
unfolding after_char
after_char-past body start default d l = advanced-past start default (drop_bytes body start) d l

before-is_some : (c : Chunk) (s : Split) → is_some s ≡ true → is_some (before c s) ≡ true
before-is_some c none h = cc
before-is_some c (some (err e)) h = refl
before-is_some c (some (ok cs)) h = refl

module _ (config : ChunkConfig) (body : Text) (boundaries : List ℕ)
    (fits : byte_len body ≤ usize_max) where
  past_start-past :
      (start end : ℕ) → start < byte_len body → start < past_start config body boundaries start end
  past_start-past start end l = elim (Bool-cases (leb end start)) [
    | inl e ↦ rw e (after_char-past body start (byte_len body) l (omega arith))
    | inr e ↦ rw e (ground arith)
  ]

  -- A chunk is not empty, and the next one starts behind its start.
  pub end_of-past :
      (start previous_end : ℕ)
      → start < byte_len body
      → start < end_of config body boundaries start previous_end
  unfolding end_of
  end_of-past start previous_end l = past_start-past start _ l

  pub next_start-past :
      (start end : ℕ)
      → start < byte_len body
      → start < end
      → start < next_start config body boundaries start end
  unfolding next_start
  next_start-past start end l e =
      elim (Bool-cases (ltb start (sentence_start config body boundaries start end))) [
        | inl h ↦ rw h (ground arith)
        | inr h ↦ rw h (after_char-past body start end e (omega arith))
      ]

  pass-is_some :
      (count start end : ℕ) (rest : Split)
      → is_some rest ≡ true
      → is_some (pass config body boundaries count start end rest) ≡ true
  pass-is_some count start end rest h =
      elim (Bool-cases (ltb config.max_chunks_per_memory (count + 1))) [
        | inl e ↦ rw e refl
        | inr e ↦ elim (Bool-cases (end == byte_len body)) [
          | inl d ↦ rw (e, d) refl
          | inr d ↦ rw (e, d) (before-is_some _ rest h)
        ]
      ]

  pub split_from-is_some :
      (fuel count previous_end start : ℕ)
      → byte_len body - start < fuel
      → is_some (split_from config body boundaries fuel count previous_end start) ≡ true
  unfolding split_from
  split_from-is_some zero count previous_end start f = absurd (omega arith)
  split_from-is_some (suc fuel) count previous_end start f =
      elim (Bool-cases (ltb start (byte_len body))) [
        | inl l ↦
            let within : start < byte_len body = ground arith in
            let end = end_of config body boundaries start previous_end in
            let on = next_start-past start end within (end_of-past start previous_end within) in
            let rest =
              split_from-is_some fuel (count + 1) end (next_start config body boundaries start end)
                (omega arith) in
            rw l (pass-is_some count start end _ rest)
        | inr l ↦ rw l refl
      ]

-- For every configuration and every body that a `usize` can measure, the loop ends, whether with the
-- chunks or with the error that there are too many.
pub split_ends :
    (config : ChunkConfig) (body : Text)
    → byte_len body ≤ usize_max
    → is_some (split config body) ≡ true
unfolding split
split_ends config body fits = elim (Bool-cases (byte_len body == 0)) [
  | inl e ↦ rw e refl
  | inr e ↦ elim (Bool-cases (leb (byte_len body) config.threshold_bytes)) [
    | inl t ↦ rw (e, t) refl
    | inr t ↦
        rw (e, t)
          (split_from-is_some config body (sentence_boundaries body) fits (byte_len body + 1) 0 0 0
            (omega arith))
  ]
]
