-- ===== src/Embed/Chunk/Ceiling.antt =====
-- The ceiling on the chunks of one memory (crates/aicortex-embed/src/chunk.rs).
use aicortex.Prelude.{
  ℕ, zero, suc, ◌+◌, ◌≤◌, ◌≡◌, refl, none, some, List, [], ◌∷◌, ltb, leb, ◌==◌, ok, err,
  ok-injective, length, inl, inr, arith, Bool-cases, some-injective,
}
use mathlib.Core.Path.{subst}
use aicortex.Text.{Text, byte_len}
use aicortex.Embed.Chunk.{
  ChunkConfig, Chunk, too_many_chunks, validate, chunk, end_of, next_start, u32_ordinal, Split,
  before, pass, split_from, sentence_boundaries, split,
}

module _ (config : ChunkConfig) (body : Text) (boundaries : List ℕ) where
  before-length :
      (c : Chunk) (s : Split) (cs : List Chunk) (count : ℕ)
      → ((rest : List Chunk)
          → s ≡ some (ok rest)
          → count + 1 + length rest ≤ config.max_chunks_per_memory)
      → before c s ≡ some (ok cs)
      → count + length cs ≤ config.max_chunks_per_memory
  before-length c none cs count k h = cc
  before-length c (some (err e)) cs count k h = cc
  before-length c (some (ok rest)) cs count k h =
      let fits = k rest refl in
      subst (λ xs. count + length xs ≤ config.max_chunks_per_memory)
        (ok-injective (some-injective h)) (omega arith)

  pass-length :
      (count start end : ℕ) (later : Split) (cs : List Chunk)
      → ((rest : List Chunk)
          → later ≡ some (ok rest)
          → count + 1 ≤ config.max_chunks_per_memory
          → count + 1 + length rest ≤ config.max_chunks_per_memory)
      → pass config body boundaries count start end later ≡ some (ok cs)
      → count + length cs ≤ config.max_chunks_per_memory
  pass-length count start end later cs k h =
      elim (Bool-cases (ltb config.max_chunks_per_memory (count + 1))) [
        | inl e ↦
            let x : some (err (too_many_chunks config.max_chunks_per_memory)) ≡ some (ok cs) =
              rw e at h in
            cc
        | inr e ↦
            let room : count + 1 ≤ config.max_chunks_per_memory = ground arith in
            elim (Bool-cases (end == byte_len body)) [
              | inl d ↦
                  let x : some (ok (chunk body (u32_ordinal count) start end ∷ [])) ≡ some (ok cs) =
                    rw (e, d) at h in
                  subst (λ xs. count + length xs ≤ config.max_chunks_per_memory)
                    (ok-injective (some-injective x)) (omega arith)
              | inr d ↦ before-length _ later cs count (λ rest r. k rest r room) (rw (e, d) at h)
            ]
      ]

  split_from-length :
      (fuel count previous_end start : ℕ) (cs : List Chunk)
      → count ≤ config.max_chunks_per_memory
      → split_from config body boundaries fuel count previous_end start ≡ some (ok cs)
      → count + length cs ≤ config.max_chunks_per_memory
  unfolding split_from
  split_from-length zero count previous_end start cs c h = cc
  split_from-length (suc fuel) count previous_end start cs c h =
      elim (Bool-cases (ltb start (byte_len body))) [
        | inl l ↦
            let end = end_of config body boundaries start previous_end in
            pass-length count start end _ cs
              (λ rest r room.
                split_from-length fuel (count + 1) end (next_start config body boundaries start end)
                  rest room r)
              (rw l at h)
        | inr l ↦
            let x : some (ok []) ≡ some (ok cs) = rw l at h in
            subst (λ xs. count + length xs ≤ config.max_chunks_per_memory)
              (ok-injective (some-injective x)) (omega arith)
      ]

-- Under a configuration that was validated, a body is split into no more chunks than the ceiling.
pub split-length :
    (config valid : ChunkConfig) (body : Text) (cs : List Chunk)
    → validate config ≡ ok valid
    → split config body ≡ some (ok cs)
    → length cs ≤ config.max_chunks_per_memory
unfolding split validate
split-length config valid body cs v h = elim (Bool-cases (byte_len body == 0)) [
  | inl e ↦
      let x : some (ok []) ≡ some (ok cs) = rw (e, split) at h in
      subst (λ xs. length xs ≤ config.max_chunks_per_memory) (ok-injective (some-injective x))
        (omega arith)
  | inr e ↦ elim (Bool-cases (leb (byte_len body) config.threshold_bytes)) [
    | inl t ↦
        let x : some (ok (chunk body 0 0 (byte_len body) ∷ [])) ≡ some (ok cs) =
          rw (e, t, split) at h in
        subst (λ xs. length xs ≤ config.max_chunks_per_memory) (ok-injective (some-injective x))
          one_fits
    | inr t ↦
        let k =
          split_from-length config body (sentence_boundaries body) (byte_len body + 1) 0 0 0 cs
            (omega arith) (rw (e, t, split) at h) in
        omega arith
  ]
]
  where
    one_fits : 1 ≤ config.max_chunks_per_memory
    one_fits = ground arith
