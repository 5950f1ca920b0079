-- ===== src/Embed/Chunk/Boundaries.antt =====
-- Every offset that the chunker of crates/aicortex-embed/src/chunk.rs cuts at is at a character's first
-- byte, or at the end of the body.
use aicortex.Prelude.{
  ℕ, zero, suc, ◌+◌, ◌-◌, ◌≤◌, ◌<◌, ◌≡◌, refl, sym, ap, ◌∙◌, Bool, true, false, ◌&&◌, Option, none,
  some, List, [], ◌∷◌, ◌++◌, ltb, leb, ◌==◌, if◌then◌else◌, In, ◌⊎◌, inl, inr, arith, Bool-cases,
  Option-cases, some-injective,
}
use aicortex.Text.{Text, len_utf8, byte_len}
use aicortex.Text.Bytes.{
  usize_max, drop_bytes, is_char_boundary, boundary-start, boundary-end, boundary-le, next_boundary,
  boundary-cons, after_first, saturating_add-fits,
}
use aicortex.Embed.Chunk.{
  floor_from, utf8_floor, min, closes, opens, boundaries_from, last_is, insert, sort, dedup_after,
  dedup, closed_at, sentence_boundaries, rfind, second_offset, advanced, after_char,
}

floor_from-boundary : (t : Text) (n : ℕ) → is_char_boundary t (floor_from t n) ≡ true
unfolding floor_from
floor_from-boundary t zero = boundary-start t
floor_from-boundary t (suc n) = elim (Bool-cases (is_char_boundary t (suc n))) [
  | inl e ↦ rw e e
  | inr e ↦ rw e (floor_from-boundary t n)
]

floor_from-le : (t : Text) (n : ℕ) → floor_from t n ≤ n
unfolding floor_from
floor_from-le t zero = omega arith
floor_from-le t (suc n) = elim (Bool-cases (is_char_boundary t (suc n))) [
  | inl e ↦ rw e (omega arith)
  | inr e ↦ rw e (let h = floor_from-le t n in omega arith)
]

pub utf8_floor-boundary : (t : Text) (n : ℕ) → is_char_boundary t (utf8_floor t n) ≡ true
unfolding utf8_floor
utf8_floor-boundary t n = floor_from-boundary t (min n (byte_len t))

pub utf8_floor-le : (t : Text) (n : ℕ) → utf8_floor t n ≤ n
unfolding utf8_floor
utf8_floor-le t n =
    let h = floor_from-le t (min n (byte_len t)) in
    let m : min n (byte_len t) ≤ n = ground arith in omega arith

-- Sorting and removing repetitions add nothing.
In-insert : (x y : ℕ) (ys : List ℕ) → In x (insert y ys) → (x ≡ y) ⊎ In x ys
unfolding insert
In-insert x y [] i = i
In-insert x y (z ∷ zs) i = elim (Bool-cases (leb y z)) [
  | inl e ↦ rw e at i
  | inr e ↦ elim (rw (e, insert) at i) [
    | inl p ↦ inr (inl p)
    | inr j ↦ elim (In-insert x y zs j) [ inl p ↦ inl p | inr k ↦ inr (inr k) ]
  ]
]

In-sort : (x : ℕ) (xs : List ℕ) → In x (sort xs) → In x xs
unfolding sort
In-sort x [] i = i
In-sort x (y ∷ ys) i = elim (In-insert x y (sort ys) i) [
  | inl p ↦ inl p
  | inr j ↦ inr (In-sort x ys j)
]

In-dedup_after : (x y : ℕ) (ys : List ℕ) → In x (dedup_after y ys) → In x ys
unfolding dedup_after
In-dedup_after x y [] i = i
In-dedup_after x y (z ∷ zs) i = elim (Bool-cases (y == z)) [
  | inl e ↦ inr (In-dedup_after x z zs (rw (e, dedup_after) at i))
  | inr e ↦ elim (rw (e, dedup_after) at i) [
    | inl p ↦ inl p
    | inr j ↦ inr (In-dedup_after x z zs j)
  ]
]

In-dedup : (x : ℕ) (xs : List ℕ) → In x (dedup xs) → In x xs
unfolding dedup
In-dedup x [] i = i
In-dedup x (y ∷ ys) (inl p) = inl p
In-dedup x (y ∷ ys) (inr i) = inr (In-dedup_after x y ys i)

-- Each offset of the scan is a boundary of the text that is scanned.
boundaries_from-boundary :
    (offset b : ℕ) (open_end : Bool) (cs : Text)
    → offset + byte_len cs ≤ usize_max
    → In b (boundaries_from offset open_end cs)
    → (offset ≤ b) × (is_char_boundary cs (b - offset) ≡ true)
unfolding boundaries_from byte_len
boundaries_from-boundary offset b open_end [] fits i = elim i [ ]
boundaries_from-boundary offset b open_end (c ∷ cs) fits i = elim (Bool-cases (closes open_end c)) [
  | inl e ↦ elim (rw (e, boundaries_from) at i) [
    | inl p ↦ here (p ∙ saturating_add-fits offset (len_utf8 c) (omega arith))
    | inr j ↦
        later
          (boundaries_from-boundary (offset + len_utf8 c) b (opens open_end c) cs (omega arith) j)
  ]
  | inr e ↦ later (
      boundaries_from-boundary (offset + len_utf8 c) b (opens open_end c) cs (omega arith)
        (rw (e, boundaries_from) at i))
]
  where
    here : b ≡ offset + len_utf8 c → (offset ≤ b) × (is_char_boundary (c ∷ cs) (b - offset) ≡ true)
    here p =
        let zero_left : (b - offset) - len_utf8 c ≡ 0 = omega arith in
        (
          omega arith,
          boundary-cons c cs (b - offset) (omega arith)
              (ap (is_char_boundary cs) zero_left ∙ boundary-start cs),
        )

    later :
        (offset + len_utf8 c ≤ b) × (is_char_boundary cs (b - (offset + len_utf8 c)) ≡ true)
        → (offset ≤ b) × (is_char_boundary (c ∷ cs) (b - offset) ≡ true)
    later (l, k) =
        let same : (b - offset) - len_utf8 c ≡ b - (offset + len_utf8 c) = omega arith in
        (
          omega arith,
          boundary-cons c cs (b - offset) (omega arith) (ap (is_char_boundary cs) same ∙ k),
        )

In-append_last : (x y : ℕ) (xs : List ℕ) → In x (xs ++ y ∷ []) → In x xs ⊎ (x ≡ y)
In-append_last x y [] (inl p) = inr p
In-append_last x y [] (inr i) = elim i [ ]
In-append_last x y (z ∷ zs) (inl p) = inl (inl p)
In-append_last x y (z ∷ zs) (inr i) = elim (In-append_last x y zs i) [
  | inl j ↦ inl (inr j)
  | inr p ↦ inr p
]

In-closed_at : (x len : ℕ) (xs : List ℕ) → In x (closed_at len xs) → In x xs ⊎ (x ≡ len)
In-closed_at x len xs i = elim (Bool-cases (last_is len xs)) [
  | inl e ↦ inl (rw e at i)
  | inr e ↦ In-append_last x len xs (rw e at i)
]

pub sentence_boundaries-boundary :
    (t : Text) (b : ℕ)
    → byte_len t ≤ usize_max
    → In b (sentence_boundaries t)
    → is_char_boundary t b ≡ true
unfolding sentence_boundaries
sentence_boundaries-boundary t b fits i = elim (collected i) [
  | inl (inl p) ↦ ap (is_char_boundary t) p ∙ boundary-start t
  | inl (inr j) ↦
      let same : b - 0 ≡ b = omega arith in
      sym (ap (is_char_boundary t) same) ∙ (boundaries_from-boundary 0 b false t (omega arith) j).1
  | inr p ↦ ap (is_char_boundary t) p ∙ boundary-end t
]
  where
    collected :
        In b (sentence_boundaries t) → In b (0 ∷ boundaries_from 0 false t) ⊎ (b ≡ byte_len t)
    collected j =
        In-closed_at b (byte_len t) (0 ∷ boundaries_from 0 false t) (In-sort b _ (In-dedup b _ j))

-- What `rfind` gives is one of the boundaries, behind `start` and up to `most`.
pub rfind-In :
    (start most b : ℕ) (bs : List ℕ)
    → rfind start most bs ≡ some b
    → In b bs × (start < b) × (b ≤ most)
unfolding rfind
rfind-In start most b [] e = cc
rfind-In start most b (x ∷ bs) e = elim (Option-cases (rfind start most bs)) [
  | inr (y, h) ↦
      let (i, l, m) = rfind-In start most b bs (h ∙ (rw (h, rfind) at e)) in (inr i, l, m)
  | inl h ↦
      let e' : (if ltb start x && leb x most then some x else none) ≡ some b = rw (h, rfind) at e in
      elim (Bool-cases (ltb start x && leb x most)) [
        | inl k ↦
            let p : x ≡ b = some-injective (rw k at e') in (inl (sym p), ground arith, ground arith)
        | inr k ↦ let n : none ≡ some b = rw k at e' in cc
      ]
]

-- Moving on by one character keeps to the boundaries, and stays before the next one.
pub after_char-boundary :
    (body : Text) (start default : ℕ)
    → byte_len body ≤ usize_max
    → is_char_boundary body start ≡ true
    → is_char_boundary body default ≡ true
    → start < default
    → (is_char_boundary body (after_char body start default) ≡ true)
      × (after_char body start default ≤ default)
unfolding after_char
after_char-boundary body start default fits s d l = by_tail (drop_bytes body start) refl
  where
    by_tail :
        (o : Option Text)
        → drop_bytes body start ≡ o
        → (is_char_boundary body (advanced start default (second_offset o)) ≡ true)
          × (advanced start default (second_offset o) ≤ default)
    by_tail none e = (d, omega arith)
    by_tail (some []) e = (d, omega arith)
    by_tail (some (c ∷ [])) e = (d, omega arith)
    by_tail (some (c ∷ x ∷ cs)) e =
        let near = next_boundary body start default c (x ∷ cs) e d l in
        let most = boundary-le body default d in
        let sum = saturating_add-fits start (len_utf8 c) (omega arith) in
        (ap (is_char_boundary body) sum ∙ after_first body start c (x ∷ cs) e, omega arith)
