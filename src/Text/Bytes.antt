-- ===== src/Text/Bytes.antt =====
-- `str::get` with a range of bytes, `str::is_char_boundary` and `usize::saturating_add`.
use aicortex.Prelude.{
  ℕ, ◌+◌, ◌-◌, ◌≤◌, ◌<◌, ◌≡◌, refl, sym, ap, ◌∙◌, Bool, true, false, Option, none, some, [], ◌∷◌,
  arith, ltb, ◌==◌, if◌then◌else◌, is_some, Bool-cases, Option-cases, ◌⊎◌, inl, inr, some-injective,
}
use mathlib.Core.Path.{subst}
use aicortex.Text.{Text, len_utf8, len_utf8_pos, byte_len}

abbrev pub usize_max : ℕ
usize_max = 0xffffffffffffffff

unfoldable pub saturating_add : ℕ → ℕ → ℕ
saturating_add a b = if ltb usize_max (a + b) then usize_max else a + b

-- `get(n..)`: nothing unless `n` is at a character's first byte, or at the end.
unfoldable pub drop_bytes : Text → ℕ → Option Text
drop_bytes [] n = if n == 0 then some [] else none
drop_bytes (c ∷ cs) n =
    let rest = drop_bytes cs (n - len_utf8 c) in
    if n == 0 then some (c ∷ cs) else if ltb n (len_utf8 c) then none else rest

abbrev pub is_char_boundary : Text → ℕ → Bool
is_char_boundary t n = is_some (drop_bytes t n)

-- `get(..n)`.
abbrev kept : ℕ → Option Text → Option Text
kept c none = none
kept c (some t) = some (c ∷ t)

unfoldable pub take_bytes : Text → ℕ → Option Text
take_bytes [] n = if n == 0 then some [] else none
take_bytes (c ∷ cs) n =
    let rest = take_bytes cs (n - len_utf8 c) in
    if n == 0 then some [] else if ltb n (len_utf8 c) then none else kept c rest

abbrev pub first_bytes : Option Text → ℕ → Option Text
first_bytes none n = none
first_bytes (some t) n = take_bytes t n

-- `get(start..end)`, for `start` up to `end`.
unfoldable pub slice : Text → ℕ → ℕ → Option Text
unfolding drop_bytes take_bytes
slice t start end = first_bytes (drop_bytes t start) (end - start)

pub boundary-start : (t : Text) → is_char_boundary t 0 ≡ true
unfolding drop_bytes
boundary-start [] = refl
boundary-start (c ∷ cs) = refl

drop_bytes-zero : (t : Text) → drop_bytes t 0 ≡ some t
unfolding drop_bytes
drop_bytes-zero [] = refl
drop_bytes-zero (c ∷ cs) = refl

-- Past a whole character, and within one.
drop_bytes-far :
    (c : ℕ) (cs : Text) (n : ℕ)
    → len_utf8 c ≤ n
    → drop_bytes (c ∷ cs) n ≡ drop_bytes cs (n - len_utf8 c)
unfolding drop_bytes
drop_bytes-far c cs n h =
    let pos = len_utf8_pos c in
    let some_bytes : (n == 0) ≡ false = ground arith in
    let far : ltb n (len_utf8 c) ≡ false = ground arith in rw (some_bytes, far) refl

drop_bytes-near :
    (c : ℕ) (cs : Text) (n : ℕ) → 0 < n → n < len_utf8 c → drop_bytes (c ∷ cs) n ≡ none
unfolding drop_bytes
drop_bytes-near c cs n pos h =
    let some_bytes : (n == 0) ≡ false = ground arith in
    let near : ltb n (len_utf8 c) ≡ true = ground arith in rw (some_bytes, near) refl

-- Where the position is, against the first character.
where_at : (c n : ℕ) → (n ≡ 0) ⊎ ((0 < n) × (n < len_utf8 c)) ⊎ (len_utf8 c ≤ n)
where_at c n = elim (Bool-cases (n == 0)) [
  | inl z ↦ inl (ground arith)
  | inr z ↦ elim (Bool-cases (ltb n (len_utf8 c))) [
    | inl l ↦ inr (inl (ground arith, ground arith))
    | inr l ↦ inr (inr (ground arith))
  ]
]

pub boundary-end : (t : Text) → is_char_boundary t (byte_len t) ≡ true
unfolding byte_len
boundary-end [] = boundary-start []
boundary-end (c ∷ cs) =
    ap is_some (drop_bytes-far c cs (len_utf8 c + byte_len cs) (omega arith))
    ∙ ap (is_char_boundary cs) (omega arith)
    ∙ boundary-end cs

-- A boundary after the first character is one of the rest.
boundary-rest :
    (c : ℕ) (cs : Text) (n : ℕ)
    → is_char_boundary (c ∷ cs) n ≡ true
    → 0 < n
    → (len_utf8 c ≤ n) × (is_char_boundary cs (n - len_utf8 c) ≡ true)
boundary-rest c cs n b pos = elim (where_at c n) [
  | inl z ↦ absurd (omega arith)
  | inr (inl (p, near)) ↦
      let h : false ≡ true = sym (ap is_some (drop_bytes-near c cs n p near)) ∙ b in cc
  | inr (inr far) ↦ (far, sym (ap is_some (drop_bytes-far c cs n far)) ∙ b)
]

pub boundary-le : (t : Text) (n : ℕ) → is_char_boundary t n ≡ true → n ≤ byte_len t
unfolding byte_len drop_bytes
boundary-le [] n b = ground arith
boundary-le (c ∷ cs) n b = elim (Bool-cases (n == 0)) [
  | inl z ↦ ground arith
  | inr z ↦
      let (far, later) = boundary-rest c cs n b (ground arith) in
      let rest = boundary-le cs (n - len_utf8 c) later in omega arith
]

drop_bytes-nil : (n c : ℕ) (rest : Text) → ¬ (drop_bytes [] n ≡ some (c ∷ rest))
unfolding drop_bytes
drop_bytes-nil n c rest e = elim (Bool-cases (n == 0)) [
  | inl z ↦ let h : some [] ≡ some (c ∷ rest) = rw z at e in cc
  | inr z ↦ let h : none ≡ some (c ∷ rest) = rw z at e in cc
]

abbrev first_code : ℕ → Text → ℕ
first_code default [] = default
first_code default (c ∷ cs) = c

-- A character stands at every boundary before the end, and the next boundary is not within it.
pub next_boundary :
    (t : Text) (start end : ℕ) (c : ℕ) (rest : Text)
    → drop_bytes t start ≡ some (c ∷ rest)
    → is_char_boundary t end ≡ true
    → start < end
    → start + len_utf8 c ≤ end
next_boundary [] start end c rest d b l = absurd (drop_bytes-nil start c rest d)
next_boundary (x ∷ xs) start end c rest d b l = elim (where_at x start) [
  | inl z ↦
      let whole : x ∷ xs ≡ c ∷ rest =
        some-injective (sym (drop_bytes-zero (x ∷ xs)) ∙ sym (ap (drop_bytes (x ∷ xs)) z) ∙ d) in
      let first : x ≡ c = ap (first_code x) whole in
      let (reach, later) = boundary-rest x xs end b (omega arith) in rw (sym first) (omega arith)
  | inr (inl (p, near)) ↦
      let h : none ≡ some (c ∷ rest) = sym (drop_bytes-near x xs start p near) ∙ d in cc
  | inr (inr far) ↦
      let (reach, later) = boundary-rest x xs end b (omega arith) in
      let rec =
        next_boundary xs (start - len_utf8 x) (end - len_utf8 x) c rest
          (sym (drop_bytes-far x xs start far) ∙ d) later (omega arith) in
      omega arith
]

byte_len-nil : byte_len [] ≡ 0
unfolding byte_len
byte_len-nil = refl

boundary-drop_zero :
    (t u : Text) (start end : ℕ)
    → start ≡ 0
    → drop_bytes t start ≡ some u
    → is_char_boundary t end ≡ true
    → is_char_boundary u (end - start) ≡ true
boundary-drop_zero t u start end z d b =
    let same : t ≡ u = some-injective (sym (drop_bytes-zero t) ∙ sym (ap (drop_bytes t) z) ∙ d) in
    let there : end - start ≡ end = omega arith in
    ap (is_char_boundary u) there ∙ subst (λ y. is_char_boundary y end ≡ true) same b

-- What stands behind a boundary keeps the boundaries after it.
boundary-drop :
    (t u : Text) (start end : ℕ)
    → drop_bytes t start ≡ some u
    → is_char_boundary t end ≡ true
    → start ≤ end
    → is_char_boundary u (end - start) ≡ true
boundary-drop [] u start end d b l = boundary-drop_zero [] u start end none_before d b
  where
    none_before : start ≡ 0
    none_before = let h = boundary-le [] start (ap is_some d) in omega (arith, h, byte_len-nil)
boundary-drop (x ∷ xs) u start end d b l = elim (where_at x start) [
  | inl z ↦ boundary-drop_zero (x ∷ xs) u start end z d b
  | inr (inl (p, near)) ↦ let h : none ≡ some u = sym (drop_bytes-near x xs start p near) ∙ d in cc
  | inr (inr far) ↦
      let pos = len_utf8_pos x in
      let (reach, later) = boundary-rest x xs end b (omega arith) in
      let same : end - start ≡ (end - len_utf8 x) - (start - len_utf8 x) = omega arith in
      ap (is_char_boundary u) same
      ∙ boundary-drop xs u (start - len_utf8 x) (end - len_utf8 x)
          (sym (drop_bytes-far x xs start far) ∙ d) later (omega arith)
]

is_some-kept : (c : ℕ) (o : Option Text) → is_some (kept c o) ≡ is_some o
is_some-kept c none = refl
is_some-kept c (some t) = refl

take_boundary : (t : Text) (n : ℕ) → is_char_boundary t n ≡ true → is_some (take_bytes t n) ≡ true
unfolding take_bytes drop_bytes
take_boundary [] n b = ground arith
take_boundary (c ∷ cs) n b = elim (Bool-cases (n == 0)) [
  | inl z ↦ rw z refl
  | inr z ↦
      let (far, later) = boundary-rest c cs n b (ground arith) in
      let reached : ltb n (len_utf8 c) ≡ false = ground arith in
      rw (z, reached)
        (is_some-kept c (take_bytes cs (n - len_utf8 c)) ∙ take_boundary cs (n - len_utf8 c) later)
]

-- Between two boundaries there is a text.
pub slice_boundaries :
    (t : Text) (start end : ℕ)
    → is_char_boundary t start ≡ true
    → is_char_boundary t end ≡ true
    → start ≤ end
    → is_some (slice t start end) ≡ true
unfolding slice
slice_boundaries t start end b e l = elim (Option-cases (drop_bytes t start)) [
  | inl n ↦ let h : false ≡ true = rw n at b in cc
  | inr (u, d) ↦ rw d (take_boundary u (end - start) (boundary-drop t u start end d e l))
]

-- A boundary of the rest is one of the whole.
pub boundary-cons :
    (c : ℕ) (cs : Text) (n : ℕ)
    → len_utf8 c ≤ n
    → is_char_boundary cs (n - len_utf8 c) ≡ true
    → is_char_boundary (c ∷ cs) n ≡ true
boundary-cons c cs n far b = ap is_some (drop_bytes-far c cs n far) ∙ b

pub saturating_add-fits : (a b : ℕ) → a + b ≤ usize_max → saturating_add a b ≡ a + b
unfolding saturating_add
saturating_add-fits a b h = ground arith

-- Behind the character at a boundary is a boundary.
pub after_first :
    (t : Text) (start c : ℕ) (rest : Text)
    → drop_bytes t start ≡ some (c ∷ rest)
    → is_char_boundary t (start + len_utf8 c) ≡ true
after_first [] start c rest d = absurd (drop_bytes-nil start c rest d)
after_first (x ∷ xs) start c rest d = elim (where_at x start) [
  | inl z ↦
      let whole : x ∷ xs ≡ c ∷ rest =
        some-injective (sym (drop_bytes-zero (x ∷ xs)) ∙ sym (ap (drop_bytes (x ∷ xs)) z) ∙ d) in
      let first : x ≡ c = ap (first_code x) whole in
      let there : len_utf8 x ≡ start + len_utf8 c = ap len_utf8 first ∙ omega arith in
      let none_left : (start + len_utf8 c) - len_utf8 x ≡ 0 = omega arith in
      boundary-cons x xs (start + len_utf8 c) (omega arith)
        (ap (is_char_boundary xs) none_left ∙ boundary-start xs)
  | inr (inl (p, near)) ↦
      let h : none ≡ some (c ∷ rest) = sym (drop_bytes-near x xs start p near) ∙ d in cc
  | inr (inr far) ↦
      let same : (start + len_utf8 c) - len_utf8 x ≡ (start - len_utf8 x) + len_utf8 c =
        omega arith in
      boundary-cons x xs (start + len_utf8 c) (omega arith) (
        ap (is_char_boundary xs) same
        ∙ after_first xs (start - len_utf8 x) c rest (sym (drop_bytes-far x xs start far) ∙ d))
]
