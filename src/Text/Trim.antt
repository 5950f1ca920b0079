-- ===== src/Text/Trim.antt =====
-- `str::trim_end`, `str::trim` and `str::split` of the standard library, and what trimming leaves.
use mathlib.Core.Path.{ap₂}
use aicortex.Prelude.{
  ◌≢◌, ap, sym, ◌∙◌, ==_iff, any, ◌++◌, arith, ℕ, ◌≡◌, refl, Bool, true, false, Option, none, some,
  List, [], ◌∷◌, ◌==◌, if◌then◌else◌, Bool-cases, inl, inr,
}
use aicortex.Text.{Text, is_whitespace}

-- Keeps a character if anything is left behind it, or if it is no whitespace itself.
abbrev keep_before : ℕ → Text → Text
keep_before c [] = if is_whitespace c then [] else c ∷ []
keep_before c (d ∷ ds) = c ∷ d ∷ ds

unfoldable pub trim_end : Text → Text
trim_end [] = []
trim_end (c ∷ cs) = keep_before c (trim_end cs)

unfoldable pub trim_start : Text → Text
trim_start [] = []
trim_start (c ∷ cs) = if is_whitespace c then trim_start cs else c ∷ cs

unfoldable pub trim : Text → Text
trim t = trim_end (trim_start t)

unfoldable pub is_empty : Text → Bool
is_empty [] = true
is_empty (c ∷ cs) = false

-- The last character of a text, if it has one.
abbrev pub last? : Text → Option ℕ
last? [] = none
last? (c ∷ []) = some c
last? (c ∷ d ∷ ds) = last? (d ∷ ds)

-- No whitespace stands at the end.
abbrev pub EndsClean : Option ℕ → Type 0
EndsClean none = Unit
EndsClean (some c) = is_whitespace c ≡ false

abbrev pub IsTrimmed : Text → Type 0
IsTrimmed t = EndsClean (last? t)

keep_before-IsTrimmed : (c : ℕ) (t : Text) → IsTrimmed t → IsTrimmed (keep_before c t)
keep_before-IsTrimmed c [] h = elim (Bool-cases (is_whitespace c)) [
  | inl e ↦ rw e tt
  | inr e ↦ rw e e
]
keep_before-IsTrimmed c (d ∷ ds) h = h

pub trim_end-IsTrimmed : (t : Text) → IsTrimmed (trim_end t)
unfolding trim_end
trim_end-IsTrimmed [] = tt
trim_end-IsTrimmed (c ∷ cs) = keep_before-IsTrimmed c (trim_end cs) (trim_end-IsTrimmed cs)

-- A text that ends in no whitespace is left alone.
keep_before-id : (c : ℕ) (t : Text) → IsTrimmed (c ∷ t) → keep_before c t ≡ c ∷ t
keep_before-id c [] h = rw h
keep_before-id c (d ∷ ds) h = refl

IsTrimmed-tail : (c : ℕ) (t : Text) → IsTrimmed (c ∷ t) → IsTrimmed t
IsTrimmed-tail c [] h = tt
IsTrimmed-tail c (d ∷ ds) h = h

pub trim_end-id : (t : Text) → IsTrimmed t → trim_end t ≡ t
unfolding trim_end
trim_end-id [] h = refl
trim_end-id (c ∷ cs) h = rw (trim_end-id cs (IsTrimmed-tail c cs h)) (keep_before-id c cs h)

-- `str::split` at a character: at least one part, none of which holds the separator.
abbrev push_part : ℕ → List Text → List Text
push_part c [] = (c ∷ []) ∷ []
push_part c (p ∷ ps) = (c ∷ p) ∷ ps

unfoldable pub split_on : ℕ → Text → List Text
split_on sep [] = [] ∷ []
split_on sep (c ∷ cs) = if c == sep then [] ∷ split_on sep cs else push_part c (split_on sep cs)

-- Splitting a text that does not hold the separator, and one whose first part does not.
pub split_on-whole : (sep : ℕ) (t : Text) → any (λ c. c == sep) t ≡ false → split_on sep t ≡ t ∷ []
unfolding split_on
split_on-whole sep [] h = refl
split_on-whole sep (c ∷ cs) h = ground (arith, split_on-whole sep cs)

pub split_on-append :
    (sep : ℕ) (t rest : Text)
    → any (λ c. c == sep) t ≡ false
    → split_on sep (t ++ sep ∷ rest) ≡ t ∷ split_on sep rest
unfolding split_on
split_on-append sep [] rest h = ground arith
split_on-append sep (c ∷ cs) rest h = ground (arith, split_on-append sep cs rest)

-- The parts with the separator between them.
unfoldable pub join_on : ℕ → List Text → Text
join_on sep [] = []
join_on sep (p ∷ []) = p
join_on sep (p ∷ q ∷ ps) = p ++ sep ∷ join_on sep (q ∷ ps)

join_on-push_part :
    (sep c : ℕ) (ps : List Text) → ps ≢ [] → join_on sep (push_part c ps) ≡ c ∷ join_on sep ps
unfolding join_on
join_on-push_part sep c [] h = absurd (h refl)
join_on-push_part sep c (p ∷ []) h = refl
join_on-push_part sep c (p ∷ q ∷ ps) h = refl

push_part-ne-nil : (c : ℕ) (ps : List Text) → push_part c ps ≢ []
push_part-ne-nil c [] = λ e. cc
push_part-ne-nil c (p ∷ ps) = λ e. cc

split_on-ne-nil : (sep : ℕ) (t : Text) → split_on sep t ≢ []
unfolding split_on
split_on-ne-nil sep [] = λ e. cc
split_on-ne-nil sep (c ∷ cs) = elim (Bool-cases (c == sep)) [
  | inl h ↦ rw h (λ e. cc)
  | inr h ↦ rw h (push_part-ne-nil c (split_on sep cs))
]

join_on-cons : (sep : ℕ) (ps : List Text) → ps ≢ [] → join_on sep ([] ∷ ps) ≡ sep ∷ join_on sep ps
unfolding join_on
join_on-cons sep [] h = absurd (h refl)
join_on-cons sep (p ∷ ps) h = refl

-- Splitting loses nothing.
pub join_on-split_on : (sep : ℕ) (t : Text) → join_on sep (split_on sep t) ≡ t
unfolding split_on
join_on-split_on sep [] = unfold join_on in refl
join_on-split_on sep (c ∷ cs) = elim (Bool-cases (c == sep)) [
  | inl h ↦ rw h (
      join_on-cons sep (split_on sep cs) (split_on-ne-nil sep cs)
      ∙ ap₂ (λ (a : ℕ) (r : Text). a ∷ r) (sym ((==_iff c sep).0 h)) (join_on-split_on sep cs))
  | inr h ↦ rw h (
      join_on-push_part sep c (split_on sep cs) (split_on-ne-nil sep cs)
      ∙ ap (λ (r : Text). c ∷ r) (join_on-split_on sep cs))
]
