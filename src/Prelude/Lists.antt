-- ===== src/Prelude/Lists.antt =====
-- Lists measured by native numbers, under the library's names, and predicates on them.
use Prim.Native.Nat.{ℕ, suc, ◌+◌}
use mathlib.Core.Path.{◌≡◌, refl, sym, ap, ◌∙◌, subst}
use mathlib.Core.Logic.{◌⊎◌, inl, inr}
use mathlib.Core.Bool.{Bool, true, false, ◌&&◌, ◌||◌}
use mathlib.Core.Option.{Option, none, some}
use mathlib.Core.List.{List, [], ◌∷◌, ◌++◌, map}
use native.Mathlib.Omega.{arith}
use aicortex.Prelude.Tests.{if◌then◌else◌, Bool-cases, Option-cases}

module _ {ℓ} {A : Type ℓ} where
  abbrev pub length : List A → ℕ
  length [] = 0
  length (x ∷ xs) = suc (length xs)

  pub length-append : (xs ys : List A) → length (xs ++ ys) ≡ length xs + length ys
  length-append [] ys = omega arith
  length-append (x ∷ xs) ys = omega (arith, length-append xs ys)

-- Membership and a predicate on every element, by recursion, so that they compute to tuples.
abbrev pub All {ℓ κ} : {A : Type ℓ} → (A → Type κ) → List A → Type κ
All holds [] = Unit
All holds (y ∷ ys) = holds y × All holds ys

-- The empty type at every level.
pub data None {ℓ} : Type ℓ where

abbrev pub In {ℓ} : {A : Type ℓ} → A → List A → Type ℓ
In a [] = None
In a (x ∷ xs) = (a ≡ x) ⊎ In a xs

-- The tests of `Iterator::any`, `all` and `filter`, which run where they are unfolded.
module _ {ℓ} {A : Type ℓ} where
  abbrev pub any : (A → Bool) → List A → Bool
  any p [] = false
  any p (x ∷ xs) = p x || any p xs

  abbrev pub all : (A → Bool) → List A → Bool
  all p [] = true
  all p (x ∷ xs) = p x && all p xs

  abbrev pub retain : (A → Bool) → List A → List A
  retain p [] = []
  retain p (x ∷ xs) = if p x then x ∷ retain p xs else retain p xs

module _ {ℓ} {A : Type ℓ} where
  pub In-append_right : (xs ys : List A) (a : A) → In a (xs ++ a ∷ ys)
  In-append_right [] ys a = inl refl
  In-append_right (x ∷ xs) ys a = inr (In-append_right xs ys a)

  -- An element of a list with no hit is no hit, and likewise for one where all hit.
  pub any-false-In : (p : A → Bool) (xs : List A) (x : A) → any p xs ≡ false → In x xs → p x ≡ false
  any-false-In p [] x h i = elim i [ ]
  any-false-In p (y ∷ ys) x h (inl e) = rw e (ground arith)
  any-false-In p (y ∷ ys) x h (inr i) = any-false-In p ys x (ground arith) i

  pub all-true-In : (p : A → Bool) (xs : List A) (x : A) → all p xs ≡ true → In x xs → p x ≡ true
  all-true-In p [] x h i = elim i [ ]
  all-true-In p (y ∷ ys) x h (inl e) = rw e (ground arith)
  all-true-In p (y ∷ ys) x h (inr i) = all-true-In p ys x (ground arith) i

  -- What `retain` keeps is what passes the test.
  pub In-retain : (p : A → Bool) (xs : List A) (x : A) → In x xs → p x ≡ true → In x (retain p xs)
  In-retain p [] x i h = elim i [ ]
  In-retain p (y ∷ ys) x (inl e) h = rw (← e, h) (inl refl)
  In-retain p (y ∷ ys) x (inr i) h = elim (Bool-cases (p y)) [
    | inl k ↦ rw k (inr (In-retain p ys x i h))
    | inr k ↦ rw k (In-retain p ys x i h)
  ]

  pub retain-In : (p : A → Bool) (xs : List A) (x : A) → In x (retain p xs) → In x xs × (p x ≡ true)
  retain-In p [] x i = elim i [ ]
  retain-In p (y ∷ ys) x i = elim (Bool-cases (p y)) [
    | inl k ↦ kept k (rw k at i) (retain-In p ys x)
    | inr k ↦
        let j : In x (retain p ys) = rw k at i in
        (inr (retain-In p ys x j).0, (retain-In p ys x j).1)
  ]
    where
      kept :
          p y ≡ true
          → In x (y ∷ retain p ys)
          → (In x (retain p ys) → In x ys × (p x ≡ true))
          → In x (y ∷ ys) × (p x ≡ true)
      kept k (inl e) ih = (inl e, rw e k)
      kept k (inr j) ih = (inr (ih j).0, (ih j).1)

module _ {ℓ} {A : Type ℓ} where
  -- A predicate on every element, from and to one that takes a membership.
  pub All-of_In : (P : A → Type 0) (xs : List A) → ((x : A) → In x xs → P x) → All P xs
  All-of_In P [] h = tt
  All-of_In P (x ∷ xs) h = (h x (inl refl), All-of_In P xs (λ y i. h y (inr i)))

  pub All-In : (P : A → Type 0) (xs : List A) (x : A) → All P xs → In x xs → P x
  All-In P [] x h i = elim i [ ]
  All-In P (y ∷ ys) x h (inl e) = subst P (sym e) h.0
  All-In P (y ∷ ys) x h (inr i) = All-In P ys x h.1 i

  pub All-append : (P : A → Type 0) (xs : List A) (x : A) → All P xs → P x → All P (xs ++ x ∷ [])
  All-append P [] x h p = (p, tt)
  All-append P (y ∷ ys) x h p = (h.0, All-append P ys x h.1 p)

  pub All-retain : (P : A → Type 0) (p : A → Bool) (xs : List A) → All P xs → All P (retain p xs)
  All-retain P p [] h = tt
  All-retain P p (x ∷ xs) h = elim (Bool-cases (p x)) [
    | inl e ↦ rw e (h.0, All-retain P p xs h.1)
    | inr e ↦ rw e (All-retain P p xs h.1)
  ]

  pub All-map {κ} :
      {B : Type κ} (P : B → Type 0) (f : A → B) (xs : List A)
      → All (λ x. P (f x)) xs
      → All P (map f xs)
  All-map P f [] h = tt
  All-map P f (x ∷ xs) h = (h.0, All-map P f xs h.1)

  pub All-weaken : (P Q : A → Type 0) (xs : List A) → ((x : A) → P x → Q x) → All P xs → All Q xs
  All-weaken P Q [] f h = tt
  All-weaken P Q (x ∷ xs) f h = (f x h.0, All-weaken P Q xs f h.1)

module _ {ℓ κ} {A : Type ℓ} {B : Type κ} where
  abbrev pub filter_map : (A → Option B) → List A → List B
  filter_map f [] = []
  filter_map f (x ∷ xs) = elim (f x) [ none ↦ filter_map f xs | some y ↦ y ∷ filter_map f xs ]

  filter_map-none :
      (f : A → Option B) (x : A) (xs : List A)
      → f x ≡ none
      → filter_map f (x ∷ xs) ≡ filter_map f xs
  filter_map-none f x xs e = rw (e, filter_map) refl

  filter_map-some :
      (f : A → Option B) (x : A) (xs : List A) {y : B}
      → f x ≡ some y
      → filter_map f (x ∷ xs) ≡ y ∷ filter_map f xs
  filter_map-some f x xs e = rw (e, filter_map) refl

  -- What `filter_map` yields is what the function yields of some element.
  pub filter_map-In :
      (f : A → Option B) (xs : List A) (y : B)
      → In y (filter_map f xs)
      → (x : A) × In x xs × (f x ≡ some y)
  filter_map-In f [] y i = elim i [ ]
  filter_map-In f (x ∷ xs) y i = elim (Option-cases (f x)) [
    | inl e ↦
        let (z, j, k) = filter_map-In f xs y (subst (In y) (filter_map-none f x xs e) i) in
        (z, inr j, k)
    | inr (b, e) ↦ here b e (subst (In y) (filter_map-some f x xs e) i) (filter_map-In f xs y)
  ]
    where
      here :
          (b : B)
          → f x ≡ some b
          → In y (b ∷ filter_map f xs)
          → (In y (filter_map f xs) → (z : A) × In z xs × (f z ≡ some y))
          → (z : A) × In z (x ∷ xs) × (f z ≡ some y)
      here b e (inl q) later = (x, inl refl, e ∙ ap some (sym q))
      here b e (inr j) later = let (z, k, l) = later j in (z, inr k, l)

  pub In-filter_map :
      (f : A → Option B) (xs : List A) (x : A) (y : B)
      → In x xs
      → f x ≡ some y
      → In y (filter_map f xs)
  In-filter_map f [] x y i h = elim i [ ]
  In-filter_map f (x ∷ xs) z y (inl e) h =
      subst (In y) (sym (filter_map-some f x xs (ap f (sym e) ∙ h))) (inl refl)
  In-filter_map f (x ∷ xs) z y (inr i) h = elim (Option-cases (f x)) [
    | inl e ↦ subst (In y) (sym (filter_map-none f x xs e)) (In-filter_map f xs z y i h)
    | inr (b, e) ↦ subst (In y) (sym (filter_map-some f x xs e)) (inr (In-filter_map f xs z y i h))
  ]

  pub filter_map-nil :
      (f : A → Option B) (xs : List A) → ((x : A) → In x xs → f x ≡ none) → filter_map f xs ≡ []
  filter_map-nil f [] h = refl
  filter_map-nil f (x ∷ xs) h =
      filter_map-none f x xs (h x (inl refl)) ∙ filter_map-nil f xs (λ y i. h y (inr i))

pub any-false_of :
    {A : Type 0} (p : A → Bool) (xs : List A) → ((x : A) → In x xs → p x ≡ false) → any p xs ≡ false
any-false_of p [] h = refl
any-false_of p (x ∷ xs) h = rw (h x (inl refl)) (any-false_of p xs (λ y i. h y (inr i)))
