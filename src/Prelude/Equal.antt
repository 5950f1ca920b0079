-- ===== src/Prelude/Equal.antt =====
-- Derived equality as a test, and the collections that are searched by it.
use mathlib.Core.Path.{◌≡◌, refl, sym}
use mathlib.Core.Logic.{inl, inr}
use mathlib.Core.Bool.{Bool, true, false, not, ◌&&◌}
use mathlib.Core.List.{List, [], ◌∷◌}
use native.Mathlib.Omega.{arith}
use aicortex.Prelude.Tests.{Bool-cases}
use aicortex.Prelude.Lists.{any, all, In}

module _ {A : Type 0} (eq : Discrete A) where
  -- `==` of a derived `PartialEq`.
  abbrev pub same : A → A → Bool
  same x y = elim (eq x y) [ yes p ↦ true | no n ↦ false ]

  pub same-eq : (x y : A) → same x y ≡ true → x ≡ y
  same-eq x y h = by_cases (eq x y) h
    where
      by_cases :
          (d : Dec (x ≡ y)) → ◌≡◌ {A = Bool} (elim d [ yes p ↦ true | no n ↦ false ]) true → x ≡ y
      by_cases (yes p) h = p
      by_cases (no n) h = cc

  pub same_refl : (x : A) → same x x ≡ true
  same_refl x = by_cases (eq x x)
    where
      by_cases : (d : Dec (x ≡ x)) → ◌≡◌ {A = Bool} (elim d [ yes p ↦ true | no n ↦ false ]) true
      by_cases (yes p) = refl
      by_cases (no n) = absurd (n refl)

  -- `slice::contains`.
  abbrev pub has : List A → A → Bool
  has xs x = any (λ y. same y x) xs

  pub has-In : (xs : List A) (x : A) → has xs x ≡ true → In x xs
  has-In [] x h = cc
  has-In (y ∷ ys) x h = elim (Bool-cases (same y x)) [
    | inl e ↦ inl (sym (same-eq y x e))
    | inr e ↦ inr (has-In ys x (ground arith))
  ]

  pub In-has : (xs : List A) (x : A) → In x xs → has xs x ≡ true
  In-has [] x i = elim i [ ]
  In-has (y ∷ ys) x (inl e) = rw (e, same_refl y) refl
  In-has (y ∷ ys) x (inr i) = ground (arith, In-has ys x i)

  -- No entry twice: what inserting one by one into a set finds.
  abbrev pub no_repeat : List A → Bool
  no_repeat [] = true
  no_repeat (x ∷ xs) = not (has xs x) && no_repeat xs

  -- Every element of one list is in the other.
  abbrev pub keeps : List A → List A → Bool
  keeps was is = all (has is) was
