-- ===== src/Prelude/Order.antt =====
-- The orders that Rust derives: lexicographic, field by field, with `None` below every `Some`.
use Prim.Native.Nat.{ℕ, suc, compare, Ordering}
use mathlib.Core.Path.{◌≡◌, refl}
use mathlib.Core.Bool.{Bool, true, false}
use mathlib.Core.Option.{Option, none, some}
use mathlib.Core.List.{List, [], ◌∷◌}
use native.Mathlib.Omega.{arith}

-- `Ordering::then_with`, the second comparison being read only where the first is equal.
abbrev pub then_with : Ordering → Ordering → Ordering
then_with Ordering.eq o = o
then_with Ordering.lt o = Ordering.lt
then_with Ordering.gt o = Ordering.gt

abbrev pub option_key : Option ℕ → ℕ
option_key none = 0
option_key (some n) = suc n

-- The comparison of two records whose fields are these numbers, in their order.
abbrev pub compare_keys : List ℕ → List ℕ → Ordering
compare_keys [] [] = Ordering.eq
compare_keys [] (y ∷ ys) = Ordering.lt
compare_keys (x ∷ xs) [] = Ordering.gt
compare_keys (x ∷ xs) (y ∷ ys) = then_with (compare x y) (compare_keys xs ys)

abbrev pub is_gt : Ordering → Bool
is_gt Ordering.gt = true
is_gt _ = false

abbrev pub is_lt : Ordering → Bool
is_lt Ordering.lt = true
is_lt _ = false

-- Nothing is above itself, and what is above is not below.
pub compare_keys_refl : (xs : List ℕ) → compare_keys xs xs ≡ Ordering.eq
compare_keys_refl [] = refl
compare_keys_refl (x ∷ xs) = ground (arith, compare_keys_refl xs)

pub compare_keys_asym : (xs ys : List ℕ) → is_gt (compare_keys xs ys) ≡ is_lt (compare_keys ys xs)
compare_keys_asym [] [] = refl
compare_keys_asym [] (y ∷ ys) = refl
compare_keys_asym (x ∷ xs) [] = refl
compare_keys_asym (x ∷ xs) (y ∷ ys) = ground (arith, compare_keys_asym xs ys)
