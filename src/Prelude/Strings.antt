-- ===== src/Prelude/Strings.antt =====
-- Equality and order of strings: keys, labels and ids are compared, never taken apart.
use Prim.Native.Nat.{Ordering}
use Prim.Native.String.{String, compare}
use mathlib.Core.Path.{◌≡◌}
use mathlib.Core.Logic.{inl, inr}
use mathlib.Core.Bool.{false}
use text.Mathlib.Text.{◌==◌}
use text.Mathlib.TextEquality.{eq_iff, path_by_compare}
use native.Mathlib.Omega.{arith}
use aicortex.Prelude.Tests.{Bool-cases}

pub eq-false-ne : (s t : String) → (s == t) ≡ false → ¬ (s ≡ t)
eq-false-ne s t e p = ground (arith, eq_iff s t)

unfoldable pub string_discrete : Discrete String
unfolding Bool-cases
string_discrete s t = elim (Bool-cases (s == t)) [
  | inl e ↦ yes ((eq_iff s t).0 e)
  | inr e ↦ no (eq-false-ne s t e)
]

-- `str::cmp`, which orders by bytes.
abbrev pub compare_string : String → String → Ordering
compare_string = compare

pub compare_string-eq : (s t : String) → compare_string s t ≡ Ordering.eq → s ≡ t
compare_string-eq s t h = path_by_compare s t h
