-- ===== src/Prelude/Fallible.antt =====
-- Rust's `Result`, with the error type as a parameter, and its `?` operator as a bind.
use mathlib.Core.Path.{◌≡◌, refl, ap}
use mathlib.Core.Bool.{Bool, true, false}

pub data Result {ℓ} (E A : Type ℓ) : Type ℓ where
  err : (why : E) → Result E A
  ok : (got : A) → Result E A

module _ {ℓ} {E X Y : Type ℓ} where
  infixl 5 ◌>>=◌ ◌>>◌
  abbrev pub ◌>>=◌ : Result E X → (X → Result E Y) → Result E Y
  err why >>= next = err why
  ok got >>= next = next got

  abbrev pub ◌>>◌ : Result E X → Result E Y → Result E Y
  err why >> next = err why
  ok got >> next = next

  -- Where a chain ends well, so did its first part, and the rest from what that gave.
  pub >>=-eq-ok :
      (first : Result E X) (next : X → Result E Y) {end : Y}
      → (first >>= next) ≡ ok end
      → (got : X) × (first ≡ ok got) × (next got ≡ ok end)
  >>=-eq-ok (err why) next p = cc
  >>=-eq-ok (ok got) next p = (got, refl, p)

-- `if !fine { return Err(why); }`
abbrev pub ensure : {E : Type 0} → Bool → E → Result E (Unit {0})
ensure fine why = elim fine [ false ↦ err why | true ↦ ok tt ]

abbrev value_or {ℓ} : {E A : Type ℓ} → A → Result E A → A
value_or default (err why) = default
value_or default (ok got) = got

pub ok-injective {ℓ} : {E A : Type ℓ} {x y : A} → ◌≡◌ {A = Result E A} (ok x) (ok y) → x ≡ y
ok-injective {x = x} p = ap (value_or x) p
