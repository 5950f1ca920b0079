-- ===== src/Claims/Registry/Latest.antt =====
-- What the lookups of the registry of crates/aicortex-claims/src/registry.rs find.
use mathlib.Core.Path.{subst}
use aicortex.Prelude.{
  ℕ, ◌≤◌, ◌≡◌, refl, sym, ap, ◌&&◌, inl, inr, Option, none, some, [], ◌∷◌, arith, ltb, ◌==◌, In,
  None, Bool-cases, some-injective,
}
use Prim.Native.String.{String}
use package.text.Mathlib.Text.{◌==◌ as str_eq}
use text.Mathlib.TextEquality.{eq_iff}
use aicortex.Types.Predicate.{PredicateSet}
use aicortex.Claims.Registry.{Snapshot, set_at, higher, latest}

pub absurd_none : {A : Type 0} → None {0} → A
absurd_none x = elim x [ ]

pub set_at-none :
    (sets : Snapshot) (namespace : String) (version : ℕ) (a : PredicateSet)
    → set_at sets namespace version ≡ none
    → In a sets
    → a.namespace ≡ namespace
    → a.version ≡ version
    → None {0}
unfolding set_at
set_at-none [] ns v a h i e f = elim i [ ]
set_at-none (s ∷ sets) ns v a h (inl p) e f = absurd (
    ground (
      arith,
      eq_iff s.namespace ns,
      ap (λ (x : PredicateSet). x.namespace) p,
      ap (λ (x : PredicateSet). x.version) p,
    ))
set_at-none (s ∷ sets) ns v a h (inr i) e f =
    elim (Bool-cases (str_eq s.namespace ns && s.version == v)) [
      | inl b ↦ let h' = rw (b, set_at) at h in cc
      | inr b ↦ set_at-none sets ns v a (rw (b, set_at) at h) i e f
    ]

pub latest-none :
    (sets : Snapshot) (namespace : String) (a : PredicateSet)
    → latest sets namespace ≡ none
    → In a sets
    → a.namespace ≡ namespace
    → None {0}
unfolding latest
latest-none [] ns a h i e = elim i [ ]
latest-none (s ∷ sets) ns a h (inl p) e =
    absurd (ground (arith, eq_iff s.namespace ns, ap (λ (x : PredicateSet). x.namespace) p))
latest-none (s ∷ sets) ns a h (inr i) e = elim (Bool-cases (str_eq s.namespace ns)) [
  | inl b ↦ let h' = rw (b, latest) at h in cc
  | inr b ↦ latest-none sets ns a (rw (b, latest) at h) i e
]

-- The latest of a namespace is registered, and none of its namespace is of a higher version.
abbrev pub IsLatest : Snapshot → String → PredicateSet → Type 0
IsLatest sets ns l =
    In l sets
    × (l.namespace ≡ ns)
    × ((a : PredicateSet) → In a sets → a.namespace ≡ ns → a.version ≤ l.version)

pub latest-IsLatest :
    (sets : Snapshot) (ns : String) (l : PredicateSet)
    → latest sets ns ≡ some l
    → IsLatest sets ns l
unfolding latest
latest-IsLatest [] ns l h = cc
latest-IsLatest (s ∷ sets) ns l h = elim (Bool-cases (str_eq s.namespace ns)) [
  | inr b ↦
      let (i, e, most) = latest-IsLatest sets ns l (rw (b, latest) at h) in
      (
        inr i,
        e,
        λ a j q. elim j [
          | inl p ↦
              absurd
                (ground (arith, eq_iff s.namespace ns, ap (λ (x : PredicateSet). x.namespace) p))
          | inr k ↦ most a k q
        ],
      )
  | inl b ↦
      own ((eq_iff s.namespace ns).0 b) (latest sets ns) refl (rw (b, latest) at h)
        (latest-IsLatest sets ns)
]
  where
    version_of : PredicateSet → ℕ
    version_of x = x.version

    is_higher :
        (top : PredicateSet)
        → s.version ≤ top.version
        → ((a : PredicateSet) → In a sets → a.namespace ≡ ns → a.version ≤ top.version)
        → (a : PredicateSet) → In a (s ∷ sets)
        → a.namespace ≡ ns
        → a.version ≤ top.version
    is_higher top m most a (inl p) q = rw p m
    is_higher top m most a (inr k) q = most a k q

    own :
        s.namespace ≡ ns
        → (o : Option PredicateSet) → latest sets ns ≡ o
        → some (higher s o) ≡ some l
        → ((t : PredicateSet) → latest sets ns ≡ some t → IsLatest sets ns t)
        → IsLatest (s ∷ sets) ns l
    own e none o h' ih = subst (IsLatest (s ∷ sets) ns) (some-injective h') (
      inl refl,
      e,
      is_higher s (omega arith) (λ a i q. absurd_none (latest-none sets ns a o i q)),
    )
    own e (some t) o h' ih =
        let (i, f, most) = ih t o in
        subst (IsLatest (s ∷ sets) ns) (some-injective h')
          (elim (Bool-cases (ltb s.version t.version)) [
            | inl lt ↦
                let top : higher s (some t) ≡ t = rw lt refl in
                subst (IsLatest (s ∷ sets) ns) (sym top) (inr i, f, is_higher t (ground arith) most)
            | inr ge ↦
                let top : higher s (some t) ≡ s = rw ge refl in
                subst (IsLatest (s ∷ sets) ns) (sym top)
                  (inl refl, e, is_higher s (omega arith) (λ a j q. ground (arith, most a j q)))
          ])
