-- ===== src/Claims/Registry/Invariant.antt =====
-- The invariant of the registry of crates/aicortex-claims/src/registry.rs.
use mathlib.Core.Path.{subst}
use aicortex.Prelude.{
  ◌≤◌, ◌<◌, ◌≡◌, ◌≢◌, refl, sym, ap, ◌∙◌, inl, inr, Option, none, some, List, [], ◌∷◌, arith, ltb,
  ◌==◌, In, None, Bool-cases, Option-cases, Result, ok, err, ◌>>◌, >>=-eq-ok, ok-injective,
}
use aicortex.Prelude.Equal.{same}
use package.text.Mathlib.Text.{◌==◌ as str_eq}
use text.Mathlib.TextEquality.{eq_iff}
use aicortex.Types.Predicate.{PredicateSet}
use aicortex.Claims.Registry.{
  Admission, RegistryError, Snapshot, PredicateSet-discrete, reserved, set_at, latest, successor,
  follows, check, insert_if_new, admit, admit_all, from_sets, order_sets,
}
use aicortex.Claims.Registry.Keeps.{Keeps, successor-Keeps, Keeps-trans}
use aicortex.Claims.Registry.Latest.{absurd_none, set_at-none, latest-none, latest-IsLatest}

-- One document for a namespace and a version, none in the reserved namespace, and a later version
-- keeps all that an earlier one of its namespace says.
pub record IsRegistry (sets : Snapshot) : Type 0 where
  pub one_each :
      (a b : PredicateSet)
      → In a sets
      → In b sets
      → a.namespace ≡ b.namespace
      → a.version ≡ b.version
      → a ≡ b
  pub keeps :
      (a b : PredicateSet)
      → In a sets
      → In b sets
      → a.namespace ≡ b.namespace
      → a.version < b.version
      → Keeps a b
  pub none_reserved : (a : PredicateSet) → In a sets → a.namespace ≢ reserved

first_ok :
    (r : Result RegistryError (Unit {0})) → (r >> ok Admission.new) ≡ ok Admission.new → r ≡ ok tt
first_ok (ok u) h = refl
first_ok (err e) h = cc

-- What is registered when a document is checked as new.
pub record Fresh (sets : Snapshot) (set : PredicateSet) : Type 0 where
  not_reserved : set.namespace ≢ reserved
  pub not_there : set_at sets set.namespace set.version ≡ none
  after :
      (l : PredicateSet)
      → latest sets set.namespace ≡ some l
      → (l.version ≤ set.version) × Keeps l set

pub check-Fresh :
    (sets : Snapshot) (set : PredicateSet) → check sets set ≡ ok Admission.new → Fresh sets set
unfolding check
check-Fresh sets set h = elim (Bool-cases (str_eq set.namespace reserved)) [
  | inl b ↦ let h' = rw (b, check) at h in cc
  | inr b ↦ elim (Option-cases (set_at sets set.namespace set.version)) [
    | inr (t, e) ↦ elim (Bool-cases (same PredicateSet-discrete t set)) [
      | inl u ↦ let h' = rw (b, check, e, u) at h in cc
      | inr u ↦ let h' = rw (b, check, e, u) at h in cc
    ]
    | inl e ↦ record {
      not_reserved = ground (arith, eq_iff set.namespace reserved);
      not_there = e;
      after = λ l f. follows_latest l (rw (b, check, e, f) at h);
    }
  ]
]
  where
    follows_latest :
        (l : PredicateSet)
        → follows (some l) set ≡ ok Admission.new
        → (l.version ≤ set.version) × Keeps l set
    follows_latest l g = elim (Bool-cases (ltb set.version l.version)) [
      | inl b ↦ let g' = rw b at g in cc
      | inr b ↦ (ground arith, successor-Keeps l set (first_ok (successor l set) (rw b at g)))
    ]

-- A document that is new goes into a registry, and the registry stays well formed.
insert-IsRegistry :
    (sets : Snapshot) (set : PredicateSet)
    → IsRegistry sets
    → Fresh sets set
    → IsRegistry (set ∷ sets)
insert-IsRegistry sets set v fresh = record {
  one_each = one;
  keeps = kept;
  none_reserved = λ a i. elim i [
    | inl p ↦ (λ e. fresh.not_reserved (ap (λ (x : PredicateSet). x.namespace) (sym p) ∙ e))
    | inr j ↦ v.none_reserved a j
  ];
}
  where
    apart :
        (a : PredicateSet)
        → In a sets
        → a.namespace ≡ set.namespace
        → a.version ≡ set.version
        → None {0}
    apart a i e f = set_at-none sets set.namespace set.version a fresh.not_there i e f

    one :
        (a b : PredicateSet)
        → In a (set ∷ sets)
        → In b (set ∷ sets)
        → a.namespace ≡ b.namespace
        → a.version ≡ b.version
        → a ≡ b
    one a b (inl p) (inl q) e f = p ∙ sym q
    one a b (inl p) (inr j) e f = absurd_none (
        apart b j (sym e ∙ ap (λ (x : PredicateSet). x.namespace) p)
          (sym f ∙ ap (λ (x : PredicateSet). x.version) p))
    one a b (inr i) (inl q) e f = absurd_none (
        apart a i (e ∙ ap (λ (x : PredicateSet). x.namespace) q)
          (f ∙ ap (λ (x : PredicateSet). x.version) q))
    one a b (inr i) (inr j) e f = v.one_each a b i j e f

    -- Through the latest, which is the document itself or a later one.
    up_to :
        (a : PredicateSet)
        → In a sets
        → a.namespace ≡ set.namespace
        → (o : Option PredicateSet) → latest sets set.namespace ≡ o
        → Keeps a set
    up_to a i e none o = absurd_none (latest-none sets set.namespace a o i e)
    up_to a i e (some l) o =
        let (j, f, most) = latest-IsLatest sets set.namespace l o in
        let (le, k) = fresh.after l o in
        elim (Bool-cases (a.version == l.version)) [
          | inl equal ↦ rw (v.one_each a l i j (e ∙ sym f) (ground arith)) k
          | inr other ↦
              Keeps-trans a l set (v.keeps a l i j (e ∙ sym f) (ground (arith, most a i e))) k
        ]

    above :
        (b : PredicateSet)
        → In b sets
        → b.namespace ≡ set.namespace
        → (o : Option PredicateSet) → latest sets set.namespace ≡ o
        → set.version < b.version
        → ⊥
    above b j e none o f = absurd_none (latest-none sets set.namespace b o j e)
    above b j e (some l) o f =
        let (i, g, most) = latest-IsLatest sets set.namespace l o in
        let le = (fresh.after l o).0 in omega (arith, most b j e, le)

    kept :
        (a b : PredicateSet)
        → In a (set ∷ sets)
        → In b (set ∷ sets)
        → a.namespace ≡ b.namespace
        → a.version < b.version
        → Keeps a b
    kept a b (inl p) (inl q) e f = absurd (
        ground
          (arith, ap (λ (x : PredicateSet). x.version) p, ap (λ (x : PredicateSet). x.version) q))
    kept a b (inr i) (inl q) e f =
        rw q (
          up_to a i (e ∙ ap (λ (x : PredicateSet). x.namespace) q) (latest sets set.namespace) refl)
    kept a b (inr i) (inr j) e f = v.keeps a b i j e f
    kept a b (inl p) (inr j) e f = absurd (
        above b j (sym e ∙ ap (λ (x : PredicateSet). x.namespace) p) (latest sets set.namespace)
          refl (subst (λ n. n < b.version) (ap (λ (x : PredicateSet). x.version) p) f))

admit-IsRegistry :
    (sets : Snapshot) (set : PredicateSet) (out : Snapshot × Admission)
    → IsRegistry sets
    → admit sets set ≡ ok out
    → IsRegistry out.0
unfolding admit
admit-IsRegistry sets set out v h =
    let (a, e, f) = >>=-eq-ok (check sets set) _ h in
    subst (λ (o : Snapshot × Admission). IsRegistry o.0) (ok-injective f) (after a e)
  where
    after : (a : Admission) → check sets set ≡ ok a → IsRegistry (insert_if_new sets set a)
    after Admission.new e = insert-IsRegistry sets set v (check-Fresh sets set e)
    after Admission.unchanged e = v

admit_all-IsRegistry :
    (sets : Snapshot) (documents : List PredicateSet) (out : Snapshot)
    → IsRegistry sets
    → admit_all sets documents ≡ ok out
    → IsRegistry out
unfolding admit_all
admit_all-IsRegistry sets [] out v h = subst IsRegistry (ok-injective h) v
admit_all-IsRegistry sets (d ∷ documents) out v h =
    let (a, e, f) = >>=-eq-ok (admit sets d) _ h in
    admit_all-IsRegistry a.0 documents out (admit-IsRegistry sets d a v e) f

-- A snapshot that is built from documents, in whatever order these are given, has one document for a
-- namespace and a version and none in the reserved namespace; and of two documents of one namespace
-- the later keeps every subject kind and every predicate of the earlier, these with their
-- cardinality, their kind of value and all their units and variants.
pub from_sets-IsRegistry :
    (documents : List PredicateSet) (out : Snapshot) → from_sets documents ≡ ok out → IsRegistry out
unfolding from_sets
from_sets-IsRegistry documents out h = admit_all-IsRegistry [] (order_sets documents) out nothing h
  where
    nothing : IsRegistry []
    nothing = record {
      one_each = λ a b i. elim i [ ];
      keeps = λ a b i. elim i [ ];
      none_reserved = λ a i. elim i [ ];
    }
