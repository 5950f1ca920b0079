-- ===== src/Claims/Registry/Keeps.antt =====
-- What `successor` of crates/aicortex-claims/src/registry.rs demands of a later version.
use aicortex.Prelude.{
  ◌≡◌, refl, sym, ap, ◌∙◌, true, inl, inr, Option, none, some, List, [], ◌∷◌, arith, In,
  all-true-In, Bool-cases, Option-cases, ok,
}
use aicortex.Prelude.Equal.{same, same-eq, has, has-In, keeps}
use aicortex.Prelude.Strings.{string_discrete}
use Prim.Native.String.{String}
use package.text.Mathlib.Text.{◌==◌ as str_eq}
use text.Mathlib.TextEquality.{eq_iff}
use aicortex.Types.Claim.{Measure}
use aicortex.Types.Predicate.{
  ValueKind-discrete, Measure-discrete, Cardinality-discrete, PredicateDef, PredicateSet,
  find_predicate, predicate,
}
use aicortex.Claims.Registry.{removed_kind, same_type, changed, changed_predicate, successor}

-- A predicate means what it meant: the same cardinality and kind of value, and every unit and variant.
pub record KeepsDef (was is : PredicateDef) : Type 0 where
  pub cardinality : is.cardinality ≡ was.cardinality
  pub kind : was.value.kind ≡ is.value.kind
  pub units : (u : Measure) → In u was.value.units → In u is.value.units
  pub variants : (v : String) → In v was.value.variants → In v is.value.variants

-- Every subject kind and every predicate of the earlier document is in the later.
pub record Keeps (earlier later : PredicateSet) : Type 0 where
  pub kinds : (k : String) → In k earlier.subject_kinds → In k later.subject_kinds
  pub predicates :
      (old : PredicateDef)
      → In old earlier.predicates
      → (is : PredicateDef) × (predicate later old.name ≡ some is) × KeepsDef old is

keeps-In :
    {A : Type 0} (eq : Discrete A) (was is : List A)
    → keeps eq was is ≡ true
    → (x : A) → In x was
    → In x is
keeps-In eq was is h x i = has-In eq is x (all-true-In (has eq is) was x h i)

removed_kind-In :
    (kinds later : List String)
    → removed_kind kinds later ≡ none
    → (k : String) → In k kinds
    → In k later
unfolding removed_kind
removed_kind-In [] later h k i = elim i [ ]
removed_kind-In (kind ∷ kinds) later h k i = elim (Bool-cases (has string_discrete later kind)) [
  | inr b ↦ let h' = rw b at h in cc
  | inl b ↦ elim i [
    | inl e ↦ rw e (has-In string_discrete later kind b)
    | inr j ↦ removed_kind-In kinds later (rw b at h) k j
  ]
]

changed-KeepsDef :
    (old : PredicateDef) (o : Option PredicateDef)
    → changed old o ≡ none
    → (is : PredicateDef) × (o ≡ some is) × KeepsDef old is
unfolding changed same_type
changed-KeepsDef old none h = cc
changed-KeepsDef old (some is) h =
    let c : same Cardinality-discrete is.cardinality old.cardinality ≡ true = ground arith in
    let k : same ValueKind-discrete old.value.kind is.value.kind ≡ true = ground arith in
    let u : keeps Measure-discrete old.value.units is.value.units ≡ true = ground arith in
    let v : keeps string_discrete old.value.variants is.value.variants ≡ true = ground arith in
    (
      is,
      refl,
      record {
        cardinality = same-eq Cardinality-discrete is.cardinality old.cardinality c;
        kind = same-eq ValueKind-discrete old.value.kind is.value.kind k;
        units = keeps-In Measure-discrete old.value.units is.value.units u;
        variants = keeps-In string_discrete old.value.variants is.value.variants v;
      },
    )

changed_predicate-KeepsDef :
    (olds : List PredicateDef) (later : PredicateSet)
    → changed_predicate olds later ≡ ok tt
    → (old : PredicateDef) → In old olds
    → (is : PredicateDef) × (predicate later old.name ≡ some is) × KeepsDef old is
unfolding changed_predicate
changed_predicate-KeepsDef [] later h old i = elim i [ ]
changed_predicate-KeepsDef (p ∷ olds) later h old i =
    elim (Option-cases (changed p (predicate later p.name))) [
      | inr (c, e) ↦ let h' = rw (e, changed_predicate) at h in cc
      | inl e ↦ elim i [
        | inl q ↦ rw q (changed-KeepsDef p (predicate later p.name) e)
        | inr j ↦ changed_predicate-KeepsDef olds later (rw (e, changed_predicate) at h) old j
      ]
    ]

pub successor-Keeps :
    (earlier later : PredicateSet) → successor earlier later ≡ ok tt → Keeps earlier later
unfolding successor
successor-Keeps earlier later h =
    elim (Option-cases (removed_kind earlier.subject_kinds later.subject_kinds)) [
      | inr (k, e) ↦ let h' = rw (e, successor) at h in cc
      | inl e ↦ record {
        kinds = removed_kind-In earlier.subject_kinds later.subject_kinds e;
        predicates = changed_predicate-KeepsDef earlier.predicates later (rw (e, successor) at h);
      }
    ]

find_predicate-In :
    (defs : List PredicateDef) (name : String) (d : PredicateDef)
    → find_predicate defs name ≡ some d
    → In d defs × (d.name ≡ name)
unfolding find_predicate
find_predicate-In [] name d h = cc
find_predicate-In (p ∷ defs) name d h = elim (Bool-cases (str_eq p.name name)) [
  | inl b ↦
      let h' : some p ≡ some d = rw b at h in
      let q : p ≡ d = cc in (inl (sym q), rw (← q) ((eq_iff p.name name).0 b))
  | inr b ↦ let (i, e) = find_predicate-In defs name d (rw b at h) in (inr i, e)
]

KeepsDef-trans : (a b c : PredicateDef) → KeepsDef a b → KeepsDef b c → KeepsDef a c
KeepsDef-trans a b c p q = record {
  cardinality = q.cardinality ∙ p.cardinality;
  kind = p.kind ∙ q.kind;
  units = λ u i. q.units u (p.units u i);
  variants = λ v i. q.variants v (p.variants v i);
}

-- Keeping is transitive.
pub Keeps-trans : (a b c : PredicateSet) → Keeps a b → Keeps b c → Keeps a c
unfolding predicate
Keeps-trans a b c p q = record {
  kinds = λ k i. q.kinds k (p.kinds k i);
  predicates = λ old i.
      let (mid, e, kept) = p.predicates old i in
      let (j, name) = find_predicate-In b.predicates old.name mid e in
      let (is, f, kept') = q.predicates mid j in
      (is, ap (predicate c) (sym name) ∙ f, KeepsDef-trans old mid is kept kept');
}
