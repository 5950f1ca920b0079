-- ===== src/Claims/Slot.antt =====
-- `SlotId` of crates/aicortex-claims/src/history.rs: what a claim is about, and the derived order
-- in which a `BTreeMap` lists slots.
use Prim.Native.Nat.{Ordering, compare}
use aicortex.Prelude.{◌≡◌, refl, Option, none, some, arith}
use aicortex.Prelude.Order.{then_with}
use aicortex.Prelude.Strings.{compare_string, compare_string-eq}
use Prim.Native.String.{String}
use aicortex.Types.Claim.{Claim, PredicateRef, scope_string}

pub record SlotId : Type 0 where
  pub scope : String
  pub subject_namespace : String
  pub subject_kind : String
  pub subject_key : String
  pub predicate : PredicateRef
  pub slot : Option String

unfoldable pub slot_of : Claim → SlotId
slot_of c = record {
  scope = scope_string c.scope;
  subject_namespace = c.subject.namespace;
  subject_kind = c.subject.kind;
  subject_key = c.subject.key;
  predicate = c.predicate;
  slot = c.slot;
}

abbrev pub compare_option : Option String → Option String → Ordering
compare_option none none = Ordering.eq
compare_option none (some t) = Ordering.lt
compare_option (some s) none = Ordering.gt
compare_option (some s) (some t) = compare_string s t

unfoldable pub compare_predicate : PredicateRef → PredicateRef → Ordering
compare_predicate a b =
    then_with (compare_string a.namespace b.namespace)
      (then_with (compare_string a.name b.name) (compare a.version b.version))

unfoldable pub compare_slot : SlotId → SlotId → Ordering
unfolding compare_predicate
compare_slot a b = then_with (compare_string a.scope b.scope) (
    then_with (compare_string a.subject_namespace b.subject_namespace) (
      then_with (compare_string a.subject_kind b.subject_kind) (
        then_with (compare_string a.subject_key b.subject_key)
          (then_with (compare_predicate a.predicate b.predicate) (compare_option a.slot b.slot)))))

then_with-eq :
    (o p : Ordering) → then_with o p ≡ Ordering.eq → (o ≡ Ordering.eq) × (p ≡ Ordering.eq)
then_with-eq Ordering.eq p h = (refl, h)
then_with-eq Ordering.lt p h = cc
then_with-eq Ordering.gt p h = cc

compare_option-eq : (a b : Option String) → compare_option a b ≡ Ordering.eq → a ≡ b
compare_option-eq none none h = refl
compare_option-eq none (some t) h = cc
compare_option-eq (some s) none h = cc
compare_option-eq (some s) (some t) h = cc (compare_string-eq s t h)

compare_predicate-eq : (a b : PredicateRef) → compare_predicate a b ≡ Ordering.eq → a ≡ b
unfolding compare_predicate
compare_predicate-eq a b h =
    let (e, h') = then_with-eq (compare_string a.namespace b.namespace) _ h in
    let (f, g) = then_with-eq (compare_string a.name b.name) _ h' in
    let e' = compare_string-eq a.namespace b.namespace e in
    let f' = compare_string-eq a.name b.name f in
    let g' : a.version ≡ b.version = ground arith in
    λ i. record { namespace = e' i; name = f' i; version = g' i }

-- Slots that compare as equal are the same slot.
pub compare_slot-eq : (a b : SlotId) → compare_slot a b ≡ Ordering.eq → a ≡ b
unfolding compare_slot
compare_slot-eq a b h =
    let (e, h₁) = then_with-eq (compare_string a.scope b.scope) _ h in
    let (f, h₂) = then_with-eq (compare_string a.subject_namespace b.subject_namespace) _ h₁ in
    let (g, h₃) = then_with-eq (compare_string a.subject_kind b.subject_kind) _ h₂ in
    let (k, h₄) = then_with-eq (compare_string a.subject_key b.subject_key) _ h₃ in
    let (p, o) = then_with-eq (compare_predicate a.predicate b.predicate) _ h₄ in
    let e' = compare_string-eq a.scope b.scope e in
    let f' = compare_string-eq a.subject_namespace b.subject_namespace f in
    let g' = compare_string-eq a.subject_kind b.subject_kind g in
    let k' = compare_string-eq a.subject_key b.subject_key k in
    let p' = compare_predicate-eq a.predicate b.predicate p in
    let o' = compare_option-eq a.slot b.slot o in
    λ i. record {
      scope = e' i;
      subject_namespace = f' i;
      subject_kind = g' i;
      subject_key = k' i;
      predicate = p' i;
      slot = o' i;
    }
