-- ===== src/Claims/Validate/Valid.antt =====
-- What `validate` of crates/aicortex-claims/src/lib.rs accepts, without its tests.
use native.Mathlib.Decide.{ℕ_discrete}
use aicortex.Prelude.{
  ◌≡◌, refl, Bool, true, false, not, inl, inr, ◌↔◌, Option, none, some, List, [], ◌∷◌, any, arith,
  if◌then◌else◌, In, any-false-In, any-false_of, Option-cases, ok, err,
}
use aicortex.Prelude.Equal.{same, same-eq, same_refl, has-In, In-has}
use aicortex.Prelude.Strings.{string_discrete}
use Prim.Native.String.{String}
use text.Mathlib.TextEquality.{eq_iff}
use aicortex.Text.{Text}
use aicortex.Types.Memory.{SourceSpan}
use aicortex.Types.Claim.{Claim, ClaimValue, Measure}
use aicortex.Types.Predicate.{
  ValueKind-discrete, Measure-discrete, Stance-discrete, kind_of, Cardinality, one, many, ValueType,
  PredicateDef,
}
use aicortex.Claims.Registry.{Snapshot, find}
use aicortex.Claims.Validate.{
  ClaimError, admits_unit, check_parts, check_value, check_slot, value_text, passes_text,
  condition_text, derives, check_claim, validate, declares,
}

-- A unit is one of the declared; no unit needs that none is declared.
abbrev pub UnitDeclared : Option Measure → List Measure → Type 0
UnitDeclared (some unit) units = In unit units
UnitDeclared none units = units ≡ []

abbrev pub PartsDeclared : ClaimValue → ValueType → Type 0
PartsDeclared (ClaimValue.decimal d) t = UnitDeclared d.unit t.units
PartsDeclared (ClaimValue.enum v) t = In v t.variants
PartsDeclared _ t = Unit {0}

-- A slot is named exactly where the predicate holds many values.
abbrev pub SlotFits : Cardinality → Option String → Type 0
SlotFits (many name) (some slot) = Unit {0}
SlotFits one none = Unit {0}
SlotFits _ _ = ⊥

abbrev pub IsNfcText : (Text → Bool) → Option Text → Type 0
IsNfcText is_nfc none = Unit {0}
IsNfcText is_nfc (some t) = is_nfc t ≡ true

-- The claim says what the definition admits, in the form and with the sources that it demands.
pub record IsValid (is_nfc : Text → Bool) (c : Claim) (def : PredicateDef) : Type 0 where
  pub live : def.deprecated ≡ false
  pub own_namespace : c.subject.namespace ≡ c.predicate.namespace
  pub subject : In c.subject.kind def.subjects
  pub kind : kind_of c.value ≡ def.value.kind
  pub parts : PartsDeclared c.value def.value
  pub slot : SlotFits def.cardinality c.slot
  pub stance : In c.epistemic.stance def.epistemic
  pub value_nfc : IsNfcText is_nfc (value_text c.value)
  pub condition_nfc : IsNfcText is_nfc (condition_text c.epistemic.condition)
  pub spans_derived :
      (s : SourceSpan) → In s c.provenance.spans → In s.source c.provenance.derived_from

admits_unit_iff :
    (o : Option Measure) (units : List Measure)
    → (admits_unit o units ≡ true) ↔ UnitDeclared o units
admits_unit_iff (some u) units = (has-In Measure-discrete units u, In-has Measure-discrete units u)
admits_unit_iff none [] = ((λ h. refl), (λ h. refl))
admits_unit_iff none (u ∷ us) = ((λ h. cc), (λ h. cc))

check_parts_iff :
    (v : ClaimValue) (def : PredicateDef) → (check_parts v def ≡ ok tt) ↔ PartsDeclared v def.value
check_parts_iff (ClaimValue.text t) def = ((λ h. tt), (λ h. refl))
check_parts_iff (ClaimValue.integer t) def = ((λ h. tt), (λ h. refl))
check_parts_iff (ClaimValue.date t) def = ((λ h. tt), (λ h. refl))
check_parts_iff (ClaimValue.date_time t) def = ((λ h. tt), (λ h. refl))
check_parts_iff (ClaimValue.interval t) def = ((λ h. tt), (λ h. refl))
check_parts_iff (ClaimValue.entity_ref t) def = ((λ h. tt), (λ h. refl))
check_parts_iff (ClaimValue.decimal d) def = (
  (λ h. (admits_unit_iff d.unit def.value.units).0 (ground arith)),
  (λ u. rw ((admits_unit_iff d.unit def.value.units).1 u) refl),
)
check_parts_iff (ClaimValue.enum v) def = (
  (λ h. has-In string_discrete def.value.variants v (ground arith)),
  (λ i. rw (In-has string_discrete def.value.variants v i) refl),
)

check_slot_iff : (c : Cardinality) (s : Option String) → (check_slot c s ≡ ok tt) ↔ SlotFits c s
check_slot_iff one none = ((λ h. tt), (λ h. refl))
check_slot_iff one (some s) = ((λ h. cc), (λ f. absurd f))
check_slot_iff (many n) none = ((λ h. cc), (λ f. absurd f))
check_slot_iff (many n) (some s) = ((λ h. tt), (λ h. refl))

passes_text_iff :
    (is_nfc : Text → Bool) (o : Option Text) → (passes_text is_nfc o ≡ true) ↔ IsNfcText is_nfc o
passes_text_iff is_nfc none = ((λ h. tt), (λ h. refl))
passes_text_iff is_nfc (some t) = ((λ h. h), (λ h. h))

module _ (is_nfc : Text → Bool) (c : Claim) (def : PredicateDef) where
  check_claim-IsValid :
      (out : PredicateDef) → check_claim is_nfc c def ≡ ok out → IsValid is_nfc c def × (out ≡ def)
  unfolding check_claim check_value
  check_claim-IsValid out h =
      let spans : any (λ span. not (derives c.provenance span)) c.provenance.spans ≡ false =
        ground arith in
      (
        record {
          live = ground arith;
          own_namespace = (eq_iff c.subject.namespace c.predicate.namespace).0 (ground arith);
          subject = has-In string_discrete def.subjects c.subject.kind (ground arith);
          kind = same-eq ValueKind-discrete (kind_of c.value) def.value.kind (ground arith);
          parts = (check_parts_iff c.value def).0 (ground arith);
          slot = (check_slot_iff def.cardinality c.slot).0 (ground arith);
          stance = has-In Stance-discrete def.epistemic c.epistemic.stance (ground arith);
          value_nfc = (passes_text_iff is_nfc (value_text c.value)).0 (ground arith);
          condition_nfc =
              (passes_text_iff is_nfc (condition_text c.epistemic.condition)).0 (ground arith);
          spans_derived = λ s i.
              let e =
                any-false-In (λ span. not (derives c.provenance span)) c.provenance.spans s spans
                  i in
              has-In ℕ_discrete c.provenance.derived_from s.source (ground arith);
        },
        ground arith,
      )

  IsValid-check_claim : IsValid is_nfc c def → check_claim is_nfc c def ≡ ok def
  unfolding check_claim check_value
  IsValid-check_claim v =
      rw
        (
          (eq_iff c.subject.namespace c.predicate.namespace).1 v.own_namespace,
          In-has string_discrete def.subjects c.subject.kind v.subject,
          kinds,
          (check_parts_iff c.value def).1 v.parts,
          (check_slot_iff def.cardinality c.slot).1 v.slot,
          In-has Stance-discrete def.epistemic c.epistemic.stance v.stance,
          (passes_text_iff is_nfc (value_text c.value)).1 v.value_nfc,
          (passes_text_iff is_nfc (condition_text c.epistemic.condition)).1 v.condition_nfc,
          spans,
          v.live,
        )
        refl
    where
      kinds : same ValueKind-discrete (kind_of c.value) def.value.kind ≡ true
      kinds = rw v.kind (same_refl ValueKind-discrete def.value.kind)

      spans : any (λ span. not (derives c.provenance span)) c.provenance.spans ≡ false
      spans =
          any-false_of (λ span. not (derives c.provenance span)) c.provenance.spans
            (λ s i.
              rw (In-has ℕ_discrete c.provenance.derived_from s.source (v.spans_derived s i)) refl)

-- A claim is accepted, with the definition `def`, exactly when `def` is what its predicate names at
-- the version it names, and it is valid against that: not withdrawn, a subject of the predicate's
-- namespace and kinds, a value of the declared kind with a declared unit or variant, a slot exactly
-- where there are many values, an admitted stance, texts in normalization form C, and every span in
-- a memory that the claim derives from.
pub validate-IsValid :
    (is_nfc : Text → Bool) (c : Claim) (registry : Snapshot) (def : PredicateDef)
    → (validate is_nfc c registry ≡ ok def)
      ↔ ((find registry c.predicate ≡ some def) × IsValid is_nfc c def)
unfolding validate
validate-IsValid is_nfc c registry def = (
  (λ h. elim (Option-cases (find registry c.predicate)) [
    | inl e ↦ absurd (no_definition (any (declares c.predicate) registry) (rw (e, validate) at h))
    | inr (d, e) ↦
        let (v, p) = check_claim-IsValid is_nfc c d def (rw (e, validate) at h) in rw p (e, v)
  ]),
  (λ (e, v). rw (e, validate) (IsValid-check_claim is_nfc c def v)),
)
  where
    no_definition :
        (b : Bool)
        → (if b
            then err (ClaimError.wrong_version c.predicate)
            else err (ClaimError.unknown_predicate c.predicate))
          ≡ ok def
        → ⊥
    no_definition true h = cc
    no_definition false h = cc
