-- ===== src/Claims/Validate.antt =====
-- `validate` of crates/aicortex-claims/src/lib.rs: a claim against the registered vocabularies. Whether
-- a text is in normalization form C is decided by another crate and is the parameter `is_nfc`.
use native.Mathlib.Decide.{ℕ_discrete}
use aicortex.Prelude.{
  ℕ, ◌≡◌, Bool, true, false, not, ◌&&◌, ◌||◌, Option, none, some, List, [], ◌∷◌, any, ◌==◌, is_some,
  if◌then◌else◌, Result, ok, err, ◌>>=◌, ◌>>◌, ensure,
}
use aicortex.Prelude.Equal.{same, has}
use aicortex.Prelude.Strings.{string_discrete}
use Prim.Native.String.{String}
use package.text.Mathlib.Text.{◌==◌ as str_eq}
use aicortex.Text.{Text}
use aicortex.Text.Chars.{chars}
use aicortex.Types.Memory.{Provenance, SourceSpan}
use aicortex.Types.Claim.{Claim, ClaimValue, Measure, PredicateRef, Stance, SubjectRef}
use aicortex.Types.Predicate.{
  ValueKind, ValueKind-discrete, Measure-discrete, Stance-discrete, kind_of, is_nil, Cardinality,
  one, many, PredicateDef, PredicateSet, predicate,
}
use aicortex.Claims.Registry.{Snapshot, find}
pub mod Valid

pub data ClaimError : Type 0 where
  unknown_predicate wrong_version withdrawn : PredicateRef → ClaimError
  wrong_subject_kind : SubjectRef → ClaimError
  wrong_value_type : ValueKind → ValueKind → ClaimError
  undeclared_unit : Option Measure → ClaimError
  undeclared_variant : String → ClaimError
  missing_slot unexpected_slot : ClaimError
  inadmissible_status : Stance → ClaimError
  text_not_normalized span_outside_derivation : ClaimError

unfoldable pub code : ClaimError → String
code (unknown_predicate p) = "unknown_predicate"
code (wrong_version p) = "wrong_version"
code (withdrawn p) = "withdrawn_predicate"
code (wrong_subject_kind s) = "wrong_subject_kind"
code (wrong_value_type e f) = "wrong_value_type"
code (undeclared_unit u) = "undeclared_unit"
code (undeclared_variant v) = "undeclared_variant"
code missing_slot = "missing_slot"
code unexpected_slot = "unexpected_slot"
code (inadmissible_status s) = "inadmissible_status"
code text_not_normalized = "text_not_normalized"
code span_outside_derivation = "span_outside_derivation"

abbrev pub declares : PredicateRef → PredicateSet → Bool
declares ref set = str_eq set.namespace ref.namespace && is_some (predicate set ref.name)

abbrev pub admits_unit : Option Measure → List Measure → Bool
admits_unit (some unit) units = has Measure-discrete units unit
admits_unit none units = is_nil units

abbrev pub check_parts : ClaimValue → PredicateDef → Result ClaimError (Unit {0})
check_parts (ClaimValue.decimal d) def =
    if not (admits_unit d.unit def.value.units) then err (undeclared_unit d.unit) else ok tt
check_parts (ClaimValue.enum v) def =
    if not (has string_discrete def.value.variants v) then err (undeclared_variant v) else ok tt
check_parts _ def = ok tt

unfoldable pub check_value : ClaimValue → PredicateDef → Result ClaimError (Unit {0})
unfolding kind_of
check_value v def =
    if not (same ValueKind-discrete (kind_of v) def.value.kind)
    then err (wrong_value_type def.value.kind (kind_of v))
    else check_parts v def

abbrev pub check_slot : Cardinality → Option String → Result ClaimError (Unit {0})
check_slot (many name) none = err missing_slot
check_slot one (some slot) = err unexpected_slot
check_slot _ _ = ok tt

abbrev pub value_text : ClaimValue → Option Text
value_text (ClaimValue.text t) = some t
value_text _ = none

abbrev pub passes_text : (Text → Bool) → Option Text → Bool
passes_text is_nfc none = true
passes_text is_nfc (some t) = is_nfc t

abbrev pub condition_text : Option String → Option Text
condition_text none = none
condition_text (some s) = some (chars s)

abbrev pub derives : Provenance → SourceSpan → Bool
derives p span = has ℕ_discrete p.derived_from span.source

-- What is checked once the predicate is found.
unfoldable pub check_claim : (Text → Bool) → Claim → PredicateDef → Result ClaimError PredicateDef
unfolding check_value
check_claim is_nfc c def =
    if def.deprecated
    then err (withdrawn c.predicate)
    else if not (str_eq c.subject.namespace c.predicate.namespace)
        || not (has string_discrete def.subjects c.subject.kind)
    then err (wrong_subject_kind c.subject)
    else (check_value c.value def
        >> check_slot def.cardinality c.slot
        >> (if not (has Stance-discrete def.epistemic c.epistemic.stance)
            then err (inadmissible_status c.epistemic.stance)
            else if not (passes_text is_nfc (value_text c.value))
                || not (passes_text is_nfc (condition_text c.epistemic.condition))
            then err text_not_normalized
            else if any (λ span. not (derives c.provenance span)) c.provenance.spans
            then err span_outside_derivation
            else ok def))

-- A claim that is accepted is returned as it is, with its definition.
unfoldable pub validate : (Text → Bool) → Claim → Snapshot → Result ClaimError PredicateDef
unfolding check_claim
validate is_nfc c registry = elim (find registry c.predicate) [
  | some def ↦ check_claim is_nfc c def
  | none ↦
      if any (declares c.predicate) registry
      then err (wrong_version c.predicate)
      else err (unknown_predicate c.predicate)
]
