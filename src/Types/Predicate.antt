-- ===== src/Types/Predicate.antt =====
-- crates/aicortex-types/src/predicate.rs: a registry document, checked when it is built. The names
-- in it (`checked_string`) are strings that were checked already.
use native.Mathlib.Decide.{ℕ_discrete}
use aicortex.Prelude.{
  ℕ, ◌≡◌, Bool, true, false, not, ◌&&◌, ◌||◌, Option, none, some, List, [], ◌∷◌, map, any, ◌==◌,
  if◌then◌else◌, Result, ok, err, ◌>>=◌, ◌>>◌, ensure,
}
use aicortex.Prelude.Equal.{same, has, no_repeat}
use aicortex.Prelude.Strings.{string_discrete}
use Prim.Native.String.{String}
use package.text.Mathlib.Text.{◌==◌ as str_eq}
use aicortex.Types.Error.{TypeError, invalid, missing_field}
use aicortex.Types.Claim.{Measure, Stance, ValidTimeMode, SupersessionRule, accumulate, ClaimValue}
pub mod Wire

pub data ValueKind : Type 0 where
  text integer decimal date date_time interval entity_ref enum : ValueKind

unfoldable pub kind_of : ClaimValue → ValueKind
kind_of (ClaimValue.text t) = ValueKind.text
kind_of (ClaimValue.integer n) = ValueKind.integer
kind_of (ClaimValue.decimal d) = ValueKind.decimal
kind_of (ClaimValue.date d) = ValueKind.date
kind_of (ClaimValue.date_time t) = ValueKind.date_time
kind_of (ClaimValue.interval i) = ValueKind.interval
kind_of (ClaimValue.entity_ref s) = ValueKind.entity_ref
kind_of (ClaimValue.enum v) = ValueKind.enum

unfoldable pub ValueKind-discrete : Discrete ValueKind
ValueKind-discrete = hlevel

unfoldable pub Measure-discrete : Discrete Measure
Measure-discrete = hlevel string_discrete

unfoldable pub Stance-discrete : Discrete Stance
Stance-discrete = hlevel

pub record ValueType : Type 0 where
  pub kind : ValueKind
  pub units : List Measure
  pub variants : List String

abbrev pub is_decimal : ValueKind → Bool
is_decimal ValueKind.decimal = true
is_decimal _ = false

abbrev pub is_enum : ValueKind → Bool
is_enum ValueKind.enum = true
is_enum _ = false

abbrev pub is_nil {ℓ} : {A : Type ℓ} → List A → Bool
is_nil [] = true
is_nil (x ∷ xs) = false

abbrev pub unique : {A : Type 0} → Discrete A → String → List A → Result TypeError (Unit {0})
unique eq field items = ensure (no_repeat eq items) (invalid field)

-- `ValueType::build`.
unfoldable pub build_type : ValueKind → List Measure → List String → Result TypeError ValueType
unfolding Measure-discrete
build_type kind units variants =
    if not (is_nil units) && not (is_decimal kind)
    then err (invalid "units")
    else if not (is_nil variants) && not (is_enum kind)
    then err (invalid "variants")
    else if is_enum kind && is_nil variants
    then err (missing_field "variants")
    else (unique Measure-discrete "units" units
        >> unique string_discrete "variants" variants
        >> ok (record { kind = kind; units = units; variants = variants }))

pub data Cardinality : Type 0 where
  one : Cardinality
  many : String → Cardinality

unfoldable pub Cardinality-discrete : Discrete Cardinality
Cardinality-discrete = hlevel string_discrete

pub record PredicateDef : Type 0 where
  pub name : String
  pub subjects : List String
  pub value : ValueType
  pub cardinality : Cardinality
  pub valid_time : ValidTimeMode
  pub supersession : SupersessionRule
  pub epistemic : List Stance
  pub deprecated : Bool

-- The fields before they are checked are the same.
abbrev pub PredicateDefParts : Type 0
PredicateDefParts = PredicateDef

abbrev pub is_accumulate : SupersessionRule → Bool
is_accumulate accumulate = true
is_accumulate _ = false

abbrev pub is_one : Cardinality → Bool
is_one one = true
is_one (many slot) = false

unfoldable pub new_predicate : PredicateDefParts → Result TypeError PredicateDef
unfolding Stance-discrete
new_predicate parts =
    if is_nil parts.subjects
    then err (missing_field "subjects")
    else if is_nil parts.epistemic
    then err (missing_field "epistemic")
    else (unique string_discrete "subjects" parts.subjects
        >> unique Stance-discrete "epistemic" parts.epistemic
        >> (if is_accumulate parts.supersession && is_one parts.cardinality
            then err (invalid "supersession")
            else ok parts))

pub record PredicateSet : Type 0 where
  pub namespace : String
  pub version : ℕ
  pub subject_kinds : List String
  pub predicates : List PredicateDef

abbrev pub applies_outside : List String → PredicateDef → Bool
applies_outside kinds def = any (λ kind. not (has string_discrete kinds kind)) def.subjects

unfoldable pub new_set :
    String → ℕ → List String → List PredicateDef → Result TypeError PredicateSet
new_set namespace version kinds predicates =
    if version == 0
    then err (invalid "version")
    else (unique string_discrete "subject_kinds" kinds
        >> unique string_discrete "predicates" (map (λ def. def.name) predicates)
        >> (if any (applies_outside kinds) predicates
            then err (invalid "subjects")
            else ok (record {
              namespace = namespace;
              version = version;
              subject_kinds = kinds;
              predicates = predicates;
            })))

-- `iter().find(|def| &def.name == name)`.
unfoldable pub find_predicate : List PredicateDef → String → Option PredicateDef
find_predicate [] name = none
find_predicate (def ∷ defs) name =
    if str_eq def.name name then some def else find_predicate defs name

unfoldable pub predicate : PredicateSet → String → Option PredicateDef
unfolding find_predicate
predicate set name = find_predicate set.predicates name
