-- ===== src/Types/Predicate/Wire.antt =====
-- The serialized form of a predicate in crates/aicortex-types/src/predicate.rs.
use aicortex.Prelude.{
  ◌≡◌, refl, sym, ap, ◌∙◌, Bool, Option, none, some, List, arith, Result, ok, err, ◌>>=◌,
}
use Prim.Native.String.{String}
use aicortex.Types.Error.{TypeError, invalid, missing_field}
use aicortex.Types.Claim.{Stance, ValidTimeMode, SupersessionRule}
use aicortex.Types.Predicate.{
  ValueType, Cardinality, PredicateDef, PredicateDefParts, new_predicate,
}

pub data CardinalityKind : Type 0 where
  one many : CardinalityKind

pub record RawPredicateDef : Type 0 where
  pub name : String
  pub subjects : List String
  pub value : ValueType
  pub cardinality : CardinalityKind
  pub slot : Option String
  pub valid_time : ValidTimeMode
  pub supersession : SupersessionRule
  pub epistemic : List Stance
  pub deprecated : Bool

unfoldable pub kind_of_cardinality : Cardinality → CardinalityKind
kind_of_cardinality Cardinality.one = CardinalityKind.one
kind_of_cardinality (Cardinality.many slot) = CardinalityKind.many

abbrev pub slot_name : Cardinality → Option String
slot_name Cardinality.one = none
slot_name (Cardinality.many slot) = some slot

unfoldable pub raw_of_predicate : PredicateDef → RawPredicateDef
unfolding kind_of_cardinality
raw_of_predicate def = record {
  name = def.name;
  subjects = def.subjects;
  value = def.value;
  cardinality = kind_of_cardinality def.cardinality;
  slot = slot_name def.cardinality;
  valid_time = def.valid_time;
  supersession = def.supersession;
  epistemic = def.epistemic;
  deprecated = def.deprecated;
}

abbrev pub cardinality_of_raw : CardinalityKind → Option String → Result TypeError Cardinality
cardinality_of_raw CardinalityKind.one none = ok Cardinality.one
cardinality_of_raw CardinalityKind.many (some slot) = ok (Cardinality.many slot)
cardinality_of_raw CardinalityKind.one (some slot) = err (invalid "slot")
cardinality_of_raw CardinalityKind.many none = err (missing_field "slot")

unfoldable pub predicate_of_raw : RawPredicateDef → Result TypeError PredicateDef
predicate_of_raw raw = do
  cardinality ← cardinality_of_raw raw.cardinality raw.slot
  new_predicate (record {
    name = raw.name;
    subjects = raw.subjects;
    value = raw.value;
    cardinality = cardinality;
    valid_time = raw.valid_time;
    supersession = raw.supersession;
    epistemic = raw.epistemic;
    deprecated = raw.deprecated;
  })

read_cardinality :
    (c : Cardinality) → cardinality_of_raw (kind_of_cardinality c) (slot_name c) ≡ ok c
unfolding kind_of_cardinality
read_cardinality Cardinality.one = refl
read_cardinality (Cardinality.many slot) = refl

predicate_of_raw_checks :
    (def : PredicateDef) → predicate_of_raw (raw_of_predicate def) ≡ new_predicate def
unfolding predicate_of_raw raw_of_predicate
predicate_of_raw_checks def = rw (read_cardinality def.cardinality) refl

-- A predicate that `PredicateDef::new` accepts is read back from its serialized form, unchanged.
pub predicate_of_raw-raw_of_predicate :
    (parts : PredicateDefParts) (def : PredicateDef)
    → new_predicate parts ≡ ok def
    → predicate_of_raw (raw_of_predicate def) ≡ ok def
predicate_of_raw-raw_of_predicate parts def e =
    predicate_of_raw_checks def ∙ ap new_predicate (sym (kept e)) ∙ e
  where
    kept : new_predicate parts ≡ ok def → parts ≡ def
    kept h = unfold new_predicate in ground arith
