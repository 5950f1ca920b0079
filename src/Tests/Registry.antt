-- ===== src/Tests/Registry.antt =====
-- The registry's theorems at concrete documents and claims.
use aicortex.Prelude.{ℕ, ◌≡◌, Bool, refl, ◌↔◌, true, false, none, some, [], ◌∷◌, ok}
use aicortex.Prelude.Strings.{string_discrete}
use aicortex.Text.{Text}
use aicortex.Types.Memory.{personal, captured, Provenance}
use aicortex.Types.Claim.{Claim, ClaimValue, Stance, SupersessionRule, ValidTimeMode}
use aicortex.Types.Predicate.{
  ValueKind, Cardinality, PredicateDef, PredicateSet, new_predicate, predicate, ValueKind-discrete,
  Stance-discrete, Cardinality-discrete,
}
use aicortex.Types.Predicate.Wire.{
  predicate_of_raw, raw_of_predicate, predicate_of_raw-raw_of_predicate,
}
use aicortex.Claims.Registry.{Snapshot, Admission, set_at, admit, find, from_sets, successor}
use aicortex.Claims.Registry.Invariant.{IsRegistry, from_sets-IsRegistry}
use aicortex.Claims.Registry.Immutable.{is_keyed, named_after, admit-set_at}
use aicortex.Claims.Validate.{validate}
use aicortex.Claims.Validate.Valid.{IsValid, validate-IsValid}

abbrev pub role : PredicateDef
role = record {
  name = "role";
  subjects = "person" ∷ [];
  value = record { kind = ValueKind.enum; units = []; variants = "lead" ∷ "member" ∷ [] };
  cardinality = Cardinality.many "team";
  valid_time = ValidTimeMode.timeless;
  supersession = SupersessionRule.explicit_only;
  epistemic = Stance.asserted ∷ [];
  deprecated = false;
}

abbrev pub people : ℕ → PredicateSet
people version = record {
  namespace = "org";
  version = version;
  subject_kinds = "person" ∷ [];
  predicates = role ∷ [];
}

abbrev pub org : Snapshot
org = people 1 ∷ []

abbrev pub notes : Provenance
notes = captured (record { system = "notes"; external_id = none; locator = none }) 1 2

abbrev pub leads : Claim
leads = record {
  id = 7;
  scope = record { owner = "o"; kind = personal };
  subject = record { namespace = "org"; kind = "person"; key = "s" };
  predicate = record { namespace = "org"; name = "role"; version = 1 };
  value = ClaimValue.enum "lead";
  slot = some "core";
  epistemic = record { stance = Stance.asserted; condition = none };
  provenance = notes;
  schema_version = 1;
}

abbrev pub any_nfc : Text → Bool
any_nfc t = true

role_checks : new_predicate role ≡ ok role
unfolding new_predicate
role_checks = refl

predicate_of_raw-raw_of_predicate_example : predicate_of_raw (raw_of_predicate role) ≡ ok role
predicate_of_raw-raw_of_predicate_example = predicate_of_raw-raw_of_predicate role role role_checks

two_versions : from_sets (people 2 ∷ people 1 ∷ []) ≡ ok (people 2 ∷ people 1 ∷ [])
unfolding from_sets successor string_discrete predicate Cardinality-discrete ValueKind-discrete
two_versions = refl

from_sets-IsRegistry_example : IsRegistry (people 2 ∷ people 1 ∷ [])
from_sets-IsRegistry_example =
    from_sets-IsRegistry (people 2 ∷ people 1 ∷ []) (people 2 ∷ people 1 ∷ []) two_versions

second_version : admit org (people 2) ≡ ok (people 2 ∷ org, Admission.new)
unfolding admit successor string_discrete predicate Cardinality-discrete ValueKind-discrete
second_version = refl

admit-set_at_example :
    set_at (people 2 ∷ org) "org" 1
    ≡ named_after (set_at org "org" 1) (is_keyed (people 2) "org" 1) (people 2)
admit-set_at_example =
    admit-set_at org (people 2) (people 2 ∷ org, Admission.new) "org" 1 second_version

validate-IsValid_example :
    (validate any_nfc leads org ≡ ok role)
    ↔ ((find org leads.predicate ≡ some role) × IsValid any_nfc leads role)
validate-IsValid_example = validate-IsValid any_nfc leads org role

pub leads_valid : validate any_nfc leads org ≡ ok role
unfolding validate find set_at predicate string_discrete ValueKind-discrete Stance-discrete captured
leads_valid = refl
