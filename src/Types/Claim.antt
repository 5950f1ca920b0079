-- ===== src/Types/Claim.antt =====
-- crates/aicortex-types/src/{claim,claim_value,claim_evidence,predicate}.rs: what one typed claim
-- says, and the closed vocabularies around it.
use native.Mathlib.Decide.{ℕ_discrete}
use aicortex.Prelude.{ℕ, Bool, true, false, not, ◌&&◌, Option, ◌==◌, if◌then◌else◌, Result, ok, err}
use aicortex.Prelude.Int.{ℤ}
use aicortex.Prelude.Strings.{string_discrete}
use Prim.Native.String.{String, ◌++◌ as str_append}
use aicortex.Text.{Text}
use aicortex.Types.Error.{TypeError, invalid}
use aicortex.Types.Memory.{Scope, ScopeKind, personal, project, shared, Provenance}
use aicortex.Types.Time.Date.{CivilDate}
use aicortex.Types.Time.Zoned.{ZonedTime}
use aicortex.Types.Time.Interval.{Interval}

pub record SubjectRef : Type 0 where
  pub namespace : String
  pub kind : String
  pub key : String

pub record PredicateRef : Type 0 where
  pub namespace : String
  pub name : String
  pub version : ℕ

pub data Measure : Type 0 where
  currency measure : String → Measure

pub record Decimal : Type 0 where
  pub mantissa : ℤ
  pub scale : ℕ
  pub unit : Option Measure

pub data ClaimValue : Type 0 where
  text : Text → ClaimValue
  integer : ℤ → ClaimValue
  decimal : Decimal → ClaimValue
  date : CivilDate → ClaimValue
  date_time : ZonedTime → ClaimValue
  interval : Interval → ClaimValue
  entity_ref : SubjectRef → ClaimValue
  enum : String → ClaimValue

pub data Stance : Type 0 where
  asserted denied conditional requested confirmed estimated expected observed : Stance

pub record EpistemicStatus : Type 0 where
  pub stance : Stance
  pub condition : Option String

pub record Claim : Type 0 where
  pub id : ℕ
  pub scope : Scope
  pub subject : SubjectRef
  pub predicate : PredicateRef
  pub value : ClaimValue
  pub slot : Option String
  pub epistemic : EpistemicStatus
  pub provenance : Provenance
  pub schema_version : ℕ

pub data RelationKind : Type 0 where
  supersedes contradicts derived_from : RelationKind

pub data RelationTarget : Type 0 where
  claim memory : ℕ → RelationTarget

pub record ClaimRelation : Type 0 where
  pub from : ℕ
  pub kind : RelationKind
  pub to : RelationTarget
  pub provenance : Provenance

abbrev pub is_memory : RelationTarget → Bool
is_memory (memory id) = true
is_memory (claim id) = false

abbrev pub is_derived_from : RelationKind → Bool
is_derived_from derived_from = true
is_derived_from _ = false

abbrev pub is_claim_of : RelationTarget → ℕ → Bool
is_claim_of (claim id) from = id == from
is_claim_of (memory id) from = false

-- A memory is only ever derived from, and no claim is related to itself.
unfoldable pub new_relation :
    ℕ → RelationKind → RelationTarget → Provenance → Result TypeError ClaimRelation
new_relation from kind to provenance =
    if is_memory to && not (is_derived_from kind)
    then err (invalid "target")
    else if is_claim_of to from
    then err (invalid "target")
    else ok (record { from = from; kind = kind; to = to; provenance = provenance })

pub data AuthorityLevel : Type 0 where
  inferred extracted verified user_asserted user_corrected : AuthorityLevel

-- The declaration order, which the derived comparison follows.
abbrev pub authority_key : AuthorityLevel → ℕ
authority_key inferred = 0
authority_key extracted = 1
authority_key verified = 2
authority_key user_asserted = 3
authority_key user_corrected = 4

pub data Sourcing : Type 0 where
  user seed supplier : Sourcing

pub data SupersessionRule : Type 0 where
  by_source_order explicit_only accumulate : SupersessionRule

pub data ValidTimeMode : Type 0 where
  explicit from_source_time timeless : ValidTimeMode

unfoldable pub kind_label : ScopeKind → String
kind_label personal = "personal"
kind_label (project key) = "project"
kind_label (shared key) = "shared"

abbrev pub key_suffix : ScopeKind → String
key_suffix personal = ""
key_suffix (project key) = str_append "/" key
key_suffix (shared key) = str_append "/" key

-- `Display for Scope`.
unfoldable pub scope_string : Scope → String
unfolding kind_label
scope_string s =
    str_append (str_append (str_append s.owner "/") (kind_label s.kind)) (key_suffix s.kind)

-- `PartialEq for ClaimValue`, as derived: equality of the parts.
unfoldable pub ClaimValue-discrete : Discrete ClaimValue
ClaimValue-discrete = hlevel (ℕ_discrete, string_discrete)
