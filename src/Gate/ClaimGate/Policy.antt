-- ===== src/Gate/ClaimGate/Policy.antt =====
-- The admission policy of crates/aicortex-gate/src/claim_gate.rs: what each kind of evidence earns, and
-- what is admitted without review.
use aicortex.Prelude.{
  ℕ, Bool, false, ◌&&◌, ◌||◌, Option, none, some, List, [], ◌∷◌, any, ltb, leb, ◌==◌, if◌then◌else◌,
  Result, ok, err,
}
use aicortex.Prelude.Equal.{same, has}
use aicortex.Prelude.Strings.{string_discrete}
use native.Mathlib.Decide.{ℕ_discrete}
use Prim.Native.String.{String}
use package.text.Mathlib.Text.{◌==◌ as str_eq}
use aicortex.Text.Trim.{trim, is_empty}
use aicortex.Text.Chars.{chars}
use aicortex.Types.Claim.{
  AuthorityLevel, authority_key, inferred, extracted, verified, user_corrected, Claim,
}
use aicortex.Types.Evidence.{EvidenceKind, SeedRef}

-- The highest level that a kind of evidence can ever earn.
unfoldable pub ceiling_of : EvidenceKind → Option AuthorityLevel
ceiling_of EvidenceKind.model_score = some inferred
ceiling_of EvidenceKind.source_span = some extracted
ceiling_of EvidenceKind.rule_match = some extracted
ceiling_of EvidenceKind.operator_seed = some extracted
ceiling_of EvidenceKind.span_verified = some verified
ceiling_of EvidenceKind.user_statement = some user_corrected
ceiling_of EvidenceKind.corroboration = none
ceiling_of EvidenceKind.review_approval = none

unfoldable pub EvidenceKind-discrete : Discrete EvidenceKind
EvidenceKind-discrete = hlevel

unfoldable pub SeedRef-discrete : Discrete SeedRef
SeedRef-discrete = hlevel (ℕ_discrete, string_discrete)

pub record Ceiling : Type 0 where
  pub evidence : EvidenceKind
  pub level : AuthorityLevel

pub record Qualification : Type 0 where
  pub namespace : String
  pub predicate : String
  pub min_authority : AuthorityLevel
  pub decision : String

pub record SeedAcceptance : Type 0 where
  pub seed : SeedRef
  pub decision : String

pub data PolicyError : Type 0 where
  ceiling_raised duplicate_ceiling : EvidenceKind → PolicyError
  qualified_on_inference unnamed : PolicyError

pub record PolicyDocument : Type 0 where
  pub id : String
  pub version : ℕ
  pub score_floor : Option ℕ
  pub ceilings : List Ceiling
  pub qualified : List Qualification
  pub seeds : List SeedAcceptance

-- A policy is its document, once that was checked.
abbrev pub AdmissionPolicy : Type 0
AdmissionPolicy = PolicyDocument

abbrev pub at_most : AuthorityLevel → AuthorityLevel → Bool
at_most a b = leb (authority_key a) (authority_key b)

abbrev pub under : AuthorityLevel → Option AuthorityLevel → Bool
under level none = false
under level (some most) = at_most level most

-- The loop over the ceilings, with the kinds that were seen.
unfoldable pub check_ceilings : List EvidenceKind → List Ceiling → Option PolicyError
unfolding EvidenceKind-discrete ceiling_of
check_ceilings seen [] = none
check_ceilings seen (c ∷ cs) =
    let rest = check_ceilings (c.evidence ∷ seen) cs in
    if has EvidenceKind-discrete seen c.evidence
    then some (duplicate_ceiling c.evidence)
    else if under c.level (ceiling_of c.evidence)
    then rest
    else some (ceiling_raised c.evidence)

abbrev pub on_inference : Qualification → Bool
on_inference q = ltb (authority_key q.min_authority) (authority_key extracted)

abbrev pub adopt : PolicyDocument → Option PolicyError → Result PolicyError AdmissionPolicy
adopt doc (some e) = err e
adopt doc none = if any on_inference doc.qualified then err qualified_on_inference else ok doc

unfoldable pub new_policy : PolicyDocument → Result PolicyError AdmissionPolicy
unfolding check_ceilings
new_policy doc =
    if is_empty (trim (chars doc.id)) || doc.version == 0
    then err unnamed
    else adopt doc (check_ceilings [] doc.ceilings)

unfoldable pub initial_policy : AdmissionPolicy
initial_policy = record {
  id = "aicortex.claims.admission";
  version = 1;
  score_floor = none;
  ceilings = [];
  qualified = [];
  seeds = [];
}

abbrev pub min_level : AuthorityLevel → AuthorityLevel → AuthorityLevel
min_level a b = if at_most a b then a else b

unfoldable pub lowered : List Ceiling → EvidenceKind → AuthorityLevel → AuthorityLevel
unfolding EvidenceKind-discrete
lowered [] kind most = most
lowered (c ∷ cs) kind most =
    let rest = lowered cs kind most in
    if same EvidenceKind-discrete c.evidence kind then min_level c.level most else rest

abbrev pub lower_to : AdmissionPolicy → EvidenceKind → Option AuthorityLevel → Option AuthorityLevel
lower_to policy kind none = none
lower_to policy kind (some most) = some (lowered policy.ceilings kind most)

-- The level that a kind of evidence earns under this policy.
unfoldable pub ceiling : AdmissionPolicy → EvidenceKind → Option AuthorityLevel
unfolding ceiling_of lowered
ceiling policy kind = lower_to policy kind (ceiling_of kind)

abbrev pub qualifies_by : Claim → AuthorityLevel → Qualification → Bool
qualifies_by claim authority q =
    str_eq q.namespace claim.predicate.namespace
    && str_eq q.predicate claim.predicate.name
    && at_most q.min_authority authority

unfoldable pub qualifies : AdmissionPolicy → Claim → AuthorityLevel → Bool
qualifies policy claim authority = any (qualifies_by claim authority) policy.qualified

unfoldable pub accepts : AdmissionPolicy → SeedRef → Bool
unfolding SeedRef-discrete
accepts policy seed = any (λ a. same SeedRef-discrete a.seed seed) policy.seeds

pub record PolicyRef : Type 0 where
  pub id : String
  pub version : ℕ

unfoldable pub reference : AdmissionPolicy → PolicyRef
reference policy = record { id = policy.id; version = policy.version }
