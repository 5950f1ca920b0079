-- ===== src/Gate/ClaimGate/Grounds.antt =====
-- What the steps of crates/aicortex-gate/src/claim_gate.rs share: the store's facts, the authority that the
-- evidence earns, and the relations against the claims that they target. A map is an association
-- list, of which the first entry counts.
use aicortex.Prelude.{
  ℕ, Bool, true, false, not, ◌&&◌, ◌||◌, Option, none, some, List, [], ◌∷◌, ◌++◌, map, any, ltb,
  ◌==◌, filter_map, if◌then◌else◌, Result, ok, err, ◌>>=◌,
}
use aicortex.Prelude.Equal.{same}
use aicortex.Prelude.Strings.{string_discrete}
use Prim.Native.String.{String}
use package.text.Mathlib.Text.{◌==◌ as str_eq}
use aicortex.Types.Error.{TypeError}
use aicortex.Types.Memory.{Actor, is_human, Scope}
use aicortex.Types.Claim.{
  AuthorityLevel, authority_key, user_asserted, user_corrected, Claim, RelationKind, supersedes,
  contradicts, RelationTarget, ClaimRelation, new_relation, Sourcing,
}
use aicortex.Types.Evidence.{
  Evidence, evidence_kind, evidence_span, EvidenceKind, SeedRef, ClaimProposal, ProposedRelation,
  corrected,
}
use aicortex.Claims.Registry.{Snapshot}
use aicortex.Gate.ClaimGate.Policy.{AdmissionPolicy, ceiling, min_level, at_most}

pub data SourceState : Type 0 where
  available quarantined erased : SourceState

pub record TargetFacts : Type 0 where
  pub scope : Scope
  pub authority : AuthorityLevel
  pub sourcing : Sourcing

pub record ClaimContext : Type 0 where
  pub sources : List (ℕ × SourceState)
  pub targets : List (ℕ × TargetFacts)

unfoldable pub get : {A : Type 0} → List (ℕ × A) → ℕ → Option A
get [] key = none
get (entry ∷ rest) key = let later = get rest key in if entry.0 == key then some entry.1 else later

abbrev pub is_available : Option SourceState → Bool
is_available (some SourceState.available) = true
is_available _ = false

-- What the walk judges; the rules of the secret detectors belong to another crate.
pub record Proposal (Secrets : Type 0) : Type 0 where
  pub proposal : ClaimProposal
  pub registry : Snapshot
  pub policy : AdmissionPolicy
  pub context : ClaimContext
  pub secrets : Secrets

pub data ClaimField : Type 0 where
  value condition slot subject : ClaimField

pub data ClaimReason : Type 0 where
  unregistered_predicate : ClaimReason
  invalid_value : String → ClaimReason
  secret_detected : ClaimField → String → ℕ → ClaimReason
  source_unavailable : ℕ → ClaimReason
  no_provenance authority_insufficient below_score_floor : ClaimReason
  policy_denied : String → ClaimReason

unfoldable pub code : ClaimReason → String
code unregistered_predicate = "unregistered_predicate"
code (invalid_value rule) = "invalid_value"
code (secret_detected field detector offset) = "secret_detected"
code (source_unavailable source) = "source_unavailable"
code no_provenance = "no_provenance"
code authority_insufficient = "authority_insufficient"
code below_score_floor = "below_score_floor"
code (policy_denied rule) = "policy_denied"

pub record Statement : Type 0 where
  pub by : String
  pub asserted : AuthorityLevel

-- A statement of a human proposer about themselves; nobody else's is honoured.
abbrev pub honoured : Actor → Evidence → Option Statement
honoured proposer (Evidence.user_statement by authority) =
    if is_human proposer.kind && str_eq proposer.id by
    then some (record { by = by; asserted = authority })
    else none
honoured proposer _ = none

unfoldable pub user_statements : ClaimProposal → List Statement
unfolding is_human
user_statements p = filter_map (honoured p.proposer) p.evidence

abbrev pub seed_of : Evidence → Option SeedRef
seed_of (Evidence.operator_seed by s) = some s
seed_of _ = none

unfoldable pub seeds : ClaimProposal → List SeedRef
seeds p = filter_map seed_of p.evidence

abbrev pub is_empty_list : {A : Type 0} → List A → Bool
is_empty_list [] = true
is_empty_list (x ∷ xs) = false

-- The level of one item of evidence, before the policy's ceiling.
abbrev pub level_of : Bool → Bool → EvidenceKind → AuthorityLevel → Option AuthorityLevel
level_of honoured_statement correcting EvidenceKind.user_statement most =
    if not honoured_statement
    then none
    else if correcting
    then some user_corrected
    else some user_asserted
level_of honoured_statement correcting _ most = some most

abbrev pub under_ceiling : AuthorityLevel → Option AuthorityLevel → Option AuthorityLevel
under_ceiling most none = none
under_ceiling most (some level) = some (min_level level most)

abbrev pub earned_under : Bool → Bool → EvidenceKind → Option AuthorityLevel → Option AuthorityLevel
earned_under honoured_statement correcting kind none = none
earned_under honoured_statement correcting kind (some most) =
    under_ceiling most (level_of honoured_statement correcting kind most)

abbrev pub earned_by : AdmissionPolicy → Bool → Bool → Evidence → Option AuthorityLevel
earned_by policy honoured_statement correcting e =
    earned_under honoured_statement correcting (evidence_kind e) (ceiling policy (evidence_kind e))

abbrev pub max_level : AuthorityLevel → Option AuthorityLevel → AuthorityLevel
max_level a none = a
max_level a (some b) = if at_most a b then b else a

-- `Iterator::max`.
unfoldable pub max_levels : List AuthorityLevel → Option AuthorityLevel
max_levels [] = none
max_levels (a ∷ rest) = some (max_level a (max_levels rest))

unfoldable pub earned : ClaimProposal → AdmissionPolicy → Bool → Bool → Option AuthorityLevel
unfolding evidence_kind max_levels
earned p policy honoured_statement correcting =
    max_levels (filter_map (earned_by policy honoured_statement correcting) p.evidence)

pub record Grounds : Type 0 where
  pub authority : Option AuthorityLevel
  pub correcting : Bool
  pub own_data : Bool
  pub sourcing : Sourcing

abbrev pub is_correcting : ClaimProposal → Bool
is_correcting p = not (is_empty_list (user_statements p)) && not (is_empty_list (corrected p))

abbrev pub is_own_data : ClaimProposal → Bool
is_own_data p = any (λ s. str_eq s.by p.claim.scope.owner) (user_statements p)

unfoldable pub grounds_of : ClaimProposal → AdmissionPolicy → Grounds
grounds_of p policy = record {
  authority = earned p policy (not (is_empty_list (user_statements p))) (is_correcting p);
  correcting = is_correcting p;
  own_data = is_own_data p;
  sourcing =
      if is_own_data p
      then Sourcing.user
      else if not (is_empty_list (seeds p))
      then Sourcing.seed
      else Sourcing.supplier;
}

unfoldable pub Scope-discrete : Discrete Scope
Scope-discrete = hlevel (string_discrete)

abbrev pub is_user : Sourcing → Bool
is_user Sourcing.user = true
is_user _ = false

abbrev pub is_supplier : Sourcing → Bool
is_supplier Sourcing.supplier = true
is_supplier _ = false

abbrev pub is_supersedes : RelationKind → Bool
is_supersedes supersedes = true
is_supersedes _ = false

abbrev pub is_contradicts : RelationKind → Bool
is_contradicts contradicts = true
is_contradicts _ = false

pub record Related : Type 0 where
  pub relations : List ClaimRelation
  pub conflicts : List ℕ
  pub outranked : Bool

-- `ClaimRelation::new`, every error of it being a relation of the claim to itself.
abbrev pub built : Result TypeError ClaimRelation → Result ClaimReason ClaimRelation
built (err e) = err (policy_denied "self_relation")
built (ok r) = ok r

abbrev pub raised : ProposedRelation → TargetFacts → AuthorityLevel → Bool
raised relation target authority =
    is_supersedes relation.kind && ltb (authority_key authority) (authority_key target.authority)

abbrev pub conflict : Grounds → ProposedRelation → TargetFacts → List ℕ
conflict grounds relation target =
    if is_contradicts relation.kind && grounds.correcting && is_supplier target.sourcing
    then relation.to ∷ []
    else []

-- One pass of the loop over the relations.
unfoldable pub relate_to :
    Claim
    → Grounds
    → AuthorityLevel
    → Related
    → ProposedRelation
    → Option TargetFacts
    → Result ClaimReason Related
unfolding Scope-discrete new_relation
relate_to claim grounds authority related relation none = err (policy_denied "unknown_target")
relate_to claim grounds authority related relation (some target) =
    if not (same Scope-discrete target.scope claim.scope)
    then err (policy_denied "cross_scope_relation")
    else if is_supersedes relation.kind && is_user grounds.sourcing && is_supplier target.sourcing
    then err (policy_denied "user_supersedes_supplier")
    else (built
          (new_relation claim.id relation.kind (RelationTarget.claim relation.to) claim.provenance)
        >>= λ r. ok (record {
          relations = related.relations ++ r ∷ [];
          conflicts = related.conflicts ++ conflict grounds relation target;
          outranked = related.outranked || raised relation target authority;
        }))

unfoldable pub relate_from :
    Claim
    → Grounds
    → AuthorityLevel
    → ClaimContext
    → Related
    → List ProposedRelation
    → Result ClaimReason Related
unfolding relate_to get
relate_from claim grounds authority context related [] = ok related
relate_from claim grounds authority context related (relation ∷ rest) =
    relate_to claim grounds authority related relation (get context.targets relation.to) >>= λ next.
    relate_from claim grounds authority context next rest

abbrev pub unrelated : Related
unrelated = record { relations = []; conflicts = []; outranked = false }

unfoldable pub relate :
    {Secrets : Type 0} → Proposal Secrets → Grounds → AuthorityLevel → Result ClaimReason Related
unfolding relate_from
relate s grounds authority =
    relate_from s.proposal.claim grounds authority s.context unrelated s.proposal.relations

-- Every stored source that a proposal cites.
abbrev pub cited : ClaimProposal → List ℕ
cited p =
    p.claim.provenance.derived_from
    ++ map (λ s. s.source) p.claim.provenance.spans
    ++ map (λ s. s.source) (filter_map evidence_span p.evidence)

unfoldable pub first_unavailable : List (ℕ × SourceState) → List ℕ → Option ℕ
unfolding get
first_unavailable states [] = none
first_unavailable states (source ∷ rest) =
    let later = first_unavailable states rest in
    if is_available (get states source) then later else some source

unfoldable pub unavailable_source : ClaimProposal → ClaimContext → Option ℕ
unfolding first_unavailable evidence_span
unavailable_source p context = first_unavailable context.sources (cited p)
