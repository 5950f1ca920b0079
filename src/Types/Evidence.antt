-- ===== src/Types/Evidence.antt =====
-- crates/aicortex-types/src/claim_evidence.rs: what supports a proposed claim. A seed set's name and a
-- person's are strings; a score is its basis points.
use aicortex.Prelude.{
  ℕ, Bool, true, false, Option, none, some, List, ltb, filter_map, if◌then◌else◌, Result, ok, err,
}
use Prim.Native.String.{String}
use aicortex.Types.Error.{TypeError, invalid}
use aicortex.Types.Memory.{Actor, SourceSpan, ExtractorVersion}
use aicortex.Types.Claim.{
  AuthorityLevel, user_asserted, user_corrected, Claim, RelationKind, supersedes, contradicts,
  derived_from,
}

unfoldable pub is_user_level : AuthorityLevel → Bool
is_user_level user_asserted = true
is_user_level user_corrected = true
is_user_level _ = false

pub data EvidenceKind : Type 0 where
  source_span span_verified model_score rule_match user_statement corroboration review_approval :
      EvidenceKind
  operator_seed : EvidenceKind

abbrev pub score_scale : ℕ
score_scale = 10000

unfoldable pub new_score : ℕ → Result TypeError ℕ
new_score basis_points =
    if ltb score_scale basis_points then err (invalid "score") else ok basis_points

pub record SeedRef : Type 0 where
  pub set : String
  pub version : ℕ

pub data Evidence : Type 0 where
  source_span : SourceSpan → Evidence
  span_verified : SourceSpan → ExtractorVersion → Evidence
  model_score : ExtractorVersion → ℕ → String → Evidence
  rule_match : ExtractorVersion → Evidence
  user_statement : String → AuthorityLevel → Evidence
  corroboration : List ℕ → Evidence
  review_approval : String → String → Evidence
  operator_seed : String → SeedRef → Evidence

unfoldable pub evidence_kind : Evidence → EvidenceKind
evidence_kind (Evidence.source_span s) = EvidenceKind.source_span
evidence_kind (Evidence.span_verified s m) = EvidenceKind.span_verified
evidence_kind (Evidence.model_score m s l) = EvidenceKind.model_score
evidence_kind (Evidence.rule_match r) = EvidenceKind.rule_match
evidence_kind (Evidence.user_statement b a) = EvidenceKind.user_statement
evidence_kind (Evidence.corroboration c) = EvidenceKind.corroboration
evidence_kind (Evidence.review_approval b d) = EvidenceKind.review_approval
evidence_kind (Evidence.operator_seed b s) = EvidenceKind.operator_seed

unfoldable pub evidence_span : Evidence → Option SourceSpan
evidence_span (Evidence.source_span s) = some s
evidence_span (Evidence.span_verified s m) = some s
evidence_span _ = none

pub record ProposedRelation : Type 0 where
  pub kind : RelationKind
  pub to : ℕ

pub record ClaimProposal : Type 0 where
  pub id : ℕ
  pub claim : Claim
  pub proposer : Actor
  pub evidence : List Evidence
  pub relations : List ProposedRelation
  pub proposed_at : ℕ

abbrev pub correcting_target : ProposedRelation → Option ℕ
correcting_target r = elim r.kind [
  | supersedes ↦ some r.to
  | contradicts ↦ some r.to
  | derived_from ↦ none
]

-- The targets of its `supersedes` and `contradicts` relations.
unfoldable pub corrected : ClaimProposal → List ℕ
corrected p = filter_map correcting_target p.relations
