-- ===== src/Tests/ClaimGate.antt =====
-- The claim gate's theorems at concrete proposals.
use aicortex.Prelude.{
  ◌≡◌, ◌≢◌, refl, ◌↔◌, true, false, Option, none, some, List, [], ◌∷◌, ok, In, inl, inr, All,
}
use aicortex.Text.{Text, is_whitespace}
use aicortex.Text.Trim.{is_empty, trim, trim_end, trim_start}
use aicortex.Text.Chars.{chars}
use aicortex.Types.Memory.{human, is_human, captured, ExtractorVersion, Actor}
use aicortex.Types.Claim.{
  AuthorityLevel, inferred, user_corrected, supersedes, Sourcing, new_relation,
}
use aicortex.Types.Evidence.{
  Evidence, evidence_kind, ClaimProposal, ProposedRelation, is_user_level, corrected, evidence_span,
}
use aicortex.Claims.Registry.{find, set_at}
use aicortex.Types.Predicate.{ValueKind-discrete, Stance-discrete, predicate}
use aicortex.Gate.Capture.{Finding}
use aicortex.Gate.Walk.Chain.{chain}
use aicortex.Gate.ClaimGate.Policy.{initial_policy, new_policy, ceiling_of, ceiling}
use aicortex.Gate.ClaimGate.Grounds.{
  Proposal, ClaimContext, Related, relate, Grounds, grounds_of, user_statements, seeds, earned,
  Scope-discrete,
}
use aicortex.Gate.ClaimGate.Steps.{
  claim_walk, vocabulary, secrets_step, provenance, sources, seed, score_floor, user_level,
  authority_step, relations_step, ground_step,
}
use aicortex.Gate.ClaimGate.Evaluate.{
  AdmittedClaim, ClaimVerdict, label, judgement_of, verdict_of, admitted_as, evaluate_claim,
}
use aicortex.Gate.ClaimGate.Chain.{evaluate_claim-eq-chain}
use aicortex.Gate.ClaimGate.Sound.{IsSound, IsGrounded}
use aicortex.Gate.ClaimGate.Admission.{evaluate_claim_admits}
use aicortex.Gate.ClaimGate.Inference.{OnlyInferred, evaluate_claim-OnlyInferred}
use aicortex.Gate.ClaimGate.Bounds.{◌⊑◌, earned_of, AtMost, grounds_of-below, grounds_of-human}
use aicortex.Gate.ClaimGate.Relations.{related_by}
use aicortex.Prelude.Strings.{string_discrete}
use aicortex.Gate.Walk.Run.{walk}
use aicortex.Tests.Closed.{closed_gate, closed_gate-IsClosed}
use aicortex.Tests.Registry.{leads, org, any_nfc}

-- The detectors of the examples find nothing.
abbrev quiet : Text → Unit {0} → Option Finding
quiet t rules = none

abbrev owner : Actor
owner = record { kind = human; id = "o"; label = none }

abbrev model : ExtractorVersion
model = record { name = "m"; version = "1" }

abbrev proposed : List Evidence → List ProposedRelation → ClaimProposal
proposed evidence relations = record {
  id = 1;
  claim = leads;
  proposer = owner;
  evidence = evidence;
  relations = relations;
  proposed_at = 3;
}

abbrev stated : List Evidence
stated = Evidence.user_statement "o" user_corrected ∷ []

abbrev guessed : List Evidence
guessed = Evidence.model_score model 9000 "label" ∷ []

abbrev known : ClaimContext
known = record {
  sources = [];
  targets =
      (4, record { scope = leads.scope; authority = inferred; sourcing = Sourcing.user }) ∷ [];
}

abbrev over_four : List ProposedRelation
over_four = record { kind = supersedes; to = 4 } ∷ []

abbrev asked : ClaimProposal → Proposal (Unit {0})
asked p = record {
  proposal = p;
  registry = org;
  policy = initial_policy;
  context = known;
  secrets = tt;
}

abbrev verdict : ClaimProposal → ClaimVerdict
verdict p = evaluate_claim closed_gate any_nfc quiet tt p org initial_policy known

abbrev asserted_at : Grounds
asserted_at = grounds_of (proposed stated over_four) initial_policy

stated_authority : asserted_at.authority ≡ some user_corrected
unfolding grounds_of ceiling initial_policy earned user_statements evidence_kind corrected
stated_authority = refl

evaluate_claim-eq-chain_example :
    verdict (proposed stated over_four)
    ≡ verdict_of (proposed stated over_four) (
        judgement_of
          (asked (proposed stated over_four))
          (chain (asked (proposed stated over_four)) (claim_walk any_nfc quiet)))
evaluate_claim-eq-chain_example =
    evaluate_claim-eq-chain closed_gate closed_gate-IsClosed any_nfc quiet tt
      (proposed stated over_four) org initial_policy known

abbrev as_admitted : AdmittedClaim
as_admitted = admitted_as (asked (proposed stated over_four)) user_corrected (record {
  relations =
      related_by leads asserted_at user_corrected (record { kind = supersedes; to = 4 }) ∷ [];
  conflicts = [];
  outranked = false;
})

evaluate_claim_admits_example :
    (verdict (proposed stated over_four) ≡ ClaimVerdict.admit as_admitted) ↔ (
      IsSound any_nfc quiet (asked (proposed stated over_four))
      × ((level : AuthorityLevel) × (r : Related) × IsGrounded
            (asked (proposed stated over_four))
            level
            r
          × (as_admitted ≡ admitted_as (asked (proposed stated over_four)) level r)))
evaluate_claim_admits_example =
    evaluate_claim_admits closed_gate closed_gate-IsClosed any_nfc quiet tt
      (proposed stated over_four) org initial_policy known as_admitted

initial_adopted : new_policy initial_policy ≡ ok initial_policy
unfolding new_policy initial_policy is_empty trim trim_end trim_start chars is_whitespace
initial_adopted = refl

guessed-OnlyInferred : OnlyInferred guessed
unfolding evidence_kind
guessed-OnlyInferred e (inl p) = rw p refl
guessed-OnlyInferred e (inr i) = elim i [ ]

evaluate_claim-OnlyInferred_example : verdict (proposed guessed []) ≢ ClaimVerdict.admit as_admitted
evaluate_claim-OnlyInferred_example =
    evaluate_claim-OnlyInferred closed_gate closed_gate-IsClosed any_nfc quiet tt
      (proposed guessed []) org initial_policy initial_policy known as_admitted initial_adopted
      guessed-OnlyInferred

grounds_of-below_example :
    ((e : Evidence) × In e stated
      × (earned_of (proposed stated over_four) initial_policy e ≡ some user_corrected)
      × (most : AuthorityLevel) × (ceiling_of (evidence_kind e) ≡ some most)
      × (user_corrected ⊑ most))
    × All
        (λ e. AtMost (earned_of (proposed stated over_four) initial_policy e) user_corrected)
        stated
grounds_of-below_example =
    grounds_of-below (proposed stated over_four) initial_policy user_corrected stated_authority

asserted_is_user : is_user_level user_corrected ≡ true
unfolding is_user_level
asserted_is_user = refl

grounds_of-human_example :
    (is_human human ≡ true) × ((a : AuthorityLevel) × In (Evidence.user_statement "o" a) stated)
grounds_of-human_example =
    grounds_of-human (proposed stated over_four) initial_policy user_corrected stated_authority
      asserted_is_user

-- The owner's statement on their own data is admitted, and a score is held.
stated_admitted : label (verdict (proposed stated over_four)) ≡ "admit"
unfolding evaluate_claim label walk vocabulary find string_discrete ValueKind-discrete
    Stance-discrete captured secrets_step provenance sources seed score_floor initial_policy
    user_level authority_step earned ceiling ground_step relations_step corrected evidence_kind
    user_statements seeds grounds_of relate new_relation Scope-discrete chars set_at predicate
    evidence_span is_user_level is_human
stated_admitted = refl

guessed_held : label (verdict (proposed guessed [])) ≡ "hold"
unfolding evaluate_claim label walk vocabulary find string_discrete ValueKind-discrete
    Stance-discrete captured secrets_step provenance sources seed score_floor initial_policy
    user_level authority_step earned ceiling ground_step relations_step corrected evidence_kind
    user_statements seeds grounds_of relate new_relation Scope-discrete chars set_at predicate
    evidence_span is_user_level is_human
guessed_held = refl
