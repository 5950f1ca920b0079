-- ===== src/Gate/ClaimGate/Evaluate.antt =====
-- `Gate::evaluate_claim` (crates/aicortex-gate/src/claim_gate.rs): the walk over a proposal, and the claim
-- that is built where it passes.
use aicortex.Prelude.{
  ℕ, Bool, true, false, Option, none, some, List, [], ◌∷◌, if◌then◌else◌, Result, ok, err,
}
use Prim.Native.String.{String}
use aicortex.Text.{Text}
use aicortex.Types.Memory.{Actor}
use aicortex.Types.Claim.{AuthorityLevel, Claim, ClaimRelation, Sourcing}
use aicortex.Types.Evidence.{Evidence, ClaimProposal, corrected}
use aicortex.Claims.Registry.{Snapshot}
use aicortex.Gate.Capture.{Finding}
use aicortex.Gate.Walk.{Walked, Step, ClosedGate}
use aicortex.Gate.Walk.Run.{walk}
use aicortex.Gate.ClaimGate.Policy.{AdmissionPolicy, PolicyRef, reference}
use aicortex.Gate.ClaimGate.Grounds.{
  Proposal, ClaimContext, ClaimReason, authority_insufficient, policy_denied, grounds_of, Related,
  relate,
}
use aicortex.Gate.ClaimGate.Steps.{grounds, claim_steps, claim_walk}

pub record AdmittedClaim : Type 0 where
  pub claim : Claim
  pub proposal : ℕ
  pub proposer : Actor
  pub policy : PolicyRef
  pub authority : AuthorityLevel
  pub sourcing : Sourcing
  pub evidence : List Evidence
  pub relations : List ClaimRelation
  pub corrects : List ℕ
  pub conflicts : List ℕ

unfoldable pub is_correction : AdmittedClaim → Bool
is_correction a = elim a.corrects [ [] ↦ false | x ∷ xs ↦ true ]

pub data ClaimVerdict : Type 0 where
  admit : AdmittedClaim → ClaimVerdict
  hold : ClaimProposal → ClaimReason → ClaimVerdict
  refuse : ClaimReason → ClaimVerdict

unfoldable pub reason : ClaimVerdict → Option ClaimReason
reason (admit a) = none
reason (hold p r) = some r
reason (refuse r) = some r

unfoldable pub label : ClaimVerdict → String
label (admit a) = "admit"
label (hold p r) = "hold"
label (refuse r) = "refuse"

unfoldable pub admitted_claim : ClaimVerdict → Option AdmittedClaim
admitted_claim (admit a) = some a
admitted_claim _ = none

pub data Judgement : Type 0 where
  admit : AdmittedClaim → Judgement
  hold refuse : ClaimReason → Judgement

module _ {Secrets : Type 0} where
  abbrev pub admitted_as : Proposal Secrets → AuthorityLevel → Related → AdmittedClaim
  admitted_as s authority r = record {
    claim = s.proposal.claim;
    proposal = s.proposal.id;
    proposer = s.proposal.proposer;
    policy = reference s.policy;
    authority = authority;
    sourcing = (grounds s).sourcing;
    evidence = s.proposal.evidence;
    relations = r.relations;
    corrects = if (grounds s).correcting then corrected s.proposal else [];
    conflicts = r.conflicts;
  }

  abbrev pub admitted_with :
      Proposal Secrets → AuthorityLevel → Result ClaimReason Related → Judgement
  admitted_with s authority (err reason) = Judgement.refuse reason
  admitted_with s authority (ok r) = Judgement.admit (admitted_as s authority r)

  abbrev pub admitted_at : Proposal Secrets → Option AuthorityLevel → Judgement
  admitted_at s none = Judgement.refuse authority_insufficient
  admitted_at s (some authority) = admitted_with s authority (relate s (grounds s) authority)

  -- The claim that is built after every step passed; the refusals of the steps are answered again.
  unfoldable pub admitted : Proposal Secrets → Judgement
  unfolding relate grounds_of corrected reference
  admitted s = admitted_at s (grounds s).authority

  abbrev pub judgement_of : Proposal Secrets → Walked ClaimReason → Judgement
  judgement_of s (Walked.fault reason) = Judgement.refuse reason
  judgement_of s (Walked.hold reason) = Judgement.hold reason
  judgement_of s Walked.pass = admitted s

  unfoldable pub walk_claim :
      ClosedGate → Proposal Secrets → List (Step (Proposal Secrets) ClaimReason) → Judgement
  unfolding admitted
  walk_claim closed s steps = judgement_of s (walk closed s steps claim_steps policy_denied)

abbrev pub verdict_of : ClaimProposal → Judgement → ClaimVerdict
verdict_of p (Judgement.refuse reason) = ClaimVerdict.refuse reason
verdict_of p (Judgement.hold reason) = ClaimVerdict.hold p reason
verdict_of p (Judgement.admit a) = ClaimVerdict.admit a

-- The parameters: the closed gate, the test for the normalization form, and the detectors' scan.
module _ {Secrets : Type 0} (closed : ClosedGate) (is_nfc : Text → Bool)
    (scan : Text → Secrets → Option Finding) where
  unfoldable pub judge : Proposal Secrets → Judgement
  unfolding walk_claim
  judge s = walk_claim closed s (claim_walk is_nfc scan)

  unfoldable pub evaluate_claim :
      Secrets → ClaimProposal → Snapshot → AdmissionPolicy → ClaimContext → ClaimVerdict
  unfolding judge
  evaluate_claim secrets p registry policy context = verdict_of p (
      judge (record {
        proposal = p;
        registry = registry;
        policy = policy;
        context = context;
        secrets = secrets;
      }))
