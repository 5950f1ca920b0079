-- ===== src/Gate/ClaimGate/Chain.antt =====
-- The claim gate (crates/aicortex-gate/src/claim_gate.rs) against the chain of its ten steps.
use aicortex.Prelude.{
  ℕ, ◌≡◌, refl, ap, ◌≢◌, Bool, true, false, Option, none, some, List, [], ◌∷◌, Result, ok, err,
  arith,
}
use aicortex.Text.{Text}
use aicortex.Types.Claim.{AuthorityLevel}
use aicortex.Types.Evidence.{ClaimProposal}
use aicortex.Types.Predicate.{PredicateDef}
use aicortex.Claims.Registry.{Snapshot}
use aicortex.Claims.Validate.{ClaimError}
use aicortex.Gate.Capture.{Finding}
use aicortex.Gate.Walk.{Judged, ClosedGate}
use aicortex.Gate.Walk.Laws.{IsClosed}
use aicortex.Gate.Walk.Chain.{chain, HoldsOnly, walk-eq-chain}
use aicortex.Gate.ClaimGate.Policy.{AdmissionPolicy}
use aicortex.Gate.ClaimGate.Grounds.{
  Proposal, ClaimField, ClaimReason, authority_insufficient, policy_denied, ClaimContext, Related,
}
use aicortex.Gate.ClaimGate.Steps.{
  provenance, sources, seed, score_floor, user_level, authority_step, relations_step, ground_step,
  ground_of, ground_at, earns, of_result, unavailable, judged_valid, detected, scan_text,
  scan_fields, scanned, vocabulary, secrets_step, claim_steps, claim_walk, fault_if,
}
use aicortex.Gate.ClaimGate.Evaluate.{judgement_of, verdict_of, judge, walk_claim, evaluate_claim}

-- A judgement that never holds.
abbrev NoHold : Judged ClaimReason → Type 0
NoHold j = (q : ClaimReason) → j ≢ Judged.hold q

fault_if-NoHold : (b : Bool) (r : ClaimReason) → NoHold (fault_if b r)
unfolding fault_if
fault_if-NoHold true r q e = cc
fault_if-NoHold false r q e = cc

unavailable-NoHold : (o : Option ℕ) → NoHold (unavailable o)
unavailable-NoHold none q e = cc
unavailable-NoHold (some id) q e = cc

earns-NoHold : (o : Option AuthorityLevel) → NoHold (earns o)
earns-NoHold none q e = cc
earns-NoHold (some l) q e = cc

of_result-NoHold : (o : Result ClaimReason Related) → NoHold (of_result o)
of_result-NoHold (err r) q e = cc
of_result-NoHold (ok r) q e = cc

judged_valid-NoHold : (o : Result ClaimError PredicateDef) → NoHold (judged_valid o)
judged_valid-NoHold (err r) q e = cc
judged_valid-NoHold (ok r) q e = cc

detected-NoHold :
    (field : ClaimField) (o : Option Finding) (later : Judged ClaimReason)
    → NoHold later
    → NoHold (detected field o later)
detected-NoHold field none later h q e = h q e
detected-NoHold field (some f) later h q e = cc

module _ {Secrets : Type 0} (scan : Text → Secrets → Option Finding) (secrets : Secrets) where
  scan_fields-NoHold :
      (fields : List (ClaimField × Option Text)) → NoHold (scan_fields scan secrets fields)
  unfolding scan_fields
  scan_fields-NoHold [] q e = cc
  scan_fields-NoHold (entry ∷ rest) q e =
      detected-NoHold entry.0 (scan_text scan secrets entry.1) _ (scan_fields-NoHold rest) q e

-- The ground of admission is the only step that holds, and for one reason.
module _ {Secrets : Type 0} (s : Proposal Secrets) where
  ground_of-hold :
      (level : AuthorityLevel) (o : Result ClaimReason Related) (q : ClaimReason)
      → ground_of s level o ≡ Judged.hold q
      → q ≡ authority_insufficient
  ground_of-hold level (err r) q e = cc
  ground_of-hold level (ok r) q e = ground arith

  ground_at-hold :
      (o : Option AuthorityLevel) (q : ClaimReason)
      → ground_at s o ≡ Judged.hold q
      → q ≡ authority_insufficient
  ground_at-hold none q e = cc
  ground_at-hold (some level) q e = ground_of-hold level _ q e

module _ {Secrets : Type 0} (is_nfc : Text → Bool) (scan : Text → Secrets → Option Finding) where
  pub claim_walk-HoldsOnly :
      (s : Proposal Secrets) → HoldsOnly s authority_insufficient (claim_walk is_nfc scan)
  unfolding vocabulary secrets_step provenance sources seed score_floor user_level authority_step
      relations_step ground_step
  claim_walk-HoldsOnly s = (
    (λ q e. absurd (judged_valid-NoHold _ q e)),
    (
      (λ q e. absurd (scan_fields-NoHold scan s.secrets (scanned s.proposal.claim) q e)),
      (
        (λ q e. absurd (fault_if-NoHold _ _ q e)),
        (
          (λ q e. absurd (unavailable-NoHold _ q e)),
          (
            (λ q e. absurd (fault_if-NoHold _ _ q e)),
            (
              (λ q e. absurd (fault_if-NoHold _ _ q e)),
              (
                (λ q e. absurd (fault_if-NoHold _ _ q e)),
                (
                  (λ q e. absurd (earns-NoHold _ q e)),
                  ((λ q e. absurd (of_result-NoHold _ q e)), ((λ q e. ground_at-hold s _ q e), tt)),
                ),
              ),
            ),
          ),
        ),
      ),
    ),
  )

module _ {Secrets : Type 0} (closed : ClosedGate) (law : IsClosed closed) (is_nfc : Text → Bool)
    (scan : Text → Secrets → Option Finding) where
  pub judge-eq-chain :
      (s : Proposal Secrets)
      → judge closed is_nfc scan s ≡ judgement_of s (chain s (claim_walk is_nfc scan))
  unfolding judge walk_claim
  judge-eq-chain s = ap (judgement_of s) (
      walk-eq-chain closed law s claim_steps policy_denied (claim_walk is_nfc scan)
        authority_insufficient (λ e. cc) refl refl (claim_walk-HoldsOnly is_nfc scan s))

  -- For every proposal, registry, policy and context, under the documented behaviour of the closed
  -- gate, the verdict of `evaluate_claim` is that of the ten steps asked in order: the first refusal
  -- is the verdict, and a hold is the verdict only where no step refuses.
  pub evaluate_claim-eq-chain :
      (secrets : Secrets) (p : ClaimProposal) (registry : Snapshot) (policy : AdmissionPolicy)
      (context : ClaimContext)
      → evaluate_claim closed is_nfc scan secrets p registry policy context
        ≡ verdict_of p (
            judgement_of
              (record {
                proposal = p;
                registry = registry;
                policy = policy;
                context = context;
                secrets = secrets;
              })
              (chain
                (record {
                  proposal = p;
                  registry = registry;
                  policy = policy;
                  context = context;
                  secrets = secrets;
                })
                (claim_walk is_nfc scan)))
  unfolding evaluate_claim
  evaluate_claim-eq-chain secrets p registry policy context = ap (verdict_of p) (
      judge-eq-chain (record {
        proposal = p;
        registry = registry;
        policy = policy;
        context = context;
        secrets = secrets;
      }))
