-- ===== src/Gate/ClaimGate/Admission.antt =====
-- What the claim gate (crates/aicortex-gate/src/claim_gate.rs) demands of a claim that it admits.
use aicortex.Prelude.{◌≡◌, refl, sym, ap, ◌∙◌, Bool, ◌↔◌, Option}
use aicortex.Text.{Text}
use aicortex.Types.Claim.{AuthorityLevel}
use aicortex.Types.Evidence.{ClaimProposal}
use aicortex.Claims.Registry.{Snapshot}
use aicortex.Gate.Capture.{Finding}
use aicortex.Gate.Walk.{Walked, ClosedGate}
use aicortex.Gate.Walk.Laws.{IsClosed}
use aicortex.Gate.Walk.Chain.{chain}
use aicortex.Gate.ClaimGate.Policy.{AdmissionPolicy}
use aicortex.Gate.ClaimGate.Grounds.{Proposal, ClaimReason, ClaimContext, Related}
use aicortex.Gate.ClaimGate.Steps.{claim_walk}
use aicortex.Gate.ClaimGate.Evaluate.{
  AdmittedClaim, Judgement, ClaimVerdict, admitted, admitted_as, judgement_of, verdict_of,
  evaluate_claim,
}
use aicortex.Gate.ClaimGate.Chain.{evaluate_claim-eq-chain}
use aicortex.Gate.ClaimGate.Sound.{
  after-pass, IsSound, IsGrounded, SevenPass-IsSound, IsSound-SevenPass, ground_step-Grounded,
  Grounded-pass, admitted-Grounded,
}

verdict_of-admit :
    (p : ClaimProposal) (j : Judgement) (a : AdmittedClaim)
    → verdict_of p j ≡ ClaimVerdict.admit a
    → j ≡ Judgement.admit a
verdict_of-admit p (Judgement.refuse r) a e = cc
verdict_of-admit p (Judgement.hold r) a e = cc
verdict_of-admit p (Judgement.admit b) a e = ap (λ x. Judgement.admit (claim_of x)) e
  where
    claim_of : ClaimVerdict → AdmittedClaim
    claim_of (ClaimVerdict.admit c) = c
    claim_of _ = b

judgement_of-admit :
    {Secrets : Type 0} (s : Proposal Secrets) (w : Walked ClaimReason) (a : AdmittedClaim)
    → judgement_of s w ≡ Judgement.admit a
    → (w ≡ Walked.pass) × (admitted s ≡ Judgement.admit a)
judgement_of-admit s (Walked.fault r) a e = cc
judgement_of-admit s (Walked.hold r) a e = cc
judgement_of-admit s Walked.pass a e = (refl, e)

admit-injective : (a b : AdmittedClaim) → Judgement.admit a ≡ Judgement.admit b → a ≡ b
admit-injective a b e = ap claim_of e
  where
    claim_of : Judgement → AdmittedClaim
    claim_of (Judgement.admit c) = c
    claim_of _ = a

module _ {Secrets : Type 0} (is_nfc : Text → Bool) (scan : Text → Secrets → Option Finding)
    (s : Proposal Secrets) where
  chain-pass :
      (chain s (claim_walk is_nfc scan) ≡ Walked.pass)
      → IsSound is_nfc scan s × ((level : AuthorityLevel) × (r : Related) × IsGrounded s level r)
  chain-pass e =
      let (p0, e0) = (after-pass _ _).0 e in
      let (p1, e1) = (after-pass _ _).0 e0 in
      let (p2, e2) = (after-pass _ _).0 e1 in
      let (p3, e3) = (after-pass _ _).0 e2 in
      let (p4, e4) = (after-pass _ _).0 e3 in
      let (p5, e5) = (after-pass _ _).0 e4 in
      let (p6, e6) = (after-pass _ _).0 e5 in
      let (p7, e7) = (after-pass _ _).0 e6 in
      let (p8, e8) = (after-pass _ _).0 e7 in
      let (p9, e9) = (after-pass _ _).0 e8 in
      (SevenPass-IsSound is_nfc scan s (p0, p1, p2, p3, p4, p5, p6), ground_step-Grounded s p9)

  pass-chain :
      (level : AuthorityLevel) (r : Related)
      → IsSound is_nfc scan s
      → IsGrounded s level r
      → chain s (claim_walk is_nfc scan) ≡ Walked.pass
  pass-chain level r k g =
      let (p0, p1, p2, p3, p4, p5, p6) = IsSound-SevenPass is_nfc scan s k in
      let (p7, p8, p9) = Grounded-pass s level r g in
      rw (p0, p1, p2, p3, p4, p5, p6, p7, p8, p9) refl

module _ {Secrets : Type 0} (closed : ClosedGate) (law : IsClosed closed) (is_nfc : Text → Bool)
    (scan : Text → Secrets → Option Finding) (secrets : Secrets) (p : ClaimProposal)
    (registry : Snapshot) (policy : AdmissionPolicy) (context : ClaimContext) where
  abbrev subject : Proposal Secrets
  subject = record {
    proposal = p;
    registry = registry;
    policy = policy;
    context = context;
    secrets = secrets;
  }

  -- Under the documented behaviour of the closed gate, the gate admits a proposal as `a` exactly when
  -- the proposal is sound (its claim valid against the registered predicate, no secret in its
  -- strings, evidence offered, every cited source available, no seed beside a user statement, no
  -- score below the floor, no honoured user statement below the user's level) and grounded: the
  -- evidence earns some authority, the relations to the targets are allowed, there is a ground of
  -- admission, and a review where a target of higher authority is superseded. Then `a` is the
  -- proposed claim with that authority and those relations.
  pub evaluate_claim_admits :
      (a : AdmittedClaim)
      → (evaluate_claim closed is_nfc scan secrets p registry policy context ≡ ClaimVerdict.admit a)
        ↔ (IsSound is_nfc scan subject
            × ((level : AuthorityLevel) × (r : Related) × IsGrounded subject level r
                × (a ≡ admitted_as subject level r)))
  evaluate_claim_admits a = (forward, backward)
    where
      chained :
          evaluate_claim closed is_nfc scan secrets p registry policy context
          ≡ verdict_of p (judgement_of subject (chain subject (claim_walk is_nfc scan)))
      chained = evaluate_claim-eq-chain closed law is_nfc scan secrets p registry policy context

      forward :
          evaluate_claim closed is_nfc scan secrets p registry policy context ≡ ClaimVerdict.admit a
          → IsSound is_nfc scan subject
            × ((level : AuthorityLevel) × (r : Related) × IsGrounded subject level r
                × (a ≡ admitted_as subject level r))
      forward e =
          let (w, b) = judgement_of-admit subject _ a (verdict_of-admit p _ a (sym chained ∙ e)) in
          let (k, (level, r, g)) = chain-pass is_nfc scan subject w in
          (k, (level, r, g, admit-injective a _ (sym b ∙ admitted-Grounded subject level r g)))

      backward :
          IsSound is_nfc scan subject
            × ((level : AuthorityLevel) × (r : Related) × IsGrounded subject level r
                × (a ≡ admitted_as subject level r))
          → evaluate_claim closed is_nfc scan secrets p registry policy context
            ≡ ClaimVerdict.admit a
      backward (k, (level, r, g, e)) =
          chained
          ∙ ap (λ w. verdict_of p (judgement_of subject w))
              (pass-chain is_nfc scan subject level r k g)
          ∙ ap (verdict_of p) (admitted-Grounded subject level r g)
          ∙ ap ClaimVerdict.admit (sym e)
