-- ===== src/Gate/ClaimGate/Inference.antt =====
-- A model's inference alone admits nothing (crates/aicortex-gate/src/claim_gate.rs).
use aicortex.Prelude.{
  ◌≡◌, ◌≢◌, refl, sym, ◌∙◌, Bool, true, false, ◌||◌, Option, none, some, List, [], In, inl, inr,
  any, any-false-In, any-false_of, filter_map-nil, some-injective, ok, err, ok-injective, arith,
  Bool-cases,
}
use mathlib.Core.Path.{subst}
use aicortex.Text.{Text}
use aicortex.Text.Trim.{trim, is_empty}
use aicortex.Text.Chars.{chars}
use aicortex.Prelude.{◌==◌}
use aicortex.Types.Memory.{Actor}
use aicortex.Types.Claim.{AuthorityLevel, inferred, Claim}
use aicortex.Types.Evidence.{Evidence, EvidenceKind, evidence_kind, ClaimProposal}
use aicortex.Claims.Registry.{Snapshot}
use aicortex.Gate.Capture.{Finding}
use aicortex.Gate.Walk.{ClosedGate}
use aicortex.Gate.Walk.Laws.{IsClosed}
use aicortex.Gate.ClaimGate.Policy.{
  PolicyDocument, PolicyError, Qualification, ceiling_of, new_policy, adopt, check_ceilings,
  on_inference, qualifies, qualifies_by,
}
use aicortex.Gate.ClaimGate.Grounds.{
  Proposal, ClaimContext, honoured, user_statements, seed_of, seeds, grounds_of,
}
use aicortex.Gate.ClaimGate.Steps.{is_review, grounded, reviewed}
use aicortex.Gate.ClaimGate.Evaluate.{AdmittedClaim, ClaimVerdict, evaluate_claim}
use aicortex.Gate.ClaimGate.Bounds.{◌⊑◌, grounds_of-below}
use aicortex.Gate.ClaimGate.Admission.{evaluate_claim_admits}

-- Every item of the evidence is a model's score.
abbrev pub OnlyInferred : List Evidence → Type 0
OnlyInferred evidence = (e : Evidence) → In e evidence → evidence_kind e ≡ EvidenceKind.model_score

-- No qualification of an adopted policy is below the extracted level.
pub new_policy-qualified :
    (doc policy : PolicyDocument)
    → new_policy doc ≡ ok policy
    → any on_inference policy.qualified ≡ false
unfolding new_policy
new_policy-qualified doc policy e =
    elim (Bool-cases (is_empty (trim (chars doc.id)) || doc.version == 0)) [
      | inl b ↦ let h : err PolicyError.unnamed ≡ ok policy = rw (b, new_policy) at e in cc
      | inr b ↦ adopted (check_ceilings [] doc.ceilings) (rw (b, new_policy) at e)
    ]
  where
    adopted : (o : _) → adopt doc o ≡ ok policy → any on_inference policy.qualified ≡ false
    adopted (some w) h = cc
    adopted none h = elim (Bool-cases (any on_inference doc.qualified)) [
      | inl b ↦ let k : err PolicyError.qualified_on_inference ≡ ok policy = rw b at h in cc
      | inr b ↦ subst (λ d. any on_inference d.qualified ≡ false) (ok-injective (rw b at h)) b
    ]

-- A level of an inference is below every qualification that is not itself on inference.
qualifies_by-inferred :
    (claim : Claim) (level : AuthorityLevel) (q : Qualification)
    → level ⊑ inferred
    → on_inference q ≡ false
    → qualifies_by claim level q ≡ false
qualifies_by-inferred claim level q b h = ground arith

model_score-form :
    (e : Evidence)
    → evidence_kind e ≡ EvidenceKind.model_score
    → (is_review e ≡ false) × ((a : Actor) → honoured a e ≡ none) × (seed_of e ≡ none)
unfolding evidence_kind
model_score-form (Evidence.model_score m s l) k = (refl, (λ a. refl), refl)
model_score-form (Evidence.source_span s) k = cc
model_score-form (Evidence.span_verified s m) k = cc
model_score-form (Evidence.rule_match m) k = cc
model_score-form (Evidence.user_statement b a) k = cc
model_score-form (Evidence.corroboration c) k = cc
model_score-form (Evidence.review_approval b d) k = cc
model_score-form (Evidence.operator_seed b s) k = cc

model_score-below :
    (e : Evidence) (most : AuthorityLevel)
    → evidence_kind e ≡ EvidenceKind.model_score
    → ceiling_of (evidence_kind e) ≡ some most
    → most ≡ inferred
unfolding ceiling_of
model_score-below e most k c = sym (some-injective (rw k at c))

module _ {Secrets : Type 0} (s : Proposal Secrets) (only : OnlyInferred s.proposal.evidence) where
  no_statements : user_statements s.proposal ≡ []
  unfolding user_statements
  no_statements =
      filter_map-nil (honoured s.proposal.proposer) s.proposal.evidence
        (λ e i. (model_score-form e (only e i)).1 s.proposal.proposer)

  no_seeds : seeds s.proposal ≡ []
  unfolding seeds
  no_seeds = filter_map-nil seed_of s.proposal.evidence (λ e i. (model_score-form e (only e i)).2)

  no_review : reviewed s ≡ false
  no_review = any-false_of is_review s.proposal.evidence (λ e i. (model_score-form e (only e i)).0)

  -- There is no ground of admission.
  grounded-inferred :
      (level : AuthorityLevel)
      → (grounds_of s.proposal s.policy).authority ≡ some level
      → any on_inference s.policy.qualified ≡ false
      → grounded s level ≡ false
  unfolding grounds_of qualifies
  grounded-inferred level a q =
      let (e, i, earns, most, c, below) = (grounds_of-below s.proposal s.policy level a).0 in
      let low : level ⊑ inferred =
        subst (λ m. level ⊑ m) (model_score-below e most (only e i) c) below in
      let unqualified : any (qualifies_by s.proposal.claim level) s.policy.qualified ≡ false =
        any-false_of (qualifies_by s.proposal.claim level) s.policy.qualified (λ x j.
          qualifies_by-inferred s.proposal.claim level x low
            (any-false-In on_inference s.policy.qualified x q j)) in
      rw (no_review, no_statements, no_seeds, unqualified) refl

-- Under the documented behaviour of the closed gate and under any policy that was checked and
-- adopted, a proposal whose evidence is nothing but model scores is never admitted, whatever they
-- are and whatever else it claims.
pub evaluate_claim-OnlyInferred :
    {Secrets : Type 0} (closed : ClosedGate) (law : IsClosed closed) (is_nfc : Text → Bool)
    (scan : Text → Secrets → Option Finding) (secrets : Secrets) (p : ClaimProposal)
    (registry : Snapshot) (doc policy : PolicyDocument) (context : ClaimContext) (a : AdmittedClaim)
    → new_policy doc ≡ ok policy
    → OnlyInferred p.evidence
    → evaluate_claim closed is_nfc scan secrets p registry policy context ≢ ClaimVerdict.admit a
evaluate_claim-OnlyInferred closed law is_nfc scan secrets p registry doc policy context a adopted
      only e =
    let (sound, (level, r, g, _)) =
      (evaluate_claim_admits closed law is_nfc scan secrets p registry policy context a).0 e in
    let no =
      grounded-inferred
        (record {
          proposal = p;
          registry = registry;
          policy = policy;
          context = context;
          secrets = secrets;
        })
        only level g.earned (new_policy-qualified doc policy adopted) in
    let h : true ≡ false = sym g.ground ∙ no in cc
