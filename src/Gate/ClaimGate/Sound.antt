-- ===== src/Gate/ClaimGate/Sound.antt =====
-- What the steps of the claim gate (crates/aicortex-gate/src/claim_gate.rs) ask, without their tests.
use aicortex.Prelude.{
  ℕ, ◌≡◌, refl, ◌≢◌, Bool, true, false, not, ◌&&◌, Option, none, some, List, [], ◌∷◌, any, All, ◌↔◌,
  ◌⊎◌, inl, inr, Result, ok, err, arith, Bool-cases,
}
use aicortex.Text.{Text}
use aicortex.Types.Claim.{AuthorityLevel}
use aicortex.Types.Evidence.{SeedRef, is_user_level}
use aicortex.Types.Predicate.{PredicateDef}
use aicortex.Claims.Registry.{find}
use aicortex.Claims.Validate.{ClaimError, validate}
use aicortex.Claims.Validate.Valid.{IsValid, validate-IsValid}
use aicortex.Gate.Capture.{Finding}
use aicortex.Gate.Walk.{Judged, Walked}
use aicortex.Gate.Walk.Chain.{after}
use aicortex.Gate.ClaimGate.Grounds.{
  Proposal, ClaimField, ClaimReason, SourceState, Related, relate, unavailable_source,
  first_unavailable, get, is_available, cited, user_statements, seeds, is_empty_list,
}
use aicortex.Gate.ClaimGate.Steps.{
  provenance, sources, seed, score_floor, user_level, authority_step, relations_step, ground_step,
  ground_of, ground_at, unavailable, judged_valid, detected, scan_text, scan_fields, scanned,
  vocabulary, secrets_step, fault_if, is_user_statement, below_floor, grounds, reviewed, grounded,
}
use aicortex.Gate.ClaimGate.Evaluate.{Judgement, admitted, admitted_as}

-- What is asked of a proposal before its authority counts.
pub record IsSound {Secrets : Type 0} (is_nfc : Text → Bool)
    (scan : Text → Secrets → Option Finding) (s : Proposal Secrets) : Type 0 where
  pub valid :
      (def : PredicateDef) × (find s.registry s.proposal.claim.predicate ≡ some def)
      × IsValid is_nfc s.proposal.claim def
  pub no_secret : All (λ entry. scan_text scan s.secrets entry.1 ≡ none) (scanned s.proposal.claim)
  pub supported : s.proposal.evidence ≢ []
  pub sources_available :
      All (λ source. get s.context.sources source ≡ some SourceState.available) (cited s.proposal)
  pub honest_seeds : (seeds s.proposal ≡ []) ⊎ (any is_user_statement s.proposal.evidence ≡ false)
  pub above_floor : below_floor s.policy.score_floor s.proposal.evidence ≡ false
  pub user_statements_at_level :
      any (λ t. not (is_user_level t.asserted)) (user_statements s.proposal) ≡ false

-- With the authority `level` and the relations `r`, the claim has a ground, and a review where it
-- supersedes what outranks it.
pub record IsGrounded {Secrets : Type 0} (s : Proposal Secrets) (level : AuthorityLevel)
    (r : Related) : Type 0 where
  pub earned : (grounds s).authority ≡ some level
  pub relates : relate s (grounds s) level ≡ ok r
  pub ground : grounded s level ≡ true
  pub outranked_reviewed : (r.outranked ≡ false) ⊎ (reviewed s ≡ true)

pub after-pass :
    {R : Type 0} (j : Judged R) (rest : Walked R)
    → (after j rest ≡ Walked.pass) ↔ ((j ≡ Judged.pass) × (rest ≡ Walked.pass))
after-pass Judged.pass rest = ((λ e. (refl, e)), (λ (e, k). k))
after-pass (Judged.hold r) (Walked.fault q) = ((λ e. cc), (λ (e, k). cc))
after-pass (Judged.hold r) Walked.pass = ((λ e. cc), (λ (e, k). cc))
after-pass (Judged.hold r) (Walked.hold q) = ((λ e. cc), (λ (e, k). cc))
after-pass (Judged.fault r) rest = ((λ e. cc), (λ (e, k). cc))

pub fault_if-pass : (b : Bool) (r : ClaimReason) → (fault_if b r ≡ Judged.pass) ↔ (b ≡ false)
unfolding fault_if
fault_if-pass true r = ((λ e. cc), (λ e. cc))
fault_if-pass false r = ((λ e. refl), (λ e. refl))

pub is_empty_list-ne : {A : Type 0} (xs : List A) → (is_empty_list xs ≡ false) ↔ (xs ≢ [])
is_empty_list-ne [] = ((λ e. cc), (λ n. absurd (n refl)))
is_empty_list-ne (x ∷ xs) = ((λ e p. cc), (λ n. refl))

detected-pass :
    (field : ClaimField) (o : Option Finding) (later : Judged ClaimReason)
    → (detected field o later ≡ Judged.pass) ↔ ((o ≡ none) × (later ≡ Judged.pass))
detected-pass field none later = ((λ e. (refl, e)), (λ (e, k). k))
detected-pass field (some f) later = ((λ e. cc), (λ (e, k). cc))

pub scan_fields-pass :
    {Secrets : Type 0} (scan : Text → Secrets → Option Finding) (secrets : Secrets)
    (fields : List (ClaimField × Option Text))
    → (scan_fields scan secrets fields ≡ Judged.pass)
      ↔ All (λ entry. scan_text scan secrets entry.1 ≡ none) fields
unfolding scan_fields
scan_fields-pass scan secrets [] = ((λ e. tt), (λ a. refl))
scan_fields-pass scan secrets (entry ∷ rest) =
    let d =
      detected-pass entry.0 (scan_text scan secrets entry.1) (scan_fields scan secrets rest) in
    let k = scan_fields-pass scan secrets rest in
    ((λ e. let (o, l) = d.0 e in (o, k.0 l)), (λ (o, a). d.1 (o, k.1 a)))

available-of : (o : Option SourceState) → is_available o ≡ true → o ≡ some SourceState.available
available-of none h = cc
available-of (some SourceState.available) h = refl
available-of (some SourceState.quarantined) h = cc
available-of (some SourceState.erased) h = cc

pub first_unavailable-none :
    (states : List (ℕ × SourceState)) (ids : List ℕ)
    → (first_unavailable states ids ≡ none)
      ↔ All (λ id. get states id ≡ some SourceState.available) ids
unfolding first_unavailable
first_unavailable-none states [] = ((λ e. tt), (λ a. refl))
first_unavailable-none states (id ∷ ids) = elim (Bool-cases (is_available (get states id))) [
  | inl e ↦ (
    (λ h. (available-of (get states id) e, (first_unavailable-none states ids).0 (rw e at h))),
    (λ a. rw e ((first_unavailable-none states ids).1 a.1)),
  )
  | inr e ↦ (
    (λ h. let h' : some id ≡ none = rw e at h in cc),
    (λ a. let h' : true ≡ false = rw a.0 at e in cc),
  )
]

pub unavailable-pass : (o : Option ℕ) → (unavailable o ≡ Judged.pass) ↔ (o ≡ none)
unavailable-pass none = ((λ e. refl), (λ e. refl))
unavailable-pass (some id) = ((λ e. cc), (λ e. cc))

honest_seeds_iff :
    (xs : List SeedRef) (b : Bool)
    → ((not (is_empty_list xs) && b) ≡ false) ↔ ((xs ≡ []) ⊎ (b ≡ false))
honest_seeds_iff [] b = ((λ e. inl refl), (λ e. refl))
honest_seeds_iff (x ∷ xs) b = ((λ e. inr e), (λ e. elim e [ inl p ↦ cc | inr p ↦ p ]))

judged_valid-pass :
    (o : Result ClaimError PredicateDef)
    → (judged_valid o ≡ Judged.pass) ↔ ((def : PredicateDef) × (o ≡ ok def))
judged_valid-pass (err e) = ((λ e. cc), (λ (d, e). cc))
judged_valid-pass (ok def) = ((λ e. (def, refl)), (λ e. refl))

-- The first seven steps pass.
abbrev pub SevenPass :
    {Secrets : Type 0} (is_nfc : Text → Bool) (scan : Text → Secrets → Option Finding)
    (s : Proposal Secrets)
    → Type 0
SevenPass is_nfc scan s =
    (vocabulary is_nfc s ≡ Judged.pass)
    × (secrets_step scan s ≡ Judged.pass)
    × (provenance s ≡ Judged.pass)
    × (sources s ≡ Judged.pass)
    × (seed s ≡ Judged.pass)
    × (score_floor s ≡ Judged.pass)
    × (user_level s ≡ Judged.pass)

module _ {Secrets : Type 0} (is_nfc : Text → Bool) (scan : Text → Secrets → Option Finding)
    (s : Proposal Secrets) where
  pub SevenPass-IsSound : SevenPass is_nfc scan s → IsSound is_nfc scan s
  unfolding vocabulary secrets_step provenance sources seed score_floor user_level
      unavailable_source
  SevenPass-IsSound (v, c, p, u, d, f, l) =
      let (def, e) = (judged_valid-pass (validate is_nfc s.proposal.claim s.registry)).0 v in
      record {
        valid =
            let (found, v) = (validate-IsValid is_nfc s.proposal.claim s.registry def).0 e in
            (def, found, v);
        no_secret = (scan_fields-pass scan s.secrets (scanned s.proposal.claim)).0 c;
        supported = (is_empty_list-ne s.proposal.evidence).0 ((fault_if-pass _ _).0 p);
        sources_available =
            (first_unavailable-none s.context.sources (cited s.proposal)).0
              ((unavailable-pass _).0 u);
        honest_seeds = (honest_seeds_iff (seeds s.proposal) _).0 ((fault_if-pass _ _).0 d);
        above_floor = (fault_if-pass _ _).0 f;
        user_statements_at_level = (fault_if-pass _ _).0 l;
      }

  pub IsSound-SevenPass : IsSound is_nfc scan s → SevenPass is_nfc scan s
  unfolding vocabulary secrets_step provenance sources seed score_floor user_level
      unavailable_source
  IsSound-SevenPass k = (
    (judged_valid-pass (validate is_nfc s.proposal.claim s.registry)).1 (
      k.valid.0,
      (validate-IsValid is_nfc s.proposal.claim s.registry k.valid.0).1 (k.valid.1, k.valid.2),
    ),
    (scan_fields-pass scan s.secrets (scanned s.proposal.claim)).1 k.no_secret,
    (fault_if-pass _ _).1 ((is_empty_list-ne s.proposal.evidence).1 k.supported),
    (unavailable-pass _).1
        ((first_unavailable-none s.context.sources (cited s.proposal)).1 k.sources_available),
    (fault_if-pass _ _).1 ((honest_seeds_iff (seeds s.proposal) _).1 k.honest_seeds),
    (fault_if-pass _ _).1 k.above_floor,
    (fault_if-pass _ _).1 k.user_statements_at_level,
  )

-- The last three steps pass exactly on a ground.
module _ {Secrets : Type 0} (s : Proposal Secrets) where
  abbrev pub Grounded : Type 0
  Grounded = (level : AuthorityLevel) × (r : Related) × IsGrounded s level r

  ground_of-pass :
      (level : AuthorityLevel) (o : Result ClaimReason Related)
      → ground_of s level o ≡ Judged.pass
      → (r : Related) × (o ≡ ok r)
        × (grounded s level ≡ true)
        × ((r.outranked ≡ false) ⊎ (reviewed s ≡ true))
  ground_of-pass level (err r) e = cc
  ground_of-pass level (ok r) e = elim (Bool-cases r.outranked) [
    | inl o ↦ (r, refl, ground arith, inr (ground arith))
    | inr o ↦ (r, refl, ground arith, inl o)
  ]

  ground_at-pass :
      (o : Option AuthorityLevel)
      → (grounds s).authority ≡ o
      → ground_at s o ≡ Judged.pass
      → Grounded
  ground_at-pass none a e = cc
  ground_at-pass (some level) a e =
      let (r, k, g, o) = ground_of-pass level (relate s (grounds s) level) e in
      (level, r, record { earned = a; relates = k; ground = g; outranked_reviewed = o })

  pub ground_step-Grounded : ground_step s ≡ Judged.pass → Grounded
  unfolding ground_step
  ground_step-Grounded e = ground_at-pass (grounds s).authority refl e

  pub Grounded-pass :
      (level : AuthorityLevel) (r : Related)
      → IsGrounded s level r
      → (authority_step s ≡ Judged.pass)
        × (relations_step s ≡ Judged.pass)
        × (ground_step s ≡ Judged.pass)
  unfolding authority_step relations_step ground_step
  Grounded-pass level r k = (
    rw k.earned refl,
    rw k.earned (rw k.relates refl),
    rw k.earned (
        rw (k.relates, k.ground)
          (elim k.outranked_reviewed [ inl o ↦ rw o refl | inr o ↦ rw o (ground arith) ])),
  )

  -- The claim that is built is the one of the ground.
  pub admitted-Grounded :
      (level : AuthorityLevel) (r : Related)
      → IsGrounded s level r
      → admitted s ≡ Judgement.admit (admitted_as s level r)
  unfolding admitted
  admitted-Grounded level r k = rw k.earned (rw k.relates refl)
