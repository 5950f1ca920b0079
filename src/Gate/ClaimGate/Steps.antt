-- ===== src/Gate/ClaimGate/Steps.antt =====
-- The ten steps of a claim's admission (crates/aicortex-gate/src/claim_gate.rs), in the order in which
-- they are registered.
use aicortex.Prelude.{
  ℕ, Bool, true, false, not, ◌&&◌, ◌||◌, Option, none, some, List, [], ◌∷◌, any, all, ltb,
  if◌then◌else◌, Result, ok, err,
}
use Prim.Native.String.{String}
use aicortex.Text.{Text}
use aicortex.Text.Chars.{chars}
use aicortex.Types.Claim.{AuthorityLevel, Claim}
use aicortex.Types.Evidence.{Evidence, is_user_level}
use aicortex.Types.Predicate.{PredicateDef}
use aicortex.Claims.Validate.{
  ClaimError, unknown_predicate, wrong_version, withdrawn, validate, value_text,
}
use aicortex.Claims.Validate.{code as claim_error_code}
use aicortex.Gate.Capture.{Finding}
use aicortex.Gate.Walk.{Judged, pass, hold, fault, Step}
use aicortex.Gate.ClaimGate.Policy.{accepts, qualifies}
use aicortex.Gate.ClaimGate.Grounds.{
  Proposal, ClaimField, ClaimReason, unregistered_predicate, invalid_value, secret_detected,
  source_unavailable, no_provenance, authority_insufficient, below_score_floor, policy_denied,
  user_statements, seeds, is_empty_list, Grounds, grounds_of, Related, relate, unavailable_source,
}

-- A refusal of the registry, as the gate's reason.
unfoldable pub invalid : ClaimError → ClaimReason
unfolding claim_error_code
invalid (unknown_predicate p) = unregistered_predicate
invalid (wrong_version p) = unregistered_predicate
invalid (withdrawn p) = unregistered_predicate
invalid other = invalid_value (claim_error_code other)

unfoldable pub fault_if : Bool → ClaimReason → Judged ClaimReason
fault_if refused reason = if refused then fault reason else pass

abbrev pub is_user_statement : Evidence → Bool
is_user_statement (Evidence.user_statement by authority) = true
is_user_statement _ = false

abbrev pub is_review : Evidence → Bool
is_review (Evidence.review_approval by decision) = true
is_review _ = false

abbrev pub scored_below : ℕ → Evidence → Bool
scored_below floor (Evidence.model_score model score label) = ltb score floor
scored_below floor _ = false

abbrev pub below_floor : Option ℕ → List Evidence → Bool
below_floor none evidence = false
below_floor (some floor) evidence = any (scored_below floor) evidence

abbrev pub unavailable : Option ℕ → Judged ClaimReason
unavailable none = pass
unavailable (some source) = fault (source_unavailable source)

abbrev pub earns : Option AuthorityLevel → Judged ClaimReason
earns none = fault authority_insufficient
earns (some authority) = pass

abbrev pub of_result : Result ClaimReason Related → Judged ClaimReason
of_result (err reason) = fault reason
of_result (ok r) = pass

abbrev pub judged_valid : Result ClaimError PredicateDef → Judged ClaimReason
judged_valid (err e) = fault (invalid e)
judged_valid (ok def) = pass

abbrev pub chars_of : Option String → Option Text
chars_of none = none
chars_of (some s) = some (chars s)

-- The strings of a claim that are scanned, in this order.
abbrev pub scanned : Claim → List (ClaimField × Option Text)
scanned c =
    (ClaimField.value, value_text c.value)
    ∷ (ClaimField.condition, chars_of c.epistemic.condition)
    ∷ (ClaimField.slot, chars_of c.slot)
    ∷ (ClaimField.subject, some (chars c.subject.key))
    ∷ []

abbrev pub detected : ClaimField → Option Finding → Judged ClaimReason → Judged ClaimReason
detected field none later = later
detected field (some f) later = fault (secret_detected field f.detector f.offset)

module _ {Secrets : Type 0} where
  unfoldable pub provenance : Proposal Secrets → Judged ClaimReason
  unfolding fault_if
  provenance s = fault_if (is_empty_list s.proposal.evidence) no_provenance

  unfoldable pub sources : Proposal Secrets → Judged ClaimReason
  unfolding unavailable_source
  sources s = unavailable (unavailable_source s.proposal s.context)

  -- A seed dressed as the owner's word.
  unfoldable pub seed : Proposal Secrets → Judged ClaimReason
  unfolding fault_if seeds
  seed s =
      fault_if (not (is_empty_list (seeds s.proposal)) && any is_user_statement s.proposal.evidence)
        (policy_denied "seed_with_user_statement")

  unfoldable pub score_floor : Proposal Secrets → Judged ClaimReason
  unfolding fault_if
  score_floor s = fault_if (below_floor s.policy.score_floor s.proposal.evidence) below_score_floor

  unfoldable pub user_level : Proposal Secrets → Judged ClaimReason
  unfolding fault_if user_statements is_user_level
  user_level s =
      fault_if (any (λ t. not (is_user_level t.asserted)) (user_statements s.proposal))
        (policy_denied "user_statement_below_user_level")

  abbrev pub grounds : Proposal Secrets → Grounds
  grounds s = grounds_of s.proposal s.policy

  unfoldable pub authority_step : Proposal Secrets → Judged ClaimReason
  unfolding grounds_of
  authority_step s = earns (grounds s).authority

  -- The relations, where there is an authority to judge them by.
  abbrev pub related : Proposal Secrets → Option AuthorityLevel → Result ClaimReason Related
  related s none = err authority_insufficient
  related s (some authority) = relate s (grounds s) authority

  unfoldable pub relations_step : Proposal Secrets → Judged ClaimReason
  unfolding relate grounds_of
  relations_step s = of_result (related s (grounds s).authority)

  abbrev pub reviewed : Proposal Secrets → Bool
  reviewed s = any is_review s.proposal.evidence

  abbrev pub seeded : Proposal Secrets → Bool
  seeded s = not (is_empty_list (seeds s.proposal)) && all (accepts s.policy) (seeds s.proposal)

  -- A review, a statement on the owner's own data, seeds that were accepted, or a qualified predicate.
  abbrev pub grounded : Proposal Secrets → AuthorityLevel → Bool
  grounded s authority =
      reviewed s
      || (grounds s).own_data
      || seeded s
      || qualifies s.policy s.proposal.claim authority

  abbrev pub ground_of :
      Proposal Secrets → AuthorityLevel → Result ClaimReason Related → Judged ClaimReason
  ground_of s authority (err reason) = fault reason
  ground_of s authority (ok r) =
      if r.outranked && not (reviewed s)
      then hold authority_insufficient
      else if grounded s authority
      then pass
      else hold authority_insufficient

  abbrev pub ground_at : Proposal Secrets → Option AuthorityLevel → Judged ClaimReason
  ground_at s none = fault authority_insufficient
  ground_at s (some authority) = ground_of s authority (relate s (grounds s) authority)

  unfoldable pub ground_step : Proposal Secrets → Judged ClaimReason
  unfolding relate grounds_of seeds accepts qualifies
  ground_step s = ground_at s (grounds s).authority

abbrev pub claim_steps : List String
claim_steps =
    "claim.vocabulary" ∷ "claim.secrets" ∷ "claim.provenance" ∷ "claim.sources" ∷ "claim.seed"
    ∷ "claim.score_floor" ∷ "claim.user_level" ∷ "claim.authority" ∷ "claim.relations"
    ∷ "claim.ground" ∷ []

-- Whether a text is in normalization form C is decided by another crate.
module _ {Secrets : Type 0} (is_nfc : Text → Bool) where
  unfoldable pub vocabulary : Proposal Secrets → Judged ClaimReason
  unfolding invalid validate
  vocabulary s = judged_valid (validate is_nfc s.proposal.claim s.registry)

-- So is what a secret detector finds.
module _ {Secrets : Type 0} (scan : Text → Secrets → Option Finding) where
  abbrev pub scan_text : Secrets → Option Text → Option Finding
  scan_text secrets none = none
  scan_text secrets (some t) = scan t secrets

  unfoldable pub scan_fields : Secrets → List (ClaimField × Option Text) → Judged ClaimReason
  scan_fields secrets [] = pass
  scan_fields secrets (entry ∷ rest) =
      detected entry.0 (scan_text secrets entry.1) (scan_fields secrets rest)

  unfoldable pub secrets_step : Proposal Secrets → Judged ClaimReason
  unfolding scan_fields
  secrets_step s = scan_fields s.secrets (scanned s.proposal.claim)

module _ {Secrets : Type 0} (is_nfc : Text → Bool) (scan : Text → Secrets → Option Finding) where
  abbrev pub claim_walk : List (Step (Proposal Secrets) ClaimReason)
  claim_walk =
      record { id = "claim.vocabulary"; judge = vocabulary is_nfc }
      ∷ record { id = "claim.secrets"; judge = secrets_step scan }
      ∷ record { id = "claim.provenance"; judge = provenance }
      ∷ record { id = "claim.sources"; judge = sources }
      ∷ record { id = "claim.seed"; judge = seed }
      ∷ record { id = "claim.score_floor"; judge = score_floor }
      ∷ record { id = "claim.user_level"; judge = user_level }
      ∷ record { id = "claim.authority"; judge = authority_step }
      ∷ record { id = "claim.relations"; judge = relations_step }
      ∷ record { id = "claim.ground"; judge = ground_step }
      ∷ []
