-- ===== src/Gate/Capture/Evaluate.antt =====
-- `Gate::evaluate` and `Gate::evaluate_overridden` (crates/aicortex-gate/src/lib.rs): the six
-- steps of a capture, and what the answer stores.
use aicortex.Prelude.{
  ℕ, ◌+◌, Bool, true, false, not, ◌||◌, Option, none, some, List, [], ◌∷◌, if◌then◌else◌, any, ltb,
  ◌==◌, Result, ok, err, length,
}
use Prim.Native.String.{String, ◌++◌ as str_append}
use text.Mathlib.Text.{◌==◌ as str_eq}
use aicortex.Text.{Text, byte_len}
use aicortex.Text.Trim.{trim, is_empty}
use aicortex.Types.Memory.{
  Memory, MemoryBody, MediaRef, new_memory, quarantined, assertion, overridden,
}
use aicortex.Gate.Limits.{Limits, GateError, override_does_not_apply, admits_media}
use aicortex.Gate.Normalize
use aicortex.Gate.Walk.{Judged, Walked, Step, ClosedGate}
use aicortex.Gate.Walk.Run.{walk}
use aicortex.Gate.Capture.{
  Origin, is_established, is_assertable, Candidate, Finding, RuleSet, MediaFault, too_many,
  unsupported_type, Reason, secret_detected, too_large, empty_after_normalization,
  origin_unestablished, unsupported_media, policy_denied, code, Verdict, admit, quarantine, refuse,
  reason, Override,
}

-- The subject of a walk: the normalized body, and what the rules read beside it.
pub record Capture (Secrets : Type 0) : Type 0 where
  pub body : MemoryBody
  pub source : String
  pub origin : Origin
  pub rules : RuleSet Secrets

-- `Iterator::position`, from index `i` on.
unfoldable pub position_from : (MediaRef → Bool) → ℕ → List MediaRef → Option ℕ
position_from p i [] = none
position_from p i (m ∷ ms) = let rest = position_from p (i + 1) ms in if p m then some i else rest

unfoldable pub media_fault : Limits → List MediaRef → Option MediaFault
unfolding position_from
media_fault limits refs =
    if ltb limits.max_media_refs (length refs)
    then some (too_many (length refs) limits.max_media_refs)
    else elim (position_from (λ m. not (admits_media limits m)) 0 refs) [
      | none ↦ none
      | some index ↦ some (unsupported_type index)
    ]

unfoldable pub first_finding : Option Finding → Option Finding → Option Finding
first_finding (some f) _ = some f
first_finding none second = second

module _ {Secrets : Type 0} where
  unfoldable pub step_empty : Capture Secrets → Judged Reason
  step_empty c =
      if is_empty (trim c.body.text) then Judged.fault empty_after_normalization else Judged.pass

  unfoldable pub step_too_large : Capture Secrets → Judged Reason
  step_too_large c =
      if ltb c.rules.limits.max_body_bytes (byte_len c.body.text)
      then Judged.fault (too_large (byte_len c.body.text) c.rules.limits.max_body_bytes)
      else Judged.pass

  unfoldable pub step_media : Capture Secrets → Judged Reason
  step_media c = elim (media_fault c.rules.limits c.body.media) [
    | none ↦ Judged.pass
    | some f ↦ Judged.fault (unsupported_media f)
  ]

  unfoldable pub step_denied_source : Capture Secrets → Judged Reason
  step_denied_source c =
      if any (λ s. str_eq s c.source) c.rules.denied_sources
      then Judged.fault (policy_denied (str_append "denied-source:" c.source))
      else Judged.pass

  unfoldable pub step_origin : Capture Secrets → Judged Reason
  step_origin c =
      if is_established c.origin
      then Judged.pass
      else if is_assertable c.origin
      then Judged.hold (origin_unestablished c.origin)
      else Judged.fault (origin_unestablished c.origin)

abbrev pub origin_step : {Secrets : Type 0} → Step (Capture Secrets) Reason
origin_step = record { id = "capture.origin"; judge = step_origin }

abbrev pub capture_steps : List String
capture_steps =
    "capture.empty" ∷ "capture.too_large" ∷ "capture.media" ∷ "capture.denied_source"
    ∷ "capture.secrets" ∷ "capture.origin" ∷ []

-- The scan of the secret detectors belongs to another crate.
module _ {Secrets : Type 0} (scan : Text → Secrets → Option Finding) where
  unfoldable pub title_finding : Option Text → Secrets → Option Finding
  title_finding none rules = none
  title_finding (some title) rules = scan title rules

  unfoldable pub step_secrets : Capture Secrets → Judged Reason
  unfolding title_finding
  step_secrets c =
      elim (first_finding (scan c.body.text c.rules.secrets)
        (title_finding c.body.title c.rules.secrets)) [
          | none ↦ Judged.pass
          | some f ↦ Judged.fault (secret_detected f.detector f.offset)
        ]

  abbrev pub capture_walk : List (Step (Capture Secrets) Reason)
  capture_walk =
      record { id = "capture.empty"; judge = step_empty }
      ∷ record { id = "capture.too_large"; judge = step_too_large }
      ∷ record { id = "capture.media"; judge = step_media }
      ∷ record { id = "capture.denied_source"; judge = step_denied_source }
      ∷ record { id = "capture.secrets"; judge = step_secrets }
      ∷ origin_step
      ∷ []

abbrev pub code_of : Option Reason → Option String
code_of none = none
code_of (some r) = some (code r)

abbrev pub is_code : Option Reason → String → Bool
is_code none named = false
is_code (some r) named = str_eq (code r) named

abbrev pub is_refusal : Verdict → Bool
is_refusal (refuse r) = true
is_refusal _ = false

abbrev pub override_memory : Memory → Override → Memory
override_memory m over = record m {
  trust = assertion;
  provenance =
      overridden m.provenance
        (record { reason_code = over.reason_code; by = over.by; decision = over.decision });
}

-- The parameters: the closed gate, which belongs to another crate, the Unicode composition, and
-- the detectors' scan.
module _ {Secrets : Type 0} (closed : ClosedGate) (nfc : Text → Text)
    (scan : Text → Secrets → Option Finding) where
  abbrev pub subject_of : RuleSet Secrets → Candidate → Capture Secrets
  subject_of rules c = record {
    body = Normalize.body nfc c.parts.body;
    source = c.parts.provenance.source.system;
    origin = c.origin;
    rules = rules;
  }

  unfoldable pub walk_capture : RuleSet Secrets → Candidate → Walked Reason
  walk_capture rules c =
      walk closed (subject_of rules c) (capture_walk scan) capture_steps policy_denied

  unfoldable pub normalized : Candidate → Memory
  normalized c = new_memory (record c.parts { body = Normalize.body nfc c.parts.body })

  abbrev pub verdict_of : Candidate → Walked Reason → Verdict
  verdict_of c Walked.pass = admit (record { memory = normalized c })
  verdict_of c (Walked.hold r) =
      quarantine (record { memory = record (normalized c) { status = quarantined } }) r
  verdict_of c (Walked.fault r) = refuse r

  unfoldable pub evaluate : RuleSet Secrets → Candidate → Verdict
  unfolding walk_capture
  evaluate rules c = verdict_of c (walk_capture rules c)

  unfoldable pub evaluate_overridden :
      RuleSet Secrets → Candidate → Override → Result GateError Verdict
  evaluate_overridden rules c over =
      let verdict = evaluate rules c in
      if not (over.memory == c.parts.id)
        || not (is_refusal verdict)
        || not (is_code (reason verdict) over.reason_code)
      then err (override_does_not_apply over.reason_code (code_of (reason verdict)))
      else ok (admit (record { memory = override_memory (normalized c) over }))
