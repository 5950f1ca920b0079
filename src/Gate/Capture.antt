-- ===== src/Gate/Capture.antt =====
-- crates/aicortex-gate/src/{lib,candidate,rules,verdict}.rs: the capture gate's vocabulary. The
-- secret detectors belong to another crate: what a rule set of theirs is, and their scan, are
-- parameters. The rate reason is raised by the caller and never by the gate.
use aicortex.Prelude.{
  ℕ, ◌≡◌, Bool, true, false, not, Option, none, some, List, [], ◌∷◌, if◌then◌else◌, any, Result, ok,
  err,
}
use Prim.Native.String.{String}
use text.Mathlib.Text.{◌==◌ as str_eq}
use aicortex.Text.{Text}
use aicortex.Text.Trim.{trim, is_empty}
use aicortex.Types.Memory.{Status, active, quarantined, MemoryParts, Memory, MemoryBody, new_memory}
use aicortex.Gate.Limits.{Limits, GateError, override_unjustified}
pub mod Evaluate
pub mod Chain
pub mod Admission

pub data Origin : Type 0 where
  authenticated registered_adapter asserted unestablished : Origin

unfoldable pub is_established : Origin → Bool
is_established authenticated = true
is_established registered_adapter = true
is_established _ = false

unfoldable pub is_assertable : Origin → Bool
is_assertable asserted = true
is_assertable _ = false

pub record Candidate : Type 0 where
  pub parts : MemoryParts
  pub origin : Origin

pub record Finding : Type 0 where
  pub detector : String
  pub offset : ℕ

pub record RuleSet (Secrets : Type 0) : Type 0 where
  pub limits : Limits
  pub secrets : Secrets
  pub denied_sources : List String

pub data MediaFault : Type 0 where
  too_many : ℕ → ℕ → MediaFault
  unsupported_type : ℕ → MediaFault

pub data Reason : Type 0 where
  secret_detected : String → ℕ → Reason
  too_large : ℕ → ℕ → Reason
  empty_after_normalization : Reason
  origin_unestablished : Origin → Reason
  unsupported_media : MediaFault → Reason
  rate_exceeded : ℕ → ℕ → Reason
  policy_denied : String → Reason

unfoldable pub code : Reason → String
code (secret_detected detector offset) = "secret_detected"
code (too_large bytes ceiling) = "too_large"
code empty_after_normalization = "empty_after_normalization"
code (origin_unestablished origin) = "origin_unestablished"
code (unsupported_media f) = "unsupported_media"
code (rate_exceeded limit window_secs) = "rate_exceeded"
code (policy_denied policy) = "policy_denied"

pub record Admitted : Type 0 where
  pub memory : Memory

pub data Verdict : Type 0 where
  admit : Admitted → Verdict
  quarantine : Admitted → Reason → Verdict
  refuse : Reason → Verdict

unfoldable pub admitted : Verdict → Option Admitted
admitted (admit a) = some a
admitted (quarantine a r) = some a
admitted (refuse r) = none

unfoldable pub reason : Verdict → Option Reason
reason (admit a) = none
reason (quarantine a r) = some r
reason (refuse r) = some r

unfoldable pub status : Verdict → Option Status
status (admit a) = some active
status (quarantine a r) = some quarantined
status (refuse r) = none

pub record Override : Type 0 where
  pub memory : ℕ
  pub reason_code : String
  pub justification : Text
  pub by : String
  pub decision : String

unfoldable pub new_override : ℕ → String → Text → String → String → Result GateError Override
new_override memory reason_code justification by decision =
    if is_empty (trim justification)
    then err override_unjustified
    else ok (record {
      memory = memory;
      reason_code = reason_code;
      justification = justification;
      by = by;
      decision = decision;
    })
