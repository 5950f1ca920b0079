-- ===== src/Gate/Capture/Chain.antt =====
-- The capture gate (crates/aicortex-gate/src/lib.rs) against the chain of its six rules.
use aicortex.Prelude.{◌≡◌, refl, ap, Option, arith}
use aicortex.Text.{Text}
use aicortex.Gate.Walk.{ClosedGate}
use aicortex.Gate.Walk.Laws.{IsClosed}
use aicortex.Gate.Walk.Chain.{chain, HoldsOnly, walk-eq-chain}
use aicortex.Gate.Capture.{Candidate, Finding, RuleSet, origin_unestablished, policy_denied}
use aicortex.Gate.Capture.Evaluate.{
  Capture, step_empty, step_too_large, step_media, step_denied_source, step_origin, step_secrets,
  capture_walk, capture_steps, subject_of, verdict_of, evaluate,
}

-- Only the origin rule holds, and for one reason.
module _ {Secrets : Type 0} (scan : Text → Secrets → Option Finding) where
  capture_walk-HoldsOnly :
      (c : Capture Secrets) → HoldsOnly c (origin_unestablished c.origin) (capture_walk scan)
  unfolding step_empty step_too_large step_media step_denied_source step_origin step_secrets
  capture_walk-HoldsOnly c = (
    (λ q e. ground arith),
    (
      (λ q e. ground arith),
      (
        (λ q e. ground arith),
        ((λ q e. ground arith), ((λ q e. ground arith), ((λ q e. ground arith), tt))),
      ),
    ),
  )

module _ {Secrets : Type 0} (closed : ClosedGate) (law : IsClosed closed) (nfc : Text → Text)
    (scan : Text → Secrets → Option Finding) where
  -- For every rule set and candidate, under the documented behaviour of the closed gate, the
  -- verdict of `evaluate` is that of the chain of the six rules on the normalized body: the first
  -- refusal in their order is the verdict, whatever the later rules say, and a hold is the verdict
  -- only where no rule refuses.
  pub evaluate-eq-chain :
      (rules : RuleSet Secrets) (c : Candidate)
      → evaluate closed nfc scan rules c
        ≡ verdict_of closed nfc scan c
            (chain (subject_of closed nfc scan rules c) (capture_walk scan))
  unfolding evaluate
  evaluate-eq-chain rules c =
      let subject = subject_of closed nfc scan rules c in
      ap (verdict_of closed nfc scan c) (
        walk-eq-chain closed law subject capture_steps policy_denied (capture_walk scan)
          (origin_unestablished c.origin) (λ e. cc) refl refl (capture_walk-HoldsOnly scan subject))
