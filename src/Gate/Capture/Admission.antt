-- ===== src/Gate/Capture/Admission.antt =====
-- What the gate stores: the guarantees behind an admission, a quarantine and an override.
use aicortex.Prelude.{
  ◌≤◌, ◌≡◌, refl, ap, ◌∙◌, sym, Bool, true, false, Option, none, some, ◌==◌, ==_iff, [], ◌∷◌, arith,
  any, ok, ◌↔◌,
}
use text.Mathlib.Text.{◌==◌ as str_eq}
use text.Mathlib.TextEquality.{eq_iff}
use aicortex.Text.{Text, byte_len}
use aicortex.Text.Trim.{trim, is_empty}
use aicortex.Types.Memory.{Memory, Status, active, quarantined, new_memory, assertion, overridden}
use aicortex.Gate.Walk.{Walked, ClosedGate}
use aicortex.Gate.Walk.Laws.{IsClosed}
use aicortex.Gate.Walk.Chain.{chain}
use aicortex.Gate.Capture.{
  asserted, is_established, is_assertable, Candidate, Finding, RuleSet, Reason, code,
  origin_unestablished, Admitted, Verdict, admit, quarantine, refuse, reason, Override,
}
use aicortex.Gate.Capture.Evaluate.{
  Capture, media_fault, step_empty, step_too_large, step_media, step_denied_source, step_origin,
  step_secrets, title_finding, first_finding, origin_step, capture_walk, subject_of, verdict_of,
  normalized, evaluate, evaluate_overridden, is_refusal, is_code,
}
use aicortex.Gate.Capture.Chain.{evaluate-eq-chain}

-- Every rule but that on the origin is content with the subject.
pub record IsClean {Secrets : Type 0} (scan : Text → Secrets → Option Finding) (c : Capture Secrets)
    : Type 0 where
  pub not_blank : is_empty (trim c.body.text) ≡ false
  pub fits : byte_len c.body.text ≤ c.rules.limits.max_body_bytes
  pub media_known : media_fault c.rules.limits c.body.media ≡ none
  pub source_allowed : any (λ s. str_eq s c.source) c.rules.denied_sources ≡ false
  pub text_clean : scan c.body.text c.rules.secrets ≡ none
  pub title_clean : title_finding scan c.body.title c.rules.secrets ≡ none

abbrev refuses : Walked Reason → Bool
refuses (Walked.fault q) = true
refuses _ = false

module _ {Secrets : Type 0} (scan : Text → Secrets → Option Finding) (c : Capture Secrets) where
  chain-IsClean : refuses (chain c (capture_walk scan)) ≡ false → IsClean scan c
  unfolding step_empty step_too_large step_media step_denied_source step_origin step_secrets
      first_finding
  chain-IsClean h = record {
    not_blank = ground arith;
    fits = ground arith;
    media_known = ground arith;
    source_allowed = ground arith;
    text_clean = ground arith;
    title_clean = ground arith;
  }

  -- On a subject that every other rule is content with, the origin rule decides.
  IsClean-chain : IsClean scan c → chain c (capture_walk scan) ≡ chain c (origin_step ∷ [])
  unfolding step_empty step_too_large step_media step_denied_source step_origin step_secrets
      first_finding
  IsClean-chain k = ground arith

  -- The walk passes exactly for an established origin, and holds exactly for an asserted one.
  chain_passes :
      ((chain c (capture_walk scan) ≡ Walked.pass)
        → IsClean scan c × (is_established c.origin ≡ true))
      × (IsClean scan c
          → is_established c.origin ≡ true
          → chain c (capture_walk scan) ≡ Walked.pass)
  unfolding step_origin is_established is_assertable
  chain_passes = (
    (λ e. let k = chain-IsClean (rw e) in (k, ground (arith, IsClean-chain k))),
    (λ k e. ground (arith, IsClean-chain k)),
  )

  chain_holds :
      ((q : Reason)
        → chain c (capture_walk scan) ≡ Walked.hold q
        → IsClean scan c × (c.origin ≡ asserted) × (q ≡ origin_unestablished asserted))
      × (IsClean scan c
          → c.origin ≡ asserted
          → chain c (capture_walk scan) ≡ Walked.hold (origin_unestablished asserted))
  unfolding step_origin is_established is_assertable
  chain_holds = (
    (λ q e.
        let k = chain-IsClean (rw e) in
        (k, ground (arith, IsClean-chain k), ground (arith, IsClean-chain k))),
    (λ k e. ground (arith, IsClean-chain k)),
  )

module _ {Secrets : Type 0} (closed : ClosedGate) (law : IsClosed closed) (nfc : Text → Text)
    (scan : Text → Secrets → Option Finding) (rules : RuleSet Secrets) (c : Candidate) where
  abbrev stored_as : Status → Memory
  stored_as st = record (normalized closed nfc scan c) { status = st }

  verdict-admit :
      (w : Walked Reason) (a : Admitted)
      → verdict_of closed nfc scan c w ≡ admit a
      → (w ≡ Walked.pass) × (a.memory ≡ stored_as active)
  unfolding normalized new_memory
  verdict-admit Walked.pass a e = (refl, sym (admit-memory e))
    where
      memory_of : Verdict → Memory
      memory_of (admit b) = b.memory
      memory_of (quarantine b r) = b.memory
      memory_of (refuse r) = stored_as active

      admit-memory :
          verdict_of closed nfc scan c Walked.pass ≡ admit a → stored_as active ≡ a.memory
      admit-memory p = ap memory_of p
  verdict-admit (Walked.hold r) a e = cc
  verdict-admit (Walked.fault r) a e = cc

  verdict-quarantine :
      (w : Walked Reason) (a : Admitted) (q : Reason)
      → verdict_of closed nfc scan c w ≡ quarantine a q
      → (w ≡ Walked.hold q) × (a.memory ≡ stored_as quarantined)
  unfolding normalized new_memory
  verdict-quarantine Walked.pass a q e = cc
  verdict-quarantine (Walked.hold r) a q e = (ap Walked.hold (same_reason e), sym (same_memory e))
    where
      memory_of : Verdict → Memory
      memory_of (admit b) = b.memory
      memory_of (quarantine b _) = b.memory
      memory_of (refuse _) = stored_as active

      reason_of : Verdict → Reason
      reason_of (admit b) = q
      reason_of (quarantine b p) = p
      reason_of (refuse p) = p

      same_memory :
          verdict_of closed nfc scan c (Walked.hold r) ≡ quarantine a q
          → stored_as quarantined ≡ a.memory
      same_memory p = ap memory_of p

      same_reason : verdict_of closed nfc scan c (Walked.hold r) ≡ quarantine a q → r ≡ q
      same_reason p = ap reason_of p
  verdict-quarantine (Walked.fault r) a q e = cc

  abbrev subject : Capture Secrets
  subject = subject_of closed nfc scan rules c

  chained :
      evaluate closed nfc scan rules c
      ≡ verdict_of closed nfc scan c (chain subject (capture_walk scan))
  chained = evaluate-eq-chain closed law nfc scan rules c

  -- Under the documented behaviour of the closed gate, a candidate is admitted, with `a` stored,
  -- exactly when its origin is established, every other rule is content with its normalized form
  -- (a body that is not blank and fits the ceiling, known media within the ceiling, a source that
  -- is not denied, no secret in text or title), and `a` is the normalized candidate in the status
  -- active.
  pub evaluate_admits :
      (a : Admitted)
      → (evaluate closed nfc scan rules c ≡ admit a) ↔ (
          IsClean scan (subject_of closed nfc scan rules c)
          × (is_established c.origin ≡ true)
          × (a.memory ≡ record (normalized closed nfc scan c) { status = active }))
  unfolding normalized new_memory
  evaluate_admits a = (
    (λ e.
        let (w, m) = verdict-admit _ a (sym chained ∙ e) in
        let (k, o) = (chain_passes scan subject).0 w in (k, o, m)),
    (λ (k, o, m).
        chained
        ∙ ap (verdict_of closed nfc scan c) ((chain_passes scan subject).1 k o)
        ∙ ap (λ x. admit (record { memory = x })) (sym m)),
  )

  -- Under the documented behaviour of the closed gate, a candidate is quarantined, with `a`
  -- stored and the reason `q`, exactly when its origin is only asserted, every other rule is
  -- content with its normalized form, `a` is the normalized candidate in the status quarantined,
  -- and `q` names the origin.
  pub evaluate_quarantines :
      (a : Admitted) (q : Reason)
      → (evaluate closed nfc scan rules c ≡ quarantine a q) ↔ (
          IsClean scan (subject_of closed nfc scan rules c)
          × (c.origin ≡ asserted)
          × (a.memory ≡ record (normalized closed nfc scan c) { status = quarantined })
          × (q ≡ origin_unestablished asserted))
  unfolding normalized new_memory
  evaluate_quarantines a q = (
    (λ e.
        let (w, m) = verdict-quarantine _ a q (sym chained ∙ e) in
        let (k, o, r) = (chain_holds scan subject).0 q w in (k, o, m, r)),
    (λ (k, o, m, r).
        chained
        ∙ ap (verdict_of closed nfc scan c) ((chain_holds scan subject).1 k o)
        ∙ ap (λ x. quarantine (record { memory = x }) (origin_unestablished asserted)) (sym m)
        ∙ ap (quarantine a) (sym r)),
  )

-- An override is accepted exactly when it names the candidate, and the code of a refusal of it. The
-- verdict then admits the normalized candidate with two changes: its trust is that of an assertion,
-- and its provenance carries the override's code, author and decision.
pub evaluate_overridden_accepts :
    {Secrets : Type 0} (closed : ClosedGate) (nfc : Text → Text)
    (scan : Text → Secrets → Option Finding) (rules : RuleSet Secrets) (c : Candidate)
    (over : Override) (v : Verdict)
    → (evaluate_overridden closed nfc scan rules c over ≡ ok v) ↔ (
        (over.memory ≡ c.parts.id)
        × ((r : Reason) × (evaluate closed nfc scan rules c ≡ refuse r)
            × (code r ≡ over.reason_code))
        × (v
            ≡ admit (record {
              memory = record (normalized closed nfc scan c) {
                trust = assertion;
                provenance = record (normalized closed nfc scan c).provenance {
                  admission = some (record {
                    reason_code = over.reason_code;
                    by = over.by;
                    decision = over.decision;
                  });
                };
              };
            })))
unfolding evaluate_overridden reason overridden
evaluate_overridden_accepts closed nfc scan rules c over v = (
  (λ e. (
    ground arith,
    named (evaluate closed nfc scan rules c) (ground arith) (ground arith),
    ground arith,
  )),
  (λ (m, (r, f, k), w).
      let own : (over.memory == c.parts.id) ≡ true = (==_iff over.memory c.parts.id).1 m in
      let coded : str_eq (code r) over.reason_code ≡ true =
        (eq_iff (code r) over.reason_code).1 k in
      rw (own, f, coded) (ap ok (sym w))),
)
  where
    named :
        (w : Verdict)
        → is_refusal w ≡ true
        → is_code (reason w) over.reason_code ≡ true
        → (r : Reason) × (w ≡ refuse r) × (code r ≡ over.reason_code)
    named (admit a) h k = cc
    named (quarantine a r) h k = cc
    named (refuse r) h k = (r, refl, (eq_iff (code r) over.reason_code).0 k)
