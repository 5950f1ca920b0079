-- ===== src/Tests/Gate.antt =====
-- The gate's theorems at concrete candidates, limits and steps.
use aicortex.Prelude.{
  ℕ, ◌≤◌, ◌≡◌, refl, true, ◌↔◌, Option, none, some, [], ◌∷◌, ◌++◌, In, arith, if◌then◌else◌, ◌==◌,
  ok,
}
use Prim.Native.String.{String}
use aicortex.Text.{Text, text_eq, byte_len, len_utf8, is_whitespace, ascii_lower}
use aicortex.Text.Trim.{is_empty, trim, trim_end, trim_start, split_on}
use aicortex.Gate.Normalize
use aicortex.Types.Memory.{
  observation, MediaRef, human, personal, captured, overridden, new_memory, evidence, assertion,
  Status, active, quarantined,
}
use aicortex.Gate.Limits.{
  Limits, contains, first_added, top_level_of, before_separator, narrowed_to, admits_media,
}
use aicortex.Gate.Limits.Laws.{narrowed_to-admits_media, narrowed_to-ok}
use aicortex.Gate.Walk.{Judged, Walked, Step}
use aicortex.Gate.Walk.Run.{walk, settle, walk_code}
use aicortex.Gate.Walk.Laws.{walk-fault, walk-hold}
use aicortex.Gate.Walk.Chain.{chain, walk-eq-chain}
use aicortex.Gate.Capture.{
  Origin, authenticated, asserted, Candidate, Finding, RuleSet, Reason, code, origin_unestablished,
  Admitted, Verdict, admit, quarantine, refuse, Override, is_established, is_assertable, reason,
}
use aicortex.Gate.Capture.Evaluate.{
  step_empty, step_too_large, step_media, media_fault, first_finding, position_from,
  step_denied_source, step_origin, step_secrets, title_finding, walk_capture, capture_walk,
  subject_of, verdict_of, normalized, evaluate, evaluate_overridden, override_memory,
}
use aicortex.Gate.Capture.Chain.{evaluate-eq-chain}
use aicortex.Gate.Capture.Admission.{
  IsClean, evaluate_admits, evaluate_quarantines, evaluate_overridden_accepts,
}
use aicortex.Tests.Closed.{closed_gate, closed_gate-IsClosed}

abbrev image : Text
image = b'i' ∷ b'm' ∷ b'a' ∷ b'g' ∷ b'e' ∷ []

abbrev video : Text
video = b'v' ∷ b'i' ∷ b'd' ∷ b'e' ∷ b'o' ∷ []

abbrev limits : Limits
limits = record { max_body_bytes = 1000; max_media_refs = 4; media_top_levels = image ∷ video ∷ [] }

abbrev asked : Limits
asked = record { max_body_bytes = 500; max_media_refs = 4; media_top_levels = image ∷ [] }

abbrev png : MediaRef
png = record { digest = "d"; media_type = image ++ b'/' ∷ b'p' ∷ b'n' ∷ b'g' ∷ []; bytes = none }

narrowed : narrowed_to limits asked ≡ ok asked
unfolding narrowed_to first_added text_eq
narrowed = refl

asked_admits_png : admits_media asked png ≡ true
unfolding admits_media is_empty top_level_of trim_end trim_start is_whitespace text_eq ascii_lower
    before_separator
asked_admits_png = refl

narrowed_to-admits_media_example :
    (admits_media limits png ≡ true)
    × (asked.max_body_bytes ≤ limits.max_body_bytes)
    × (asked.max_media_refs ≤ limits.max_media_refs)
narrowed_to-admits_media_example =
    narrowed_to-admits_media limits asked png narrowed asked_admits_png

abbrev ContainsLevels : Type 0
ContainsLevels =
    (t : Text)
    → contains asked.media_top_levels t ≡ true
    → contains limits.media_top_levels t ≡ true

image_known : ContainsLevels
unfolding contains
image_known t h = ground arith

narrowed_to-ok_example : narrowed_to limits asked ≡ ok asked
narrowed_to-ok_example = narrowed_to-ok limits asked (omega arith) (omega arith) image_known

-- A step that judges a number by where it stands.
abbrev below : ℕ → Judged String
below n = if n == 0 then Judged.fault "zero" else if n == 1 then Judged.hold "one" else Judged.pass

abbrev always : ℕ → Judged String
always _ = Judged.pass

abbrev step_below : Step ℕ String
step_below = record { id = "below"; judge = below }

abbrev step_always : Step ℕ String
step_always = record { id = "always"; judge = always }

abbrev named : String → String
named s = s

walk-fault_example :
    walk closed_gate 0 (step_always ∷ step_below ∷ []) ("below" ∷ []) named ≡ Walked.fault "zero"
walk-fault_example =
    walk-fault closed_gate closed_gate-IsClosed 0 ("below" ∷ []) named (step_always ∷ []) []
      step_below "zero" refl refl refl refl

walk-hold_example :
    (s : Step ℕ String) × In s (step_always ∷ step_below ∷ [])
    × (r : String) × (s.judge 1 ≡ Judged.hold r)
    × (walk closed_gate 1 (step_always ∷ step_below ∷ []) ("below" ∷ []) named ≡ Walked.hold r)
walk-hold_example =
    walk-hold closed_gate closed_gate-IsClosed 1 ("below" ∷ []) named
      (step_always ∷ step_below ∷ []) refl refl refl refl

walk-eq-chain_example :
    walk closed_gate 1 (step_below ∷ step_always ∷ []) ("below" ∷ []) named
    ≡ chain 1 (step_below ∷ step_always ∷ [])
walk-eq-chain_example =
    walk-eq-chain closed_gate closed_gate-IsClosed 1 ("below" ∷ []) named
      (step_below ∷ step_always ∷ []) "one" (λ e. cc) refl refl
      ((λ q e. ground arith), ((λ q e. ground arith), tt))

abbrev compose : Text → Text
compose t = t

-- The one secret is a text that is the rule itself.
abbrev scan : Text → Text → Option Finding
scan text rule =
    if text_eq text rule then some (record { detector = "whole"; offset = 0 }) else none

abbrev secret : Text
secret = b'k' ∷ b'e' ∷ b'y' ∷ []

abbrev rules : RuleSet Text
rules = record { limits = limits; secrets = secret; denied_sources = "spam" ∷ [] }

abbrev candidate : Text → Origin → Candidate
candidate t o = record {
  parts = record {
    id = 7;
    scope = record { owner = "o"; kind = personal };
    kind = observation;
    body = record { text = t; title = none; media = png ∷ [] };
    actor = record { kind = human; id = "a"; label = none };
    provenance = captured (record { system = "notes"; external_id = none; locator = none }) 1 2;
    trust = evidence;
    importance = record { base = 0; last_used = 0; uses = 0 };
    created = 2;
  };
  origin = o;
}

abbrev hello : Text
hello = b'h' ∷ b'i' ∷ b' ' ∷ b'\n' ∷ []

abbrev stored : Origin → Status → Admitted
stored o st = record {
  memory = record (normalized closed_gate compose scan (candidate hello o)) { status = st };
}

evaluate-eq-chain_example :
    evaluate closed_gate compose scan rules (candidate secret authenticated)
    ≡ verdict_of closed_gate compose scan (candidate secret authenticated) (
        chain
          (subject_of closed_gate compose scan rules (candidate secret authenticated))
          (capture_walk scan))
evaluate-eq-chain_example =
    evaluate-eq-chain closed_gate closed_gate-IsClosed compose scan rules
      (candidate secret authenticated)

evaluate_admits_example :
    (evaluate closed_gate compose scan rules (candidate hello authenticated)
      ≡ admit (stored authenticated active))
    ↔ (IsClean scan (subject_of closed_gate compose scan rules (candidate hello authenticated))
        × (is_established authenticated ≡ true)
        × ((stored authenticated active).memory
            ≡ record (normalized closed_gate compose scan (candidate hello authenticated)) {
              status = active;
            }))
evaluate_admits_example =
    evaluate_admits closed_gate closed_gate-IsClosed compose scan rules
      (candidate hello authenticated) (stored authenticated active)

evaluate_quarantines_example :
    (evaluate closed_gate compose scan rules (candidate hello asserted)
      ≡ quarantine (stored asserted quarantined) (origin_unestablished asserted))
    ↔ (IsClean scan (subject_of closed_gate compose scan rules (candidate hello asserted))
        × (asserted ≡ asserted)
        × ((stored asserted quarantined).memory
            ≡ record (normalized closed_gate compose scan (candidate hello asserted)) {
              status = quarantined;
            })
        × (origin_unestablished asserted ≡ origin_unestablished asserted))
evaluate_quarantines_example =
    evaluate_quarantines closed_gate closed_gate-IsClosed compose scan rules
      (candidate hello asserted) (stored asserted quarantined) (origin_unestablished asserted)

abbrev over : Override
over = record {
  memory = 7;
  reason_code = "secret_detected";
  justification = hello;
  by = "a";
  decision = "d";
}

abbrev forced : Verdict
forced = admit (record {
  memory =
      override_memory (normalized closed_gate compose scan (candidate secret authenticated)) over;
})

-- The override of a secret that was refused.
overrides :
    evaluate_overridden closed_gate compose scan rules (candidate secret authenticated) over
    ≡ ok forced
unfolding evaluate_overridden evaluate walk step_empty is_empty trim trim_end trim_start
    Normalize.body Normalize.text split_on Normalize.is_removed is_whitespace step_too_large
    byte_len len_utf8 step_media media_fault first_finding normalized position_from
    step_denied_source step_origin step_secrets title_finding walk_capture code is_assertable
    is_established reason admits_media before_separator contains top_level_of Normalize.join_lines
    Normalize.kept_title settle walk_code ascii_lower text_eq new_memory overridden captured
overrides = refl

evaluate_overridden_accepts_example :
    (evaluate_overridden closed_gate compose scan rules (candidate secret authenticated) over
      ≡ ok forced)
    ↔ ((over.memory ≡ 7)
        × ((r : Reason) × (evaluate closed_gate compose scan rules (candidate secret authenticated)
              ≡ refuse r)
            × (code r ≡ "secret_detected"))
        × (forced
            ≡ admit (record {
              memory =
                  record (normalized closed_gate compose scan (candidate secret authenticated)) {
                    trust = assertion;
                    provenance =
                        record (normalized closed_gate compose scan
                          (candidate secret authenticated)).provenance {
                            admission = some (record {
                              reason_code = "secret_detected";
                              by = "a";
                              decision = "d";
                            });
                          };
                  };
            })))
evaluate_overridden_accepts_example =
    evaluate_overridden_accepts closed_gate compose scan rules (candidate secret authenticated) over
      forced
