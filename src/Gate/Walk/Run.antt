-- ===== src/Gate/Walk/Run.antt =====
-- `walk`: one closed gate of all the steps, asked once. The decision names the deciding step,
-- which is judged once more to recover its reason.
use aicortex.Prelude.{Option, none, some, List, [], ◌∷◌, map, if◌then◌else◌}
use Prim.Native.String.{String}
use text.Mathlib.Text.{◌==◌ as str_eq}
use aicortex.Gate.Walk.{
  Outcome, allow, degrade, deny, Decision, Judged, Walked, Step, decision_of, ClosedGate,
}

-- The checks that are registered, with what each decides of the subject.
abbrev pub check : {S R : Type 0} → S → Step S R → String × Decision
check subject s = (s.id, decision_of s.id (s.judge subject))

-- `decision.check_ids.first()`.
abbrev pub first_id : List String → Option String
first_id [] = none
first_id (id ∷ ids) = some id

-- `steps.iter().find(|step| step.id == id)`, and the second judgement.
abbrev pub judge_again : {S R : Type 0} → S → List (Step S R) → String → Option (Judged R)
judge_again subject [] id = none
judge_again subject (s ∷ rest) id =
    if str_eq s.id id then some (s.judge subject) else judge_again subject rest id

abbrev pub decided_by : {S R : Type 0} → S → List (Step S R) → Option String → Option (Judged R)
decided_by subject steps none = none
decided_by subject steps (some id) = judge_again subject steps id

abbrev pub walk_inconsistent : String
walk_inconsistent = "aicortex:deny:walk:inconsistent"

unfoldable pub walk_code : ClosedGate → String → String
walk_code g reason =
    if str_eq g.required_unregistered reason
    then g.required_unregistered
    else if str_eq g.required_undecided reason
    then g.required_undecided
    else if str_eq g.no_check_decided reason
    then g.no_check_decided
    else walk_inconsistent

-- The `match` on the outcome and on the second judgement; `refused` is the adapter's own refusal.
unfoldable pub settle : {R : Type 0} → Outcome → Option (Judged R) → R → Walked R
settle allow _ refused = Walked.pass
settle degrade (some (Judged.hold reason)) refused = Walked.hold reason
settle deny (some (Judged.fault reason)) refused = Walked.fault reason
settle _ _ refused = Walked.fault refused

unfoldable pub walk :
    {S R : Type 0} → ClosedGate → S → List (Step S R) → List String → (String → R) → Walked R
unfolding settle walk_code
walk g subject steps required walk_fault =
    let decision = g.run required (map (check subject) steps) in
    settle decision.outcome (decided_by subject steps (first_id decision.check_ids))
      (walk_fault (walk_code g decision.reason))
