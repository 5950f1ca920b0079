-- ===== src/Gate/Walk.antt =====
-- crates/aicortex-gate/src/walk.rs: the rules of the gate, sequenced by the closed evaluation of
-- `action_gate_core`. That crate is not part of the repository: its evaluation is the parameter
-- `run`, a function of the required ids and of what each registered check decided. A check reads
-- its subject and never the context, so the context is left out.
use aicortex.Prelude.{
  ℕ, ◌≡◌, refl, Bool, true, false, Option, none, some, List, [], ◌∷◌, ◌++◌, map, if◌then◌else◌,
}
use Prim.Native.String.{String, ◌++◌ as str_append}
use text.Mathlib.Text.{◌==◌ as str_eq}
pub mod Run
pub mod Laws
pub mod Chain

pub data Outcome : Type 0 where
  allow degrade deny : Outcome

pub record Decision : Type 0 where
  pub outcome : Outcome
  pub reason : String
  pub check_ids : List String
  pub blocking : Bool

pub data Judged (R : Type 0) : Type 0 where
  pass : Judged R
  hold : R → Judged R
  fault : R → Judged R

pub data Walked (R : Type 0) : Type 0 where
  pass : Walked R
  hold : R → Walked R
  fault : R → Walked R

pub record Step (S R : Type 0) : Type 0 where
  pub id : String
  pub judge : S → Judged R

-- `StepCheck::evaluate`: every step decides.
abbrev pub decision_of : {R : Type 0} → String → Judged R → Decision
decision_of id pass = record {
  outcome = allow;
  reason = str_append (str_append "aicortex:allow:" id) ":clean";
  check_ids = id ∷ [];
  blocking = false;
}
decision_of id (hold _) = record {
  outcome = degrade;
  reason = str_append "aicortex:degrade:" id;
  check_ids = id ∷ [];
  blocking = false;
}
decision_of id (fault _) = record {
  outcome = deny;
  reason = str_append "aicortex:deny:" id;
  check_ids = id ∷ [];
  blocking = true;
}

-- What the closed gate of `action_gate_core` is to this crate: its evaluation, and the codes of
-- the refusals that it makes itself.
pub record ClosedGate : Type 0 where
  pub run : List String → List (String × Decision) → Decision
  pub required_unregistered : String
  pub required_undecided : String
  pub no_check_decided : String
