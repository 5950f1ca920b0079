-- ===== src/Claims/Projection/Verdicts.antt =====
-- What the state of a slot's view in crates/aicortex-claims/src/projection.rs says of its candidates.
use mathlib.Core.Bool.{decide}
use mathlib.Core.Path.{subst}
use aicortex.Prelude.{
  ◌≡◌, refl, sym, ◌∙◌, Bool, true, false, inl, inr, List, [], ◌∷◌, if◌then◌else◌, all, All, ◌≢◌, In,
  None, Bool-cases, ok, >>=-eq-ok, ok-injective, all-true-In,
}
use aicortex.Types.Claim.{ClaimValue, ClaimValue-discrete}
use aicortex.Claims.History.{ClaimHistory}
use aicortex.Claims.Window.{Chrono, ProjectionPolicy, TxBound, AsOf}
use aicortex.Claims.Projection.{
  Candidate, SlotState, value, conflicted, retracted, absent, SlotView, ConflictProposal, Covered,
  state_of, agree, value_eq, drop_ids,
}
use aicortex.Claims.Projection.Slots.{
  candidates_of, slot_view, project_slots, is_nil, retracted_ids, Group,
}
use aicortex.Claims.Projection.Candidates.{IsKnown}
use aicortex.Claims.Projection.Supported.{slot_views-All, project_slots-groups}

-- What the state of a view says of the candidates that it lists: those of a value all have the same
-- value, and among those of a conflict are two with different values.
abbrev pub IsVerdict : SlotState → Type 0
IsVerdict (value cs) = (c d : Candidate) → In c cs → In d cs → c.value ≡ d.value
IsVerdict (conflicted cs) =
    (c : Candidate) × (d : Candidate) × In c cs × In d cs × (c.value ≢ d.value)
IsVerdict retracted = Unit {0}
IsVerdict absent = Unit {0}

decide-holds : {P : Type 0} (d : Dec P) → decide d ≡ true → P
unfolding decide
decide-holds (yes p) e = p
decide-holds (no n) e = cc

decide-fails : {P : Type 0} (d : Dec P) → decide d ≡ false → P → None {0}
unfolding decide
decide-fails (yes p) e q = cc
decide-fails (no n) e q = absurd (n q)

value_eq-eq : (x y : ClaimValue) → value_eq x y ≡ true → x ≡ y
unfolding value_eq
value_eq-eq x y e = decide-holds (ClaimValue-discrete x y) e

value_eq-neq : (x y : ClaimValue) → value_eq x y ≡ false → x ≢ y
unfolding value_eq
value_eq-neq x y e p = elim (decide-fails (ClaimValue-discrete x y) e p) [ ]

-- A test that fails on some element finds it.
all-false-In :
    (p : Candidate → Bool) (cs : List Candidate)
    → all p cs ≡ false
    → (c : Candidate) × In c cs × (p c ≡ false)
all-false-In p [] e = cc
all-false-In p (c ∷ cs) e = elim (Bool-cases (p c)) [
  | inr n ↦ (c, inl refl, n)
  | inl y ↦ let (d, i, n) = all-false-In p cs (rw y at e) in (d, inr i, n)
]

state_of-IsVerdict : (cs : List Candidate) → IsVerdict (state_of cs)
state_of-IsVerdict cs = elim (Bool-cases (agree cs)) [
  | inl b ↦ rw b (same cs b)
  | inr b ↦ rw b (differ cs b)
]
  where
    same : (cs : List Candidate) → agree cs ≡ true → IsVerdict (value cs)
    same [] b c d i j = elim i [ ]
    same (k ∷ ks) b c d i j =
        let to_first = λ (x : Candidate) (l : In x (k ∷ ks)).
          value_eq-eq x.value k.value
            (all-true-In (λ z. value_eq z.value k.value) (k ∷ ks) x b l) in
        to_first c i ∙ sym (to_first d j)

    differ : (cs : List Candidate) → agree cs ≡ false → IsVerdict (conflicted cs)
    differ [] b = cc
    differ (k ∷ ks) b =
        let (c, i, n) = all-false-In (λ z. value_eq z.value k.value) (k ∷ ks) b in
        (c, k, i, inl refl, value_eq-neq c.value k.value n)

slot_view-IsVerdict :
    (chrono : Chrono) (h : ClaimHistory) (bound : TxBound) (policy : ProjectionPolicy) (g : Group)
    (acc : List ConflictProposal) (out : SlotView × List ConflictProposal)
    → slot_view chrono h bound policy (retracted_ids bound h.retractions) g acc ≡ ok out
    → IsVerdict out.0.state
unfolding slot_view
slot_view-IsVerdict chrono h bound policy (s, covered) acc out e =
    elim (Bool-cases (is_nil active)) [
      | inl b ↦
          let e' = rw b at e in
          subst (λ o. IsVerdict o.0.state) (ok-injective e') (nothing (is_nil covered))
      | inr b ↦
          let e' = rw b at e in
          let (cs, f, q) = >>=-eq-ok (candidates_of chrono h bound policy active) _ e' in
          subst (λ o. IsVerdict o.0.state) (ok-injective q) (state_of-IsVerdict cs)
    ]
  where
    active : List Covered
    active = drop_ids (retracted_ids bound h.retractions) covered

    nothing : (b : Bool) → IsVerdict (if b then absent else retracted)
    nothing true = tt
    nothing false = tt

-- In a projection that succeeds, the candidates of every view with a value have the same value, and
-- every view with a conflict lists two candidates with different values.
pub project_slots-IsVerdict :
    (chrono : Chrono) (h : ClaimHistory) (as_of : AsOf) (policy : ProjectionPolicy)
    (out : List SlotView × List ConflictProposal)
    → project_slots chrono h as_of policy ≡ ok out
    → All (λ v. IsVerdict v.state) out.0
project_slots-IsVerdict chrono h as_of policy out e =
    let (groups, known, f) = project_slots-groups chrono h as_of policy out e in
    slot_views-All (λ g. All (IsKnown h as_of.knowledge g.0) g.1) (λ v. IsVerdict v.state) chrono h
      as_of.knowledge policy (retracted_ids as_of.knowledge h.retractions)
      (λ g acc o q k. slot_view-IsVerdict chrono h as_of.knowledge policy g acc o q) groups [] out f
      known
