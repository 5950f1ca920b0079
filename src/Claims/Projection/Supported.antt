-- ===== src/Claims/Projection/Supported.antt =====
-- What a whole projection of crates/aicortex-claims/src/projection.rs lists, slot by slot.
use mathlib.Core.Path.{subst}
use aicortex.Prelude.{
  ℕ, ◌≡◌, refl, sym, Bool, true, false, not, inl, inr, List, [], ◌∷◌, if◌then◌else◌, In, retain-In,
  All, All-of_In, All-In, Bool-cases, ok, >>=-eq-ok, ok-injective,
}
use text.Mathlib.Text.{◌==◌ as str_eq}
use aicortex.Claims.Slot.{SlotId}
use aicortex.Claims.History.{ClaimHistory}
use aicortex.Claims.Window.{Chrono, ProjectionPolicy, AsOf, TxBound, bound_window}
use aicortex.Claims.Projection.{
  Candidate, SlotState, value, conflicted, retracted, absent, SlotView, ConflictProposal, Covered,
  id_of, member, drop_ids, state_of, agree,
}
use aicortex.Claims.Projection.Slots.{
  Group, retracted_ids, group, candidates_of, slot_view, slot_views, project_slots, is_nil,
}
use aicortex.Claims.Projection.Candidates.{
  IsKnown, GroupsKnown, Shows, group-GroupsKnown, candidates_of-All,
}

-- The candidates that a state lists.
abbrev pub listed : SlotState → List Candidate
listed (value cs) = cs
listed (conflicted cs) = cs
listed retracted = []
listed absent = []

-- The candidate shows a claim of the history that is within the bound, of the slot, and not
-- retracted within the bound.
abbrev pub IsSupported : ClaimHistory → TxBound → SlotId → Candidate → Type 0
IsSupported h bound s c =
    (k : Covered) × (IsKnown h bound s k
      × (member (id_of k) (retracted_ids bound h.retractions) ≡ false))
    × Shows c k

pub listed-state_of : (cs : List Candidate) → listed (state_of cs) ≡ cs
listed-state_of cs = elim (Bool-cases (agree cs)) [ inl b ↦ rw b refl | inr b ↦ rw b refl ]

pub not-true : (b : Bool) → not b ≡ true → b ≡ false
not-true true e = cc
not-true false e = refl

slot_view-IsSupported :
    (chrono : Chrono) (h : ClaimHistory) (bound : TxBound) (policy : ProjectionPolicy) (g : Group)
    (acc : List ConflictProposal) (out : SlotView × List ConflictProposal)
    → slot_view chrono h bound policy (retracted_ids bound h.retractions) g acc ≡ ok out
    → All (IsKnown h bound g.0) g.1
    → All (IsSupported h bound out.0.slot) (listed out.0.state)
unfolding slot_view drop_ids
slot_view-IsSupported chrono h bound policy (s, covered) acc out e a =
    elim (Bool-cases (is_nil active)) [
      | inl b ↦ let e' = rw b at e in subst Good (ok-injective e') (nothing (is_nil covered))
      | inr b ↦
          let e' = rw b at e in
          let (cs, f, g) = >>=-eq-ok (candidates_of chrono h bound policy active) _ e' in
          subst Good (ok-injective g) (
            subst (All (IsSupported h bound s)) (sym (listed-state_of cs))
              (candidates_of-All Known chrono h bound policy active f known))
    ]
  where
    gone : List ℕ
    gone = retracted_ids bound h.retractions

    active : List Covered
    active = drop_ids gone covered

    Known : Covered → Type 0
    Known k = IsKnown h bound s k × (member (id_of k) gone ≡ false)

    Good : SlotView × List ConflictProposal → Type 0
    Good o = All (IsSupported h bound o.0.slot) (listed o.0.state)

    nothing : (b : Bool) → All (IsSupported h bound s) (listed (if b then absent else retracted))
    nothing true = tt
    nothing false = tt

    known : All Known active
    known = All-of_In Known active (λ k i.
        let (j, q) = retain-In (λ c. not (member (id_of c) gone)) covered k i in
        (All-In (IsKnown h bound s) covered k a j, not-true (member (id_of k) gone) q))

-- What each group's view satisfies, each view of the projection does.
pub slot_views-All :
    (Q : Group → Type 0) (P : SlotView → Type 0) (chrono : Chrono) (h : ClaimHistory)
    (bound : TxBound) (policy : ProjectionPolicy) (gone : List ℕ)
    → ((g : Group) (acc : List ConflictProposal) (out : SlotView × List ConflictProposal)
        → slot_view chrono h bound policy gone g acc ≡ ok out
        → Q g
        → P out.0)
    → (gs : List Group) (acc : List ConflictProposal) (out : List SlotView × List ConflictProposal)
    → slot_views chrono h bound policy gone gs acc ≡ ok out
    → All Q gs
    → All P out.0
unfolding slot_views
slot_views-All Q P chrono h bound policy gone k [] acc out e a =
    subst (λ o. All P o.0) (ok-injective e) tt
slot_views-All Q P chrono h bound policy gone k (g ∷ gs) acc out e a =
    let (here, f, e₁) = >>=-eq-ok (slot_view chrono h bound policy gone g acc) _ e in
    let (later, f', e₂) = >>=-eq-ok (slot_views chrono h bound policy gone gs here.1) _ e₁ in
    subst (λ o. All P o.0) (ok-injective e₂)
      (k g acc here f a.0, slot_views-All Q P chrono h bound policy gone k gs here.1 later f' a.1)

-- A successful projection is the views of the groups of the claims within the bound.
pub project_slots-groups :
    (chrono : Chrono) (h : ClaimHistory) (as_of : AsOf) (policy : ProjectionPolicy)
    (out : List SlotView × List ConflictProposal)
    → project_slots chrono h as_of policy ≡ ok out
    → (gs : List Group) × GroupsKnown h as_of.knowledge gs
      × (slot_views chrono h as_of.knowledge policy
            (retracted_ids as_of.knowledge h.retractions)
            gs
            []
          ≡ ok out)
unfolding project_slots
project_slots-groups chrono h as_of policy out e =
    elim (Bool-cases (not (str_eq policy.time_zone_database chrono.database))) [
      | inl b ↦ let e' = rw b at e in cc
      | inr b ↦
          let e' = rw b at e in
          let (query, f, e₁) = >>=-eq-ok (bound_window chrono as_of.valid policy) _ e' in
          let (groups, f', e₂) =
            >>=-eq-ok (group chrono policy as_of.knowledge query h.claims []) _ e₁ in
          (
            groups,
            group-GroupsKnown h as_of.knowledge chrono policy query h.claims [] f'
                (All-of_In (λ r. In r h.claims) h.claims (λ r i. i)) tt,
            e₂,
          )
    ]

-- A projection that succeeds lists, in the view of a slot, only candidates that each show the id,
-- the value and the authority of a claim of the history, one that belongs to that slot, lies within
-- the bound of knowledge and has no retraction within it.
pub project_slots-IsSupported :
    (chrono : Chrono) (h : ClaimHistory) (as_of : AsOf) (policy : ProjectionPolicy)
    (out : List SlotView × List ConflictProposal)
    → project_slots chrono h as_of policy ≡ ok out
    → All (λ v. All (IsSupported h as_of.knowledge v.slot) (listed v.state)) out.0
project_slots-IsSupported chrono h as_of policy out e =
    let (groups, known, f) = project_slots-groups chrono h as_of policy out e in
    slot_views-All (λ g. All (IsKnown h as_of.knowledge g.0) g.1)
      (λ v. All (IsSupported h as_of.knowledge v.slot) (listed v.state)) chrono h as_of.knowledge
      policy (retracted_ids as_of.knowledge h.retractions)
      (slot_view-IsSupported chrono h as_of.knowledge policy) groups [] out f known
