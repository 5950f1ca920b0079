-- ===== src/Gate/Walk/Laws.antt =====
-- What the walk answers, from the documented behaviour of the closed gate.
use aicortex.Prelude.{
  ◌≡◌, refl, ap, ◌∙◌, Bool, true, false, some, List, [], ◌∷◌, ◌++◌, map, ◌≢◌, inl, inr, In,
  In-append_right, any-false-In, arith, any, all, not, ◌&&◌,
}
use mathlib.Core.List.{map-append}
use Prim.Native.String.{String}
use text.Mathlib.Text.{◌==◌ as str_eq}
use text.Mathlib.TextEquality.{eq_iff}
use aicortex.Gate.Walk.{
  allow, degrade, deny, Decision, Judged, Walked, Step, decision_of, ClosedGate,
}
use aicortex.Gate.Walk.Run.{check, first_id, judge_again, walk}

-- Every required id is that of a registered check.
abbrev pub all_registered : List String → List (String × Decision) → Bool
all_registered required checks = all (λ r. any (λ c. str_eq r c.0) checks) required

abbrev pub is_denial : Decision → Bool
is_denial d = elim d.outcome [ deny ↦ true | _ ↦ false ]

abbrev pub is_degrade : Decision → Bool
is_degrade d = elim d.outcome [ degrade ↦ true | _ ↦ false ]

abbrev pub is_allow : Decision → Bool
is_allow d = elim d.outcome [ allow ↦ true | _ ↦ false ]

-- The documented behaviour of the closed mode. `ends`: a blocking denial ends the walk and is the
-- decision. `outranks`: where nothing denies and some check degrades, the decision degrades and
-- names such a check. `affirms`: where every check allows, and there is one, the decision allows.
pub record IsClosed (g : ClosedGate) : Type 0 where
  pub ends :
      (required : List String) (before after : List (String × Decision)) (id : String)
      (d : Decision)
      → all_registered required (before ++ (id, d) ∷ after) ≡ true
      → any (λ c. is_denial c.1) before ≡ false
      → d.outcome ≡ deny
      → d.blocking ≡ true
      → g.run required (before ++ (id, d) ∷ after) ≡ d
  pub outranks :
      (required : List String) (checks : List (String × Decision))
      → all_registered required checks ≡ true
      → any (λ c. is_denial c.1) checks ≡ false
      → any (λ c. is_degrade c.1) checks ≡ true
      → (c : String × Decision) × In c checks
        × (is_degrade c.1 ≡ true)
        × ((g.run required checks).outcome ≡ degrade)
        × (first_id (g.run required checks).check_ids ≡ some c.0)
  pub affirms :
      (required : List String) (checks : List (String × Decision))
      → all_registered required checks ≡ true
      → all (λ c. is_allow c.1) checks ≡ true
      → checks ≢ []
      → (g.run required checks).outcome ≡ allow

-- No two steps share an id.
abbrev pub distinct : {S R : Type 0} → List (Step S R) → Bool
distinct [] = true
distinct (s ∷ rest) = not (any (λ t. str_eq s.id t.id) rest) && distinct rest

abbrev pub faults : {R : Type 0} → Judged R → Bool
faults (Judged.fault r) = true
faults _ = false

abbrev pub holds : {R : Type 0} → Judged R → Bool
holds (Judged.hold r) = true
holds _ = false

abbrev pub passes : {R : Type 0} → Judged R → Bool
passes Judged.pass = true
passes _ = false

module _ {S R : Type 0} (subject : S) where
  -- With distinct ids, looking a step up by its id finds that step.
  judge_again-In :
      (steps : List (Step S R)) (s : Step S R)
      → distinct steps ≡ true
      → In s steps
      → judge_again subject steps s.id ≡ some (s.judge subject)
  judge_again-In [] s d i = elim i [ ]
  judge_again-In (t ∷ rest) s d (inl e) = rw e (rw ((eq_iff t.id t.id).1 refl) refl)
  judge_again-In (t ∷ rest) s d (inr i) =
      let other = any-false-In (λ (u : Step S R). str_eq t.id u.id) rest s (ground arith) i in
      rw other (judge_again-In rest s (ground arith) i)

  In-check :
      (steps : List (Step S R)) (c : String × Decision)
      → In c (map (check subject) steps)
      → (s : Step S R) × In s steps × (c ≡ check subject s)
  In-check [] c i = elim i [ ]
  In-check (t ∷ rest) c (inl e) = (t, inl refl, e)
  In-check (t ∷ rest) c (inr i) = let (s, j, e) = In-check rest c i in (s, inr j, e)

  map-check-append :
      (before after : List (Step S R))
      → map (check subject) (before ++ after)
        ≡ map (check subject) before ++ map (check subject) after
  map-check-append before after = map-append (check subject) before after

  none_denies :
      (steps : List (Step S R))
      → any (λ s. faults (s.judge subject)) steps ≡ false
      → any (λ c. is_denial c.1) (map (check subject) steps) ≡ false
  none_denies [] h = refl
  none_denies (s ∷ rest) h = ground (arith, none_denies rest)

  some_degrades :
      (steps : List (Step S R))
      → any (λ s. holds (s.judge subject)) steps ≡ true
      → any (λ c. is_degrade c.1) (map (check subject) steps) ≡ true
  some_degrades [] h = h
  some_degrades (s ∷ rest) h = ground (arith, some_degrades rest)

  all_allow :
      (steps : List (Step S R))
      → all (λ s. passes (s.judge subject)) steps ≡ true
      → all (λ c. is_allow c.1) (map (check subject) steps) ≡ true
  all_allow [] h = refl
  all_allow (s ∷ rest) h = ground (arith, all_allow rest)

  map-ne-nil : (steps : List (Step S R)) → steps ≢ [] → map (check subject) steps ≢ []
  map-ne-nil [] ne = absurd (ne refl)
  map-ne-nil (s ∷ rest) ne = λ e. cc

degrade-hold :
    {R : Type 0} (id : String) (j : Judged R)
    → is_degrade (decision_of id j) ≡ true
    → (r : R) × (j ≡ Judged.hold r)
degrade-hold id Judged.pass h = cc
degrade-hold id (Judged.hold r) h = (r, refl)
degrade-hold id (Judged.fault r) h = cc

-- The steps, each registered once, and the gate that evaluates them.
module _ {S R : Type 0} (g : ClosedGate) (closed : IsClosed g) (subject : S)
    (required : List String) (walk_fault : String → R) where
  -- Under the documented behaviour of the closed gate, with distinct ids and every required id
  -- registered, the first step that faults decides: the walk refuses with its reason, whatever
  -- follows.
  pub walk-fault :
      (before after : List (Step S R)) (s : Step S R) (r : R)
      → distinct (before ++ s ∷ after) ≡ true
      → all_registered required (map (check subject) (before ++ s ∷ after)) ≡ true
      → any (λ t. faults (t.judge subject)) before ≡ false
      → s.judge subject ≡ Judged.fault r
      → walk g subject (before ++ s ∷ after) required walk_fault ≡ Walked.fault r
  unfolding walk
  walk-fault before after s r d reg none_before e =
      let again : judge_again subject (before ++ s ∷ after) s.id ≡ some (Judged.fault r) =
        judge_again-In subject _ s d (In-append_right before after s) ∙ ap some e in
      let run : g.run required (map (check subject) (before ++ s ∷ after))
          ≡ decision_of s.id (Judged.fault r) =
        rw (map-check-append subject before (s ∷ after), e)
          (closed.ends required (map (check subject) before) (map (check subject) after) s.id
            (decision_of s.id (Judged.fault r)) (registered_at reg)
            (none_denies subject before none_before) refl refl) in
      rw (run, again) refl
    where
      registered_at :
          all_registered required (map (check subject) (before ++ s ∷ after)) ≡ true
          → all_registered required (
              map (check subject) before
              ++ (s.id, decision_of s.id (Judged.fault r)) ∷ map (check subject) after)
            ≡ true
      registered_at h = rw (map-check-append subject before (s ∷ after), e) at h

  -- Under the documented behaviour of the closed gate, with distinct ids and every required id
  -- registered, where no step faults and some step holds, the walk holds, with the reason of such a
  -- step.
  pub walk-hold :
      (steps : List (Step S R))
      → distinct steps ≡ true
      → all_registered required (map (check subject) steps) ≡ true
      → any (λ t. faults (t.judge subject)) steps ≡ false
      → any (λ t. holds (t.judge subject)) steps ≡ true
      → (s : Step S R) × In s steps
        × (r : R) × (s.judge subject ≡ Judged.hold r)
        × (walk g subject steps required walk_fault ≡ Walked.hold r)
  unfolding walk
  walk-hold steps d reg f h =
      let (c, i, deg, out, named) =
        closed.outranks required (map (check subject) steps) reg (none_denies subject steps f)
          (some_degrades subject steps h) in
      let (s, j, e) = In-check subject steps c i in
      let (r, judged) = degrade-hold s.id (s.judge subject) (rw e at deg) in
      let again : judge_again subject steps s.id ≡ some (Judged.hold r) =
        judge_again-In subject steps s d j ∙ ap some judged in
      let first : first_id (g.run required (map (check subject) steps)).check_ids ≡ some s.id =
        named ∙ ap (λ (x : String × Decision). some x.0) e in
      (s, j, r, judged, rw (out, first, again) refl)

  -- Where every step passes, and there is one, the walk passes.
  pub walk-pass :
      (steps : List (Step S R))
      → steps ≢ []
      → all_registered required (map (check subject) steps) ≡ true
      → all (λ t. passes (t.judge subject)) steps ≡ true
      → walk g subject steps required walk_fault ≡ Walked.pass
  unfolding walk
  walk-pass steps ne reg p = rw (
      closed.affirms required (map (check subject) steps) reg (all_allow subject steps p)
        (map-ne-nil subject steps ne))
