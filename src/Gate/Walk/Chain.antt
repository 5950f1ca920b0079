-- ===== src/Gate/Walk/Chain.antt =====
-- The walk against the chain of early returns that it replaced (spec 057, B-3).
use aicortex.Prelude.{
  ◌≡◌, refl, sym, ap, ◌∙◌, true, false, List, [], ◌∷◌, ◌++◌, map, ◌≢◌, ◌⊎◌, inl, inr, All, In, any,
  all, arith, Bool-cases,
}
use mathlib.Core.Path.{subst}
use Prim.Native.String.{String}
use aicortex.Gate.Walk.{Judged, Walked, Step, ClosedGate}
use aicortex.Gate.Walk.Run.{check, walk}
use aicortex.Gate.Walk.Laws.{
  IsClosed, all_registered, distinct, faults, holds, passes, walk-fault, walk-hold, walk-pass,
}

-- A hold does not end the chain, and any later refusal outranks it.
abbrev pub outranked : {R : Type 0} → R → Walked R → Walked R
outranked r (Walked.fault q) = Walked.fault q
outranked r _ = Walked.hold r

abbrev pub after : {R : Type 0} → Judged R → Walked R → Walked R
after Judged.pass rest = rest
after (Judged.hold r) rest = outranked r rest
after (Judged.fault r) rest = Walked.fault r

-- The rules in order: the first refusal is the answer, else a hold, else a pass.
abbrev pub chain : {S R : Type 0} → S → List (Step S R) → Walked R
chain subject [] = Walked.pass
chain subject (s ∷ rest) = after (s.judge subject) (chain subject rest)

-- Every step that holds, holds for the one reason `r`.
abbrev pub HoldsOnly : {S R : Type 0} → S → R → List (Step S R) → Type 0
HoldsOnly subject r = All (λ s. (q : _) → s.judge subject ≡ Judged.hold q → q ≡ r)

Judged-cases :
    {R : Type 0} (j : Judged R)
    → (j ≡ Judged.pass) ⊎ ((r : R) × (j ≡ Judged.hold r)) ⊎ ((r : R) × (j ≡ Judged.fault r))
Judged-cases Judged.pass = inl refl
Judged-cases (Judged.hold r) = inr (inl (r, refl))
Judged-cases (Judged.fault r) = inr (inr (r, refl))

faults-fault : {R : Type 0} (j : Judged R) → faults j ≡ true → (r : R) × (j ≡ Judged.fault r)
faults-fault Judged.pass h = cc
faults-fault (Judged.hold r) h = cc
faults-fault (Judged.fault r) h = (r, refl)

after-fault :
    {R : Type 0} (j : Judged R) (q : R)
    → faults j ≡ false
    → after j (Walked.fault q) ≡ Walked.fault q
after-fault Judged.pass q h = refl
after-fault (Judged.hold r) q h = refl
after-fault (Judged.fault r) q h = cc

module _ {S R : Type 0} (subject : S) where
  -- The first refusal, with what stands before it.
  record FirstFault (steps : List (Step S R)) : Type 0 where
    before : List (Step S R)
    at : Step S R
    after_it : List (Step S R)
    why : R
    splits : steps ≡ before ++ at ∷ after_it
    clean : any (λ t. faults (t.judge subject)) before ≡ false
    judged : at.judge subject ≡ Judged.fault why
    answer : chain subject steps ≡ Walked.fault why

  first_fault :
      (steps : List (Step S R))
      → any (λ t. faults (t.judge subject)) steps ≡ true
      → FirstFault steps
  first_fault [] h = cc
  first_fault (s ∷ rest) h = elim (Bool-cases (faults (s.judge subject))) [
    | inl e ↦
        let (r, j) = faults-fault (s.judge subject) e in
        record {
          before = [];
          at = s;
          after_it = rest;
          why = r;
          splits = refl;
          clean = refl;
          judged = j;
          answer = rw j;
        }
    | inr e ↦
        let later = first_fault rest (rw e at h) in
        record {
          before = s ∷ later.before;
          at = later.at;
          after_it = later.after_it;
          why = later.why;
          splits = ap (λ l. s ∷ l) later.splits;
          clean = rw e later.clean;
          judged = later.judged;
          answer = rw later.answer (after-fault (s.judge subject) later.why e);
        }
  ]

  chain-pass :
      (steps : List (Step S R))
      → any (λ t. faults (t.judge subject)) steps ≡ false
      → any (λ t. holds (t.judge subject)) steps ≡ false
      → (all (λ t. passes (t.judge subject)) steps ≡ true) × (chain subject steps ≡ Walked.pass)
  chain-pass [] f h = (refl, refl)
  chain-pass (s ∷ rest) f h = ground (arith, chain-pass rest)

  chain-hold :
      (steps : List (Step S R)) (r : R)
      → any (λ t. faults (t.judge subject)) steps ≡ false
      → any (λ t. holds (t.judge subject)) steps ≡ true
      → HoldsOnly subject r steps
      → chain subject steps ≡ Walked.hold r
  chain-hold [] r f h o = cc
  chain-hold (s ∷ rest) r f h o = elim (Judged-cases (s.judge subject)) [
    | inl e ↦ rw e (chain-hold rest r (rw e at f) (rw e at h) o.1)
    | inr (inl (q, e)) ↦ elim (Bool-cases (any (λ t. holds (t.judge subject)) rest)) [
      | inl more ↦ rw (e, chain-hold rest r (rw e at f) more o.1) (ap Walked.hold (o.0 q e))
      | inr none ↦ rw (e, (chain-pass rest (rw e at f) none).1) (ap Walked.hold (o.0 q e))
    ]
    | inr (inr (q, e)) ↦ let g : true ≡ false = rw e at f in cc
  ]

HoldsOnly-In :
    {S R : Type 0} (subject : S) (r : R) (steps : List (Step S R)) (s : Step S R) (q : R)
    → HoldsOnly subject r steps
    → In s steps
    → s.judge subject ≡ Judged.hold q
    → q ≡ r
HoldsOnly-In subject r [] s q o i e = elim i [ ]
HoldsOnly-In subject r (t ∷ rest) s q o (inl p) e = o.0 q (rw p at e)
HoldsOnly-In subject r (t ∷ rest) s q o (inr i) e = HoldsOnly-In subject r rest s q o.1 i e

module _ {S R : Type 0} (g : ClosedGate) (closed : IsClosed g) (subject : S)
    (required : List String) (walk_fault : String → R) where
  walk_of_fault :
      (steps : List (Step S R))
      → distinct steps ≡ true
      → all_registered required (map (check subject) steps) ≡ true
      → FirstFault subject steps
      → walk g subject steps required walk_fault ≡ chain subject steps
  walk_of_fault steps d reg f =
      ap (λ l. walk g subject l required walk_fault) f.splits
      ∙ walk-fault g closed subject required walk_fault f.before f.after_it f.at f.why
          (subst (λ l. distinct l ≡ true) f.splits d)
          (subst (λ l. all_registered required (map (check subject) l) ≡ true) f.splits reg) f.clean
          f.judged
      ∙ sym f.answer

  -- Under the documented behaviour of the closed gate, for at least one step, with distinct ids,
  -- every required id registered and one reason that any step holds for: asking the closed gate and
  -- judging the deciding step again is the chain of early returns.
  pub walk-eq-chain :
      (steps : List (Step S R)) (r : R)
      → steps ≢ []
      → distinct steps ≡ true
      → all_registered required (map (check subject) steps) ≡ true
      → HoldsOnly subject r steps
      → walk g subject steps required walk_fault ≡ chain subject steps
  walk-eq-chain steps r ne d reg o = elim (Bool-cases (any (λ t. faults (t.judge subject)) steps)) [
    | inl f ↦ walk_of_fault steps d reg (first_fault subject steps f)
    | inr f ↦ elim (Bool-cases (any (λ t. holds (t.judge subject)) steps)) [
      | inl h ↦
          let (s, i, q, e, answer) =
            walk-hold g closed subject required walk_fault steps d reg f h in
          answer
          ∙ ap Walked.hold (HoldsOnly-In subject r steps s q o i e)
          ∙ sym (chain-hold subject steps r f h o)
      | inr h ↦
          let (p, c) = chain-pass subject steps f h in
          walk-pass g closed subject required walk_fault steps ne reg p ∙ sym c
    ]
  ]
