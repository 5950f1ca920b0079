-- ===== src/Gate/ClaimGate/Bounds.antt =====
-- The bounds on the authority that evidence earns (crates/aicortex-gate/src/claim_gate.rs).
use aicortex.Prelude.{
  ◌≡◌, ◌≤◌, refl, sym, ap, Bool, true, false, not, Option, none, some, List, [], ◌∷◌, In, inl, inr,
  filter_map, filter_map-In, In-filter_map, All, All-of_In, arith, Bool-cases, some-injective,
}
use mathlib.Core.Path.{subst}
use package.text.Mathlib.Text.{◌==◌ as str_eq}
use text.Mathlib.TextEquality.{eq_iff}
use aicortex.Prelude.Equal.{same}
use aicortex.Types.Memory.{Actor, is_human}
use aicortex.Types.Claim.{AuthorityLevel, authority_key}
use aicortex.Types.Evidence.{Evidence, EvidenceKind, evidence_kind, is_user_level, ClaimProposal}
use aicortex.Gate.ClaimGate.Policy.{
  AdmissionPolicy, Ceiling, EvidenceKind-discrete, ceiling_of, at_most, min_level, lowered,
  lower_to, ceiling,
}
use aicortex.Gate.ClaimGate.Grounds.{
  Statement, honoured, user_statements, is_empty_list, level_of, under_ceiling, earned_under,
  earned_by, max_level, max_levels, earned, grounds_of, is_correcting,
}

infix 20 ◌⊑◌
abbrev pub ◌⊑◌ : AuthorityLevel → AuthorityLevel → Type 0
a ⊑ b = authority_key a ≤ authority_key b

min_level-right : (a b : AuthorityLevel) → min_level a b ⊑ b
min_level-right a b = ground arith

lowered-below :
    (cs : List Ceiling) (kind : EvidenceKind) (most : AuthorityLevel) → lowered cs kind most ⊑ most
unfolding lowered
lowered-below [] kind most = omega arith
lowered-below (c ∷ cs) kind most = elim (Bool-cases (same EvidenceKind-discrete c.evidence kind)) [
  | inl e ↦ rw e (min_level-right c.level most)
  | inr e ↦ rw e (lowered-below cs kind most)
]

-- The policy can lower what a kind of evidence earns, never raise it.
pub ceiling-below :
    (policy : AdmissionPolicy) (kind : EvidenceKind) (level : AuthorityLevel)
    → ceiling policy kind ≡ some level
    → (most : AuthorityLevel) × (ceiling_of kind ≡ some most) × (level ⊑ most)
unfolding ceiling
ceiling-below policy kind level e = by_ceiling (ceiling_of kind) refl e
  where
    by_ceiling :
        (o : Option AuthorityLevel)
        → ceiling_of kind ≡ o
        → lower_to policy kind o ≡ some level
        → (most : AuthorityLevel) × (ceiling_of kind ≡ some most) × (level ⊑ most)
    by_ceiling none p h = cc
    by_ceiling (some most) p h = (
      most,
      p,
      subst (λ l. l ⊑ most) (some-injective h) (lowered-below policy.ceilings kind most),
    )

max_levels-In : (xs : List AuthorityLevel) (l : AuthorityLevel) → max_levels xs ≡ some l → In l xs
unfolding max_levels
max_levels-In [] l e = cc
max_levels-In (a ∷ xs) l e =
    by_rest (max_levels xs) (some-injective e) (λ m p. max_levels-In xs m p)
  where
    by_rest :
        (o : Option AuthorityLevel)
        → max_level a o ≡ l
        → ((m : AuthorityLevel) → o ≡ some m → In m xs)
        → In l (a ∷ xs)
    by_rest none h k = inl (sym h)
    by_rest (some b) h k = elim (Bool-cases (at_most a b)) [
      | inl t ↦ inr (k l (ap some (rw t at h)))
      | inr t ↦ inl (sym (rw t at h))
    ]

under_ceiling-below :
    (most : AuthorityLevel) (o : Option AuthorityLevel) (level : AuthorityLevel)
    → under_ceiling most o ≡ some level
    → level ⊑ most
under_ceiling-below most none level e = cc
under_ceiling-below most (some l) level e =
    subst (λ x. x ⊑ most) (some-injective e) (min_level-right l most)

module _ (policy : AdmissionPolicy) (honoured_statement correcting : Bool) (e : Evidence)
    (level : AuthorityLevel) where
  earned_under-below :
      (kind : EvidenceKind) (o : Option AuthorityLevel)
      → earned_under honoured_statement correcting kind o ≡ some level
      → (most : AuthorityLevel) × (o ≡ some most) × (level ⊑ most)
  earned_under-below kind none h = cc
  earned_under-below kind (some most) h = (
    most,
    refl,
    under_ceiling-below most (level_of honoured_statement correcting kind most) level h,
  )

  -- One item of evidence earns no more than its kind can ever earn.
  pub earned_by-below :
      earned_by policy honoured_statement correcting e ≡ some level
      → (most : AuthorityLevel) × (ceiling_of (evidence_kind e) ≡ some most) × (level ⊑ most)
  earned_by-below h =
      let (under, p, below) =
        earned_under-below (evidence_kind e) (ceiling policy (evidence_kind e)) h in
      let (most, q, lower) = ceiling-below policy (evidence_kind e) under p in
      (most, q, omega arith)

-- What is earned, is earned by an item of the evidence.
pub earned-by_item :
    (p : ClaimProposal) (policy : AdmissionPolicy) (h c : Bool) (level : AuthorityLevel)
    → earned p policy h c ≡ some level
    → (e : Evidence) × In e p.evidence × (earned_by policy h c e ≡ some level)
unfolding earned
earned-by_item p policy h c level e =
    filter_map-In (earned_by policy h c) p.evidence level
      (max_levels-In (filter_map (earned_by policy h c) p.evidence) level e)

-- A kind other than a user statement can never earn the user's level.
ceiling_of-user :
    (kind : EvidenceKind) (most level : AuthorityLevel)
    → ceiling_of kind ≡ some most
    → level ⊑ most
    → is_user_level level ≡ true
    → kind ≡ EvidenceKind.user_statement
unfolding ceiling_of is_user_level
ceiling_of-user EvidenceKind.user_statement most level e b u = refl
ceiling_of-user EvidenceKind.source_span most level e b u = ground arith
ceiling_of-user EvidenceKind.span_verified most level e b u = ground arith
ceiling_of-user EvidenceKind.model_score most level e b u = ground arith
ceiling_of-user EvidenceKind.rule_match most level e b u = ground arith
ceiling_of-user EvidenceKind.corroboration most level e b u = ground arith
ceiling_of-user EvidenceKind.review_approval most level e b u = ground arith
ceiling_of-user EvidenceKind.operator_seed most level e b u = ground arith

-- What an item of a proposal's evidence earns by itself.
abbrev pub earned_of : ClaimProposal → AdmissionPolicy → Evidence → Option AuthorityLevel
earned_of p policy = earned_by policy (not (is_empty_list (user_statements p))) (is_correcting p)

-- What is earned, if anything, is at most the level.
abbrev pub AtMost : Option AuthorityLevel → AuthorityLevel → Type 0
AtMost none level = Unit
AtMost (some a) level = a ⊑ level

max_level-above : (a b : AuthorityLevel) → (a ⊑ max_level a (some b)) × (b ⊑ max_level a (some b))
max_level-above a b = elim (Bool-cases (at_most a b)) [
  | inl t ↦ rw t (ground arith, omega arith)
  | inr t ↦ rw t (omega arith, ground arith)
]

max_levels-most :
    (xs : List AuthorityLevel) (l x : AuthorityLevel) → max_levels xs ≡ some l → In x xs → x ⊑ l
unfolding max_levels
max_levels-most [] l x e i = elim i [ ]
max_levels-most (a ∷ xs) l x e i =
    subst (λ m. x ⊑ m) (some-injective e)
      (by_rest (max_levels xs) (λ m p j. max_levels-most xs m x p j) refl i)
  where
    max_levels-some :
        (ys : List AuthorityLevel) (y : AuthorityLevel) → In y ys → max_levels ys ≡ none → ⊥
    max_levels-some [] y j q = elim j [ ]
    max_levels-some (z ∷ ys) y j q = cc

    by_rest :
        (o : Option AuthorityLevel)
        → ((m : AuthorityLevel) → o ≡ some m → In x xs → x ⊑ m)
        → max_levels xs ≡ o
        → In x (a ∷ xs)
        → x ⊑ max_level a o
    by_rest none k q (inl p) = rw p (omega arith)
    by_rest none k q (inr j) = absurd (max_levels-some xs x j q)
    by_rest (some b) k q (inl p) = rw p (max_level-above a b).0
    by_rest (some b) k q (inr j) = omega (arith, k b refl j, (max_level-above a b).1)

-- The authority that a proposal is judged at is what some item of its evidence earns by itself, no
-- item of it earns more, and it is at most the highest level that an item of that kind can ever
-- earn, whatever the policy.
pub grounds_of-below :
    (p : ClaimProposal) (policy : AdmissionPolicy) (level : AuthorityLevel)
    → (grounds_of p policy).authority ≡ some level
    → ((e : Evidence) × In e p.evidence
        × (earned_of p policy e ≡ some level)
        × (most : AuthorityLevel) × (ceiling_of (evidence_kind e) ≡ some most)
        × (level ⊑ most))
      × All (λ e. AtMost (earned_of p policy e) level) p.evidence
unfolding grounds_of earned
grounds_of-below p policy level h =
    let (e, i, b) = earned-by_item p policy _ _ level h in
    let (most, q, below) = earned_by-below policy _ _ e level b in
    (
      (e, i, b, most, q, below),
      All-of_In (λ e'. AtMost (earned_of p policy e') level) p.evidence
          (λ e' j. at_most_of (earned_of p policy e') (λ l c.
            max_levels-most (filter_map (earned_of p policy) p.evidence) level l h
              (In-filter_map (earned_of p policy) p.evidence e' l j c))),
    )
  where
    at_most_of :
        (o : Option AuthorityLevel)
        → ((l : AuthorityLevel) → o ≡ some l → l ⊑ level)
        → AtMost o level
    at_most_of none k = tt
    at_most_of (some l) k = k l refl

earned_under-statement :
    (h c : Bool) (kind : EvidenceKind) (o : Option AuthorityLevel) (level : AuthorityLevel)
    → earned_under h c kind o ≡ some level
    → kind ≡ EvidenceKind.user_statement
    → h ≡ true
earned_under-statement true c kind o level e k = refl
earned_under-statement false c kind none level e k = cc
earned_under-statement false c kind (some most) level e k =
    let e' : none ≡ some level = rw k at e in cc

first_of : {A : Type 0} (xs : List A) → not (is_empty_list xs) ≡ true → (x : A) × In x xs
first_of [] h = cc
first_of (x ∷ xs) h = (x, inl refl)

honoured-human :
    (proposer : Actor) (e : Evidence) (t : Statement)
    → honoured proposer e ≡ some t
    → (is_human proposer.kind ≡ true)
      × ((a : AuthorityLevel) × (e ≡ Evidence.user_statement proposer.id a))
honoured-human proposer (Evidence.user_statement by a) t h =
    let same : str_eq proposer.id by ≡ true = ground arith in
    (
      ground arith,
      (a, ap (λ x. Evidence.user_statement x a) (sym ((eq_iff proposer.id by).0 same))),
    )
honoured-human proposer (Evidence.source_span s) t h = cc
honoured-human proposer (Evidence.span_verified s m) t h = cc
honoured-human proposer (Evidence.model_score m n l) t h = cc
honoured-human proposer (Evidence.rule_match m) t h = cc
honoured-human proposer (Evidence.corroboration c) t h = cc
honoured-human proposer (Evidence.review_approval b d) t h = cc
honoured-human proposer (Evidence.operator_seed b s) t h = cc

-- Where a proposal is judged at the user's level, its proposer is a human, and its evidence holds a
-- statement by that proposer: no policy and no other evidence gives an agent the user's authority.
pub grounds_of-human :
    (p : ClaimProposal) (policy : AdmissionPolicy) (level : AuthorityLevel)
    → (grounds_of p policy).authority ≡ some level
    → is_user_level level ≡ true
    → (is_human p.proposer.kind ≡ true)
      × ((a : AuthorityLevel) × In (Evidence.user_statement p.proposer.id a) p.evidence)
unfolding grounds_of user_statements
grounds_of-human p policy level h u =
    let (e, i, b) = earned-by_item p policy _ _ level h in
    let (most, q, below) = earned_by-below policy _ _ e level b in
    let k = ceiling_of-user (evidence_kind e) most level q below u in
    let stated = earned_under-statement _ _ (evidence_kind e) _ level b k in
    let (t, j) = first_of (user_statements p) stated in
    let (item, i', is) = filter_map-In (honoured p.proposer) p.evidence t j in
    let (is_person, (a, form)) = honoured-human p.proposer item t is in
    (is_person, (a, subst (λ x. In x p.evidence) form i'))
