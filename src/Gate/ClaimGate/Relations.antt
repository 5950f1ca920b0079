-- ===== src/Gate/ClaimGate/Relations.antt =====
-- `relate` (crates/aicortex-gate/src/claim_gate.rs) without its loop: which relations are allowed, and what
-- they add up to.
use aicortex.Prelude.{
  ℕ, ◌≡◌, ◌≢◌, inl, inr, refl, sym, ap, ◌∙◌, Bool, true, false, not, ◌&&◌, ◌||◌, ◌↔◌, Option, none,
  some, List, [], ◌∷◌, ◌++◌, map, any, All, arith, ◌==◌, ==_iff, if◌then◌else◌, Result, ok, err,
  ok-injective, ◌>>=◌, >>=-eq-ok, Bool-cases,
}
use mathlib.Core.List.{append-nil, append_assoc}
use aicortex.Prelude.Equal.{same, same-eq, same_refl}
use aicortex.Types.Error.{TypeError}
use aicortex.Types.Claim.{
  AuthorityLevel, Claim, RelationKind, supersedes, contradicts, RelationTarget, ClaimRelation,
  new_relation, Sourcing,
}
use aicortex.Types.Evidence.{ProposedRelation}
use aicortex.Gate.ClaimGate.Grounds.{
  Proposal, ClaimContext, TargetFacts, get, Grounds, Scope-discrete, is_user, is_supplier,
  is_supersedes, is_contradicts, Related, built, raised, conflict, relate_to, relate_from,
  unrelated, relate,
}
pub mod Sum

or_assoc : (a b c : Bool) → a || b || c ≡ a || (b || c)
or_assoc true b c = refl
or_assoc false b c = refl

or_false : (b : Bool) → b || false ≡ b
or_false true = refl
or_false false = refl

nothing_added :
    (start : Related)
    → ◌≡◌ {A = Related}
        (record {
          relations = start.relations ++ [];
          conflicts = start.conflicts ++ [];
          outranked = start.outranked || false;
        })
        start
nothing_added start i = record {
  relations = append-nil start.relations i;
  conflicts = append-nil start.conflicts i;
  outranked = or_false start.outranked i;
}

-- Two early returns.
guarded-ok :
    {R A : Type 0} (fine bad : Bool) (x y : R) (z : Result R A) (v : A)
    → ((if not fine then err x else if bad then err y else z) ≡ ok v)
      ↔ ((fine ≡ true) × (bad ≡ false) × (z ≡ ok v))
guarded-ok false bad x y z v = ((λ e. cc), (λ (a, b, c). cc))
guarded-ok true true x y z v = ((λ e. cc), (λ (a, b, c). cc))
guarded-ok true false x y z v = ((λ e. (refl, refl, e)), (λ (a, b, c). c))

built-ok :
    (bad : Bool) (x : TypeError) (q : ClaimRelation) (f : ClaimRelation → Related) (v : Related)
    → ((built (if bad then err x else ok q) >>= λ r. ok (f r)) ≡ ok v) ↔ ((bad ≡ false) × (v ≡ f q))
built-ok true x q f v = ((λ e. cc), (λ (a, b). cc))
built-ok false x q f v = ((λ e. (refl, sym (ok-injective e))), (λ (a, b). ap ok (sym b)))

pub supplier_is : (s : Sourcing) → is_supplier s ≡ true → s ≡ Sourcing.supplier
supplier_is Sourcing.supplier e = refl
supplier_is Sourcing.user e = cc
supplier_is Sourcing.seed e = cc

pub contradicts_is : (k : RelationKind) → is_contradicts k ≡ true → k ≡ contradicts
contradicts_is supersedes e = cc
contradicts_is contradicts e = refl
contradicts_is RelationKind.derived_from e = cc

pub supersedes_is : (k : RelationKind) → is_supersedes k ≡ true → k ≡ supersedes
supersedes_is supersedes e = refl
supersedes_is contradicts e = cc
supersedes_is RelationKind.derived_from e = cc

user_is : (s : Sourcing) → is_user s ≡ true → s ≡ Sourcing.user
user_is Sourcing.user e = refl
user_is Sourcing.seed e = cc
user_is Sourcing.supplier e = cc

module _ (claim : Claim) (grounds : Grounds) (level : AuthorityLevel) where
  -- The target is of the claim's scope, is not the claim, and is not a supplier's that a user supersedes.
  pub record IsAllowedTo (relation : ProposedRelation) (target : TargetFacts) : Type 0 where
    pub same_scope : target.scope ≡ claim.scope
    pub another : relation.to ≢ claim.id
    pub not_over_supplier :
        relation.kind ≡ supersedes
        → grounds.sourcing ≡ Sourcing.user
        → target.sourcing ≢ Sourcing.supplier

  abbrev pub related_by : ProposedRelation → ClaimRelation
  related_by relation = record {
    from = claim.id;
    kind = relation.kind;
    to = RelationTarget.claim relation.to;
    provenance = claim.provenance;
  }

  abbrev pub extend : Related → ProposedRelation → TargetFacts → Related
  extend start relation target = record {
    relations = start.relations ++ related_by relation ∷ [];
    conflicts = start.conflicts ++ conflict grounds relation target;
    outranked = start.outranked || raised relation target level;
  }

  relate_to_iff :
      (start next : Related) (relation : ProposedRelation) (target : TargetFacts)
      → (relate_to claim grounds level start relation (some target) ≡ ok next)
        ↔ (IsAllowedTo relation target × (next ≡ extend start relation target))
  unfolding relate_to new_relation
  relate_to_iff start next relation target = (
    (λ e.
        let (scoped, supplied, z) = (guarded-ok _ _ _ _ _ next).0 e in
        let (b, v) = (built-ok _ _ _ _ next).0 z in
        (
          record {
            same_scope = same-eq Scope-discrete target.scope claim.scope scoped;
            another = λ p. let t = (==_iff relation.to claim.id).1 p in cc;
            not_over_supplier = λ k u p. let e' = rw (k, u, p) at supplied in cc;
          },
          v,
        )),
    (λ (k, v).
        let scoped : same Scope-discrete target.scope claim.scope ≡ true =
          rw k.same_scope (same_refl Scope-discrete claim.scope) in
        (guarded-ok _ _ _ _ _ next).1 (
          scoped,
          allowed_over k.not_over_supplier,
          (built-ok _ _ _ _ next).1 (differ k.another, v),
        )),
  )
    where
      allowed_over :
          (relation.kind ≡ supersedes
            → grounds.sourcing ≡ Sourcing.user
            → target.sourcing ≢ Sourcing.supplier)
          → (is_supersedes relation.kind && is_user grounds.sourcing && is_supplier target.sourcing)
            ≡ false
      allowed_over n =
          elim (Bool-cases (
            is_supersedes relation.kind
            && is_user grounds.sourcing
            && is_supplier target.sourcing)) [
              | inr e ↦ e
              | inl e ↦ absurd (
                  n (supersedes_is relation.kind (ground arith))
                    (user_is grounds.sourcing (ground arith))
                    (supplier_is target.sourcing (ground arith)))
            ]

      differ : relation.to ≢ claim.id → (relation.to == claim.id) ≡ false
      differ n = elim (Bool-cases (relation.to == claim.id)) [
        | inl e ↦ absurd (n ((==_iff relation.to claim.id).0 e))
        | inr e ↦ e
      ]

  abbrev pub conflict_with : ProposedRelation → Option TargetFacts → List ℕ
  conflict_with relation none = []
  conflict_with relation (some target) = conflict grounds relation target

  abbrev pub raised_over : ProposedRelation → Option TargetFacts → Bool
  raised_over relation none = false
  raised_over relation (some target) = raised relation target level

  module _ (context : ClaimContext) where
    -- The target is one that the store knows of, and the relation to it is allowed.
    abbrev pub Allowed : ProposedRelation → Type 0
    Allowed relation =
        (target : TargetFacts) × (get context.targets relation.to ≡ some target)
        × IsAllowedTo relation target

    -- What a relation would contradict, and whether it supersedes a claim of higher authority.
    abbrev pub conflict_at : ProposedRelation → List ℕ
    conflict_at relation = conflict_with relation (get context.targets relation.to)

    abbrev pub raised_at : ProposedRelation → Bool
    raised_at relation = raised_over relation (get context.targets relation.to)

    abbrev pub conflicts_of : List ProposedRelation → List ℕ
    conflicts_of [] = []
    conflicts_of (relation ∷ rest) = conflict_at relation ++ conflicts_of rest

    abbrev pub extended : Related → List ProposedRelation → Related
    extended start rs = record {
      relations = start.relations ++ map related_by rs;
      conflicts = start.conflicts ++ conflicts_of rs;
      outranked = start.outranked || any raised_at rs;
    }

    extended-extend :
        (start : Related) (relation : ProposedRelation) (target : TargetFacts)
        (rs : List ProposedRelation)
        → get context.targets relation.to ≡ some target
        → extended (extend start relation target) rs ≡ extended start (relation ∷ rs)
    extended-extend start relation target rs e = λ i. record {
      relations = append_assoc start.relations (related_by relation ∷ []) (map related_by rs) i;
      conflicts = conflicts_assoc i;
      outranked = outranked_assoc i;
    }
      where
        conflicts_assoc :
            start.conflicts ++ conflict grounds relation target ++ conflicts_of rs
            ≡ start.conflicts ++ (conflict_at relation ++ conflicts_of rs)
        conflicts_assoc =
            append_assoc start.conflicts (conflict grounds relation target) (conflicts_of rs)
            ∙ ap (λ o. start.conflicts ++ (conflict_with relation o ++ conflicts_of rs)) (sym e)

        outranked_assoc :
            start.outranked || raised relation target level || any raised_at rs
            ≡ start.outranked || (raised_at relation || any raised_at rs)
        outranked_assoc =
            or_assoc start.outranked (raised relation target level) (any raised_at rs)
            ∙ ap (λ o. start.outranked || (raised_over relation o || any raised_at rs)) (sym e)

    relate_from_iff :
        (start r : Related) (rs : List ProposedRelation)
        → (relate_from claim grounds level context start rs ≡ ok r)
          ↔ (All Allowed rs × (r ≡ extended start rs))
    unfolding relate_from relate_to
    relate_from_iff start r [] = (
      (λ e. (tt, sym (ok-injective e) ∙ sym (nothing_added start))),
      (λ (a, e). ap ok (sym (e ∙ nothing_added start))),
    )
    relate_from_iff start r (relation ∷ rs) = (
      (λ e.
          let (next, first, rest) = >>=-eq-ok _ _ e in
          let (target, known, step) = found next (get context.targets relation.to) refl first in
          let (allowed, is) = (relate_to_iff start next relation target).0 step in
          let (all, sum) = (relate_from_iff next r rs).0 rest in
          (
            ((target, known, allowed), all),
            sum ∙ ap (λ n. extended n rs) is ∙ extended-extend start relation target rs known,
          )),
      (λ (((target, known, allowed), all), sum).
          let first =
            (relate_to_iff start (extend start relation target) relation target).1
              (allowed, refl) in
          let rest =
            (relate_from_iff (extend start relation target) r rs).1
              (all, sum ∙ sym (extended-extend start relation target rs known)) in
          rw (known, first) rest),
    )
      where
        found :
            (next : Related) (o : Option TargetFacts)
            → get context.targets relation.to ≡ o
            → relate_to claim grounds level start relation o ≡ ok next
            → (target : TargetFacts) × (get context.targets relation.to ≡ some target)
              × (relate_to claim grounds level start relation (some target) ≡ ok next)
        found next none e h = cc
        found next (some target) e h = (target, e, h)

-- The whole of `relate`, by what it computes.
pub relate-extended :
    {Secrets : Type 0} (s : Proposal Secrets) (grounds : Grounds) (level : AuthorityLevel)
    (r : Related)
    → (relate s grounds level ≡ ok r) ↔ (
        All (Allowed s.proposal.claim grounds level s.context) s.proposal.relations
        × (r ≡ record {
          relations = map (related_by s.proposal.claim grounds level) s.proposal.relations;
          conflicts = conflicts_of s.proposal.claim grounds level s.context s.proposal.relations;
          outranked = any (raised_at s.proposal.claim grounds level s.context) s.proposal.relations;
        }))
unfolding relate
relate-extended s grounds level r =
    relate_from_iff s.proposal.claim grounds level s.context unrelated r s.proposal.relations
