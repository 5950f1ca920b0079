-- ===== src/Gate/ClaimGate/Relations/Sum.antt =====
-- `relate` (crates/aicortex-gate/src/claim_gate.rs) against what its relations mean.
use aicortex.Prelude.{ℕ, ◌<◌, ◌≡◌, true, ◌↔◌, some, List, map, In}
use aicortex.Types.Claim.{AuthorityLevel, authority_key, Claim, supersedes, contradicts, Sourcing}
use aicortex.Types.Evidence.{ProposedRelation}
use aicortex.Gate.ClaimGate.Grounds.{ClaimContext, TargetFacts, get, Grounds, Related}
use aicortex.Gate.ClaimGate.Relations.{related_by}

-- The relation contradicts a supplier's claim, in a correction.
abbrev pub ContradictsSupplier : ClaimContext → Grounds → ProposedRelation → Type 0
ContradictsSupplier context grounds relation =
    (relation.kind ≡ contradicts)
    × (grounds.correcting ≡ true)
    × (target : TargetFacts) × (get context.targets relation.to ≡ some target)
    × (target.sourcing ≡ Sourcing.supplier)

-- The relation supersedes a claim of an authority above the level.
abbrev pub Overreaches : ClaimContext → AuthorityLevel → ProposedRelation → Type 0
Overreaches context level relation =
    (relation.kind ≡ supersedes)
    × (target : TargetFacts) × (get context.targets relation.to ≡ some target)
    × (authority_key level < authority_key target.authority)

-- What the relations add up to.
pub record IsSum (claim : Claim) (context : ClaimContext) (grounds : Grounds)
    (level : AuthorityLevel) (rs : List ProposedRelation) (r : Related) : Type 0 where
  pub relations : r.relations ≡ map (related_by claim grounds level) rs
  pub conflicts :
      (k : ℕ)
      → In k r.conflicts
        ↔ ((q : ProposedRelation) × In q rs × (q.to ≡ k) × ContradictsSupplier context grounds q)
  pub outranked :
      (r.outranked ≡ true) ↔ ((q : ProposedRelation) × In q rs × Overreaches context level q)
