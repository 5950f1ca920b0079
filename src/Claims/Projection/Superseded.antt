-- ===== src/Claims/Projection/Superseded.antt =====
-- The relations that supersede a claim in crates/aicortex-claims/src/projection.rs, and the views of
-- the whole projection.
use aicortex.Prelude.{ℕ, ◌≤◌, ◌≡◌, some, List, In}
use aicortex.Types.Claim.{supersedes, authority_key, claim}
use aicortex.Claims.History.{TxStamp, ClaimRecord, ClaimHistory, HistoryRelation, get}
use aicortex.Claims.Window.{TxBound, sequence, recorded_at}
use aicortex.Claims.Projection.{Candidate}

-- The transaction lies within the bound.
abbrev pub WithinBound : TxStamp → TxBound → Type 0
WithinBound tx (sequence seq) = tx.seq ≤ seq
WithinBound tx (recorded_at at) = tx.recorded_at ≤ at

-- The relation, within the bound, supersedes the claim `b` by `a`, at an authority that is not below
-- that of `b`.
abbrev pub Overrides : ClaimHistory → TxBound → HistoryRelation → ℕ → ℕ → Type 0
Overrides h bound r a b =
    WithinBound r.tx bound
    × (r.relation.kind ≡ supersedes)
    × (r.relation.from ≡ a)
    × (r.relation.to ≡ claim b)
    × (t : ClaimRecord) × (get h.claims b ≡ some t)
    × (authority_key t.authority ≤ authority_key r.authority)

-- No candidate supersedes another, or itself.
abbrev pub NoneOverridden : ClaimHistory → TxBound → List Candidate → Type 0
NoneOverridden h bound cs =
    (c d : Candidate)
    → In c cs
    → In d cs
    → (r : HistoryRelation) → In r h.relations
    → Overrides h bound r c.claim_id d.claim_id
    → ⊥
