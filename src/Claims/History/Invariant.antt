-- ===== src/Claims/History/Invariant.antt =====
-- The invariant of the histories of crates/aicortex-claims/src/history.rs, over its three appends.
use aicortex.Prelude.{
  ℕ, ◌≡◌, refl, sym, ap, ◌∙◌, true, false, ◌⊎◌, inl, inr, Option, none, some, List, [], ◌∷◌, ◌++◌,
  arith, is_some, In, All, All-append, Option-cases, ok,
}
use mathlib.Core.Path.{subst}
use Prim.Native.Nat.{Ordering}
use Prim.Native.String.{String}
use text.Mathlib.TextEquality.{eq_iff}
use aicortex.Types.Claim.{RelationKind, supersedes, RelationTarget, claim, memory, scope_string}
use aicortex.Claims.Slot.{slot_of, compare_slot, compare_slot-eq}
use aicortex.Claims.History.{
  ClaimRecord, ClaimHistory, HistoryRelation, Retraction, empty, get, insert, tx_used, use_tx,
  append_claim, append_relation, append_retraction, check_relation, check_target,
}
use aicortex.Claims.History.Laws.{get-insert, In-insert, tx_used-use_tx}

-- A relation's source is a claim of the history, and so is its target if that is a claim; a
-- supersession stays within one slot.
abbrev pub TargetKnown : List ClaimRecord → ClaimRecord → RelationKind → RelationTarget → Type 0
TargetKnown m source kind (memory id) = Unit
TargetKnown m source kind (claim id) =
    (t : ClaimRecord) × (get m id ≡ some t)
    × (kind ≡ supersedes → slot_of source.claim ≡ slot_of t.claim)

abbrev pub Known : List ClaimRecord → HistoryRelation → Type 0
Known m r =
    (s : ClaimRecord) × (get m r.relation.from ≡ some s)
    × TargetKnown m s r.relation.kind r.relation.to

abbrev pub scope_of : ClaimRecord → String
scope_of r = scope_string r.claim.scope

pub record IsHistory (h : ClaimHistory) : Type 0 where
  pub relations_known : All (Known h.claims) h.relations
  pub retractions_known : All (λ r. is_some (get h.claims r.target) ≡ true) h.retractions
  pub recorded : (r : ClaimRecord) → In r h.claims → tx_used h.used_tx (scope_of r) r.tx.seq ≡ true
  pub one_claim_each :
      (r s : ClaimRecord)
      → In r h.claims
      → In s h.claims
      → scope_of r ≡ scope_of s
      → r.tx.seq ≡ s.tx.seq
      → r ≡ s
  pub one_record_each :
      (r s : ClaimRecord) → In r h.claims → In s h.claims → r.claim.id ≡ s.claim.id → r ≡ s

pub empty-IsHistory : IsHistory empty
empty-IsHistory = record {
  relations_known = tt;
  retractions_known = tt;
  recorded = λ r i. elim i [ ];
  one_claim_each = λ r s i. elim i [ ];
  one_record_each = λ r s i. elim i [ ];
}

-- More claims keep what was known.
module _ (m : List ClaimRecord) (r : ClaimRecord) (fresh : get m r.claim.id ≡ none) where
  get_kept : (id : ℕ) (s : ClaimRecord) → get m id ≡ some s → get (insert r m) id ≡ some s
  get_kept id s e = ground (arith, get-insert r m id fresh)

  TargetKnown-kept :
      (s : ClaimRecord) (k : RelationKind) (t : RelationTarget)
      → TargetKnown m s k t
      → TargetKnown (insert r m) s k t
  TargetKnown-kept s k (memory id) h = tt
  TargetKnown-kept s k (claim id) h = (h.0, get_kept id h.0 h.1, h.2)

  All-Known_kept : (rs : List HistoryRelation) → All (Known m) rs → All (Known (insert r m)) rs
  All-Known_kept [] h = tt
  All-Known_kept (x ∷ rs) h = (
    (
      h.0.0,
      get_kept x.relation.from h.0.0 h.0.1,
      TargetKnown-kept h.0.0 x.relation.kind x.relation.to h.0.2,
    ),
    All-Known_kept rs h.1,
  )

  All-retractions_kept :
      (rs : List Retraction)
      → All (λ x. is_some (get m x.target) ≡ true) rs
      → All (λ x. is_some (get (insert r m) x.target) ≡ true) rs
  All-retractions_kept [] h = tt
  All-retractions_kept (x ∷ rs) h =
      (ground (arith, get-insert r m x.target fresh), All-retractions_kept rs h.1)

-- A claim that is accepted was new by its id, and new by its sequence in its scope.
accepted :
    (h h' : ClaimHistory) (r : ClaimRecord)
    → append_claim h r ≡ ok h'
    → (get h.claims r.claim.id ≡ none)
      × (tx_used h.used_tx (scope_of r) r.tx.seq ≡ false)
      × (h' ≡ record h {
        claims = insert r h.claims;
        used_tx = use_tx h.used_tx (scope_of r) r.tx.seq;
      })
unfolding append_claim
accepted h h' r e = ground arith

module _ (h : ClaimHistory) (r : ClaimRecord) (v : IsHistory h)
    (unused : tx_used h.used_tx (scope_of r) r.tx.seq ≡ false) where
  -- A claim of the history does not have the new claim's scope and sequence both.
  new_tx : (s : ClaimRecord) → In s h.claims → scope_of s ≡ scope_of r → s.tx.seq ≡ r.tx.seq → ⊥
  new_tx s i e f =
      let used : tx_used h.used_tx (scope_of r) r.tx.seq ≡ true = rw (← e, ← f) (v.recorded s i) in
      cc (sym used ∙ unused)

  recorded_after :
      (s : ClaimRecord)
      → (s ≡ r) ⊎ In s h.claims
      → tx_used (use_tx h.used_tx (scope_of r) r.tx.seq) (scope_of s) s.tx.seq ≡ true
  recorded_after s (inl e) =
      rw (e, tx_used-use_tx h.used_tx (scope_of r) (scope_of r) r.tx.seq r.tx.seq)
        (ground (arith, eq_iff (scope_of r) (scope_of r)))
  recorded_after s (inr i) =
      rw (tx_used-use_tx h.used_tx (scope_of r) (scope_of s) r.tx.seq s.tx.seq, v.recorded s i)
        (ground arith)

  one_claim_after :
      (s t : ClaimRecord)
      → (s ≡ r) ⊎ In s h.claims
      → (t ≡ r) ⊎ In t h.claims
      → scope_of s ≡ scope_of t
      → s.tx.seq ≡ t.tx.seq
      → s ≡ t
  one_claim_after s t (inl e) (inl f) g k = e ∙ sym f
  one_claim_after s t (inl e) (inr j) g k =
      absurd (new_tx t j (sym g ∙ ap scope_of e) (sym k ∙ ap (λ (x : ClaimRecord). x.tx.seq) e))
  one_claim_after s t (inr i) (inl f) g k =
      absurd (new_tx s i (g ∙ ap scope_of f) (k ∙ ap (λ (x : ClaimRecord). x.tx.seq) f))
  one_claim_after s t (inr i) (inr j) g k = v.one_claim_each s t i j g k

-- A record of the map is found by its id.
get-In : (m : List ClaimRecord) (s : ClaimRecord) → In s m → ¬ (get m s.claim.id ≡ none)
unfolding get
get-In [] s i = elim i [ ]
get-In (t ∷ m) s (inl e) = rw e (λ g. ground arith)
get-In (t ∷ m) s (inr i) = λ g. get-In m s i (ground arith)

module _ (h : ClaimHistory) (r : ClaimRecord) (v : IsHistory h)
    (fresh : get h.claims r.claim.id ≡ none) where
  new_id : (s : ClaimRecord) → In s h.claims → s.claim.id ≡ r.claim.id → ⊥
  new_id s i e = get-In h.claims s i (rw e fresh)

  one_record_after :
      (s t : ClaimRecord)
      → (s ≡ r) ⊎ In s h.claims
      → (t ≡ r) ⊎ In t h.claims
      → s.claim.id ≡ t.claim.id
      → s ≡ t
  one_record_after s t (inl e) (inl f) g = e ∙ sym f
  one_record_after s t (inl e) (inr j) g =
      absurd (new_id t j (sym g ∙ ap (λ (x : ClaimRecord). x.claim.id) e))
  one_record_after s t (inr i) (inl f) g =
      absurd (new_id s i (g ∙ ap (λ (x : ClaimRecord). x.claim.id) f))
  one_record_after s t (inr i) (inr j) g = v.one_record_each s t i j g

append_claim-IsHistory :
    (h h' : ClaimHistory) (r : ClaimRecord) → IsHistory h → append_claim h r ≡ ok h' → IsHistory h'
append_claim-IsHistory h h' r v e =
    let (fresh, unused, built) = accepted h h' r e in
    subst IsHistory (sym built) (record {
      relations_known = All-Known_kept h.claims r fresh h.relations v.relations_known;
      retractions_known = All-retractions_kept h.claims r fresh h.retractions v.retractions_known;
      recorded = λ s i. recorded_after h r v unused s (In-insert r s h.claims i);
      one_claim_each = λ s t i j.
          one_claim_after h r v unused s t (In-insert r s h.claims i) (In-insert r t h.claims j);
      one_record_each = λ s t i j.
          one_record_after h r v fresh s t (In-insert r s h.claims i) (In-insert r t h.claims j);
    })

check_target-TargetKnown :
    (m : List ClaimRecord) (s : ClaimRecord) (k : RelationKind) (t : RelationTarget)
    → check_target m s k t ≡ none
    → TargetKnown m s k t
check_target-TargetKnown m s k (memory id) h = tt
check_target-TargetKnown m s k (claim id) h = go (get m id) refl h
  where
    go :
        (o : Option ClaimRecord)
        → get m id ≡ o
        → check_target m s k (claim id) ≡ none
        → TargetKnown m s k (claim id)
    go none e g = ground arith
    go (some t) e g =
        (t, e, λ k-super. compare_slot-eq (slot_of s.claim) (slot_of t.claim) (same t e k-super g))
      where
        same :
            (t : ClaimRecord)
            → get m id ≡ some t
            → k ≡ supersedes
            → check_target m s k (claim id) ≡ none
            → compare_slot (slot_of s.claim) (slot_of t.claim) ≡ Ordering.eq
        same t e f g = ground arith

check_relation-Known :
    (m : List ClaimRecord) (r : HistoryRelation) → check_relation m r.relation ≡ none → Known m r
check_relation-Known m r h = elim (Option-cases (get m r.relation.from)) [
  | inl e ↦ absurd (ground arith)
  | inr (s, e) ↦ (s, e, check_target-TargetKnown m s r.relation.kind r.relation.to (ground arith))
]

append_relation-IsHistory :
    (h h' : ClaimHistory) (r : HistoryRelation)
    → IsHistory h
    → append_relation h r ≡ ok h'
    → IsHistory h'
unfolding append_relation
append_relation-IsHistory h h' r v e = elim (Option-cases (check_relation h.claims r.relation)) [
  | inl fine ↦
      let built : h' ≡ record h { relations = h.relations ++ r ∷ [] } = ground arith in
      subst IsHistory (sym built) (record {
        relations_known =
            All-append (Known h.claims) h.relations r v.relations_known
              (check_relation-Known h.claims r fine);
        retractions_known = v.retractions_known;
        recorded = v.recorded;
        one_claim_each = v.one_claim_each;
        one_record_each = v.one_record_each;
      })
  | inr (x, bad) ↦ absurd (ground arith)
]

append_retraction-IsHistory :
    (h h' : ClaimHistory) (r : Retraction)
    → IsHistory h
    → append_retraction h r ≡ ok h'
    → IsHistory h'
unfolding append_retraction
append_retraction-IsHistory h h' r v e =
    let known : is_some (get h.claims r.target) ≡ true = ground arith in
    let built : h' ≡ record h { retractions = h.retractions ++ r ∷ [] } = ground arith in
    subst IsHistory (sym built) (record {
      relations_known = v.relations_known;
      retractions_known =
          All-append (λ x. is_some (get h.claims x.target) ≡ true) h.retractions r
            v.retractions_known known;
      recorded = v.recorded;
      one_claim_each = v.one_claim_each;
      one_record_each = v.one_record_each;
    })

-- One append that is accepted, and any number of them.
pub data Append : ClaimHistory → ClaimHistory → Type 0 where
  claimed : (h h' : ClaimHistory) (r : ClaimRecord) → append_claim h r ≡ ok h' → Append h h'
  related : (h h' : ClaimHistory) (r : HistoryRelation) → append_relation h r ≡ ok h' → Append h h'
  retracted : (h h' : ClaimHistory) (r : Retraction) → append_retraction h r ≡ ok h' → Append h h'

pub data Built : ClaimHistory → Type 0 where
  start : Built empty
  extend : {h h' : ClaimHistory} → Built h → Append h h' → Built h'

Append-IsHistory : {h h' : ClaimHistory} → IsHistory h → Append h h' → IsHistory h'
Append-IsHistory v (claimed h h' r e) = append_claim-IsHistory h h' r v e
Append-IsHistory v (related h h' r e) = append_relation-IsHistory h h' r v e
Append-IsHistory v (retracted h h' r e) = append_retraction-IsHistory h h' r v e

-- Every history that appends build from the empty one is well formed: each relation's source, its
-- target if that is a claim, and each retraction's target are claims of it; a supersession joins
-- two claims of one slot; every claim's sequence counts as used in its scope; no two claims share
-- an id, and in one scope none share a transaction sequence.
pub Built-IsHistory : {h : ClaimHistory} → Built h → IsHistory h
Built-IsHistory start = empty-IsHistory
Built-IsHistory (extend b a) = Append-IsHistory (Built-IsHistory b) a
