-- ===== src/Claims/Projection/Candidates.antt =====
-- Where the candidates come from that `project` of crates/aicortex-claims/src/projection.rs lists.
use Prim.Native.Nat.{Ordering}
use mathlib.Core.Path.{subst}
use aicortex.Prelude.{
  ℕ, ◌≡◌, refl, sym, true, inl, inr, Option, none, some, List, [], ◌∷◌, ◌++◌, map, leb, ◌==◌,
  if◌then◌else◌, retain, In, All, All-append, All-retain, Bool-cases, ok, ◌>>=◌, >>=-eq-ok,
  ok-injective,
}
use aicortex.Types.Claim.{authority_key}
use aicortex.Claims.Slot.{SlotId, slot_of, compare_slot, compare_slot-eq}
use aicortex.Claims.History.{ClaimRecord, ClaimHistory}
use aicortex.Claims.Window.{Chrono, Window, ProjectionPolicy, TxBound}
use aicortex.Claims.Projection.{
  Certainty, definite, possible, Candidate, Covered, id_of, Pairs, within_tx, candidate,
  supersessions, seconds, drop_ids, insert_sorted, user_supplier_conflict, max_key,
  first_by_source_order, sort_by_id,
}
use aicortex.Claims.Projection.Slots.{
  Group, push, entry, counted, coverage, group, decide_active, dominations, candidates_of,
}

-- A claim of the history, known within the bound, of the slot.
abbrev pub IsKnown : ClaimHistory → TxBound → SlotId → Covered → Type 0
IsKnown h bound s c =
    In c.claim h.claims × (within_tx c.claim.tx bound ≡ true) × (slot_of c.claim.claim ≡ s)

abbrev pub GroupsKnown : ClaimHistory → TxBound → List Group → Type 0
GroupsKnown h bound = All (λ g. All (IsKnown h bound g.0) g.1)

some-claim : {c d : Covered} → some c ≡ some d → c.claim ≡ d.claim
some-claim e = cc

module _ (h : ClaimHistory) (bound : TxBound) where
  push-IsKnown :
      (s : SlotId) (o : Option Covered) (cs : List Covered)
      → ((c : Covered) → o ≡ some c → IsKnown h bound s c)
      → All (IsKnown h bound s) cs
      → All (IsKnown h bound s) (push o cs)
  push-IsKnown s none cs k a = a
  push-IsKnown s (some c) cs k a = All-append (IsKnown h bound s) cs c a (k c refl)

  entry-GroupsKnown :
      (s : SlotId) (o : Option Covered) (gs : List Group)
      → ((c : Covered) → o ≡ some c → IsKnown h bound s c)
      → GroupsKnown h bound gs
      → GroupsKnown h bound (entry s o gs)
  unfolding entry
  entry-GroupsKnown s o [] k a = (push-IsKnown s o [] k tt, tt)
  entry-GroupsKnown s o ((t, cs) ∷ gs) k a =
      go (compare_slot s t) refl (entry-GroupsKnown s o gs k a.1)
    where
      go :
          (c : Ordering)
          → compare_slot s t ≡ c
          → GroupsKnown h bound (entry s o gs)
          → GroupsKnown h bound (entry s o ((t, cs) ∷ gs))
      go Ordering.lt e later = rw (e, entry) (push-IsKnown s o [] k tt, a)
      go Ordering.eq e later =
          rw (e, entry)
            (
              push-IsKnown t o cs
                  (λ c q. subst (λ u. IsKnown h bound u c) (compare_slot-eq s t e) (k c q)) a.0,
              a.1,
            )
      go Ordering.gt e later = rw (e, entry) (a.0, later)

  counted-claim :
      (policy : ProjectionPolicy) (r : ClaimRecord) (o : Option Certainty) (c : Covered)
      → counted policy r o ≡ some c
      → c.claim ≡ r
  counted-claim policy r none c e = cc
  counted-claim policy r (some definite) c e = sym (some-claim e)
  counted-claim policy r (some possible) c e = elim (Bool-cases policy.possible_counts) [
    | inl b ↦ let e' = rw b at e in sym (some-claim e')
    | inr b ↦ let e' = rw b at e in cc
  ]

  pub group-GroupsKnown :
      (chrono : Chrono) (policy : ProjectionPolicy) (query : Window) (rs : List ClaimRecord)
      (acc : List Group) {gs : List Group}
      → group chrono policy bound query rs acc ≡ ok gs
      → All (λ r. In r h.claims) rs
      → GroupsKnown h bound acc
      → GroupsKnown h bound gs
  unfolding group
  group-GroupsKnown chrono policy query [] acc e i a =
      subst (GroupsKnown h bound) (ok-injective e) a
  group-GroupsKnown chrono policy query (r ∷ rs) acc e i a =
      elim (Bool-cases (within_tx r.tx bound)) [
        | inr w ↦ let e' = rw w at e in group-GroupsKnown chrono policy query rs acc e' i.1 a
        | inl w ↦
            let e' = rw w at e in
            let (certainty, f, g) = >>=-eq-ok (coverage chrono policy query r) _ e' in
            group-GroupsKnown chrono policy query rs _ g i.1 (
              entry-GroupsKnown (slot_of r.claim) (counted policy r certainty) acc
                (λ c q. let p = counted-claim policy r certainty c q in rw p (i.0, w, refl)) a)
      ]

-- The candidate shows the claim of `k`.
abbrev pub Shows : Candidate → Covered → Type 0
Shows c k =
    (c.claim_id ≡ id_of k) × (c.value ≡ k.claim.claim.value) × (c.authority ≡ k.claim.authority)

module _ (P : Covered → Type 0) where
  insert_sorted-All :
      (c : Covered) (cs : List Covered) → P c → All P cs → All P (insert_sorted c cs)
  unfolding insert_sorted
  insert_sorted-All c [] p a = (p, tt)
  insert_sorted-All c (d ∷ ds) p a = elim (Bool-cases (leb (id_of c) (id_of d))) [
    | inl b ↦ rw b (p, a)
    | inr b ↦ rw b (a.0, insert_sorted-All c ds p a.1)
  ]

  sort_by_id-All : (cs : List Covered) → All P cs → All P (sort_by_id cs)
  unfolding sort_by_id
  sort_by_id-All [] a = tt
  sort_by_id-All (c ∷ cs) a = insert_sorted-All c (sort_by_id cs) a.0 (sort_by_id-All cs a.1)

  drop_ids-All : (ids : List ℕ) (cs : List Covered) → All P cs → All P (drop_ids ids cs)
  unfolding drop_ids
  drop_ids-All ids cs a = All-retain P _ cs a

  decide_active-All :
      (chrono : Chrono) (policy : ProjectionPolicy) (active : List Covered)
      {d : List Covered × Pairs}
      → decide_active chrono policy active ≡ ok d
      → All P active
      → All P d.0
  unfolding decide_active
  decide_active-All chrono policy active {d} e a =
      elim (Bool-cases (user_supplier_conflict active)) [
        | inl b ↦ let e' = rw b at e in subst (λ x. All P x.0) (ok-injective e') a
        | inr b ↦ let e' = rw b at e in by_order top (All-retain P _ active a) e'
      ]
    where
      top : List Covered
      top = retain (λ c. authority_key c.claim.authority == max_key active) active

      by_order :
          (top : List Covered)
          → All P top
          → (if first_by_source_order top
              then (dominations chrono policy top top >>= λ pairs.
                  ok (drop_ids (seconds pairs) top, pairs))
              else ok (top, []))
            ≡ ok d
          → All P d.0
      by_order top a e = elim (Bool-cases (first_by_source_order top)) [
        | inr b ↦ let e' = rw b at e in subst (λ x. All P x.0) (ok-injective e') a
        | inl b ↦
            let e' = rw b at e in
            let (pairs, f, g) = >>=-eq-ok (dominations chrono policy top top) _ e' in
            subst (λ x. All P x.0) (ok-injective g) (drop_ids-All (seconds pairs) top a)
      ]

  map-candidate :
      (pairs : Pairs) (ks : List Covered)
      → All P ks
      → All (λ c. (k : Covered) × P k × Shows c k) (map (candidate pairs) ks)
  unfolding candidate
  map-candidate pairs [] a = tt
  map-candidate pairs (k ∷ ks) a = ((k, a.0, (refl, refl, refl)), map-candidate pairs ks a.1)

  -- Of what the relations leave.
  pub candidates_of-All_left :
      (chrono : Chrono) (h : ClaimHistory) (bound : TxBound) (policy : ProjectionPolicy)
      (active : List Covered) {cs : List Candidate}
      → candidates_of chrono h bound policy active ≡ ok cs
      → All P (drop_ids (seconds (supersessions h bound (map id_of active) h.relations)) active)
      → All (λ c. (k : Covered) × P k × Shows c k) cs
  unfolding candidates_of
  candidates_of-All_left chrono h bound policy active e a =
      let removed = supersessions h bound (map id_of active) h.relations in
      let left = drop_ids (seconds removed) active in
      let (d, f, g) = >>=-eq-ok (decide_active chrono policy left) _ e in
      let kept = decide_active-All chrono policy left f a in
      subst (All (λ c. (k : Covered) × P k × Shows c k)) (ok-injective g)
        (map-candidate (removed ++ d.1) (sort_by_id d.0) (sort_by_id-All d.0 kept))

  pub candidates_of-All :
      (chrono : Chrono) (h : ClaimHistory) (bound : TxBound) (policy : ProjectionPolicy)
      (active : List Covered) {cs : List Candidate}
      → candidates_of chrono h bound policy active ≡ ok cs
      → All P active
      → All (λ c. (k : Covered) × P k × Shows c k) cs
  candidates_of-All chrono h bound policy active e a =
      candidates_of-All_left chrono h bound policy active e
        (drop_ids-All (seconds (supersessions h bound (map id_of active) h.relations)) active a)
