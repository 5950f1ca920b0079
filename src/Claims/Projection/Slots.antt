-- ===== src/Claims/Projection/Slots.antt =====
-- The passes of `project`: coverage, grouping by slot, the decision of one slot, and the view.
use Prim.Native.Nat.{Ordering, compare}
use aicortex.Prelude.{
  ℕ, Bool, true, false, not, ◌&&◌, Option, none, some, List, [], ◌∷◌, ◌++◌, map, ◌==◌,
  if◌then◌else◌, retain, Result, ok, err, ◌>>=◌,
}
use aicortex.Prelude.Int.{ℤ, leb_ℤ}
use aicortex.Prelude.Order.{is_gt}
use text.Mathlib.Text.{◌==◌ as str_eq}
use aicortex.Types.Claim.{authority_key}
use aicortex.Types.Time.Interval.{TimePoint}
use aicortex.Claims.Slot.{SlotId, slot_of, compare_slot}
use aicortex.Claims.History.{
  ValidTime, explicit_time, source_time, timeless_time, ClaimRecord, Retraction, ClaimHistory,
}
use aicortex.Claims.Window.{
  Chrono, Window, ProjectionPolicy, ProjectionError, unsupported_time_zone_database, invalid_time,
  AsOf, TxBound, min_instant, max_instant, point_window, interval_window, bound_window, first_of,
}
use aicortex.Claims.Projection.{
  Certainty, definite, possible, Candidate, retracted, absent, SlotView, ConflictProposal, Covered,
  id_of, Pairs, within_tx, candidate, supersessions, seconds, drop_ids, user_supplier_conflict,
  max_key, first_by_source_order, sort_by_id, state_of, proposals_of, compare_range,
}

abbrev pub covers : ℤ × ℤ → ℤ × ℤ → Bool
covers outer inner = leb_ℤ outer.0 inner.0 && leb_ℤ inner.1 outer.1

abbrev pub definitely : Option (ℤ × ℤ) → Option (ℤ × ℤ) → Bool
definitely (some outer) (some inner) = covers outer inner
definitely _ _ = false

-- The last step of `coverage`: definite, else possible, else none.
unfoldable pub certainty_of : Window → Window → Option Certainty
certainty_of valid query =
    if definitely valid.definite query.definite
    then some definite
    else if covers valid.possible query.possible
    then some possible
    else none

abbrev pub Group : Type 0
Group = SlotId × List Covered

-- `grouped.entry(slot).or_default()`, with the pushed item if there is one.
abbrev pub push : Option Covered → List Covered → List Covered
push none cs = cs
push (some c) cs = cs ++ c ∷ []

unfoldable pub entry : SlotId → Option Covered → List Group → List Group
entry s c [] = (s, push c []) ∷ []
entry s c ((t, cs) ∷ rest) = elim (compare_slot s t) [
  | Ordering.lt ↦ (s, push c []) ∷ (t, cs) ∷ rest
  | Ordering.eq ↦ (t, push c cs) ∷ rest
  | Ordering.gt ↦ (t, cs) ∷ entry s c rest
]

-- What is pushed for a claim: nothing if it does not cover, or only possibly and that is not to
-- count.
abbrev pub counted : ProjectionPolicy → ClaimRecord → Option Certainty → Option Covered
counted policy r none = none
counted policy r (some definite) = some (record { claim = r; certainty = definite })
counted policy r (some possible) =
    if policy.possible_counts then some (record { claim = r; certainty = possible }) else none

unfoldable pub retracted_ids : TxBound → List Retraction → List ℕ
unfolding within_tx
retracted_ids bound [] = []
retracted_ids bound (r ∷ rs) =
    if within_tx r.tx bound then r.target ∷ retracted_ids bound rs else retracted_ids bound rs

abbrev pub is_nil : {A : Type 0} → List A → Bool
is_nil [] = true
is_nil (x ∷ xs) = false

module _ (chrono : Chrono) where
  abbrev pub valid_window :
      ProjectionPolicy → ValidTime → Option TimePoint → Result ProjectionError Window
  valid_window policy timeless_time _ =
      ok (record {
        definite = some (min_instant, max_instant);
        possible = (min_instant, max_instant);
      })
  valid_window policy source_time none = err invalid_time
  valid_window policy source_time (some p) = do
    w ← point_window chrono p policy
    ok (record {
      definite = from_first (first_of chrono w.definite);
      possible = (w.possible.0, max_instant);
    })
    where
      from_first : Option ℤ → Option (ℤ × ℤ)
      from_first none = none
      from_first (some a) = some (a, max_instant)
  valid_window policy (explicit_time i) _ = interval_window chrono i.start i.end policy

  unfoldable pub coverage :
      ProjectionPolicy → Window → ClaimRecord → Result ProjectionError (Option Certainty)
  unfolding certainty_of
  coverage policy query r = do
    valid ← valid_window policy r.valid r.source_time
    ok (certainty_of valid query)

  -- The first loop: every claim within the knowledge bound, by slot.
  unfoldable pub group :
      ProjectionPolicy
      → TxBound
      → Window
      → List ClaimRecord
      → List Group
      → Result ProjectionError (List Group)
  unfolding within_tx entry
  group policy bound query [] acc = ok acc
  group policy bound query (r ∷ rs) acc =
      if not (within_tx r.tx bound)
      then group policy bound query rs acc
      else (coverage policy query r >>= λ certainty.
          group policy bound query rs (entry (slot_of r.claim) (counted policy r certainty) acc))

  abbrev pub by_times :
      Option TimePoint → Option TimePoint → ProjectionPolicy → Result ProjectionError Ordering
  by_times (some l) (some r) policy = do
    left ← point_window chrono l policy
    right ← point_window chrono r policy
    ok (compare_range left.possible right.possible)
  by_times _ _ policy = ok Ordering.eq

  abbrev pub by_seqs : Option ℕ → Option ℕ → Ordering
  by_seqs (some l) (some r) = compare l r
  by_seqs _ _ = Ordering.eq

  abbrev pub unless_equal :
      Ordering → Result ProjectionError Ordering → Result ProjectionError Ordering
  unless_equal Ordering.eq later = later
  unless_equal o later = ok o

  unfoldable pub source_order :
      ProjectionPolicy → ClaimRecord → ClaimRecord → Result ProjectionError Ordering
  source_order policy l r =
      unless_equal (by_seqs l.source_seq r.source_seq) (by_times l.source_time r.source_time policy)

  -- The pairs whose first dominates the second by source order.
  unfoldable pub dominated_by :
      ProjectionPolicy → Covered → List Covered → Result ProjectionError Pairs
  unfolding source_order
  dominated_by policy l [] = ok []
  dominated_by policy l (r ∷ rs) = do
    order ← source_order policy r.claim l.claim
    rest ← dominated_by policy l rs
    ok (if is_gt order then (id_of r, id_of l) ∷ rest else rest)

  unfoldable pub dominations :
      ProjectionPolicy → List Covered → List Covered → Result ProjectionError Pairs
  unfolding dominated_by
  dominations policy [] active = ok []
  dominations policy (l ∷ ls) active = do
    here ← dominated_by policy l active
    rest ← dominations policy ls active
    ok (here ++ rest)

  -- Authority and source order: what stays active, and the pairs of the dominated.
  unfoldable pub decide_active :
      ProjectionPolicy → List Covered → Result ProjectionError (List Covered × Pairs)
  unfolding dominations
  decide_active policy active =
      if user_supplier_conflict active
      then ok (active, [])
      else let top = retain (λ c. authority_key c.claim.authority == max_key active) active in
        if first_by_source_order top
        then (dominations policy top top >>= λ pairs. ok (drop_ids (seconds pairs) top, pairs))
        else ok (top, [])

  -- The candidates of a slot, from its claims that are not retracted.
  unfoldable pub candidates_of :
      ClaimHistory
      → TxBound
      → ProjectionPolicy
      → List Covered
      → Result ProjectionError (List Candidate)
  unfolding decide_active supersessions drop_ids sort_by_id candidate
  candidates_of h bound policy active =
      let removed = supersessions h bound (map id_of active) h.relations in
      decide_active policy (drop_ids (seconds removed) active) >>= λ decided.
      ok (map (candidate (removed ++ decided.1)) (sort_by_id decided.0))

  -- One slot: its view, and the proposals so far with its own.
  unfoldable pub slot_view :
      ClaimHistory
      → TxBound
      → ProjectionPolicy
      → List ℕ
      → Group
      → List ConflictProposal
      → Result ProjectionError (SlotView × List ConflictProposal)
  unfolding candidates_of
  slot_view h bound policy gone (s, covered) acc =
      let active = drop_ids gone covered in
      if is_nil active
      then ok (record { slot = s; state = if is_nil covered then absent else retracted }, acc)
      else (candidates_of h bound policy active >>= λ cs.
          ok (record { slot = s; state = state_of cs }, proposals_of cs acc))

  unfoldable pub slot_views :
      ClaimHistory
      → TxBound
      → ProjectionPolicy
      → List ℕ
      → List Group
      → List ConflictProposal
      → Result ProjectionError (List SlotView × List ConflictProposal)
  unfolding slot_view
  slot_views h bound policy gone [] acc = ok ([], acc)
  slot_views h bound policy gone (g ∷ gs) acc = do
    (view, acc') ← slot_view h bound policy gone g acc
    (views, proposals) ← slot_views h bound policy gone gs acc'
    ok (view ∷ views, proposals)

  -- What the view is computed from, before the digests are added. The groups are ascending by slot
  -- already, so the final sort of the slots leaves them as they are.
  unfoldable pub project_slots :
      ClaimHistory
      → AsOf
      → ProjectionPolicy
      → Result ProjectionError (List SlotView × List ConflictProposal)
  unfolding group slot_views retracted_ids
  project_slots h as_of policy =
      if not (str_eq policy.time_zone_database chrono.database)
      then err (unsupported_time_zone_database policy.time_zone_database)
      else (bound_window chrono as_of.valid policy >>= λ query.
          group policy as_of.knowledge query h.claims [] >>= λ groups.
          slot_views h as_of.knowledge policy (retracted_ids as_of.knowledge h.retractions) groups
            [])
