-- ===== src/Claims/Projection.antt =====
-- `project` of crates/aicortex-claims/src/projection.rs: for each slot, what the history supports
-- as of a point of knowledge and of validity. A `BTreeMap` or `BTreeSet` is an ascending list. The
-- digests belong to other crates (serde_json, blake3) and are the parameter `Digests`.
use Prim.Native.Nat.{Ordering, compare}
use mathlib.Core.Bool.{decide}
use aicortex.Prelude.{
  ℕ, ◌+◌, ◌≡◌, refl, Bool, true, false, not, ◌&&◌, ◌||◌, Option, none, some, List, [], ◌∷◌, ◌++◌,
  map, arith, ltb, leb, ◌==◌, if◌then◌else◌, any, all, retain, filter_map, is_some, Result, ok, err,
  ◌>>=◌,
}
use aicortex.Prelude.Int.{ℤ, leb_ℤ, eq_ℤ}
use aicortex.Prelude.Order.{then_with, is_gt}
use Prim.Native.String.{String}
use text.Mathlib.Text.{◌==◌ as str_eq}
use aicortex.Types.Memory.{Provenance}
use aicortex.Types.Claim.{
  ClaimValue, ClaimValue-discrete, RelationTarget, claim, memory, AuthorityLevel, authority_key,
  inferred, Sourcing, user, seed, supplier, SupersessionRule, by_source_order,
}
use aicortex.Types.Time.Interval.{TimePoint}
use aicortex.Claims.Slot.{SlotId, slot_of, compare_slot}
use aicortex.Claims.History.{
  TxStamp, ValidTime, explicit_time, source_time, timeless_time, ClaimRecord, HistoryRelation,
  Retraction, ClaimHistory, get, is_supersedes, high_water,
}
use aicortex.Claims.Window.{
  Chrono, Window, ProjectionPolicy, ProjectionError, unsupported_time_zone_database, invalid_time,
  AsOf, TxBound, sequence, recorded_at, ValidBound, min_instant, max_instant, point_window,
  interval_window, bound_window, first_of,
}
pub mod Slots
pub mod Candidates
pub mod Supported
pub mod Superseded
pub mod Verdicts

pub data Certainty : Type 0 where
  definite possible : Certainty

pub record Candidate : Type 0 where
  pub claim_id : ℕ
  pub value : ClaimValue
  pub authority : AuthorityLevel
  pub sourcing : Sourcing
  pub certainty : Certainty
  pub superseded : List ℕ
  pub provenance : Provenance
  pub hostile_content : Bool
  pub origin_erased : Bool

pub data SlotState : Type 0 where
  value conflicted : List Candidate → SlotState
  retracted absent : SlotState

pub record SlotView : Type 0 where
  pub slot : SlotId
  pub state : SlotState

pub record ConflictProposal : Type 0 where
  pub left : ℕ
  pub right : ℕ

unfoldable pub new_conflict : ℕ → ℕ → ConflictProposal
new_conflict a b =
    if leb a b then record { left = a; right = b } else record { left = b; right = a }

-- A claim and how certainly it covers what is asked.
pub record Covered : Type 0 where
  pub claim : ClaimRecord
  pub certainty : Certainty

abbrev pub id_of : Covered → ℕ
id_of c = c.claim.claim.id

abbrev pub Pairs : Type 0
Pairs = List (ℕ × ℕ)

unfoldable pub within_tx : TxStamp → TxBound → Bool
within_tx tx (sequence seq) = leb tx.seq seq
within_tx tx (recorded_at at) = leb tx.recorded_at at

abbrev pub member : ℕ → List ℕ → Bool
member n = any (λ m. m == n)

-- `BTreeSet::insert`: the set stays ascending, without duplicates.
unfoldable pub set_insert : ℕ → List ℕ → List ℕ
set_insert n [] = n ∷ []
set_insert n (m ∷ ms) =
    if n == m then m ∷ ms else if ltb n m then n ∷ m ∷ ms else m ∷ set_insert n ms

abbrev pub compare_conflict : ConflictProposal → ConflictProposal → Ordering
compare_conflict a b = then_with (compare a.left b.left) (compare a.right b.right)

unfoldable pub conflict_insert : ConflictProposal → List ConflictProposal → List ConflictProposal
conflict_insert p [] = p ∷ []
conflict_insert p (q ∷ qs) = elim (compare_conflict p q) [
  | Ordering.eq ↦ q ∷ qs
  | Ordering.lt ↦ p ∷ q ∷ qs
  | Ordering.gt ↦ q ∷ conflict_insert p qs
]

-- The losers that a winner has, as an ascending set: `superseded.remove(id).unwrap_or_default()`.
unfoldable pub losers_of : ℕ → Pairs → List ℕ
unfolding set_insert
losers_of id [] = []
losers_of id ((winner, loser) ∷ rest) =
    if winner == id then set_insert loser (losers_of id rest) else losers_of id rest

unfoldable pub candidate : Pairs → Covered → Candidate
unfolding losers_of
candidate superseded c = record {
  claim_id = id_of c;
  value = c.claim.claim.value;
  authority = c.claim.authority;
  sourcing = c.claim.admission.sourcing;
  certainty = c.certainty;
  superseded = losers_of (id_of c) superseded;
  provenance = c.claim.claim.provenance;
  hostile_content = c.claim.hostile_content;
  origin_erased = c.claim.origin_erased;
}

unfoldable pub value_eq : ClaimValue → ClaimValue → Bool
value_eq a b = decide (ClaimValue-discrete a b)

abbrev pub same_sourcing : Sourcing → Sourcing → Bool
same_sourcing user user = true
same_sourcing seed seed = true
same_sourcing supplier supplier = true
same_sourcing _ _ = false

abbrev pub is_user : Sourcing → Bool
is_user user = true
is_user _ = false

abbrev pub is_supplier : Sourcing → Bool
is_supplier supplier = true
is_supplier _ = false

abbrev pub sourcing_of : Covered → Sourcing
sourcing_of c = c.claim.admission.sourcing

-- The claim that a relation within the knowledge bound supersedes, and by which: both are active and
-- the relation stands at the target's authority or above. Each `continue` of the loop is `none`.
unfoldable pub supersession : ClaimHistory → TxBound → List ℕ → HistoryRelation → Option (ℕ × ℕ)
unfolding within_tx get
supersession h bound active r =
    if not (within_tx r.tx bound && is_supersedes r.relation.kind)
    then none
    else elim r.relation.to [
      | memory id ↦ none
      | claim to ↦
          if not (member r.relation.from active) || not (member to active)
          then none
          else elim (get h.claims to) [
            | none ↦ none
            | some target ↦
                if leb (authority_key target.authority) (authority_key r.authority)
                then some (r.relation.from, to)
                else none
          ]
    ]

unfoldable pub supersessions : ClaimHistory → TxBound → List ℕ → List HistoryRelation → Pairs
unfolding supersession
supersessions h bound active = filter_map (supersession h bound active)

abbrev pub seconds : Pairs → List ℕ
seconds [] = []
seconds ((a, b) ∷ rest) = b ∷ seconds rest

unfoldable pub drop_ids : List ℕ → List Covered → List Covered
drop_ids ids = retain (λ c. not (member (id_of c) ids))

unfoldable pub user_supplier_conflict : List Covered → Bool
unfolding value_eq
user_supplier_conflict active =
    any (λ c. is_user (sourcing_of c)) active
    && any (λ c. is_supplier (sourcing_of c)) active
    && any
        (λ l.
          any
            (λ r.
              not (same_sourcing (sourcing_of l) (sourcing_of r))
              && not (value_eq l.claim.claim.value r.claim.claim.value))
            active)
        active

abbrev pub max_key : List Covered → ℕ
max_key [] = authority_key inferred
max_key (c ∷ cs) =
    if leb (authority_key c.claim.authority) (max_key cs)
    then max_key cs
    else authority_key c.claim.authority

abbrev pub first_by_source_order : List Covered → Bool
first_by_source_order [] = false
first_by_source_order (c ∷ cs) = elim c.claim.supersession [ by_source_order ↦ true | _ ↦ false ]

-- `sort_by_key` on the claim's id, which is stable.
unfoldable pub insert_sorted : Covered → List Covered → List Covered
insert_sorted c [] = c ∷ []
insert_sorted c (d ∷ ds) = if leb (id_of c) (id_of d) then c ∷ d ∷ ds else d ∷ insert_sorted c ds

unfoldable pub sort_by_id : List Covered → List Covered
unfolding insert_sorted
sort_by_id [] = []
sort_by_id (c ∷ cs) = insert_sorted c (sort_by_id cs)

abbrev pub agree : List Candidate → Bool
agree [] = true
agree (c ∷ cs) = all (λ d. value_eq d.value c.value) (c ∷ cs)

-- The proposals of one candidate against those behind it, and of all.
unfoldable pub against : Candidate → List Candidate → List ConflictProposal → List ConflictProposal
unfolding conflict_insert value_eq new_conflict
against l [] acc = acc
against l (r ∷ rs) acc = against l rs (
    if value_eq l.value r.value
    then acc
    else conflict_insert (new_conflict l.claim_id r.claim_id) acc)

unfoldable pub conflicts : List Candidate → List ConflictProposal → List ConflictProposal
unfolding against
conflicts [] acc = acc
conflicts (l ∷ ls) acc = conflicts ls (against l ls acc)

abbrev pub state_of : List Candidate → SlotState
state_of cs = if agree cs then value cs else conflicted cs

abbrev pub proposals_of : List Candidate → List ConflictProposal → List ConflictProposal
proposals_of cs acc = if agree cs then acc else conflicts cs acc

abbrev pub compare_range : ℤ × ℤ → ℤ × ℤ → Ordering
compare_range a b = then_with (compare_ℤ a.0 b.0) (compare_ℤ a.1 b.1)
  where
    compare_ℤ : ℤ → ℤ → Ordering
    compare_ℤ x y = if eq_ℤ x y then Ordering.eq else if leb_ℤ x y then Ordering.lt else Ordering.gt
