-- ===== src/Claims/History.antt =====
-- crates/aicortex-claims/src/history.rs: admitted claims, the relations between them and their
-- retractions. The `BTreeMap` of claims is the list of its records in ascending order of their
-- ids; the transaction sequences in use are kept for each scope.
use Prim.Native.Nat.{Ordering, max}
use aicortex.Prelude.{
  ℕ, ◌≤◌, ◌≡◌, refl, Bool, true, false, not, ◌&&◌, ◌||◌, Option, none, some, List, [], ◌∷◌, ◌++◌,
  arith, ltb, ◌==◌, if◌then◌else◌, is_some, all, any, Result, ok, err,
}
use Prim.Native.String.{String}
use text.Mathlib.Text.{◌==◌ as str_eq, is_eq}
use aicortex.Types.Memory.{Scope, Provenance, Actor}
use aicortex.Types.Claim.{
  Claim, ClaimRelation, RelationKind, supersedes, RelationTarget, claim, memory, AuthorityLevel,
  Sourcing, SupersessionRule, ValidTimeMode, explicit, from_source_time, timeless, scope_string,
  SubjectRef,
}
use aicortex.Types.Time.Interval.{Interval, TimePoint}
use aicortex.Claims.Slot.{SlotId, slot_of, compare_slot}
pub mod Laws
pub mod Invariant

pub record TxStamp : Type 0 where
  pub seq : ℕ
  pub recorded_at : ℕ

pub data ValidTime : Type 0 where
  explicit_time : Interval → ValidTime
  source_time timeless_time : ValidTime

unfoldable pub matches : ValidTime → ValidTimeMode → Bool
matches (explicit_time i) explicit = true
matches source_time from_source_time = true
matches timeless_time timeless = true
matches _ _ = false

pub record AdmissionRef : Type 0 where
  pub proposal : ℕ
  pub policy_id : String
  pub policy_version : ℕ
  pub sourcing : Sourcing

pub record ClaimRecord : Type 0 where
  pub claim : Claim
  pub valid : ValidTime
  pub source_time : Option TimePoint
  pub source_seq : Option ℕ
  pub tx : TxStamp
  pub authority : AuthorityLevel
  pub admission : AdmissionRef
  pub supersession : SupersessionRule
  pub hostile_content : Bool
  pub origin_erased : Bool

pub record HistoryRelation : Type 0 where
  pub relation : ClaimRelation
  pub authority : AuthorityLevel
  pub tx : TxStamp

pub record Retraction : Type 0 where
  pub target : ℕ
  pub reason : String
  pub by : Actor
  pub provenance : Provenance
  pub tx : TxStamp

pub data HistoryError : Type 0 where
  duplicate_claim unknown_claim : ℕ → HistoryError
  cross_slot_supersession : HistoryError
  duplicate_tx invalid_valid_time : ℕ → HistoryError

abbrev pub is_source_time : ValidTime → Bool
is_source_time source_time = true
is_source_time _ = false

unfoldable pub validate_time : ClaimRecord → ValidTimeMode → Result HistoryError (Unit {0})
unfolding matches
validate_time r mode =
    if not (matches r.valid mode) || (is_source_time r.valid && not (is_some r.source_time))
    then err (invalid_valid_time r.claim.id)
    else ok tt

abbrev pub UsedTx : Type 0
UsedTx = List (String × List ℕ)

pub record ClaimHistory : Type 0 where
  pub claims : List ClaimRecord
  pub relations : List HistoryRelation
  pub retractions : List Retraction
  pub used_tx : UsedTx

abbrev pub empty : ClaimHistory
empty = record { claims = []; relations = []; retractions = []; used_tx = [] }

-- `BTreeMap::get`.
unfoldable pub get : List ClaimRecord → ℕ → Option ClaimRecord
get [] id = none
get (r ∷ rs) id = if r.claim.id == id then some r else get rs id

-- `BTreeMap::insert` of a key that is not there.
unfoldable pub insert : ClaimRecord → List ClaimRecord → List ClaimRecord
insert r [] = r ∷ []
insert r (s ∷ ss) = if ltb r.claim.id s.claim.id then r ∷ s ∷ ss else s ∷ insert r ss

abbrev pub contains_seq : ℕ → List ℕ → Bool
contains_seq seq = any (λ n. n == seq)

-- Whether a scope has used a sequence.
unfoldable pub tx_used : UsedTx → String → ℕ → Bool
tx_used [] scope seq = false
tx_used ((s, seqs) ∷ rest) scope seq =
    if str_eq s scope then contains_seq seq seqs else tx_used rest scope seq

-- `used_tx.entry(scope).or_default().insert(seq)`.
unfoldable pub use_tx : UsedTx → String → ℕ → UsedTx
use_tx [] scope seq = (scope, seq ∷ []) ∷ []
use_tx ((s, seqs) ∷ rest) scope seq =
    if str_eq s scope then (s, seq ∷ seqs) ∷ rest else (s, seqs) ∷ use_tx rest scope seq

unfoldable pub append_claim : ClaimHistory → ClaimRecord → Result HistoryError ClaimHistory
append_claim h r =
    if is_some (get h.claims r.claim.id)
    then err (duplicate_claim r.claim.id)
    else if tx_used h.used_tx (scope_string r.claim.scope) r.tx.seq
    then err (duplicate_tx r.tx.seq)
    else ok (record h {
      claims = insert r h.claims;
      used_tx = use_tx h.used_tx (scope_string r.claim.scope) r.tx.seq;
    })

abbrev pub is_supersedes : RelationKind → Bool
is_supersedes supersedes = true
is_supersedes _ = false

abbrev pub same_slot : ClaimRecord → ClaimRecord → Bool
same_slot a b = is_eq (compare_slot (slot_of a.claim) (slot_of b.claim))

-- The check of a relation whose source is `source`.
abbrev pub check_target :
    List ClaimRecord → ClaimRecord → RelationKind → RelationTarget → Option HistoryError
check_target claims source kind (memory id) = none
check_target claims source kind (claim target) = elim (get claims target) [
  | none ↦ some (unknown_claim target)
  | some r ↦
      if is_supersedes kind && not (same_slot source r) then some cross_slot_supersession else none
]

abbrev pub check_relation : List ClaimRecord → ClaimRelation → Option HistoryError
check_relation claims r = elim (get claims r.from) [
  | none ↦ some (unknown_claim r.from)
  | some source ↦ check_target claims source r.kind r.to
]

abbrev pub push_relation :
    ClaimHistory → HistoryRelation → Option HistoryError → Result HistoryError ClaimHistory
push_relation h r (some e) = err e
push_relation h r none = ok (record h { relations = h.relations ++ r ∷ [] })

unfoldable pub append_relation : ClaimHistory → HistoryRelation → Result HistoryError ClaimHistory
append_relation h r = push_relation h r (check_relation h.claims r.relation)

unfoldable pub append_retraction : ClaimHistory → Retraction → Result HistoryError ClaimHistory
append_retraction h r =
    if not (is_some (get h.claims r.target))
    then err (unknown_claim r.target)
    else ok (record h { retractions = h.retractions ++ r ∷ [] })

abbrev pub max_seq : {A : Type 0} → (A → TxStamp) → List A → ℕ
max_seq tx [] = 0
max_seq tx (x ∷ xs) = max (tx x).seq (max_seq tx xs)

-- The largest sequence of any entry, or 0.
unfoldable pub high_water : ClaimHistory → ℕ
high_water h = max (max_seq (λ (r : ClaimRecord). r.tx) h.claims) (
    max (max_seq (λ (r : HistoryRelation). r.tx) h.relations)
      (max_seq (λ (r : Retraction). r.tx) h.retractions))
