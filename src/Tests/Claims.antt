-- ===== src/Tests/Claims.antt =====
-- The theorems on claims at a concrete history: two claims of one slot, the second of which
-- supersedes the first.
use Prim.Native.Nat.{Ordering}
use mathlib.Core.Bool.{decide}
use native.Mathlib.Decide.{ℕ_discrete}
use aicortex.Types.Time.Date
use aicortex.Prelude.{ℕ, ◌+◌, ◌*◌, ◌≡◌, refl, true, false, none, some, List, [], ◌∷◌, All, ok}
use aicortex.Prelude.Int.{pos}
use aicortex.Types.Memory.{personal, Provenance, captured}
use aicortex.Types.Claim.{
  integer, asserted, supersedes, claim, user_asserted, extracted, AuthorityLevel, user, accumulate,
  scope_string, ClaimValue-discrete,
}
use aicortex.Types.Time.Interval.{open_end, inclusive, exclusive, TimePoint, date}
use aicortex.Claims.Slot.{slot_of, compare_slot}
use aicortex.Claims.History.{
  ClaimRecord, timeless_time, ClaimHistory, HistoryRelation, empty, append_claim, append_relation,
  get, insert, tx_used, use_tx,
}
use aicortex.Claims.History.Invariant.{IsHistory, claimed, related, start, extend, Built-IsHistory}
use aicortex.Claims.Window.{
  Chrono, single, ProjectionPolicy, sequence, instant, AsOf, interval_window, Window, min_instant,
  bound_window, point_window, date_window, date_end, date_start, start_edge, end_edge,
}
use aicortex.Claims.Projection.{
  Certainty, SlotView, value, ConflictProposal, candidate, user_supplier_conflict,
}
use aicortex.Claims.Projection.Slots.{project_slots, coverage}
use aicortex.Claims.Projection.Supported.{IsSupported, listed, project_slots-IsSupported}
use aicortex.Claims.Projection.Verdicts.{IsVerdict, project_slots-IsVerdict}

abbrev source : Provenance
source = captured (record { system = "notes"; external_id = none; locator = none }) 1 2

abbrev said : ℕ → ℕ → AuthorityLevel → ClaimRecord
said id n level = record {
  claim = record {
    id = id;
    scope = record { owner = "o"; kind = personal };
    subject = record { namespace = "n"; kind = "k"; key = "s" };
    predicate = record { namespace = "n"; name = "p"; version = 1 };
    value = integer (pos n);
    slot = none;
    epistemic = record { stance = asserted; condition = none };
    provenance = source;
    schema_version = 1;
  };
  valid = timeless_time;
  source_time = none;
  source_seq = none;
  tx = record { seq = id; recorded_at = id };
  authority = level;
  admission = record { proposal = id; policy_id = "p"; policy_version = 1; sourcing = user };
  supersession = accumulate;
  hostile_content = false;
  origin_erased = false;
}

abbrev first : ClaimRecord
first = said 1 10 extracted

abbrev second : ClaimRecord
second = said 2 20 user_asserted

abbrev replaces : HistoryRelation
replaces = record {
  relation = record { from = 2; kind = supersedes; to = claim 1; provenance = source };
  authority = user_asserted;
  tx = record { seq = 3; recorded_at = 3 };
}

abbrev one : ClaimHistory
one = record {
  claims = first ∷ [];
  relations = [];
  retractions = [];
  used_tx = ("o/personal", 1 ∷ []) ∷ [];
}

abbrev two : ClaimHistory
two = record one { claims = first ∷ second ∷ []; used_tx = ("o/personal", 2 ∷ 1 ∷ []) ∷ [] }

abbrev three : ClaimHistory
three = record two { relations = replaces ∷ [] }

one_built : append_claim empty first ≡ ok one
unfolding append_claim get insert tx_used use_tx scope_string
one_built = refl

two_built : append_claim one second ≡ ok two
unfolding append_claim get insert tx_used use_tx scope_string
two_built = refl

three_built : append_relation two replaces ≡ ok three
unfolding append_relation get compare_slot slot_of scope_string
three_built = refl

Built-IsHistory_example : IsHistory three
Built-IsHistory_example = Built-IsHistory (
    extend
      (extend (extend start (claimed empty one first one_built)) (claimed one two second two_built))
      (related two three replaces three_built))

same_slots : compare_slot (slot_of first.claim) (slot_of second.claim) ≡ Ordering.eq
unfolding compare_slot slot_of scope_string
same_slots = refl

-- A calendar of months of 31 days in which every zone is unknown.
abbrev chrono : Chrono
chrono = record {
  NaiveDate = ℕ;
  from_ymd = λ y m d. some (y * 372 + m * 31 + d);
  succ_day = λ n. some (n + 1);
  midnight = λ n. pos (n * 86400);
  Tz = ℕ;
  parse_tz = λ name. none;
  from_local = λ tz local. single local;
  database = "db";
}

abbrev policy : ProjectionPolicy
policy = record {
  version = "1";
  floating_window_seconds = 0;
  time_zone_database = "db";
  possible_counts = true;
}

abbrev day : TimePoint
day = record {
  value = date (record { year = 2024; month = some 2; day = some 29 });
  uncertainty = none;
}

abbrev as_of : AsOf
as_of = record { knowledge = sequence 3; valid = instant day }

abbrev view : SlotView
view = record {
  slot = slot_of second.claim;
  state =
      value
        (candidate ((2, 1) ∷ []) (record { claim = second; certainty = Certainty.definite }) ∷ []);
}

abbrev out : List SlotView × List ConflictProposal
out = (view ∷ [], [])

projected : project_slots chrono three as_of policy ≡ ok out
unfolding project_slots bound_window point_window date_window Date.precision coverage compare_slot
    slot_of scope_string user_supplier_conflict decide ClaimValue-discrete ℕ_discrete
projected = refl

project_slots-IsSupported_example :
    All (λ v. All (IsSupported three (sequence 3) v.slot) (listed v.state)) (view ∷ [])
project_slots-IsSupported_example =
    project_slots-IsSupported chrono three as_of policy out projected

project_slots-IsVerdict_example : All (λ v. IsVerdict v.state) (view ∷ [])
project_slots-IsVerdict_example = project_slots-IsVerdict chrono three as_of policy out projected

-- An interval that excludes its end may hold at the same instants as one that includes it.
abbrev excluding : Window
excluding = record {
  definite = some (min_instant, pos 65060841600);
  possible = (min_instant, pos 65060928000);
}

abbrev including : Window
including = record {
  definite = some (min_instant, pos 65060928000);
  possible = (min_instant, pos 65060928000);
}

excludes : interval_window chrono open_end (exclusive day) policy ≡ ok excluding
unfolding interval_window start_edge end_edge point_window date_window date_end date_start
    Date.precision
excludes = refl

includes : interval_window chrono open_end (inclusive day) policy ≡ ok including
unfolding interval_window start_edge end_edge point_window date_window date_end date_start
    Date.precision
includes = refl
