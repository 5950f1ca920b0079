-- ===== src/Types/Time/Interval.antt =====
-- `TimeValue`, `TimePoint`, `Bound` and `Interval` of crates/aicortex-types/src/claim_time.rs.
use aicortex.Prelude.{
  ℕ, ◌≡◌, refl, Bool, true, false, not, ◌&&◌, ◌||◌, Option, none, some, List, [], ◌∷◌, arith, ◌==◌,
  if◌then◌else◌, Result, ok, err,
}
use aicortex.Prelude.Order.{option_key, compare_keys, is_gt}
use aicortex.Types.Error.{TypeError, invalid}
use aicortex.Types.Time.Precision.{Precision, PointKind, BoundKind}
use aicortex.Types.Time.Date
use aicortex.Types.Time.Date.{CivilDate}
use aicortex.Types.Time.Zoned.{ZonedTime, zone_eq, wall, Uncertainty}
pub mod Wire

pub data TimeValue : Type 0 where
  date : CivilDate → TimeValue
  date_time : ZonedTime → TimeValue

unfoldable pub kind : TimeValue → PointKind
kind (date d) = PointKind.date
kind (date_time t) = PointKind.date_time

pub record TimePoint : Type 0 where
  pub value : TimeValue
  pub uncertainty : Option Uncertainty

unfoldable pub date_keys : CivilDate → List ℕ
date_keys d = d.year ∷ option_key d.month ∷ option_key d.day ∷ []

abbrev pub precision_key : Precision → ℕ
precision_key Precision.year = 0
precision_key Precision.month = 1
precision_key Precision.day = 2
precision_key Precision.hour = 3
precision_key Precision.minute = 4
precision_key Precision.second = 5

-- Known to be after, by what compares without a zone database.
unfoldable pub value_after : TimeValue → TimeValue → Bool
unfolding date_keys
value_after (date a) (date b) =
    (precision_key (Date.precision a) == precision_key (Date.precision b))
    && is_gt (compare_keys (date_keys a) (date_keys b))
value_after (date_time a) (date_time b) =
    zone_eq a.zone b.zone && is_gt (compare_keys (wall a) (wall b))
value_after _ _ = false

unfoldable pub known_after : TimePoint → TimePoint → Bool
unfolding value_after
known_after a b = value_after a.value b.value

pub data Bound : Type 0 where
  open_end : Bound
  inclusive exclusive : TimePoint → Bound

unfoldable pub point : Bound → Option TimePoint
point open_end = none
point (inclusive p) = some p
point (exclusive p) = some p

pub record Interval : Type 0 where
  pub start : Bound
  pub end : Bound

abbrev pub same_kind : PointKind → PointKind → Bool
same_kind PointKind.date PointKind.date = true
same_kind PointKind.date_time PointKind.date_time = true
same_kind _ _ = false

-- Two closed bounds must be of one kind, and not known to be in the wrong order.
abbrev pub check_bounds : Option TimePoint → Option TimePoint → Bool
check_bounds (some from) (some to) =
    same_kind (kind from.value) (kind to.value) && not (known_after from to)
check_bounds _ _ = true

unfoldable pub new_interval : Bound → Bound → Result TypeError Interval
new_interval start end =
    if check_bounds (point start) (point end)
    then ok (record { start = start; end = end })
    else err (invalid "interval")
