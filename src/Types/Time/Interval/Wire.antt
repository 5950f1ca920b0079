-- ===== src/Types/Time/Interval/Wire.antt =====
-- The serialized forms of points, bounds and intervals, and the checks that reading them repeats.
use aicortex.Prelude.{◌≡◌, refl, Option, none, some, arith, Result, ok, err, ◌>>=◌}
use aicortex.Types.Error.{TypeError, invalid}
use aicortex.Types.Time.Precision.{PointKind, BoundKind}
use aicortex.Types.Time.Date.{CivilDate, IsDate}
use aicortex.Types.Time.Zoned.{ZonedTime, Uncertainty}
use aicortex.Types.Time.Wire.{
  RawDate, raw_of_date, date_of_raw, RawZonedTime, raw_of_time, time_of_raw, RawUncertainty,
  raw_of_uncertainty, uncertainty_of_raw, IsZoned, IsWindow, date_of_raw-raw_of_date,
  time_of_raw-raw_of_time, uncertainty_of_raw-raw_of_uncertainty,
}
use aicortex.Types.Time.Interval.{
  TimeValue, TimePoint, date, date_time, Bound, open_end, inclusive, exclusive, Interval,
  new_interval,
}

pub record RawPoint : Type 0 where
  pub kind : PointKind
  pub date : Option RawDate
  pub datetime : Option RawZonedTime
  pub uncertainty : Option RawUncertainty

abbrev pub raw_of_value : TimeValue → Option RawUncertainty → RawPoint
raw_of_value (date d) u = record {
  kind = PointKind.date;
  date = some (raw_of_date d);
  datetime = none;
  uncertainty = u;
}
raw_of_value (date_time t) u = record {
  kind = PointKind.date_time;
  date = none;
  datetime = some (raw_of_time t);
  uncertainty = u;
}

abbrev raw_if : Option Uncertainty → Option RawUncertainty
raw_if none = none
raw_if (some u) = some (raw_of_uncertainty u)

unfoldable pub raw_of_point : TimePoint → RawPoint
raw_of_point p = raw_of_value p.value (raw_if p.uncertainty)

-- A field that may be absent.
abbrev pub read_if :
    {A B : Type 0} → (A → Result TypeError B) → Option A → Result TypeError (Option B)
read_if read none = ok none
read_if read (some raw) = (read raw >>= λ x. ok (some x))

abbrev pub value_by : PointKind → Option CivilDate → Option ZonedTime → Result TypeError TimeValue
value_by PointKind.date (some d) none = ok (date d)
value_by PointKind.date_time none (some t) = ok (date_time t)
value_by _ _ _ = err (invalid "point")

-- The fields are read first, each with its own checks.
unfoldable pub point_of_raw : RawPoint → Result TypeError TimePoint
unfolding date_of_raw time_of_raw uncertainty_of_raw
point_of_raw raw = do
  on ← read_if date_of_raw raw.date
  datetime ← read_if time_of_raw raw.datetime
  uncertainty ← read_if uncertainty_of_raw raw.uncertainty
  value ← value_by raw.kind on datetime
  ok (record { value = value; uncertainty = uncertainty })

pub record RawBound : Type 0 where
  pub kind : BoundKind
  pub point : Option RawPoint

unfoldable pub raw_of_bound : Bound → RawBound
unfolding raw_of_point
raw_of_bound open_end = record { kind = BoundKind.open_end; point = none }
raw_of_bound (inclusive p) = record { kind = BoundKind.inclusive; point = some (raw_of_point p) }
raw_of_bound (exclusive p) = record { kind = BoundKind.exclusive; point = some (raw_of_point p) }

abbrev pub bound_by : BoundKind → Option TimePoint → Result TypeError Bound
bound_by BoundKind.open_end none = ok open_end
bound_by BoundKind.inclusive (some p) = ok (inclusive p)
bound_by BoundKind.exclusive (some p) = ok (exclusive p)
bound_by _ _ = err (invalid "bound")

unfoldable pub bound_of_raw : RawBound → Result TypeError Bound
unfolding point_of_raw
bound_of_raw raw = do point ← read_if point_of_raw raw.point; bound_by raw.kind point

pub record RawInterval : Type 0 where
  pub start : RawBound
  pub end : RawBound

unfoldable pub raw_of_interval : Interval → RawInterval
raw_of_interval i = record { start = raw_of_bound i.start; end = raw_of_bound i.end }

-- The bounds are read first, and the interval's own check comes last.
unfoldable pub interval_of_raw : RawInterval → Result TypeError Interval
interval_of_raw raw = do
  start ← bound_of_raw raw.start
  end ← bound_of_raw raw.end
  new_interval start end

-- What the value's constructors guarantee, and an offset of at most eighteen hours.
abbrev pub IsValue : TimeValue → Type 0
IsValue (date d) = IsDate d
IsValue (date_time t) = IsZoned t

abbrev pub IsUncertainty : Option Uncertainty → Type 0
IsUncertainty none = Unit
IsUncertainty (some u) = IsWindow u

abbrev pub IsPoint : TimePoint → Type 0
IsPoint p = IsValue p.value × IsUncertainty p.uncertainty

abbrev pub IsBound : Bound → Type 0
IsBound open_end = Unit
IsBound (inclusive p) = IsPoint p
IsBound (exclusive p) = IsPoint p

read_if-raw_if :
    (o : Option Uncertainty) → IsUncertainty o → read_if uncertainty_of_raw (raw_if o) ≡ ok o
read_if-raw_if none v = refl
read_if-raw_if (some u) v = rw (uncertainty_of_raw-raw_of_uncertainty u v) refl

point_of_raw-raw_of_value :
    (value : TimeValue) (o : Option Uncertainty)
    → IsValue value
    → IsUncertainty o
    → point_of_raw (raw_of_value value (raw_if o)) ≡ ok (record { value = value; uncertainty = o })
unfolding point_of_raw
point_of_raw-raw_of_value (date d) o v w = rw (date_of_raw-raw_of_date d v, read_if-raw_if o w) refl
point_of_raw-raw_of_value (date_time t) o v w =
    rw (time_of_raw-raw_of_time t v, read_if-raw_if o w) refl

pub point_of_raw-raw_of_point : (p : TimePoint) → IsPoint p → point_of_raw (raw_of_point p) ≡ ok p
unfolding raw_of_point
point_of_raw-raw_of_point p v = point_of_raw-raw_of_value p.value p.uncertainty v.0 v.1

pub bound_of_raw-raw_of_bound : (b : Bound) → IsBound b → bound_of_raw (raw_of_bound b) ≡ ok b
unfolding bound_of_raw raw_of_bound
bound_of_raw-raw_of_bound open_end v = refl
bound_of_raw-raw_of_bound (inclusive p) v = rw (point_of_raw-raw_of_point p v) refl
bound_of_raw-raw_of_bound (exclusive p) v = rw (point_of_raw-raw_of_point p v) refl

-- An interval that was built, from points whose dates, times and uncertainties are valid and whose
-- offsets are at most eighteen hours, is read back from its form on the wire: the texts of its dates
-- and times, with their precisions and zones.
pub interval_of_raw-raw_of_interval :
    (start end : Bound) (i : Interval)
    → new_interval start end ≡ ok i
    → IsBound i.start
    → IsBound i.end
    → interval_of_raw (raw_of_interval i) ≡ ok i
unfolding interval_of_raw raw_of_interval
interval_of_raw-raw_of_interval start end i h v w =
    rw (bound_of_raw-raw_of_bound i.start v, bound_of_raw-raw_of_bound i.end w)
      (unfold new_interval in ground arith)
