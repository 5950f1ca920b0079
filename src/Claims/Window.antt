-- ===== src/Claims/Window.antt =====
-- The time windows of crates/aicortex-claims/src/projection.rs, with asof.rs and policy.rs: what a
-- point or an interval covers for certain, and what it covers possibly, in seconds. The calendar
-- and the zone database belong to other crates (chrono, chrono-tz), and are the parameter `Chrono`.
use aicortex.Prelude.{
  ℕ, ◌+◌, ◌*◌, ◌-◌, ◌^◌, Bool, ◌&&◌, Option, none, some, ltb, ◌==◌, if◌then◌else◌, Result, ok, err,
  ◌>>=◌,
}
use aicortex.Prelude.Int.{ℤ, pos, negsuc, ◌+ℤ◌, ◌-ℤ◌, leb_ℤ, eq_ℤ}
use Prim.Native.String.{String}
use aicortex.Text.{Text}
use aicortex.Types.Time.Precision.{Precision}
use aicortex.Types.Time.Date
use aicortex.Types.Time.Date.{CivilDate}
use aicortex.Types.Time.Zoned
use aicortex.Types.Time.Zoned.{ZonedTime, Zone, iana, offset, floating}
use aicortex.Types.Time.Interval.{
  TimeValue, TimePoint, date, date_time, Bound, open_end, inclusive, exclusive, Interval,
}

pub record ProjectionPolicy : Type 0 where
  pub version : String
  pub floating_window_seconds : ℕ
  pub time_zone_database : String
  pub possible_counts : Bool

pub data TxBound : Type 0 where
  sequence recorded_at : ℕ → TxBound

pub data ValidBound : Type 0 where
  instant : TimePoint → ValidBound
  span : Interval → ValidBound

pub record AsOf : Type 0 where
  pub knowledge : TxBound
  pub valid : ValidBound

pub data ProjectionError : Type 0 where
  unsupported_time_zone_database : String → ProjectionError
  unknown_time_zone : Text → ProjectionError
  invalid_time : ProjectionError
  serialization : ProjectionError

pub data LocalResult : Type 0 where
  single : ℤ → LocalResult
  ambiguous : ℤ → ℤ → LocalResult
  nowhere : LocalResult

-- `from_ymd_opt`, `succ_opt`, the timestamp of a day's midnight in UTC, the reading of a zone's
-- name, and `from_local_datetime` as timestamps.
pub record Chrono : Type 1 where
  pub NaiveDate : Type 0
  pub from_ymd : ℕ → ℕ → ℕ → Option NaiveDate
  pub succ_day : NaiveDate → Option NaiveDate
  pub midnight : NaiveDate → ℤ
  pub Tz : Type 0
  pub parse_tz : Text → Option Tz
  pub from_local : Tz → ℤ → LocalResult
  pub database : String

pub record Window : Type 0 where
  pub definite : Option (ℤ × ℤ)
  pub possible : ℤ × ℤ

abbrev pub or_invalid : {A : Type 0} → Option A → Result ProjectionError A
or_invalid none = err invalid_time
or_invalid (some a) = ok a

abbrev pub get_or_one : Option ℕ → ℕ
get_or_one none = 1
get_or_one (some n) = n

abbrev pub get_or_zero : Option ℕ → ℕ
get_or_zero none = 0
get_or_zero (some n) = n

abbrev pub min_ℤ : ℤ → ℤ → ℤ
min_ℤ a b = if leb_ℤ a b then a else b

abbrev pub max_ℤ : ℤ → ℤ → ℤ
max_ℤ a b = if leb_ℤ a b then b else a

-- `i64::MIN / 4` and `i64::MAX / 4`.
abbrev pub min_instant : ℤ
min_instant = negsuc (2 ^ 61 - 1)

abbrev pub max_instant : ℤ
max_instant = pos (2 ^ 61 - 1)

unfoldable pub precision_seconds : Precision → ℕ
precision_seconds Precision.hour = 3600
precision_seconds Precision.minute = 60
precision_seconds _ = 1

unfoldable pub resolve : LocalResult → Result ProjectionError (ℤ × ℤ)
resolve (single a) = ok (a, a)
resolve (ambiguous a b) = ok (min_ℤ a b, max_ℤ a b)
resolve nowhere = err invalid_time

module _ (chrono : Chrono) where
  open chrono use {NaiveDate, from_ymd, succ_day, midnight, Tz, parse_tz, from_local}

  unfoldable pub date_start : CivilDate → Result ProjectionError NaiveDate
  date_start d = or_invalid (from_ymd d.year (get_or_one d.month) (get_or_one d.day))

  abbrev pub end_by : CivilDate → NaiveDate → Precision → Option NaiveDate
  end_by d start Precision.year = from_ymd (d.year + 1) 1 1
  end_by d start Precision.month =
      if get_or_one d.month == 12
      then from_ymd (d.year + 1) 1 1
      else from_ymd d.year (get_or_one d.month + 1) 1
  end_by d start Precision.day = succ_day start
  end_by d start _ = none

  unfoldable pub date_end : CivilDate → Result ProjectionError NaiveDate
  unfolding date_start
  date_end d = do start ← date_start d; or_invalid (end_by d start (Date.precision d))

  -- The wall-clock reading, as seconds.
  unfoldable pub naive : ZonedTime → Result ProjectionError ℤ
  unfolding date_start
  naive t = do
    day ← date_start t.date
    let minute = get_or_zero t.minute
    let second = get_or_zero t.second
    if ltb t.hour 24 && ltb minute 60 && ltb second 60
        then ok (midnight day +ℤ pos (3600 * t.hour + 60 * minute + second))
        else err invalid_time

  abbrev pub exactly : ℤ × ℤ → ℤ × ℤ → Option (ℤ × ℤ)
  exactly start end =
      if eq_ℤ start.0 start.1 && eq_ℤ end.0 end.1 then some (start.0, end.0) else none

  abbrev pub in_zone : Text → Option Tz → ℤ → ℤ → Result ProjectionError Window
  in_zone name none local width = err (unknown_time_zone name)
  in_zone name (some tz) local width = do
    start ← resolve (from_local tz local)
    end ← resolve (from_local tz (local +ℤ width))
    ok (record { definite = exactly start end; possible = (start.0, end.1) })

  abbrev pub window_by : Zone → ProjectionPolicy → ℤ → ℤ → Result ProjectionError Window
  window_by (offset seconds) policy local width =
      let range : ℤ × ℤ = (local -ℤ seconds, local +ℤ width -ℤ seconds) in
      ok (record { definite = some range; possible = range })
  window_by floating policy local width =
      let widen = pos policy.floating_window_seconds in
      ok (record { definite = none; possible = (local -ℤ widen, local +ℤ width +ℤ widen) })
  window_by (iana name) policy local width = in_zone name (parse_tz name) local width

  unfoldable pub zoned_window : ZonedTime → ProjectionPolicy → Result ProjectionError Window
  unfolding naive
  zoned_window t policy = do
    local ← naive t
    window_by t.zone policy local (pos (precision_seconds (Zoned.precision t)))

  unfoldable pub date_window : CivilDate → Result ProjectionError Window
  unfolding date_end
  date_window d = do
    start ← date_start d
    end ← date_end d
    ok (record {
      definite = some (midnight start, midnight end);
      possible = (midnight start, midnight end);
    })

  abbrev pub value_window : TimeValue → ProjectionPolicy → Result ProjectionError Window
  value_window (date d) policy = date_window d
  value_window (date_time t) policy = zoned_window t policy

  abbrev pub uncertain_window :
      Option Zoned.Uncertainty → TimeValue → ProjectionPolicy → Result ProjectionError Window
  uncertain_window none value policy = value_window value policy
  uncertain_window (some u) value policy = do
    first ← zoned_window u.earliest policy
    last ← zoned_window u.latest policy
    ok (record {
      definite = none;
      possible = (min_ℤ first.possible.0 last.possible.0, max_ℤ first.possible.1 last.possible.1);
    })

  unfoldable pub point_window : TimePoint → ProjectionPolicy → Result ProjectionError Window
  point_window p policy = uncertain_window p.uncertainty p.value policy

  abbrev pub first_of : Option (ℤ × ℤ) → Option ℤ
  first_of none = none
  first_of (some r) = some r.0

  abbrev pub last_of : Option (ℤ × ℤ) → Option ℤ
  last_of none = none
  last_of (some r) = some r.1

  -- The edge that a bound gives: the definite instant, if there is one, and the possible one.
  unfoldable pub start_edge : Bound → ProjectionPolicy → Result ProjectionError (Option ℤ × ℤ)
  start_edge open_end policy = ok (some min_instant, min_instant)
  start_edge (inclusive p) policy = do
    w ← point_window p policy
    ok (first_of w.definite, w.possible.0)
  start_edge (exclusive p) policy = do
    w ← point_window p policy
    ok (last_of w.definite, w.possible.1)

  unfoldable pub end_edge : Bound → ProjectionPolicy → Result ProjectionError (Option ℤ × ℤ)
  end_edge open_end policy = ok (some max_instant, max_instant)
  end_edge (inclusive p) policy = do
    w ← point_window p policy
    ok (last_of w.definite, w.possible.1)
  end_edge (exclusive p) policy = do
    w ← point_window p policy
    ok (first_of w.definite, w.possible.1)

  abbrev pub both : Option ℤ → Option ℤ → Option (ℤ × ℤ)
  both (some a) (some b) = some (a, b)
  both _ _ = none

  unfoldable pub interval_window : Bound → Bound → ProjectionPolicy → Result ProjectionError Window
  unfolding start_edge end_edge
  interval_window start end policy = do
    s ← start_edge start policy
    e ← end_edge end policy
    ok (record { definite = both s.0 e.0; possible = (s.1, e.1) })

  unfoldable pub bound_window : ValidBound → ProjectionPolicy → Result ProjectionError Window
  unfolding interval_window
  bound_window (instant p) policy = point_window p policy
  bound_window (span i) policy = interval_window i.start i.end policy
