-- ===== src/Tests/Time.antt =====
-- The theorems on dates, times and intervals at concrete values.
use aicortex.Prelude.{arith, ◌≤◌, ◌≡◌, refl, ◌↔◌, none, some, ok}
use aicortex.Prelude.Int.{pos, abs_ℤ}
use aicortex.Types.Time.Date
use aicortex.Types.Time.Date.{CivilDate, IsDate, is_leap, days_in, y, ym, ymd}
use aicortex.Types.Time.Date.Roundtrip.{ymd-IsDate, parse-to_string}
use aicortex.Types.Time.Date.Canonical.{to_string-parse}
use aicortex.Types.Time.Zoned
use aicortex.Types.Time.Zoned.{
  ZonedTime, Zone, offset, RawZone, new_uncertainty, zone_eq, wall, raw_of_zone, zone_of_raw,
  max_offset_seconds,
}
use aicortex.Types.Time.Zoned.Roundtrip.{IsTime, parse-local, build-IsTime, zone_of_raw-raw_of_zone}
use aicortex.Types.Time.Wire.{IsZoned}
use aicortex.Types.Time.Interval.{
  date_time, open_end, inclusive, TimePoint, Interval, new_interval, point,
}
use aicortex.Types.Time.Interval.Wire.{
  IsPoint, interval_of_raw, raw_of_interval, interval_of_raw-raw_of_interval,
}

abbrev leap_day : CivilDate
leap_day = record { year = 2024; month = some 2; day = some 29 }

leap_day_built : ymd 2024 2 29 ≡ ok leap_day
unfolding ymd ym y days_in is_leap
leap_day_built = refl

leap_day-IsDate : IsDate leap_day
leap_day-IsDate = ymd-IsDate 2024 2 29 leap_day_built

parse-to_string_example : Date.parse (Date.to_string leap_day) ≡ ok leap_day
parse-to_string_example = parse-to_string leap_day leap_day-IsDate

to_string-parse_example : IsDate leap_day × (Date.to_string leap_day ≡ Date.to_string leap_day)
to_string-parse_example = to_string-parse (Date.to_string leap_day) leap_day parse-to_string_example

abbrev noon : ZonedTime
noon = record {
  date = leap_day;
  hour = 12;
  minute = some 0;
  second = none;
  zone = offset (pos 3600);
}

noon_built : Zoned.build leap_day 12 (some 0) none (offset (pos 3600)) ≡ ok noon
unfolding Zoned.build Date.precision
noon_built = refl

noon-IsTime : IsTime noon
noon-IsTime = build-IsTime leap_day 12 (some 0) none (offset (pos 3600)) leap_day-IsDate noon_built

parse-local_example : Zoned.parse (Zoned.local noon) (offset (pos 3600)) ≡ ok noon
parse-local_example = parse-local noon noon-IsTime

zone_of_raw-raw_of_zone_example :
    (zone_of_raw (raw_of_zone (offset (pos 3600))) ≡ ok (offset (pos 3600)))
    ↔ (abs_ℤ (pos 3600) ≤ max_offset_seconds)
zone_of_raw-raw_of_zone_example = zone_of_raw-raw_of_zone (offset (pos 3600))

noon-IsZoned : IsZoned noon
noon-IsZoned = record { is_time = noon-IsTime; is_zone = ground arith }

-- Some time from noon to noon of the leap day.
abbrev at_noon : TimePoint
at_noon = record {
  value = date_time noon;
  uncertainty = some (record { earliest = noon; latest = noon });
}

abbrev since_noon : Interval
since_noon = record { start = inclusive at_noon; end = open_end }

since_built : new_interval since_noon.start open_end ≡ ok since_noon
unfolding new_interval point
since_built = refl

noon_window : new_uncertainty noon noon ≡ ok (record { earliest = noon; latest = noon })
unfolding new_uncertainty zone_eq wall
noon_window = refl

at_noon-IsPoint : IsPoint at_noon
at_noon-IsPoint = (
  noon-IsZoned,
  record { earliest_valid = noon-IsZoned; latest_valid = noon-IsZoned; built = noon_window },
)

interval_of_raw-raw_of_interval_example :
    interval_of_raw (raw_of_interval since_noon) ≡ ok since_noon
interval_of_raw-raw_of_interval_example =
    interval_of_raw-raw_of_interval since_noon.start open_end since_noon since_built at_noon-IsPoint
      tt
