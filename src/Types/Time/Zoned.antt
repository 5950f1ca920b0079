-- ===== src/Types/Time/Zoned.antt =====
-- `Zone`, `ZonedTime` and `Uncertainty` of crates/aicortex-types/src/claim_time.rs.
use aicortex.Prelude.{
  ℕ, ◌+◌, ◌*◌, ◌≤◌, ◌≡◌, refl, Bool, true, false, not, ◌&&◌, ◌||◌, Option, none, some, List, [],
  ◌∷◌, ◌++◌, arith, ltb, leb, ◌==◌, if◌then◌else◌, all, any, is_some, Result, ok, err, ◌>>=◌, ◌>>◌,
}
use aicortex.Prelude.Int.{ℤ, abs_ℤ, eq_ℤ}
use aicortex.Prelude.Order.{option_key, compare_keys, is_lt}
use Prim.Native.String.{String}
use aicortex.Text.{Text, text_eq, is_digit}
use aicortex.Text.Trim.{split_on}
use aicortex.Types.Error.{TypeError, invalid, validate_key}
use aicortex.Types.Time.Precision.{Precision, ZoneForm}
use aicortex.Types.Time.Digits.{digits, pad2}
use aicortex.Types.Time.Date
use aicortex.Types.Time.Date.{
  CivilDate, precision_by, narrow, optional_digits, next_or_empty, tail, is_done,
}
pub mod Roundtrip

unfoldable pub is_alphanumeric : ℕ → Bool
unfolding is_digit
is_alphanumeric c = is_digit c || (leb b'A' c && leb c b'Z') || (leb b'a' c && leb c b'z')

abbrev pub starts_with_slash : Text → Bool
starts_with_slash [] = false
starts_with_slash (c ∷ cs) = c == b'/'

abbrev pub ends_with_slash : Text → Bool
ends_with_slash [] = false
ends_with_slash (c ∷ []) = c == b'/'
ends_with_slash (c ∷ d ∷ ds) = ends_with_slash (d ∷ ds)

abbrev pub holds_two_slashes : Text → Bool
holds_two_slashes [] = false
holds_two_slashes (c ∷ []) = false
holds_two_slashes (c ∷ d ∷ ds) = (c == b'/' && d == b'/') || holds_two_slashes (d ∷ ds)

unfoldable pub tz_name : Text → Result TypeError (Unit {0})
unfolding is_alphanumeric
tz_name text = do
  validate_key "zone" text
  let legal = all (λ c. is_alphanumeric c || c == b'/' || c == b'_' || c == b'-' || c == b'+') text
  if not legal || starts_with_slash text || ends_with_slash text || holds_two_slashes text
      then err (invalid "zone")
      else ok tt

-- A zone name is kept as its checked text.
pub data Zone : Type 0 where
  iana : Text → Zone
  offset : ℤ → Zone
  floating : Zone

abbrev pub max_offset_seconds : ℕ
max_offset_seconds = 18 * 3600

unfoldable pub new_offset : ℤ → Result TypeError Zone
new_offset seconds =
    if ltb max_offset_seconds (abs_ℤ seconds) then err (invalid "zone") else ok (offset seconds)

unfoldable pub form : Zone → ZoneForm
form (iana name) = ZoneForm.iana
form (offset seconds) = ZoneForm.offset
form floating = ZoneForm.floating

unfoldable pub zone_eq : Zone → Zone → Bool
zone_eq (iana a) (iana b) = text_eq a b
zone_eq (offset a) (offset b) = eq_ℤ a b
zone_eq floating floating = true
zone_eq _ _ = false

-- The form on the wire. An absent field is `none`.
pub record RawZone : Type 0 where
  pub kind : ZoneForm
  pub name : Option Text
  pub seconds : Option ℤ

unfoldable pub raw_of_zone : Zone → RawZone
raw_of_zone (iana name) = record { kind = ZoneForm.iana; name = some name; seconds = none }
raw_of_zone (offset seconds) = record {
  kind = ZoneForm.offset;
  name = none;
  seconds = some seconds;
}
raw_of_zone floating = record { kind = ZoneForm.floating; name = none; seconds = none }

abbrev pub zone_by : ZoneForm → Option Text → Option ℤ → Result TypeError Zone
zone_by ZoneForm.iana (some name) none = ok (iana name)
zone_by ZoneForm.offset none (some seconds) = new_offset seconds
zone_by ZoneForm.floating none none = ok floating
zone_by _ _ _ = err (invalid "zone")

unfoldable pub zone_of_raw : RawZone → Result TypeError Zone
zone_of_raw raw = zone_by raw.kind raw.name raw.seconds

pub record ZonedTime : Type 0 where
  pub date : CivilDate
  pub hour : ℕ
  pub minute : Option ℕ
  pub second : Option ℕ
  pub zone : Zone

abbrev pub over : ℕ → Option ℕ → Bool
over n none = false
over n (some v) = ltb n v

abbrev pub is_day : Precision → Bool
is_day Precision.day = true
is_day _ = false

unfoldable pub build : CivilDate → ℕ → Option ℕ → Option ℕ → Zone → Result TypeError ZonedTime
build date hour minute second zone =
    if not (is_day (Date.precision date))
    then err (invalid "local")
    else if ltb 23 hour
    then err (invalid "local")
    else if over 59 minute || over 59 second
    then err (invalid "local")
    else if is_some second && not (is_some minute)
    then err (invalid "local")
    else ok (record { date = date; hour = hour; minute = minute; second = second; zone = zone })

abbrev pub time_precision_by : Option ℕ → Option ℕ → Precision
time_precision_by _ (some s) = Precision.second
time_precision_by (some m) none = Precision.minute
time_precision_by none none = Precision.hour

unfoldable pub precision : ZonedTime → Precision
precision t = time_precision_by t.minute t.second

-- The wall-clock fields, in the order that their tuple compares them.
unfoldable pub wall : ZonedTime → List ℕ
wall t =
    t.date.year
    ∷ option_key t.date.month
    ∷ option_key t.date.day
    ∷ t.hour
    ∷ option_key t.minute
    ∷ option_key t.second
    ∷ []

abbrev pub colon : Option ℕ → Text
colon none = []
colon (some n) = b':' ∷ pad2 n

unfoldable pub local : ZonedTime → Text
local t = Date.to_string t.date ++ b'T' ∷ (pad2 t.hour ++ (colon t.minute ++ colon t.second))

-- `split_once`: what stands before and after the first separator.
unfoldable pub split_once : ℕ → Text → Option (Text × Text)
split_once sep [] = none
split_once sep (c ∷ cs) =
    if c == sep
    then some ([], cs)
    else elim (split_once sep cs) [ none ↦ none | some (a, b) ↦ some (c ∷ a, b) ]

abbrev pub map_narrow : Option ℕ → Option ℕ
map_narrow none = none
map_narrow (some n) = some (narrow n)

unfoldable pub parse_time : CivilDate → List Text → Zone → Result TypeError ZonedTime
parse_time date parts zone = do
  hour ← digits "local" (next_or_empty parts) 2
  minute ← optional_digits "local" (tail parts) 2
  second ← optional_digits "local" (tail (tail parts)) 2
  if not (is_done (tail (tail (tail parts))))
      then err (invalid "local")
      else build date (narrow hour) (map_narrow minute) (map_narrow second) zone

abbrev pub parse_split : Option (Text × Text) → Zone → Result TypeError ZonedTime
parse_split none zone = err (invalid "local")
parse_split (some (date, time)) zone = do
  day ← Date.parse date
  parse_time day (split_on b':' time) zone

unfoldable pub parse : Text → Zone → Result TypeError ZonedTime
parse local zone = parse_split (split_once b'T' local) zone

-- An explicit window.
pub record Uncertainty : Type 0 where
  pub earliest : ZonedTime
  pub latest : ZonedTime

unfoldable pub new_uncertainty : ZonedTime → ZonedTime → Result TypeError Uncertainty
unfolding wall
new_uncertainty earliest latest =
    if zone_eq earliest.zone latest.zone && is_lt (compare_keys (wall latest) (wall earliest))
    then err (invalid "uncertainty")
    else ok (record { earliest = earliest; latest = latest })
