-- ===== src/Types/Time/Date.antt =====
-- `CivilDate` of crates/aicortex-types/src/claim_time.rs: a date at the precision
-- that the source stated, its reading and its writing.
use aicortex.Prelude.{
  ℕ, zero, suc, ◌+◌, ◌-◌, ◌*◌, ◌/◌, ◌%◌, ◌≤◌, ◌<◌, ◌≡◌, refl, Bool, true, false, not, ◌&&◌, ◌||◌,
  Option, none, some, List, [], ◌∷◌, ◌++◌, arith, ltb, leb, ◌==◌, if◌then◌else◌, Result, ok, err,
  ◌>>=◌, ◌>>◌, ensure,
}
use Prim.Native.String.{String}
use aicortex.Text.{Text}
use aicortex.Text.Trim.{split_on}
use aicortex.Types.Error.{TypeError, invalid}
use aicortex.Types.Time.Precision.{Precision}
use aicortex.Types.Time.Digits.{digits, pad2, pad4}
pub mod Roundtrip
pub mod Canonical

abbrev pub multiple_of : ℕ → ℕ → Bool
multiple_of n k = n % k == 0

unfoldable pub is_leap : ℕ → Bool
is_leap year = multiple_of year 4 && (not (multiple_of year 100) || multiple_of year 400)

unfoldable pub days_in : ℕ → ℕ → ℕ
unfolding is_leap
days_in year month =
    if month == 2 && is_leap year
    then 29
    else if month == 2
    then 28
    else if month == 4 || month == 6 || month == 9 || month == 11
    then 30
    else 31

pub record CivilDate : Type 0 where
  pub year : ℕ
  pub month : Option ℕ
  pub day : Option ℕ

unfoldable pub y : ℕ → Result TypeError CivilDate
y year =
    if not (leb 1 year && leb year 9999)
    then err (invalid "date")
    else ok (record { year = year; month = none; day = none })

unfoldable pub ym : ℕ → ℕ → Result TypeError CivilDate
unfolding y
ym year month = do
  date ← y year
  if not (leb 1 month && leb month 12)
      then err (invalid "date")
      else ok (record date { month = some month })

unfoldable pub ymd : ℕ → ℕ → ℕ → Result TypeError CivilDate
unfolding ym days_in
ymd year month day = do
  date ← ym year month
  if day == 0 || ltb (days_in year month) day
      then err (invalid "date")
      else ok (record date { day = some day })

abbrev pub precision_by : Option ℕ → Option ℕ → Precision
precision_by _ (some d) = Precision.day
precision_by (some m) none = Precision.month
precision_by none none = Precision.year

unfoldable pub precision : CivilDate → Precision
precision d = precision_by d.month d.day

-- `u8::try_from(value).unwrap_or(u8::MAX)`.
unfoldable pub narrow : ℕ → ℕ
narrow value = if leb value 255 then value else 255

-- `parts.next().map(|part| digits(…)).transpose()?`.
unfoldable pub optional_digits : String → List Text → ℕ → Result TypeError (Option ℕ)
optional_digits field [] width = ok none
optional_digits field (part ∷ rest) width = do value ← digits field part width; ok (some value)

abbrev pub next_or_empty : List Text → Text
next_or_empty [] = []
next_or_empty (part ∷ rest) = part

abbrev pub tail : List Text → List Text
tail [] = []
tail (part ∷ rest) = rest

abbrev pub is_done : List Text → Bool
is_done [] = true
is_done (part ∷ rest) = false

abbrev pub build_date : ℕ → Option ℕ → Option ℕ → Result TypeError CivilDate
build_date year none _ = y year
build_date year (some month) none = ym year (narrow month)
build_date year (some month) (some day) = ymd year (narrow month) (narrow day)

-- The fields of a date, from its parts.
unfoldable pub parse_parts : List Text → Result TypeError CivilDate
unfolding optional_digits
parse_parts parts = do
  year ← digits "date" (next_or_empty parts) 4
  month ← optional_digits "date" (tail parts) 2
  day ← optional_digits "date" (tail (tail parts)) 2
  if not (is_done (tail (tail (tail parts))))
      then err (invalid "date")
      else build_date year month day

unfoldable pub parse : Text → Result TypeError CivilDate
unfolding parse_parts
parse text = parse_parts (split_on b'-' text)

abbrev pub dashed : Option ℕ → Text
dashed none = []
dashed (some n) = b'-' ∷ pad2 n

unfoldable pub to_string : CivilDate → Text
to_string d = pad4 d.year ++ (dashed d.month ++ dashed d.day)

-- What the constructors allow: a year from 1 to 9999, a month from 1 to 12 if there is one, and a
-- day of that month if there is one, which needs a month.
abbrev pub MonthDay : ℕ → Option ℕ → Option ℕ → Type 0
MonthDay year none none = Unit
MonthDay year none (some day) = ⊥
MonthDay year (some month) none = (1 ≤ month) × (month ≤ 12)
MonthDay year (some month) (some day) =
    (1 ≤ month) × (month ≤ 12) × (1 ≤ day) × (day ≤ days_in year month)

abbrev pub IsDate : CivilDate → Type 0
IsDate d = (1 ≤ d.year) × (d.year ≤ 9999) × MonthDay d.year d.month d.day

ymd_february : ymd 2024 2 29 ≡ ok (record { year = 2024; month = some 2; day = some 29 })
unfolding ymd
ymd_february = refl
