-- ===== src/Types/Time/Date/Roundtrip.antt =====
-- Dates of crates/aicortex-types/src/claim_time.rs and the texts that they are written to.
use aicortex.Prelude.{
  ℕ, ◌≤◌, ◌<◌, ◌≡◌, ap, ◌∙◌, false, Option, none, some, List, [], ◌∷◌, ◌++◌, arith, ◌==◌, any, ok,
}
use mathlib.Core.List.{append-nil}
use aicortex.Text.{Text}
use aicortex.Text.Trim.{split_on, split_on-append, split_on-whole}
use aicortex.Types.Time.Digits.{pad2, pad4, digits-pad2, digits-pad4}
use aicortex.Types.Time.Date.{
  CivilDate, IsDate, days_in, y, ym, ymd, narrow, parse_parts, parse, to_string, dashed, MonthDay,
}

-- A date that was built is valid.
pub ymd-IsDate : (year month day : ℕ) {d : CivilDate} → ymd year month day ≡ ok d → IsDate d
unfolding ymd
ymd-IsDate year month day h = ground arith

pub ym-IsDate : (year month : ℕ) {d : CivilDate} → ym year month ≡ ok d → IsDate d
unfolding ym
ym-IsDate year month h = ground arith

pub y-IsDate : (year : ℕ) {d : CivilDate} → y year ≡ ok d → IsDate d
unfolding y
y-IsDate year h = ground arith

-- The parts that a date is written in.
abbrev written : Option ℕ → List Text → List Text
written none rest = rest
written (some n) rest = pad2 n ∷ rest

pad4-no_dash : (n : ℕ) → any (λ c. c == b'-') (pad4 n) ≡ false
pad4-no_dash n = ground arith

pad2-no_dash : (n : ℕ) → any (λ c. c == b'-') (pad2 n) ≡ false
pad2-no_dash n = ground arith

split_on-to_string :
    (d : CivilDate)
    → IsDate d
    → split_on b'-' (to_string d) ≡ pad4 d.year ∷ written d.month (written d.day [])
unfolding to_string
split_on-to_string d v = go d.month d.day v.2
  where
    go :
        (month day : Option ℕ)
        → MonthDay d.year month day
        → split_on b'-' (pad4 d.year ++ (dashed month ++ dashed day))
          ≡ pad4 d.year ∷ written month (written day [])
    go none none m =
        rw (append-nil (pad4 d.year)) (split_on-whole b'-' (pad4 d.year) (pad4-no_dash d.year))
    go none (some n) m = elim m [ ]
    go (some m) none h =
        split_on-append b'-' (pad4 d.year) (pad2 m ++ []) (pad4-no_dash d.year)
        ∙ ap (λ (l : List Text). pad4 d.year ∷ l)
            (rw (append-nil (pad2 m)) (split_on-whole b'-' (pad2 m) (pad2-no_dash m)))
    go (some m) (some n) h =
        split_on-append b'-' (pad4 d.year) (pad2 m ++ b'-' ∷ pad2 n) (pad4-no_dash d.year)
        ∙ ap (λ (l : List Text). pad4 d.year ∷ l)
            (split_on-append b'-' (pad2 m) (pad2 n) (pad2-no_dash m)
              ∙ ap (λ (l : List Text). pad2 m ∷ l) (split_on-whole b'-' (pad2 n) (pad2-no_dash n)))

days_in-le : (year month : ℕ) → days_in year month ≤ 31
unfolding days_in
days_in-le year month = ground arith

parse_parts-written :
    (year : ℕ) (month day : Option ℕ)
    → 1 ≤ year
    → year ≤ 9999
    → MonthDay year month day
    → parse_parts (pad4 year ∷ written month (written day []))
      ≡ ok (record { year = year; month = month; day = day })
unfolding parse_parts y ym ymd narrow
parse_parts-written year none none h h' v =
    rw (digits-pad4 "date" year (omega arith)) (ground arith)
parse_parts-written year none (some n) h h' v = elim v [ ]
parse_parts-written year (some m) none h h' v =
    rw (digits-pad4 "date" year (omega arith), digits-pad2 "date" m (omega arith)) (ground arith)
parse_parts-written year (some m) (some n) h h' v =
    let small : n < 100 = omega (arith, days_in-le year m) in
    rw
      (
        digits-pad4 "date" year (omega arith),
        digits-pad2 "date" m (omega arith),
        digits-pad2 "date" n small,
      )
      (ground (arith, days_in-le year m))

-- A valid date, at any of its precisions, is read back from the text that it is written to.
pub parse-to_string : (d : CivilDate) → IsDate d → parse (to_string d) ≡ ok d
unfolding parse
parse-to_string d v =
    rw (split_on-to_string d v) (parse_parts-written d.year d.month d.day v.0 v.1 v.2)
