-- ===== src/Types/Time/Date/Canonical.antt =====
-- The texts that read as a date in crates/aicortex-types/src/claim_time.rs.
use mathlib.Core.Path.{ap₂}
use mathlib.Core.List.{append-nil}
use aicortex.Prelude.{
  ℕ, ◌<◌, ◌≡◌, sym, ap, ◌∙◌, Option, none, some, List, [], ◌∷◌, ◌++◌, arith, ok, >>=-eq-ok,
  ok-injective,
}
use aicortex.Text.{Text, byte_len}
use aicortex.Text.Trim.{split_on, join_on, join_on-split_on}
use aicortex.Types.Time.Digits.{digits, pad2, pad4, pad2-digits, pad4-digits}
use aicortex.Types.Time.Date.{
  CivilDate, IsDate, y, ym, ymd, narrow, optional_digits, parse_parts, parse, to_string, build_date,
}
use aicortex.Types.Time.Date.Roundtrip.{ymd-IsDate, ym-IsDate, y-IsDate}

y_builds :
    (year : ℕ) (d : CivilDate)
    → y year ≡ ok d
    → d ≡ record { year = year; month = none; day = none }
unfolding y
y_builds year d h = ground arith

ym_builds :
    (year month : ℕ) (d : CivilDate)
    → ym year month ≡ ok d
    → d ≡ record { year = year; month = some month; day = none }
unfolding ym y
ym_builds year month d h = ground arith

ymd_builds :
    (year month day : ℕ) (d : CivilDate)
    → ymd year month day ≡ ok d
    → d ≡ record { year = year; month = some month; day = some day }
unfolding ymd ym y
ymd_builds year month day d h = ground arith

narrow-small : (n : ℕ) → n < 100 → narrow n ≡ n
unfolding narrow
narrow-small n h = ground arith

-- The parts say what is written: the claim of the theorem, for the parts that a text splits into.
abbrev Says : List Text → CivilDate → Type 0
Says parts d = IsDate d × (join_on b'-' parts ≡ to_string d)

Says-year : (p : Text) (d : CivilDate) → parse_parts (p ∷ []) ≡ ok d → Says (p ∷ []) d
unfolding parse_parts join_on to_string
Says-year p d h =
    let (v, e, k) = >>=-eq-ok (digits "date" p 4) _ h in
    let built = y_builds v d k in
    (
      y-IsDate v k,
      (pad4-digits "date" p v e).0 ∙ sym (append-nil (pad4 v)) ∙ ap to_string (sym built),
    )

optional_reads :
    (q : Text) (o : Option ℕ)
    → optional_digits "date" (q ∷ []) 2 ≡ ok o
    → (m : ℕ) × (digits "date" q 2 ≡ ok m) × (o ≡ some m)
unfolding optional_digits
optional_reads q o h =
    let (m, e, k) = >>=-eq-ok (digits "date" q 2) _ h in (m, e, sym (ok-injective k))

read_month :
    (v m : ℕ) (month : Option ℕ) (d : CivilDate)
    → m < 100
    → month ≡ some m
    → build_date v month none ≡ ok d
    → ym v m ≡ ok d
read_month v m month d small e k =
    let at : ym v (narrow m) ≡ ok d = rw e at k in rw (narrow-small m small) at at

read_day :
    (v m n : ℕ) (month day : Option ℕ) (d : CivilDate)
    → m < 100
    → n < 100
    → month ≡ some m
    → day ≡ some n
    → build_date v month day ≡ ok d
    → ymd v m n ≡ ok d
read_day v m n month day d small small' e e' k =
    let at : ymd v (narrow m) (narrow n) ≡ ok d = rw (e, e') at k in
    rw (narrow-small m small, narrow-small n small') at at

Says-month : (p q : Text) (d : CivilDate) → parse_parts (p ∷ q ∷ []) ≡ ok d → Says (p ∷ q ∷ []) d
unfolding parse_parts join_on to_string
Says-month p q d h =
    let (v, e, k) = >>=-eq-ok (digits "date" p 4) _ h in
    let (month, e', k') = >>=-eq-ok (optional_digits "date" (q ∷ []) 2) _ k in
    let (m, f, g) = optional_reads q month e' in
    let q-pad = pad2-digits "date" q m f in
    let built : ym v m ≡ ok d = read_month v m month d q-pad.1 g k' in
    (
      ym-IsDate v m built,
      ap₂ (λ (a b : Text). a ++ b'-' ∷ b) (pad4-digits "date" p v e).0
            (q-pad.0 ∙ sym (append-nil (pad2 m)))
          ∙ ap to_string (sym (ym_builds v m d built)),
    )

Says-day :
    (p q r : Text) (d : CivilDate) → parse_parts (p ∷ q ∷ r ∷ []) ≡ ok d → Says (p ∷ q ∷ r ∷ []) d
unfolding parse_parts join_on to_string
Says-day p q r d h =
    let (v, e, k) = >>=-eq-ok (digits "date" p 4) _ h in
    let (month, e', k') = >>=-eq-ok (optional_digits "date" (q ∷ []) 2) _ k in
    let (day, e'', k'') = >>=-eq-ok (optional_digits "date" (r ∷ []) 2) _ k' in
    let (m, f, g) = optional_reads q month e' in
    let (n, f', g') = optional_reads r day e'' in
    let q-pad = pad2-digits "date" q m f in
    let r-pad = pad2-digits "date" r n f' in
    let built : ymd v m n ≡ ok d = read_day v m n month day d q-pad.1 r-pad.1 g g' k'' in
    (
      ymd-IsDate v m n built,
      ap₂ (λ (a b : Text). a ++ b'-' ∷ b) (pad4-digits "date" p v e).0
            (ap₂ (λ (a b : Text). a ++ b'-' ∷ b) q-pad.0 r-pad.0)
          ∙ ap to_string (sym (ymd_builds v m n d built)),
    )

no_year : (d : CivilDate) → ¬ (parse_parts [] ≡ ok d)
unfolding parse_parts digits byte_len
no_year d h = ground arith

no_fourth :
    (p q r s : Text) (rest : List Text) (d : CivilDate)
    → ¬ (parse_parts (p ∷ q ∷ r ∷ s ∷ rest) ≡ ok d)
unfolding parse_parts
no_fourth p q r s rest d h =
    let (v, e, k) = >>=-eq-ok (digits "date" p 4) _ h in
    let (month, e', k') = >>=-eq-ok (optional_digits "date" (q ∷ []) 2) _ k in
    let (day, e'', k'') = >>=-eq-ok (optional_digits "date" (r ∷ []) 2) _ k' in cc

parse_parts-Says : (parts : List Text) (d : CivilDate) → parse_parts parts ≡ ok d → Says parts d
parse_parts-Says [] d h = absurd (no_year d h)
parse_parts-Says (p ∷ []) d h = Says-year p d h
parse_parts-Says (p ∷ q ∷ []) d h = Says-month p q d h
parse_parts-Says (p ∷ q ∷ r ∷ []) d h = Says-day p q r d h
parse_parts-Says (p ∷ q ∷ r ∷ s ∷ rest) d h = absurd (no_fourth p q r s rest d h)

-- A text that reads as a date is exactly what the date is written to, and the date is valid.
pub to_string-parse : (t : Text) (d : CivilDate) → parse t ≡ ok d → IsDate d × (t ≡ to_string d)
unfolding parse
to_string-parse t d h =
    let (v, e) = parse_parts-Says (split_on b'-' t) d h in (v, sym (join_on-split_on b'-' t) ∙ e)
