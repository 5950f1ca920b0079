-- ===== src/Types/Time/Zoned/Roundtrip.antt =====
-- Zoned times of crates/aicortex-types/src/claim_time.rs and the texts that they are written to.
use mathlib.Core.List.{append-nil}
use aicortex.Prelude.{
  ℕ, ◌≤◌, ◌≡◌, refl, ap, ◌∙◌, false, Option, none, some, List, [], ◌∷◌, ◌++◌, arith, ◌==◌, any, ◌↔◌,
  ok,
}
use aicortex.Prelude.Int.{abs_ℤ}
use aicortex.Text.{Text}
use aicortex.Text.Trim.{split_on, split_on-append, split_on-whole}
use aicortex.Types.Time.Precision.{Precision}
use aicortex.Types.Time.Digits.{pad2, pad4, digits-pad2}
use aicortex.Types.Time.Date
use aicortex.Types.Time.Date.{CivilDate, IsDate, MonthDay, narrow, optional_digits, dashed}
use aicortex.Types.Time.Date.Roundtrip.{parse-to_string}
use aicortex.Types.Time.Zoned.{
  Zone, iana, offset, floating, new_offset, max_offset_seconds, raw_of_zone, zone_of_raw, ZonedTime,
  build, local, split_once, parse, parse_time, colon,
}

-- What `build` allows: a day, and a clock reading in which a second needs a minute.
abbrev pub Clock : Option ℕ → Option ℕ → Type 0
Clock none none = Unit
Clock none (some s) = ⊥
Clock (some m) none = m ≤ 59
Clock (some m) (some s) = (m ≤ 59) × (s ≤ 59)

pub record IsTime (t : ZonedTime) : Type 0 where
  pub date_valid : IsDate t.date
  pub is_day : Date.precision t.date ≡ Precision.day
  pub hour_fits : t.hour ≤ 23
  pub clock : Clock t.minute t.second

-- `split_once` cuts at the first separator.
split_once-append :
    (sep : ℕ) (a b : Text)
    → any (λ c. c == sep) a ≡ false
    → split_once sep (a ++ sep ∷ b) ≡ some (a, b)
unfolding split_once
split_once-append sep [] b h = ground arith
split_once-append sep (c ∷ a) b h = ground (arith, split_once-append sep a b)

any-append :
    (sep : ℕ) (a b : Text)
    → any (λ c. c == sep) a ≡ false
    → any (λ c. c == sep) b ≡ false
    → any (λ c. c == sep) (a ++ b) ≡ false
any-append sep [] b ha hb = hb
any-append sep (c ∷ a) b ha hb = ground (arith, any-append sep a b)

dashed-no_t : (o : Option ℕ) → any (λ c. c == b'T') (dashed o) ≡ false
dashed-no_t none = refl
dashed-no_t (some n) = ground arith

pad4-no_t : (n : ℕ) → any (λ c. c == b'T') (pad4 n) ≡ false
pad4-no_t n = ground arith

to_string-no_t : (d : CivilDate) → any (λ c. c == b'T') (Date.to_string d) ≡ false
unfolding Date.to_string
to_string-no_t d =
    any-append b'T' (pad4 d.year) _ (pad4-no_t d.year)
      (any-append b'T' (dashed d.month) _ (dashed-no_t d.month) (dashed-no_t d.day))

pad2-no_colon : (n : ℕ) → any (λ c. c == b':') (pad2 n) ≡ false
pad2-no_colon n = ground arith

abbrev written : Option ℕ → List Text → List Text
written none rest = rest
written (some n) rest = pad2 n ∷ rest

split_on-Clock :
    (hour : ℕ) (minute second : Option ℕ)
    → Clock minute second
    → split_on b':' (pad2 hour ++ (colon minute ++ colon second))
      ≡ pad2 hour ∷ written minute (written second [])
split_on-Clock hour none none h =
    rw (append-nil (pad2 hour)) (split_on-whole b':' (pad2 hour) (pad2-no_colon hour))
split_on-Clock hour none (some s) h = elim h [ ]
split_on-Clock hour (some m) none h =
    split_on-append b':' (pad2 hour) (pad2 m ++ []) (pad2-no_colon hour)
    ∙ ap (λ (l : List Text). pad2 hour ∷ l)
        (rw (append-nil (pad2 m)) (split_on-whole b':' (pad2 m) (pad2-no_colon m)))
split_on-Clock hour (some m) (some s) h =
    split_on-append b':' (pad2 hour) (pad2 m ++ b':' ∷ pad2 s) (pad2-no_colon hour)
    ∙ ap (λ (l : List Text). pad2 hour ∷ l)
        (split_on-append b':' (pad2 m) (pad2 s) (pad2-no_colon m)
          ∙ ap (λ (l : List Text). pad2 m ∷ l) (split_on-whole b':' (pad2 s) (pad2-no_colon s)))

parse_time-written :
    (date : CivilDate) (hour : ℕ) (minute second : Option ℕ) (zone : Zone)
    → Date.precision date ≡ Precision.day
    → hour ≤ 23
    → Clock minute second
    → parse_time date (pad2 hour ∷ written minute (written second [])) zone
      ≡ ok (record { date = date; hour = hour; minute = minute; second = second; zone = zone })
unfolding parse_time optional_digits build narrow
parse_time-written date hour none none zone p h c =
    rw (digits-pad2 "local" hour (omega arith)) (ground arith)
parse_time-written date hour none (some s) zone p h c = elim c [ ]
parse_time-written date hour (some m) none zone p h c =
    rw (digits-pad2 "local" hour (omega arith), digits-pad2 "local" m (omega arith)) (ground arith)
parse_time-written date hour (some m) (some s) zone p h c =
    rw
      (
        digits-pad2 "local" hour (omega arith),
        digits-pad2 "local" m (omega arith),
        digits-pad2 "local" s (omega arith),
      )
      (ground arith)

-- A time that is valid, at any of its precisions and in any zone, is read back from the text that
-- it is written to and its zone.
pub parse-local : (t : ZonedTime) → IsTime t → parse (local t) t.zone ≡ ok t
unfolding parse local
parse-local t v =
    rw
      (
        split_once-append b'T' (Date.to_string t.date)
            (pad2 t.hour ++ (colon t.minute ++ colon t.second)) (to_string-no_t t.date),
        parse-to_string t.date v.date_valid,
        split_on-Clock t.hour t.minute t.second v.clock,
      )
      (parse_time-written t.date t.hour t.minute t.second t.zone v.is_day v.hour_fits v.clock)

-- What is built from a valid date is a valid time: a date of the precision of a day, an hour below 24,
-- a minute and a second below 60, and a second only beside a minute.
pub build-IsTime :
    (date : CivilDate) (hour : ℕ) (minute second : Option ℕ) (zone : Zone) {t : ZonedTime}
    → IsDate date
    → build date hour minute second zone ≡ ok t
    → IsTime t
unfolding build
build-IsTime date hour none none zone d h = record {
  date_valid = ground arith;
  is_day = ground arith;
  hour_fits = ground arith;
  clock = ground arith;
}
build-IsTime date hour none (some s) zone d h = absurd (ground arith)
build-IsTime date hour (some m) none zone d h = record {
  date_valid = ground arith;
  is_day = ground arith;
  hour_fits = ground arith;
  clock = ground arith;
}
build-IsTime date hour (some m) (some s) zone d h = record {
  date_valid = ground arith;
  is_day = ground arith;
  hour_fits = ground arith;
  clock = ground arith;
}

-- A zone's offset is at most eighteen hours either way.
abbrev pub IsZone : Zone → Type 0
IsZone (iana name) = Unit
IsZone (offset seconds) = abs_ℤ seconds ≤ max_offset_seconds
IsZone floating = Unit

-- A zone is read back from its form on the wire exactly when it is no offset of more than eighteen
-- hours.
pub zone_of_raw-raw_of_zone : (z : Zone) → (zone_of_raw (raw_of_zone z) ≡ ok z) ↔ IsZone z
unfolding zone_of_raw raw_of_zone new_offset
zone_of_raw-raw_of_zone (iana name) = ((λ h. tt), (λ h. refl))
zone_of_raw-raw_of_zone (offset s) = ((λ h. ground arith), (λ h. ground arith))
zone_of_raw-raw_of_zone floating = ((λ h. tt), (λ h. refl))
