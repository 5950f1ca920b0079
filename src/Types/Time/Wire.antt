-- ===== src/Types/Time/Wire.antt =====
-- The serialized forms of dates, zoned times and uncertainties in
-- crates/aicortex-types/src/claim_time.rs, each with the checks that reading it repeats.
use aicortex.Prelude.{◌≡◌, refl, if◌then◌else◌, Result, ok, err, ◌>>=◌, ◌>>◌}
use aicortex.Prelude.Equal.{same, same_refl}
use Prim.Native.String.{String}
use aicortex.Text.{Text}
use aicortex.Types.Error.{TypeError, invalid}
use aicortex.Types.Time.Precision.{Precision}
use aicortex.Types.Time.Date
use aicortex.Types.Time.Date.{CivilDate, IsDate}
use aicortex.Types.Time.Date.Roundtrip.{parse-to_string}
use aicortex.Types.Time.Zoned
use aicortex.Types.Time.Zoned.{
  RawZone, raw_of_zone, zone_of_raw, ZonedTime, local, Uncertainty, new_uncertainty,
}
use aicortex.Types.Time.Zoned.Roundtrip.{IsTime, IsZone, parse-local, zone_of_raw-raw_of_zone}

unfoldable pub Precision-discrete : Discrete Precision
Precision-discrete = hlevel

-- `agree`: the precision that is declared is the one that the text is written at.
unfoldable pub agree : String → Precision → Precision → Result TypeError (Unit {0})
unfolding Precision-discrete
agree field stated declared =
    if same Precision-discrete stated declared then ok tt else err (invalid field)

pub record RawDate : Type 0 where
  pub on : Text
  pub precision : Precision

unfoldable pub raw_of_date : CivilDate → RawDate
raw_of_date d = record { on = Date.to_string d; precision = Date.precision d }

unfoldable pub date_of_raw : RawDate → Result TypeError CivilDate
unfolding agree
date_of_raw raw = do
  date ← Date.parse raw.on
  agree "precision" (Date.precision date) raw.precision
  ok date

pub record RawZonedTime : Type 0 where
  pub local : Text
  pub precision : Precision
  pub zone : RawZone

unfoldable pub raw_of_time : ZonedTime → RawZonedTime
raw_of_time t = record {
  local = Zoned.local t;
  precision = Zoned.precision t;
  zone = raw_of_zone t.zone;
}

-- The zone is a field, which is read with the others before the text is.
unfoldable pub time_of_raw : RawZonedTime → Result TypeError ZonedTime
unfolding agree
time_of_raw raw = do
  zone ← zone_of_raw raw.zone
  time ← Zoned.parse raw.local zone
  agree "precision" (Zoned.precision time) raw.precision
  ok time

pub record RawUncertainty : Type 0 where
  pub earliest : RawZonedTime
  pub latest : RawZonedTime

unfoldable pub raw_of_uncertainty : Uncertainty → RawUncertainty
raw_of_uncertainty u = record { earliest = raw_of_time u.earliest; latest = raw_of_time u.latest }

unfoldable pub uncertainty_of_raw : RawUncertainty → Result TypeError Uncertainty
unfolding time_of_raw
uncertainty_of_raw raw = do
  earliest ← time_of_raw raw.earliest
  latest ← time_of_raw raw.latest
  new_uncertainty earliest latest

agree_refl : (field : String) (p : Precision) → agree field p p ≡ ok tt
unfolding agree
agree_refl field p = rw (same_refl Precision-discrete p) refl

pub date_of_raw-raw_of_date : (d : CivilDate) → IsDate d → date_of_raw (raw_of_date d) ≡ ok d
unfolding date_of_raw raw_of_date
date_of_raw-raw_of_date d v =
    rw (parse-to_string d v, agree_refl "precision" (Date.precision d)) refl

-- The time is valid, and so is its zone.
pub record IsZoned (t : ZonedTime) : Type 0 where
  pub is_time : IsTime t
  pub is_zone : IsZone t.zone

pub time_of_raw-raw_of_time : (t : ZonedTime) → IsZoned t → time_of_raw (raw_of_time t) ≡ ok t
unfolding time_of_raw raw_of_time
time_of_raw-raw_of_time t v =
    rw
      (
        (zone_of_raw-raw_of_zone t.zone).1 v.is_zone,
        parse-local t v.is_time,
        agree_refl "precision" (Zoned.precision t),
      )
      refl

-- Both ends are valid, and are in an order that the constructor takes.
pub record IsWindow (u : Uncertainty) : Type 0 where
  pub earliest_valid : IsZoned u.earliest
  pub latest_valid : IsZoned u.latest
  pub built : new_uncertainty u.earliest u.latest ≡ ok u

pub uncertainty_of_raw-raw_of_uncertainty :
    (u : Uncertainty) → IsWindow u → uncertainty_of_raw (raw_of_uncertainty u) ≡ ok u
unfolding uncertainty_of_raw raw_of_uncertainty
uncertainty_of_raw-raw_of_uncertainty u v =
    rw
      (
        time_of_raw-raw_of_time u.earliest v.earliest_valid,
        time_of_raw-raw_of_time u.latest v.latest_valid,
      )
      v.built
