-- ===== src/Types/Time/Precision.antt =====
-- The closed vocabularies of crates/aicortex-types/src/claim_time.rs.
pub data Precision : Type 0 where
  year month day hour minute second : Precision

pub data ZoneForm : Type 0 where
  iana offset floating : ZoneForm

pub data PointKind : Type 0 where
  date date_time : PointKind

pub data BoundKind : Type 0 where
  open_end inclusive exclusive : BoundKind
