-- ===== src/Types/Time.antt =====
-- crates/aicortex-types/src/claim_time.rs: time as a claim states it. Dates, zones, zoned times and
-- intervals are in the children.
pub mod Digits
pub mod Precision
pub mod Date
pub mod Zoned
pub mod Wire
pub mod Interval
