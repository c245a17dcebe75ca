-- ===== src/Types.antt =====
-- types/: the column types, time units, dates and timestamps.
pub mod ColumnTypes
pub mod TimeUnits
pub mod Dates
pub mod Timestamps
pub mod Parsing
pub mod Truncation
mod Tests
