-- ===== src/Types/Tests.antt =====
-- Truncation of time stamps around 1970.
use columnar_engine.Base.{ℕ, ◌<◌, ◌≡◌, ℤ, pos, negsuc, ◌+ℤ◌, ◌*ℤ◌, arith}
use columnar_engine.Types.TimeUnits.{hour, month, year}
use columnar_engine.Types.Dates.{truncate_date}
use columnar_engine.Types.Timestamps.{truncate_timestamp}
use columnar_engine.Types.Truncation.{
  truncate_date-year_1970, of_hour, truncate_timestamp_lem, truncate_timestamp-last_day,
}

truncate_timestamp_lem_example :
    (count : ℤ) × (rest : ℕ) × (truncate_timestamp (negsuc 0) hour ≡ count *ℤ 3600)
    × (negsuc 0 ≡ truncate_timestamp (negsuc 0) hour +ℤ pos rest)
    × (rest < 3600)
truncate_timestamp_lem_example = truncate_timestamp_lem (negsuc 0) of_hour

truncate_timestamp-last_day_example : truncate_timestamp (negsuc 0) month ≡ pos 0
truncate_timestamp-last_day_example = truncate_timestamp-last_day 0 (omega arith)

truncate_date-year_1970_example : truncate_date (pos 100) year ≡ pos 365
truncate_date-year_1970_example = truncate_date-year_1970 100 (omega arith)
