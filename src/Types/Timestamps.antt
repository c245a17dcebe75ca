-- ===== src/Types/Timestamps.antt =====
-- types/Timestamp.h. A time stamp is its number of seconds from 1970-01-01, within the range of
-- `int64_t`; its number of days fits `int32_t`.
use columnar_engine.Base.{
  ℕ, ◌/◌, ◌%◌, if◌then◌else◌, ℤ, pos, ◌+ℤ◌, ◌-ℤ◌, ◌*ℤ◌, quot, rem, ltb_ℤ, pos_part,
}
use columnar_engine.Types.TimeUnits.{TimeUnitType, year, month, day, hour, minute, second}
use columnar_engine.Types.Dates.{truncate_date}

-- `seconds_in_day` of every member: the remainder, made positive.
unfoldable pub seconds_in_day : ℤ → ℕ
seconds_in_day total_seconds =
    let rest = rem total_seconds 86400 in
    pos_part (if ltb_ℤ rest (pos 0) then rest +ℤ pos 86400 else rest)

unfoldable pub extract_minute : ℤ → ℕ
extract_minute total_seconds = (seconds_in_day total_seconds % 3600) / 60

unfoldable pub truncate_timestamp : ℤ → TimeUnitType → ℤ
truncate_timestamp total_seconds minute = total_seconds -ℤ pos (seconds_in_day total_seconds % 60)
truncate_timestamp total_seconds hour = total_seconds -ℤ pos (seconds_in_day total_seconds % 3600)
truncate_timestamp total_seconds day = total_seconds -ℤ pos (seconds_in_day total_seconds)
truncate_timestamp total_seconds month = truncate_date (quot total_seconds 86400) month *ℤ 86400
truncate_timestamp total_seconds year = truncate_date (quot total_seconds 86400) year *ℤ 86400
truncate_timestamp total_seconds second = total_seconds
