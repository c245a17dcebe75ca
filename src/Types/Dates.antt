-- ===== src/Types/Dates.antt =====
-- types/Date.h. A date is its number of days from 1970-01-01. Days and years stay within the range of
-- `int32_t`, where no operation below overflows; the numbers that the source keeps `unsigned` are
-- natural numbers, none of which wraps, since a difference is taken from the larger side.
use columnar_engine.Base.{
  ℕ, ◌+◌, ◌-◌, ◌*◌, ◌/◌, ltb, leb, if◌then◌else◌, ℤ, pos, ◌+ℤ◌, ◌-ℤ◌, ◌*ℤ◌, quot, ltb_ℤ, pos_part,
}
use columnar_engine.Types.TimeUnits.{TimeUnitType, year, month}

-- The division of the source that rounds down: `(n >= 0 ? n : n - (d - 1)) / d`.
unfoldable pub era_of : ℤ → ℕ → ℤ
era_of n d = quot (if ltb_ℤ n (pos 0) then n -ℤ pos (d - 1) else n) d

-- A year, a month and a day of the month.
pub record CivilDate : Type 0 where
  pub civil_year : ℤ
  pub civil_month : ℕ
  pub civil_day : ℕ

-- The first half of `Format` and of `Truncate`.
unfoldable pub year_of_era : ℕ → ℕ
year_of_era doe = (doe + doe / 36524 - (doe / 1460 + doe / 146096)) / 365

unfoldable pub days_before_year : ℕ → ℕ
days_before_year yoe = 365 * yoe + yoe / 4 - yoe / 100

unfoldable pub civil_from_days : ℤ → CivilDate
civil_from_days total_days =
    let days = total_days +ℤ pos 719468 in
    let era = era_of days 146097 in
    let doe = pos_part (days -ℤ era *ℤ 146097) in
    let yoe = year_of_era doe in
    let doy = doe - days_before_year yoe in
    let mp = (5 * doy + 2) / 153 in
    let d = doy + 1 - (153 * mp + 2) / 5 in
    let m = if ltb mp 10 then mp + 3 else mp - 9 in
    record {
      civil_year = (pos yoe +ℤ era *ℤ 400) +ℤ pos (if leb m 2 then 1 else 0);
      civil_month = m;
      civil_day = d;
    }

-- `Truncate`
unfoldable pub truncate_date : ℤ → TimeUnitType → ℤ
truncate_date total_days month = (total_days -ℤ pos (civil_from_days total_days).civil_day) +ℤ pos 1
truncate_date total_days year =
    let y = (civil_from_days total_days).civil_year in
    let e = era_of y 400 in
    let ye = pos_part (y -ℤ e *ℤ 400) in
    let de = ye * 365 + ye / 4 - ye / 100 + 306 in (e *ℤ 146097 +ℤ pos de) -ℤ pos 719468
truncate_date total_days unit = total_days
