-- ===== src/Types/TimeUnits.antt =====
-- types/TimeUnit.h.
use columnar_engine.Base.{if◌then◌else◌, Result, ok, err, unknown_time_unit}
use columnar_engine.Base.Words.{Bytes, bytes_eq, codes}

pub data TimeUnitType : Type 0 where
  year month day hour minute second : TimeUnitType

unfoldable pub parse_time_unit : Bytes → Result TimeUnitType
parse_time_unit unit_str =
    if bytes_eq unit_str (codes "year")
    then ok year
    else if bytes_eq unit_str (codes "month")
    then ok month
    else if bytes_eq unit_str (codes "day")
    then ok day
    else if bytes_eq unit_str (codes "hour")
    then ok hour
    else if bytes_eq unit_str (codes "minute")
    then ok minute
    else if bytes_eq unit_str (codes "second")
    then ok second
    else err unknown_time_unit
