-- ===== src/Types/Parsing.antt =====
-- Parse and Format of types/Date.h and types/Timestamp.h. The source does not check that the
-- characters of a field are digits: a `char` is a signed byte, and what it stands for is computed
-- from it all the same. Sums that the source keeps `unsigned` are cast back to `int32_t`, so that they
-- are the integers below; none of them leaves the range of `int32_t` for texts of ten bytes.
use columnar_engine.Base.{
  ℕ, zero, suc, ◌+◌, ◌-◌, ◌*◌, ◌/◌, ◌%◌, Bool, ◌&&◌, [], ◌∷◌, ◌++◌, ltb, ◌==◌, if◌then◌else◌, ℤ,
  pos, ◌+ℤ◌, ◌-ℤ◌, ◌*ℤ◌, quot, rem, ltb_ℤ, pos_part, length, get_or, Result, ok, ◌>>◌, guard,
  invalid_date,
}
use columnar_engine.Base.Words.{Bytes}
use columnar_engine.Types.Dates.{era_of, CivilDate, civil_from_days}
use columnar_engine.Types.Timestamps.{seconds_in_day}

-- `unit[i]`, and `unit[i] - '0'`.
abbrev pub char_at : Bytes → ℕ → ℕ
char_at unit i = get_or unit i 0

unfoldable pub digit_at : Bytes → ℕ → ℤ
digit_at unit i =
    let c = char_at unit i in (if ltb c 128 then pos c else pos c -ℤ pos 256) -ℤ pos 48

unfoldable pub year_at : Bytes → ℤ
unfolding digit_at
year_at unit =
    ((digit_at unit 0 *ℤ 1000 +ℤ digit_at unit 1 *ℤ 100) +ℤ digit_at unit 2 *ℤ 10)
    +ℤ digit_at unit 3

-- Two digits from `i` on.
unfoldable pub two_at : Bytes → ℕ → ℤ
unfolding digit_at
two_at unit i = digit_at unit i *ℤ 10 +ℤ digit_at unit (i + 1)

-- The second half of `Parse`.
unfoldable pub day_of_year : ℤ → ℤ → ℤ
day_of_year month day =
    let shifted = if ltb_ℤ (pos 2) month then month -ℤ pos 3 else month +ℤ pos 9 in
    (quot (shifted *ℤ 153 +ℤ pos 2) 5 +ℤ day) -ℤ pos 1

unfoldable pub days_from_civil : ℤ → ℤ → ℤ → ℤ
days_from_civil civil_year month day =
    let year' = if ltb_ℤ (pos 2) month then civil_year else civil_year -ℤ pos 1 in
    let era = era_of year' 400 in
    let yoe = pos_part (year' -ℤ era *ℤ 400) in
    let doe = pos (yoe * 365 + yoe / 4 - yoe / 100) +ℤ day_of_year month day in
    (era *ℤ 146097 +ℤ doe) -ℤ pos 719468

unfoldable pub is_date_text : Bytes → Bool
is_date_text unit = char_at unit 4 == b'-' && char_at unit 7 == b'-'

unfoldable pub parse_date : Bytes → Result ℤ
unfolding is_date_text
parse_date unit = do
  guard (length unit == 10 && is_date_text unit) invalid_date
  ok (days_from_civil (year_at unit) (two_at unit 5) (two_at unit 8))

unfoldable pub parse_timestamp : Bytes → Result ℤ
unfolding is_date_text
parse_timestamp unit = do
  guard
      (length unit == 19
        && is_date_text unit
        && char_at unit 10 == b' '
        && char_at unit 13 == b':'
        && char_at unit 16 == b':')
      invalid_date
  let days = days_from_civil (year_at unit) (two_at unit 5) (two_at unit 8)
  let seconds = (two_at unit 11 *ℤ 3600 +ℤ two_at unit 14 *ℤ 60) +ℤ two_at unit 17
  ok (days *ℤ 86400 +ℤ seconds)

-- `write_digit`: the last `len` decimal digits of a value, the highest first. The digits of a
-- negative value are negative.
unfoldable pub write_digits : ℤ → ℕ → Bytes
write_digits val zero = []
write_digits val (suc len) = write_digits (quot val 10) len ++ pos_part (rem val 10 +ℤ pos 48) ∷ []

unfoldable pub format_civil : CivilDate → Bytes
format_civil date =
    write_digits date.civil_year 4
    ++ (b'-'
        ∷ (write_digits (pos date.civil_month) 2 ++ (b'-' ∷ write_digits (pos date.civil_day) 2)))

unfoldable pub format_date : ℤ → Bytes
format_date days = format_civil (civil_from_days days)

-- The days of a time stamp, rounded down.
unfoldable pub days_of : ℤ → ℤ
days_of total_seconds =
    if ltb_ℤ (rem total_seconds 86400) (pos 0)
    then quot total_seconds 86400 -ℤ pos 1
    else quot total_seconds 86400

-- `write_digit` of `Timestamp::Format`, which writes two digits.
unfoldable pub write_two : ℕ → Bytes
write_two val = (val / 10 + 48) ∷ (val % 10 + 48) ∷ []

unfoldable pub format_timestamp : ℤ → Bytes
format_timestamp total_seconds =
    let seconds = seconds_in_day total_seconds in
    format_date (days_of total_seconds)
    ++ (b' '
        ∷ (write_two (seconds / 3600)
            ++ (b':' ∷ (write_two (seconds % 3600 / 60) ++ (b':' ∷ write_two (seconds % 60))))))
