-- ===== src/Columns/Values.antt =====
-- `FromString` of the column builders (column/NumericColumn.h), with `Parse` of the dates: the text of
-- a value becomes its bit pattern. `std::from_chars` is that of the standard: an optional minus sign
-- and digits, which have to be all of the text here, and a value in the range of the type. The
-- conversions of floating-point values (`std::stof` and its kin) are the parameter `parse_float`.
use columnar_engine.Base.{
  ℕ, ◌+◌, ◌-◌, ◌*◌, ◌/◌, ◌%◌, ◌^◌, Bool, true, false, ◌&&◌, [], ◌∷◌, ltb, leb, ◌==◌, if◌then◌else◌,
  ℤ, pos, negsuc, Result, ok, err, ◌>>=◌, ◌>>◌, guard, invalid_value, overflow, out_of_bounds,
  unknown_column_type, condition_not_satisfied,
}
use columnar_engine.Base.Words.{Bytes}
use columnar_engine.Types.ColumnTypes.{
  ColumnType, int16, int32, int64, int128, float32, float64, long_double, char, string, date,
  timestamp, unnamed,
}
use columnar_engine.Types.Parsing.{parse_date, parse_timestamp}

abbrev pub is_digit : ℕ → Bool
is_digit c = leb b'0' c && leb c b'9'

-- The decimal value of digits, behind the value of those before them.
unfoldable pub read_digits : ℕ → Bytes → Result ℕ
read_digits acc [] = ok acc
read_digits acc (c ∷ cs) = do
  guard (is_digit c) invalid_value
  read_digits (acc * 10 + (c - b'0')) cs

unfoldable pub read_number : Bytes → Result ℕ
read_number [] = err invalid_value
read_number (c ∷ cs) = read_digits 0 (c ∷ cs)

-- The `w` bytes of an integer, in two's complement.
unfoldable pub to_word : ℕ → ℤ → ℕ
to_word w (pos n) = n % 256 ^ w
to_word w (negsuc n) = 256 ^ w - 1 - n % 256 ^ w

-- A value of magnitude `n` in a signed integer of `w` bytes.
unfoldable pub signed_word : ℕ → Bool → ℕ → Result ℕ
signed_word w negative n =
    if negative
    then (do guard (leb n (256 ^ w / 2)) invalid_value; ok ((256 ^ w - n) % 256 ^ w))
    else (do guard (ltb n (256 ^ w / 2)) invalid_value; ok n)

-- `FromString` of the integers that `std::from_chars` reads.
unfoldable pub int_from_string : ℕ → Bytes → Result ℕ
int_from_string w [] = err invalid_value
int_from_string w (c ∷ cs) =
    if c == b'-'
    then (read_number cs >>= λ n. signed_word w true n)
    else (read_number (c ∷ cs) >>= λ n. signed_word w false n)

-- The loop of `ColumnTypeTraits<Int128>::FromString`. A value past the range is undefined in the
-- source, and an error here.
unfoldable pub read_int128 : ℕ → Bytes → Result ℕ
read_int128 acc [] = ok acc
read_int128 acc (c ∷ cs) = do
  guard (is_digit c) invalid_value
  guard (ltb (acc * 10 + (c - b'0')) (2 ^ 127)) overflow
  read_int128 (acc * 10 + (c - b'0')) cs

unfoldable pub int128_from_string : Bytes → Result ℕ
int128_from_string [] = err out_of_bounds
int128_from_string (c ∷ cs) =
    if c == b'-'
    then (read_int128 0 cs >>= λ n. ok ((2 ^ 128 - n) % 2 ^ 128))
    else read_int128 0 (c ∷ cs)

-- `ASSERT(val.size() == 1); val[0]`
unfoldable pub char_from_string : Bytes → Result ℕ
char_from_string (c ∷ []) = ok c
char_from_string _ = err condition_not_satisfied

module _ (parse_float : ColumnType → Bytes → Result ℕ) where
  -- What the builder of a type adds for a text. A builder of strings adds the text itself.
  unfoldable pub from_string : ColumnType → Bytes → Result ℕ
  from_string int16 value = int_from_string 2 value
  from_string int32 value = int_from_string 4 value
  from_string int64 value = int_from_string 8 value
  from_string int128 value = int128_from_string value
  from_string float32 value = parse_float float32 value
  from_string float64 value = parse_float float64 value
  from_string long_double value = parse_float long_double value
  from_string char value = char_from_string value
  from_string date value = do days ← parse_date value; ok (to_word 4 days)
  from_string timestamp value = do seconds ← parse_timestamp value; ok (to_word 8 seconds)
  from_string string value = err unknown_column_type
  from_string (unnamed n) value = err unknown_column_type
