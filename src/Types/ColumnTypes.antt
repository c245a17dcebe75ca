-- ===== src/Types/ColumnTypes.antt =====
-- types/ColumnType.h and the table of types in utils/Macro.h.
use columnar_engine.Base.{
  ℕ, ◌<◌, ◌≡◌, refl, ◌≢◌, Bool, true, false, Option, none, some, List, [], ◌∷◌, arith, ◌==◌,
  if◌then◌else◌,
}
use columnar_engine.Base.Words.{codes, Bytes}

-- `enum class ColumnType : uint8_t`. A cast of a byte may give a value that has no name.
pub data ColumnType : Type 0 where
  int16 int32 int64 int128 float32 float64 long_double char string date timestamp : ColumnType
  unnamed : ℕ → ColumnType

-- `static_cast<uint8_t>(type)`
unfoldable pub type_code : ColumnType → ℕ
type_code int16 = 0
type_code int32 = 1
type_code int64 = 2
type_code int128 = 3
type_code float32 = 4
type_code float64 = 5
type_code long_double = 6
type_code char = 7
type_code string = 8
type_code date = 9
type_code timestamp = 10
type_code (unnamed n) = n

-- `static_cast<ColumnType>(byte)`
unfoldable pub type_of_code : ℕ → ColumnType
type_of_code n =
    if n == 0
    then int16
    else if n == 1
    then int32
    else if n == 2
    then int64
    else if n == 3
    then int128
    else if n == 4
    then float32
    else if n == 5
    then float64
    else if n == 6
    then long_double
    else if n == 7
    then char
    else if n == 8
    then string
    else if n == 9
    then date
    else if n == 10
    then timestamp
    else unnamed n

-- `sizeof(CLASS_TYPE::ValueType)` for the classes of FOR_NUMERIC_COLUMN_TYPE; `none` in the
-- `default` case of its switches.
unfoldable pub elem_size : ColumnType → Option ℕ
elem_size int16 = some 2
elem_size int32 = some 4
elem_size int64 = some 8
elem_size int128 = some 16
elem_size float32 = some 4
elem_size float64 = some 8
elem_size long_double = some 16
elem_size char = some 1
elem_size date = some 4
elem_size timestamp = some 8
elem_size string = none
elem_size (unnamed n) = none

pub elem_size_pos : (t : ColumnType) {w : ℕ} → elem_size t ≡ some w → 0 < w
unfolding elem_size
elem_size_pos int16 e = ground arith
elem_size_pos _ e = ground arith

pub type_of_code-type_code :
    (t : ColumnType) → ((n : ℕ) → t ≢ unnamed n) → type_of_code (type_code t) ≡ t
unfolding type_code type_of_code
type_of_code-type_code int16 h = refl
type_of_code-type_code (unnamed n) h = absurd (h n refl)
type_of_code-type_code _ h = refl

pub type_code_lt : (t : ColumnType) → ((n : ℕ) → t ≢ unnamed n) → type_code t < 256
unfolding type_code
type_code_lt int16 h = omega arith
type_code_lt (unnamed n) h = absurd (h n refl)
type_code_lt _ h = omega arith

abbrev pub is_string : ColumnType → Bool
is_string string = true
is_string _ = false

-- `type_str == STR_VAL` for each type in the order of FOR_EACH_COLUMN_TYPE.
abbrev pub type_names : List (Bytes × ColumnType)
type_names =
    (codes "INT16", int16)
    ∷ (codes "INT32", int32)
    ∷ (codes "INT64", int64)
    ∷ (codes "INT128", int128)
    ∷ (codes "FLOAT", float32)
    ∷ (codes "DOUBLE", float64)
    ∷ (codes "LONGDOUBLE", long_double)
    ∷ (codes "CHAR", char)
    ∷ (codes "DATE", date)
    ∷ (codes "TIMESTAMP", timestamp)
    ∷ (codes "STRING", string)
    ∷ []
