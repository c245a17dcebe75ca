-- ===== src/Columns/Column.antt =====
-- column/Column.h and its subclasses in NumericColumn.h, CharColumn.h, TemporalColumn.h and
-- StringColumn.h. A column of one of the fixed-size types is its type and the bit patterns of its
-- values, so that a `double` is its eight bytes; a column of strings holds a `VectorOfStrings`.
use columnar_engine.Base.{ℕ, List, [], length, Result, ok, err, wrong_column_type}
use columnar_engine.Strings.Flat.{VectorOfStrings, size, clear}
use columnar_engine.Types.ColumnTypes.{ColumnType, string}

pub data Column : Type 0 where
  fixed : ColumnType → List ℕ → Column
  strings : VectorOfStrings → Column

unfoldable pub get_type : Column → ColumnType
get_type (fixed t words) = t
get_type (strings v) = string

unfoldable pub column_size : Column → ℕ
unfolding size
column_size (fixed t words) = length words
column_size (strings v) = size v

unfoldable pub clear_column : Column → Column
clear_column (fixed t words) = fixed t []
clear_column (strings v) = strings (clear v)

-- The data behind `GetRawData`, cast to the container of the class. A cast to the container of
-- another class is undefined in the source, and refused here.
unfoldable pub string_data : Column → Result VectorOfStrings
string_data (fixed t words) = err wrong_column_type
string_data (strings v) = ok v

unfoldable pub fixed_data : Column → Result (List ℕ)
fixed_data (fixed t words) = ok words
fixed_data (strings v) = err wrong_column_type
