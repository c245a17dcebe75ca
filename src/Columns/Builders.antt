-- ===== src/Columns/Builders.antt =====
-- The column builders of column/NumericColumn.h, CharColumn.h, TemporalColumn.h and StringColumn.h,
-- and column/ColumnFactory.h. A builder is the column that it has built so far; reserved capacity is
-- left out.
use columnar_engine.Base.{
  ℕ, zero, suc, none, some, List, [], ◌∷◌, ◌++◌, if◌then◌else◌, Result, ok, err, ◌>>=◌,
  unknown_column_type,
}
use columnar_engine.Base.Words.{Bytes}
use columnar_engine.Strings.Flat.{empty, push_back}
use columnar_engine.Strings.Table.{Table, get_string_2d, height}
use columnar_engine.Types.ColumnTypes.{ColumnType, elem_size, is_string}
use columnar_engine.Columns.Column.{Column, fixed, strings, clear_column}
use columnar_engine.Columns.Values.{from_string}

-- `MakeColumn` and `MakeColumnBuilder`.
unfoldable pub make_column : ColumnType → Result Column
make_column type =
    if is_string type
    then ok (strings empty)
    else (elim (elem_size type) [ some w ↦ ok (fixed type []) | none ↦ err unknown_column_type ])

unfoldable pub make_column_builders : List ColumnType → Result (List Column)
make_column_builders [] = ok []
make_column_builders (type ∷ types) = do
  builder ← make_column type
  rest ← make_column_builders types
  ok (builder ∷ rest)

-- The column, and the builder after it is moved out.
unfoldable pub finish_builder : Column → Column × Column
finish_builder builder = (builder, clear_column builder)

module _ (parse_float : ColumnType → Bytes → Result ℕ) where
  -- `data_.push_back` of what a text stands for.
  unfoldable pub add_text : Column → Bytes → Result Column
  add_text (fixed type words) value = do
    word ← from_string parse_float type value
    ok (fixed type (words ++ word ∷ []))
  add_text (strings v) value = ok (strings (push_back v value))

  -- The loop of `AddBatch` from row `i` on.
  unfoldable pub add_rows : Column → Table → ℕ → ℕ → ℕ → Result Column
  add_rows builder batch j i zero = ok builder
  add_rows builder batch j i (suc left) = do
    value ← get_string_2d batch i j
    next ← add_text builder value
    add_rows next batch j (suc i) left

  unfoldable pub add_batch : Column → Table → ℕ → Result Column
  add_batch builder batch j = add_rows builder batch j 0 (height batch)
