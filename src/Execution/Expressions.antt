-- ===== src/Execution/Expressions.antt =====
-- The filter expressions of execution/expressions/FilterExpressions.h: they name columns, and make a
-- filter function for the columns of a schema. The template argument `ValueType` of a comparison of
-- numbers is the type of the columns whose values are of that C++ type, `int32` for `int32_t`.
use columnar_engine.Base.{
  ℕ, Bool, true, false, List, [], ◌∷◌, ◌++◌, ◌==◌, Result, ok, err, out_of_bounds, ◌>>=◌, ◌>>◌,
  guard, not_implemented,
}
use columnar_engine.Base.Words.{Bytes}
use columnar_engine.Types.ColumnTypes.{
  ColumnType, int32, int64, date, timestamp, unnamed, type_code, is_string,
}
use columnar_engine.Columns.Schema.{Schema, schema_type_by_name, schema_index_by_name}
use columnar_engine.Strings.Table.{init}
use columnar_engine.Execution.Filters.{
  Comparison, FilterFunction, compare_word, compare_text, like, not_like, and_filter, or_filter,
}

pub data FilterExpression : Type 0 where
  compare_number : Comparison → Bytes → ColumnType → ℕ → FilterExpression
  compare_string : Comparison → Bytes → Bytes → FilterExpression
  like_expression : Bytes → Bytes → FilterExpression
  not_like_expression : Bytes → Bytes → FilterExpression
  and_expression : FilterExpression → FilterExpression → FilterExpression
  or_expression : FilterExpression → FilterExpression → FilterExpression

-- The constructors of `LikeExpression` and `NotLikeExpression`: the first character and the last one
-- come off the pattern.
unfoldable pub inner_pattern : Bytes → Result Bytes
inner_pattern [] = err out_of_bounds
inner_pattern (c ∷ cs) = init cs

unfoldable pub make_like : Bytes → Bytes → Result FilterExpression
make_like column_name value = do
  pattern ← inner_pattern value
  ok (like_expression column_name pattern)

unfoldable pub make_not_like : Bytes → Bytes → Result FilterExpression
make_not_like column_name value = do
  pattern ← inner_pattern value
  ok (not_like_expression column_name pattern)

-- A column name that is not empty is added to the list.
unfoldable pub require_column : Bytes → List Bytes → List Bytes
require_column [] required = required
require_column (c ∷ cs) required = required ++ (c ∷ cs) ∷ []

unfoldable pub collect_required_columns : FilterExpression → List Bytes → List Bytes
collect_required_columns (compare_number c name t value) required = require_column name required
collect_required_columns (compare_string c name value) required = require_column name required
collect_required_columns (like_expression name value) required = require_column name required
collect_required_columns (not_like_expression name value) required = require_column name required
collect_required_columns (and_expression left right) required =
    collect_required_columns right (collect_required_columns left required)
collect_required_columns (or_expression left right) required =
    collect_required_columns right (collect_required_columns left required)

-- `ColumnClass::ValueType`, as the type whose values it is.
unfoldable pub value_type : ColumnType → ColumnType
value_type date = int32
value_type timestamp = int64
value_type t = t

-- `AggExpHelper::DispatchAll` has no case for a type without a name.
unfoldable pub is_dispatched : ColumnType → Bool
is_dispatched (unnamed n) = false
is_dispatched t = true

unfoldable pub same_type : ColumnType → ColumnType → Bool
same_type a b = type_code a == type_code b

unfoldable pub create_filter_function : FilterExpression → Schema → Result FilterFunction
create_filter_function (compare_number c column_name t value) schema = do
  ind ← schema_index_by_name schema column_name
  column_type ← schema_type_by_name schema column_name
  guard (is_dispatched column_type) not_implemented
  guard (same_type (value_type column_type) t) not_implemented
  ok (compare_word c column_type ind value)
create_filter_function (compare_string c column_name value) schema = do
  ind ← schema_index_by_name schema column_name
  column_type ← schema_type_by_name schema column_name
  guard (is_string column_type) not_implemented
  ok (compare_text c ind value)
create_filter_function (like_expression column_name value) schema = do
  ind ← schema_index_by_name schema column_name
  column_type ← schema_type_by_name schema column_name
  guard (is_string column_type) not_implemented
  ok (like ind value)
create_filter_function (not_like_expression column_name value) schema = do
  ind ← schema_index_by_name schema column_name
  column_type ← schema_type_by_name schema column_name
  guard (is_string column_type) not_implemented
  ok (not_like ind value)
create_filter_function (and_expression left right) schema = do
  l ← create_filter_function left schema
  r ← create_filter_function right schema
  ok (and_filter l r)
create_filter_function (or_expression left right) schema = do
  l ← create_filter_function left schema
  r ← create_filter_function right schema
  ok (or_filter l r)
