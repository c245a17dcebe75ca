-- ===== src/Execution/Batch.antt =====
-- `RecordBatch` of execution/Pipeline.h and `AggExpHelper::IterateColumnData` of
-- execution/expressions/AggExpHelper.h.
use columnar_engine.Base.{
  ℕ, zero, suc, Option, none, some, List, [], ◌∷◌, ◌==◌, Result, ok, ◌>>=◌, ◌>>◌, guard, at,
  wrong_column_type,
}
use columnar_engine.Types.ColumnTypes.{ColumnType, type_code}
use columnar_engine.Columns.Column.{Column, get_type, fixed_data}

-- Without a selection vector the rows of a batch are the first `num_rows` of its columns.
pub record RecordBatch : Type 0 where
  pub num_rows : ℕ
  pub selection_vector : Option (List ℕ)
  pub columns : List Column

-- `static_cast<const ColumnT*>(column)->GetData()` for the class of the type `t`.
unfoldable pub words_of : ColumnType → Column → Result (List ℕ)
words_of t c = do guard (type_code t == type_code (get_type c)) wrong_column_type; fixed_data c

-- The row that is number `i` of the batch.
unfoldable pub real_index : RecordBatch → ℕ → Result ℕ
real_index batch i = elim batch.selection_vector [ none ↦ ok i | some sel ↦ at sel i ]

-- The calls of `func(data[real], i, real)` that the loop makes from `i` on, with `left` to go: the
-- arguments of each.
unfoldable pub iterate_from {ℓ} :
    {A : Type ℓ} → RecordBatch → (ℕ → Result A) → ℕ → ℕ → Result (List (A × ℕ × ℕ))
iterate_from batch get i zero = ok []
iterate_from batch get i (suc left) = do
  real ← real_index batch i
  value ← get real
  rest ← iterate_from batch get (suc i) left
  ok ((value, i, real) ∷ rest)

unfoldable pub iterate_column_data {ℓ} :
    {A : Type ℓ} → RecordBatch → (ℕ → Result A) → Result (List (A × ℕ × ℕ))
iterate_column_data batch get = iterate_from batch get 0 batch.num_rows
