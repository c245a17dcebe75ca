-- ===== src/Execution/AggregationSink.antt =====
-- `AggregationSinkSourceOperator` of execution/OperatorsBase.cpp.
use columnar_engine.Base.{
  Bool, true, Option, none, some, List, [], ◌∷◌, ℕ, if◌then◌else◌, Result, ok, ◌>>=◌,
}
use columnar_engine.Columns.Column.{Column}
use columnar_engine.Execution.Batch.{RecordBatch}

-- `GlobalAggregationFunction`, with the state of an object of it.
pub record GlobalFunction (F : Type 0) : Type 0 where
  pub update_global : F → RecordBatch → ℕ → Result F
  pub finalize_global : F → Result Column

pub record AggregationOperator (F : Type 0) : Type 0 where
  pub aggregation_functions : List F
  pub result : Option RecordBatch
  pub is_emitted : Bool

module _ {F : Type 0} (class : GlobalFunction F) where
  unfoldable pub update_all : List F → RecordBatch → ℕ → Result (List F)
  update_all [] batch thread_id = ok []
  update_all (func ∷ funcs) batch thread_id = do
    next ← class.update_global func batch thread_id
    rest ← update_all funcs batch thread_id
    ok (next ∷ rest)

  unfoldable pub sink_aggregation :
      AggregationOperator F → RecordBatch → ℕ → Result (AggregationOperator F)
  sink_aggregation op batch thread_id = do
    funcs ← update_all op.aggregation_functions batch thread_id
    ok (record op { aggregation_functions = funcs })

  unfoldable pub finalize_all : List F → Result (List Column)
  finalize_all [] = ok []
  finalize_all (func ∷ funcs) = do
    column ← class.finalize_global func
    rest ← finalize_all funcs
    ok (column ∷ rest)

  unfoldable pub finalize_aggregation : AggregationOperator F → Result (AggregationOperator F)
  finalize_aggregation op = do
    columns ← finalize_all op.aggregation_functions
    ok (record op {
      result = some (record { num_rows = 1; selection_vector = none; columns = columns });
    })

-- `GetData`: the result, once.
unfoldable pub aggregation_data :
    {F : Type 0} → AggregationOperator F → AggregationOperator F × Option RecordBatch
aggregation_data op =
    if op.is_emitted
    then (op, none)
    else (record op { is_emitted = true; result = none }, op.result)
