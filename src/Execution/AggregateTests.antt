-- ===== src/Execution/AggregateTests.antt =====
-- Aggregations of the integers of three batches on two threads.
use columnar_engine.Base.{
  ℕ, ◌≡◌, refl, List, [], ◌∷◌, arith, Result, ok, ◌>>=◌, at, ℤ, pos, negsuc, ltb_ℤ, ◌+ℤ◌, int_laws,
  length, none, eq_of_parts, if◌then◌else◌, ltb, ◌-◌, ◌^◌, ◌>>=◌,
}
use columnar_engine.Types.ColumnTypes.{int32, type_code}
use columnar_engine.Columns.Column.{fixed, get_type, fixed_data}
use columnar_engine.Execution.Batch.{
  RecordBatch, real_index, words_of, iterate_column_data, iterate_from,
}
use columnar_engine.Execution.Aggregates.{
  Aggregate, Operation, sum_operation, max_operation, TypedState, apply, typed_aggregate,
  make_threads, global_result,
}
use columnar_engine.Execution.Aggregated.{Sunk, run_updates, global_result-run_updates}
use columnar_engine.Execution.Combined.{Combines, typed_aggregate-Specifies}
use columnar_engine.Execution.Extremes.{IsGreatest, global_result-IsGreatest}

pub ℤ_Combines : Combines ltb_ℤ ◌+ℤ◌
ℤ_Combines = record {
  ordered = record {
    less_irrefl = λ a. ground arith;
    less_trans = λ a b c ab bc. ground arith;
    less_total = λ a b ab ba. eq_of_parts a b (ground arith);
  };
  add_assoc = λ a b c. omega int_laws;
  add_comm = λ a b. omega int_laws;
}

abbrev batch_of : List ℕ → RecordBatch
batch_of words = record {
  num_rows = length words;
  selection_vector = none;
  columns = fixed int32 words ∷ [];
}

-- The values of the first column, a 32-bit integer each.
abbrev get : RecordBatch → ℕ → Result ℤ
get batch i = do
  column ← at batch.columns 0
  words ← words_of int32 column
  w ← at words i
  ok (if ltb w (2 ^ 31) then pos w else negsuc (2 ^ 32 - 1 - w))

abbrev calls : List (ℕ × RecordBatch)
calls = (1, batch_of (5 ∷ 4294967294 ∷ [])) ∷ (0, batch_of (7 ∷ [])) ∷ []

calls-Sunk : Sunk get 2 calls (pos 5 ∷ negsuc 1 ∷ pos 7 ∷ [])
unfolding words_of type_code get_type fixed_data iterate_column_data iterate_from real_index
calls-Sunk =
    Sunk.call ((pos 5, 0, 0) ∷ (negsuc 1, 1, 1) ∷ []) (omega arith) refl
      (Sunk.call ((pos 7, 0, 0) ∷ []) (omega arith) refl Sunk.no_call)

abbrev agg : Operation → Aggregate ℤ (TypedState ℤ) ℤ
agg op = typed_aggregate ltb_ℤ ◌+ℤ◌ (pos 0) op

global_result-run_updates_example :
    (states : List (TypedState ℤ)) × (run_updates
        (agg sum_operation)
        get
        (make_threads (agg sum_operation) 2)
        calls
      ≡ ok states)
    × (global_result (agg sum_operation) states ≡ pos 10)
unfolding apply ◌+ℤ◌
global_result-run_updates_example =
    global_result-run_updates (typed_aggregate-Specifies ℤ_Combines (pos 0) sum_operation) get 2
      calls-Sunk

global_result-IsGreatest_example :
    (states : List (TypedState ℤ)) × (run_updates
        (agg max_operation)
        get
        (make_threads (agg max_operation) 2)
        calls
      ≡ ok states)
    × IsGreatest ltb_ℤ (global_result (agg max_operation) states) (pos 5 ∷ negsuc 1 ∷ pos 7 ∷ [])
global_result-IsGreatest_example = global_result-IsGreatest ℤ_Combines (pos 0) get 2 calls-Sunk
