-- ===== src/Execution/Tests.antt =====
-- Runs of filters and transforms on a batch of three rows.
use columnar_engine.Base.{
  false, ℕ, ◌≡◌, refl, Bool, true, false, Option, none, List, [], ◌∷◌, arith, take, ok,
}
use columnar_engine.Types.ColumnTypes.{type_code, ColumnType, int32}
use columnar_engine.Columns.Column.{fixed, get_type, fixed_data}
use columnar_engine.Base.Words.{codes, bytes_eq}
use columnar_engine.Execution.Batch.{RecordBatch, real_index, words_of}
use columnar_engine.Execution.Filters.{
  FilterFunction, Comparison, greater, not_equal, compare_word, and_filter, evaluate,
}
use columnar_engine.Execution.Selection.{HasRows, keep}
use columnar_engine.Execution.Selected.{CanRead, HasWords, passes, evaluate-keep}
use columnar_engine.Execution.Operators.{LimitTransformOperator, execute_limit}
use columnar_engine.Columns.Schema.{
  Schema, schema_index_by_name, schema_type_by_name, index_of_name, type_of_name,
}
use columnar_engine.Execution.Expressions.{
  FilterExpression, compare_number, create_filter_function, same_type, value_type, is_dispatched,
}
use columnar_engine.Execution.Created.{Conforms, IsTyped, create_filter_function-CanRead}
use columnar_engine.Execution.Limit.{Passes, execute_limit-Passes}
use columnar_engine.Execution.Steps.{AllRows, total, limit_steps, limit_steps-total}

abbrev batch : RecordBatch
batch = record {
  num_rows = 3;
  selection_vector = none;
  columns = fixed int32 (5 ∷ 7 ∷ 9 ∷ []) ∷ [];
}

abbrev rows : List ℕ
rows = 0 ∷ 1 ∷ 2 ∷ []

batch-HasRows : HasRows batch rows
unfolding real_index
batch-HasRows = record {
  counted = refl;
  visits = (refl, (refl, (refl, tt)));
  increasing = ((omega arith, (omega arith, tt)), ((omega arith, tt), (tt, tt)));
}

abbrev no_floats : ColumnType → Comparison → ℕ → ℕ → Bool
no_floats t c a b = false

-- Values above 5 that are not 9.
abbrev filter : FilterFunction
filter = and_filter (compare_word greater int32 0 5) (compare_word not_equal int32 0 9)

words-HasWords : HasWords batch.columns int32 0 rows
unfolding words_of type_code get_type fixed_data
words-HasWords = (5 ∷ 7 ∷ 9 ∷ [], refl, ((5, refl), ((7, refl), ((9, refl), tt))))

evaluate-keep_example :
    evaluate no_floats filter batch ≡ ok (keep (passes no_floats filter batch.columns) rows)
evaluate-keep_example =
    evaluate-keep no_floats filter rows batch-HasRows (words-HasWords, words-HasWords)

abbrev greater_filter : FilterFunction
greater_filter = compare_word greater int32 0 5

abbrev chain : List FilterFunction
chain = greater_filter ∷ compare_word not_equal int32 0 9 ∷ []

abbrev limit : LimitTransformOperator
limit = record { limit = 5; cur_rows = 3; done = false }

execute_limit-Passes_example :
    (next : LimitTransformOperator) × (out : Option RecordBatch) × (execute_limit limit batch
      ≡ ok (next, out))
    × Passes out batch (take 2 rows)
    × (next.limit ≡ 5)
    × (next.cur_rows ≡ 6)
    × (next.done ≡ true)
execute_limit-Passes_example = execute_limit-Passes limit batch-HasRows (omega arith)

abbrev fresh : LimitTransformOperator
fresh = record { limit = 5; cur_rows = 0; done = false }

limit_steps-total_example :
    (last : LimitTransformOperator) × (outs : List RecordBatch) × (passed : List (List ℕ))
    × (limit_steps fresh (batch ∷ batch ∷ []) ≡ ok (last, outs))
    × AllRows outs passed
    × (total passed ≡ 5)
    × (last.cur_rows ≡ 6)
limit_steps-total_example =
    limit_steps-total fresh (batch ∷ batch ∷ []) (rows ∷ rows ∷ [])
      (batch-HasRows, (batch-HasRows, tt)) (omega arith)

abbrev schema : Schema
schema = record { fields = record { name = codes "age"; type_of = int32 } ∷ [] }

batch-Conforms : Conforms schema.fields rows batch.columns
batch-Conforms = ((refl, refl, ((5, refl), ((7, refl), ((9, refl), tt)))), tt)

abbrev adult : FilterExpression
adult = compare_number greater (codes "age") int32 5

adult-IsTyped : IsTyped adult
unfolding same_type type_code
adult-IsTyped = refl

adult_run : create_filter_function adult schema ≡ ok (compare_word greater int32 0 5)
unfolding create_filter_function schema_index_by_name schema_type_by_name index_of_name type_of_name
    same_type type_code value_type is_dispatched bytes_eq
adult_run = refl

create_filter_function-CanRead_example : CanRead (compare_word greater int32 0 5) batch.columns rows
create_filter_function-CanRead_example =
    create_filter_function-CanRead schema rows batch.columns adult batch-Conforms adult-IsTyped
      adult_run
