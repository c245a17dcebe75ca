-- ===== src/Execution/Aggregates.antt =====
-- The states of the aggregation functions in execution/expressions/AggregationFunctions.h: one state
-- for each thread, or for each group of a thread. A value is already converted to the type of the
-- state, as the assignment and the operator of the source convert it. Sums stay in the range of their
-- type and counts below 2 ^ 63.
use columnar_engine.Base.{
  ℕ, zero, suc, ◌+◌, ◌-◌, Bool, true, false, ◌||◌, List, [], ◌∷◌, ◌++◌, ltb, if◌then◌else◌, length,
  replicate, set, Result, ok, ◌>>=◌, at,
}
use columnar_engine.Execution.Batch.{RecordBatch, iterate_column_data}

-- What a class does with a state: the new state, `Update` by a value, the combination with the state
-- of another thread, and the value that is written.
pub record Aggregate (V S R : Type 0) : Type 0 where
  pub initial : S
  pub step : S → V → S
  pub merge : S → S → S
  pub result : S → R

-- `SumOperation`, `MaxOperation` and `MinOperation`.
pub data Operation : Type 0 where
  sum_operation max_operation min_operation : Operation

-- `ThreadState` of the typed classes.
pub record TypedState (T : Type 0) : Type 0 where
  pub value : T
  pub has_data : Bool

module _ {T : Type 0} (less : T → T → Bool) (add : T → T → T) where
  unfoldable pub apply : Operation → T → T → T
  apply sum_operation result value = add result value
  apply max_operation result value = if less result value then value else result
  apply min_operation result value = if less value result then value else result

  unfoldable pub typed_step : Operation → TypedState T → T → TypedState T
  typed_step op state value =
      if state.has_data
      then record state { value = apply op state.value value }
      else record { value = value; has_data = true }

  unfoldable pub typed_merge : Operation → TypedState T → TypedState T → TypedState T
  typed_merge op state source = if source.has_data then typed_step op state source.value else state

  unfoldable pub typed_aggregate : T → Operation → Aggregate T (TypedState T) T
  typed_aggregate default op = record {
    initial = record { value = default; has_data = false };
    step = typed_step op;
    merge = typed_merge op;
    result = λ state. state.value;
  }

-- The count of rows.
unfoldable pub count_aggregate : {V : Type 0} → Aggregate V ℕ ℕ
count_aggregate = record {
  initial = 0;
  step = λ count _. count + 1;
  merge = λ count source. count + source;
  result = λ count. count;
}

-- `Update` of the classes that count: the rows of the batch, and the rows from `i` on by their group.
unfoldable pub count_update : List ℕ → RecordBatch → ℕ → Result (List ℕ)
count_update thread_states batch thread_id = do
  count ← at thread_states thread_id
  ok (set thread_states thread_id (count + batch.num_rows))

unfoldable pub count_groups : List ℕ → List ℕ → ℕ → ℕ → Result (List ℕ)
count_groups counts group_ids i zero = ok counts
count_groups counts group_ids i (suc left) = do
  gid ← at group_ids i
  count ← at counts gid
  count_groups (set counts gid (count + 1)) group_ids (suc i) left

-- The sum and the count of an average.
pub record AvgState (T : Type 0) : Type 0 where
  pub total : T
  pub count : ℕ

-- `ComputeAvg`, which divides in a floating-point type, is a parameter.
module _ {T R : Type 0} (add : T → T → T) (compute_avg : T → ℕ → R) where
  unfoldable pub avg_step : AvgState T → T → AvgState T
  avg_step state value = record { total = add state.total value; count = state.count + 1 }

  unfoldable pub avg_merge : AvgState T → AvgState T → AvgState T
  avg_merge state source = record {
    total = add state.total source.total;
    count = state.count + source.count;
  }

  unfoldable pub avg_aggregate : T → R → Aggregate T (AvgState T) R
  avg_aggregate zero_sum default = record {
    initial = record { total = zero_sum; count = 0 };
    step = avg_step;
    merge = avg_merge;
    result = λ state. if ltb 0 state.count then compute_avg state.total state.count else default;
  }

-- A hash set is the list of its values; the order does not show in its size.
module _ {T : Type 0} (equal : T → T → Bool) where
  unfoldable pub is_member : T → List T → Bool
  is_member value [] = false
  is_member value (x ∷ values) = equal x value || is_member value values

  unfoldable pub insert_value : List T → T → List T
  insert_value values value = if is_member value values then values else values ++ value ∷ []

  unfoldable pub insert_values : List T → List T → List T
  insert_values values [] = values
  insert_values values (x ∷ source) = insert_values (insert_value values x) source

  unfoldable pub distinct_aggregate : Aggregate T (List T) ℕ
  distinct_aggregate = record {
    initial = [];
    step = insert_value;
    merge = insert_values;
    result = length;
  }

module _ {V S R : Type 0} (agg : Aggregate V S R) where
  -- The loop of `Update` over the values of a batch.
  unfoldable pub update_state : S → List (V × ℕ × ℕ) → S
  update_state state [] = state
  update_state state (row ∷ rows) = update_state (agg.step state row.0) rows

  -- The constructor, `Update` and `WriteResult` of the global classes. The class of distinct counts
  -- starts its loop from the first set, which is the merge of an empty set with it.
  unfoldable pub make_threads : ℕ → List S
  make_threads num_threads = replicate num_threads agg.initial

  unfoldable pub global_update : List S → RecordBatch → (ℕ → Result V) → ℕ → Result (List S)
  global_update thread_states batch get thread_id = do
    local_state ← at thread_states thread_id
    rows ← iterate_column_data batch get
    ok (set thread_states thread_id (update_state local_state rows))

  unfoldable pub merge_threads : S → List S → S
  merge_threads state [] = state
  merge_threads state (source ∷ sources) = merge_threads (agg.merge state source) sources

  unfoldable pub global_result : List S → R
  global_result thread_states = agg.result (merge_threads agg.initial thread_states)

  -- `Resize`, `Update` and `CombineState` of the grouped classes, on the states of one thread.
  unfoldable pub resize_groups : List S → ℕ → List S
  resize_groups states num_groups = states ++ replicate (num_groups - length states) agg.initial

  unfoldable pub update_groups : List S → List (V × ℕ × ℕ) → List ℕ → Result (List S)
  update_groups states [] group_ids = ok states
  update_groups states ((value, row_idx, real) ∷ rows) group_ids = do
    gid ← at group_ids row_idx
    state ← at states gid
    update_groups (set states gid (agg.step state value)) rows group_ids

  unfoldable pub grouped_update : List S → RecordBatch → (ℕ → Result V) → List ℕ → Result (List S)
  grouped_update states batch get group_ids = do
    rows ← iterate_column_data batch get
    update_groups states rows group_ids

  unfoldable pub combine_state : List S → List S → ℕ → ℕ → Result (List S)
  combine_state global source src_gid global_gid = do
    from ← at source src_gid
    into ← at global global_gid
    ok (set global global_gid (agg.merge into from))

  -- The same functions on an object of a grouped class, which has the states of all threads.
  unfoldable pub resize_thread : List (List S) → ℕ → ℕ → Result (List (List S))
  resize_thread thread_states num_groups thread_id = do
    local ← at thread_states thread_id
    ok (set thread_states thread_id (resize_groups local num_groups))

  unfoldable pub update_thread :
      List (List S) → RecordBatch → (ℕ → Result V) → List ℕ → ℕ → Result (List (List S))
  update_thread thread_states batch get group_ids thread_id = do
    local ← at thread_states thread_id
    next ← grouped_update local batch get group_ids
    ok (set thread_states thread_id next)

  unfoldable pub combine_threads : List (List S) → ℕ → ℕ → ℕ → Result (List (List S))
  combine_threads thread_states src_thread src_gid global_gid = do
    source ← at thread_states src_thread
    global ← at thread_states 0
    next ← combine_state global source src_gid global_gid
    ok (set thread_states 0 next)

  -- `WriteResult` of the grouped classes.
  unfoldable pub grouped_results : List S → List R
  grouped_results [] = []
  grouped_results (state ∷ states) = agg.result state ∷ grouped_results states
