-- ===== src/Execution/GroupBy.antt =====
-- `GroupBySinkSourceOperator` of execution/OperatorsBase.cpp. The number of groups is a `size_t`, and the
-- id of a group, which the table keeps, a `uint32_t`.
use columnar_engine.Base.{
  ℕ, zero, suc, Bool, true, false, Option, none, some, List, [], ◌∷◌, ◌++◌, set, replicate,
  if◌then◌else◌, Result, ok, err, out_of_bounds, ◌>>=◌, at, drop, ◌%◌, ◌^◌,
}
use columnar_engine.Base.Words.{Bytes}
use columnar_engine.Types.ColumnTypes.{ColumnType}
use columnar_engine.Columns.Column.{Column}
use columnar_engine.Columns.Builders.{make_column_builders}
use columnar_engine.Execution.Batch.{RecordBatch}
use columnar_engine.Execution.HashKeys.{hash_keys, selected, copy_selection}

-- `absl::flat_hash_map` from the bytes of a key to the id of a group. The order of `entries` is the
-- map's own.
pub record HashMap (Map : Type 0) : Type 0 where
  pub empty : Map
  pub find : Map → Bytes → Option ℕ
  pub insert : Map → Bytes → ℕ → Map
  pub entries : Map → List (Bytes × ℕ)

-- `GroupedAggregationFunction`, with the state of an object of it.
pub record GroupedFunction (F : Type 0) : Type 0 where
  pub resize : F → ℕ → ℕ → Result F
  pub update : F → RecordBatch → List ℕ → ℕ → Result F
  pub combine_state : F → ℕ → ℕ → ℕ → Result F
  pub finalize_function : F → Result Column

pub record GroupByThreadState (Map : Type 0) : Type 0 where
  pub hash_table : Map
  pub key_builders : List Column
  pub num_groups : ℕ

pub record GroupByOperator (Map F : Type 0) : Type 0 where
  pub group_by_col_indices : List ℕ
  pub key_types : List ColumnType
  pub agg_funcs : List F
  pub thread_states : List (GroupByThreadState Map)
  pub result_batch : Option RecordBatch
  pub emitted : Bool

-- The constructor.
unfoldable pub make_group_by :
    {Map F : Type 0} → HashMap Map → List ℕ → List ColumnType → List F → ℕ → GroupByOperator Map F
make_group_by map group_by_col_indices key_types agg_funcs num_threads = record {
  group_by_col_indices = group_by_col_indices;
  key_types = key_types;
  agg_funcs = agg_funcs;
  thread_states =
      replicate num_threads (record { hash_table = map.empty; key_builders = []; num_groups = 0 });
  result_batch = none;
  emitted = false;
}

-- What the loop of `Sink` over the rows of a batch has made.
pub record Grouping (Map : Type 0) : Type 0 where
  pub table : Map
  pub groups : ℕ
  pub group_ids : List ℕ
  pub new_group_indices : List ℕ

-- The key builders of a thread, made when it has none.
unfoldable pub init_builders : List ColumnType → List Column → Result (List Column)
init_builders key_types [] = make_column_builders key_types
init_builders key_types (b ∷ builders) = ok (b ∷ builders)

-- The loop of `Sink` over the columns of the keys.
unfoldable pub composite_keys : RecordBatch → List ℕ → List Bytes → Result (List Bytes)
composite_keys batch [] keys = ok keys
composite_keys batch (col_ind ∷ indices) keys = do
  column ← at batch.columns col_ind
  next ← hash_keys column keys batch.selection_vector
  composite_keys batch indices next

unfoldable pub copy_keys : List Column → List Column → List ℕ → List ℕ → Result (List Column)
copy_keys builders columns [] rows = ok builders
copy_keys [] columns (col_ind ∷ indices) rows = err out_of_bounds
copy_keys (b ∷ builders) columns (col_ind ∷ indices) rows = do
  column ← at columns col_ind
  next ← copy_selection b column rows
  rest ← copy_keys builders columns indices rows
  ok (next ∷ rest)

-- `if (!new_group_indices.empty())`.
unfoldable pub copy_new_keys : List Column → List Column → List ℕ → List ℕ → Result (List Column)
copy_new_keys builders columns indices [] = ok builders
copy_new_keys builders columns indices (r ∷ rows) = copy_keys builders columns indices (r ∷ rows)

-- The copy of one key of a thread to the first one.
unfoldable pub copy_key : List Column → List Column → ℕ → Result (List Column)
copy_key [] columns gid = ok []
copy_key (b ∷ builders) columns gid = do
  column ← at columns 0
  next ← copy_selection b column (gid ∷ [])
  rest ← copy_key builders (drop 1 columns) gid
  ok (next ∷ rest)

-- `for (auto& func : agg_funcs_)`.
unfoldable pub each_function {ℓ} : {F : Type ℓ} → (F → Result F) → List F → Result (List F)
each_function call [] = ok []
each_function call (func ∷ funcs) = do
  next ← call func
  rest ← each_function call funcs
  ok (next ∷ rest)

unfoldable pub finalize_functions : {F : Type 0} → GroupedFunction F → List F → Result (List Column)
finalize_functions class [] = ok []
finalize_functions class (func ∷ funcs) = do
  column ← class.finalize_function func
  rest ← finalize_functions class funcs
  ok (column ∷ rest)

module _ {Map : Type 0} (map : HashMap Map) where
  -- The ids of the rows of a batch from row `i` on, in a table of `n` groups.
  unfoldable pub group_rows : Option (List ℕ) → Map → ℕ → ℕ → List Bytes → Result (Grouping Map)
  group_rows sel_vec table n i [] =
      ok (record { table = table; groups = n; group_ids = []; new_group_indices = [] })
  group_rows sel_vec table n i (key ∷ keys) = elim (map.find table key) [
    | none ↦ do
      actual_idx ← selected sel_vec i
      rest ← group_rows sel_vec (map.insert table key (n % 2 ^ 32)) (suc n) (suc i) keys
      ok (record rest {
        group_ids = (n % 2 ^ 32) ∷ rest.group_ids;
        new_group_indices = actual_idx ∷ rest.new_group_indices;
      })
    | some gid ↦ do
      rest ← group_rows sel_vec table n (suc i) keys
      ok (record rest { group_ids = gid ∷ rest.group_ids })
  ]

module _ {F : Type 0} (class : GroupedFunction F) where
  -- `func->Resize` and `func->Update` of every function.
  unfoldable pub update_functions : List F → ℕ → RecordBatch → List ℕ → ℕ → Result (List F)
  update_functions funcs num_groups batch group_ids thread_id =
      each_function
        (λ func. class.resize func num_groups thread_id >>= λ resized.
          class.update resized batch group_ids thread_id)
        funcs

module _ {Map F : Type 0} (map : HashMap Map) (class : GroupedFunction F) where
  unfoldable pub sink_group_by :
      GroupByOperator Map F → RecordBatch → ℕ → Result (GroupByOperator Map F)
  sink_group_by op batch thread_id = do
    local ← at op.thread_states thread_id
    builders ← init_builders op.key_types local.key_builders
    keys ← composite_keys batch op.group_by_col_indices (replicate batch.num_rows [])
    rows ← group_rows map batch.selection_vector local.hash_table local.num_groups 0 keys
    copied ← copy_new_keys builders batch.columns op.group_by_col_indices rows.new_group_indices
    funcs ← update_functions class op.agg_funcs rows.groups batch rows.group_ids thread_id
    ok (record op {
      agg_funcs = funcs;
      thread_states =
          set op.thread_states thread_id
            (record { hash_table = rows.table; key_builders = copied; num_groups = rows.groups });
    })

  -- One entry of the table of thread `t` in `Finalize`.
  unfoldable pub merge_entry :
      GroupByThreadState Map
      → List F
      → List Column
      → ℕ
      → Bytes × ℕ
      → Result (GroupByThreadState Map × List F)
  merge_entry global funcs local_key_cols t (key, local_gid) =
      elim (map.find global.hash_table key) [
        | none ↦ do
          let target_global_gid = global.num_groups % 2 ^ 32
          builders ← copy_key global.key_builders local_key_cols local_gid
          resized ← each_function (λ func. class.resize func (suc global.num_groups) 0) funcs
          combined ←
              each_function (λ func. class.combine_state func t local_gid target_global_gid) resized
          ok (
            record {
              hash_table = map.insert global.hash_table key target_global_gid;
              key_builders = builders;
              num_groups = suc global.num_groups;
            },
            combined,
          )
        | some target_global_gid ↦ do
          combined ←
              each_function (λ func. class.combine_state func t local_gid target_global_gid) funcs
          ok (global, combined)
      ]

  unfoldable pub merge_entries :
      GroupByThreadState Map
      → List F
      → List Column
      → ℕ
      → List (Bytes × ℕ)
      → Result (GroupByThreadState Map × List F)
  merge_entries global funcs local_key_cols t [] = ok (global, funcs)
  merge_entries global funcs local_key_cols t (entry ∷ entries) = do
    next ← merge_entry global funcs local_key_cols t entry
    merge_entries next.0 next.1 local_key_cols t entries

  -- The other threads from `t` on.
  unfoldable pub merge_locals :
      GroupByThreadState Map
      → List F
      → ℕ
      → List (GroupByThreadState Map)
      → Result (GroupByThreadState Map × List F)
  merge_locals global funcs t [] = ok (global, funcs)
  merge_locals global funcs t (local ∷ locals) = elim local.num_groups [
    | zero ↦ merge_locals global funcs (suc t) locals
    | suc n ↦ do
      next ← merge_entries global funcs local.key_builders t (map.entries local.hash_table)
      merge_locals next.0 next.1 (suc t) locals
  ]

  -- `Finalize`; what it leaves of the other threads is not read again.
  unfoldable pub finalize_group_by : GroupByOperator Map F → Result (GroupByOperator Map F)
  finalize_group_by op = do
    first ← at op.thread_states 0
    builders ← init_builders op.key_types first.key_builders
    merged ←
        merge_locals (record first { key_builders = builders }) op.agg_funcs 1
          (drop 1 op.thread_states)
    columns ← finalize_functions class merged.1
    ok (record op {
      agg_funcs = merged.1;
      thread_states = set op.thread_states 0 merged.0;
      result_batch = some (record {
        num_rows = merged.0.num_groups;
        selection_vector = none;
        columns = merged.0.key_builders ++ columns;
      });
    })

-- `GetData`: the result, once.
unfoldable pub group_by_data :
    {Map F : Type 0} → GroupByOperator Map F → GroupByOperator Map F × Option RecordBatch
group_by_data op =
    if op.emitted
    then (op, none)
    else (record op { emitted = true; result_batch = none }, op.result_batch)
