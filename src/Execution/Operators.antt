-- ===== src/Execution/Operators.antt =====
-- The scan and the transforms of execution/OperatorsBase.cpp. Atomic counters are numbers that a step
-- reads and writes at once; those of `size_t` wrap at 2 ^ 64.
use columnar_engine.Base.{
  ℕ, zero, suc, ◌+◌, ◌-◌, ◌%◌, ◌^◌, Bool, true, false, not, ◌||◌, Option, none, some, List, [], ◌∷◌,
  ◌++◌, leb, ◌==◌, if◌then◌else◌, length, take, Result, ok, err, out_of_bounds, ◌>>=◌, ◌>>◌, guard,
  at, column_not_found,
}
use columnar_engine.Base.Words.{Bytes, bytes_eq}
use columnar_engine.Types.ColumnTypes.{ColumnType}
use columnar_engine.Columns.Column.{Column, column_size}
use columnar_engine.Io.Metadata.{ColumnMetadata}
use columnar_engine.Io.Reader.{MetadataTable, get_column_data}
use columnar_engine.Execution.Batch.{RecordBatch}
use columnar_engine.Execution.Filters.{Comparison, FilterFunction, evaluate}

-- `file` is the file that `reader_` reads.
pub record ScanOperator : Type 0 where
  pub file : Bytes
  pub metadata : MetadataTable
  pub column_indices : List ℕ
  pub current_chunk : ℕ
  pub total_chunks : ℕ
  pub finished_empty_scan : Bool

-- The index of the first column of a name, from `i` on.
unfoldable pub find_column : List ColumnMetadata → Bytes → ℕ → Result ℕ
find_column [] name i = err column_not_found
find_column (m ∷ ms) name i = if bytes_eq m.name name then ok i else find_column ms name (suc i)

unfoldable pub find_columns : List ColumnMetadata → List Bytes → Result (List ℕ)
find_columns ms [] = ok []
find_columns ms (name ∷ names) = do
  i ← find_column ms name 0
  rest ← find_columns ms names
  ok (i ∷ rest)

unfoldable pub first_chunks : List ColumnMetadata → ℕ
first_chunks [] = 0
first_chunks (m ∷ ms) = length m.offsets

-- The constructor.
unfoldable pub open_scan : Bytes → List Bytes → MetadataTable → Result ScanOperator
open_scan file column_names metadata = do
  indices ← find_columns metadata.columns column_names
  ok (record {
    file = file;
    metadata = metadata;
    column_indices = indices;
    current_chunk = 0;
    total_chunks = first_chunks metadata.columns;
    finished_empty_scan = false;
  })

-- The loop of `GetData` over the columns: the columns read, and the number of rows.
unfoldable pub scan_columns : ScanOperator → List ℕ → ℕ → ℕ → Result (List Column × ℕ)
scan_columns op [] chunk num_rows = ok ([], num_rows)
scan_columns op (col_idx ∷ indices) chunk num_rows = do
  column ← get_column_data op.metadata op.file col_idx chunk
  rest ← scan_columns op indices chunk (if num_rows == 0 then column_size column else num_rows)
  ok (column ∷ rest.0, rest.1)

unfoldable pub scan_data : ScanOperator → Result (ScanOperator × Option RecordBatch)
scan_data op = elim op.column_indices [
  | [] ↦
      if op.finished_empty_scan
      then ok (op, none)
      else ok (
        record op { finished_empty_scan = true },
        some (record { num_rows = op.metadata.num_rows; selection_vector = none; columns = [] }),
      )
  | index ∷ indices ↦
      (let next = record op { current_chunk = (op.current_chunk + 1) % 2 ^ 64 } in
        if leb op.total_chunks op.current_chunk then ok (next, none) else (do
          read ← scan_columns op (index ∷ indices) op.current_chunk 0
          ok (
            next,
            some (record { num_rows = read.1; selection_vector = none; columns = read.0 }),
          )))
]

-- `FilterTransformOperator::Execute`, on the rows that the filter selects.
unfoldable pub apply_selection : RecordBatch → List ℕ → Option RecordBatch
apply_selection batch [] = none
apply_selection batch (r ∷ rs) =
    some (record batch { num_rows = length (r ∷ rs); selection_vector = some (r ∷ rs) })

-- The columns at some indices, as `ReorderTransformOperator` copies the pointers.
unfoldable pub pick_columns : List Column → List ℕ → Result (List Column)
pick_columns columns [] = ok []
pick_columns columns (ind ∷ inds) = do
  column ← at columns ind
  rest ← pick_columns columns inds
  ok (column ∷ rest)

unfoldable pub execute_reorder : List ℕ → RecordBatch → Result (Option RecordBatch)
execute_reorder new_indices batch = do
  columns ← pick_columns batch.columns new_indices
  ok (
      some (record {
        num_rows = batch.num_rows;
        selection_vector = batch.selection_vector;
        columns = columns;
      }))

-- `DropTransformOperator` moves the pointers, so that a second move of a column gives a null
-- pointer: any use of it is undefined, and it is refused here at once.
unfoldable pub is_in : ℕ → List ℕ → Bool
is_in x [] = false
is_in x (y ∷ ys) = x == y || is_in x ys

unfoldable pub move_columns : List Column → List ℕ → List ℕ → Result (List Column)
move_columns columns moved [] = ok []
move_columns columns moved (ind ∷ inds) = do
  guard (not (is_in ind moved)) out_of_bounds
  column ← at columns ind
  rest ← move_columns columns (ind ∷ moved) inds
  ok (column ∷ rest)

unfoldable pub execute_drop : List ℕ → RecordBatch → Result (Option RecordBatch)
execute_drop column_stay_indices batch = do
  columns ← move_columns batch.columns [] column_stay_indices
  ok (some (record batch { columns = columns }))

-- `ScalarTransformOperator::Execute`: each function sees the columns that the earlier ones added.
unfoldable pub execute_scalar :
    List (RecordBatch → Result Column) → RecordBatch → Result (Option RecordBatch)
execute_scalar [] batch = ok (some batch)
execute_scalar (func ∷ funcs) batch = do
  column ← func batch
  execute_scalar funcs (record batch { columns = batch.columns ++ column ∷ [] })

pub record LimitTransformOperator : Type 0 where
  pub limit : ℕ
  pub cur_rows : ℕ
  pub done : Bool

unfoldable pub iota : ℕ → ℕ → List ℕ
iota start zero = []
iota start (suc n) = start ∷ iota (suc start) n

-- The first `remaining` rows of a batch.
unfoldable pub cut_selection : Option (List ℕ) → ℕ → Result (List ℕ)
cut_selection none remaining = ok (iota 0 remaining)
cut_selection (some sel) remaining = do
  guard (leb remaining (length sel)) out_of_bounds
  ok (take remaining sel)

unfoldable pub execute_limit :
    LimitTransformOperator → RecordBatch → Result (LimitTransformOperator × Option RecordBatch)
execute_limit op batch =
    let counted = record op { cur_rows = (op.cur_rows + batch.num_rows) % 2 ^ 64 } in
    let finished = record counted { done = true } in
    let remaining = op.limit - op.cur_rows in
    if leb op.limit op.cur_rows
    then ok (finished, none)
    else if leb batch.num_rows remaining
    then ok (if leb op.limit (op.cur_rows + batch.num_rows) then finished else counted, some batch)
    else (do
      sel ← cut_selection batch.selection_vector remaining
      ok (finished, some (record batch { num_rows = remaining; selection_vector = some sel })))

-- The transforms of a pipeline. A scalar function is what its virtual `Evaluate` computes.
pub data Transform : Type 0 where
  filter_transform : FilterFunction → Transform
  scalar_transform : List (RecordBatch → Result Column) → Transform
  drop_transform : List ℕ → Transform
  reorder_transform : List ℕ → Transform
  limit_transform : LimitTransformOperator → Transform

unfoldable pub is_pipeline_done : Transform → Bool
is_pipeline_done (limit_transform op) = op.done
is_pipeline_done t = false

module _ (float_test : ColumnType → Comparison → ℕ → ℕ → Bool) where
  unfoldable pub execute_filter : FilterFunction → RecordBatch → Result (Option RecordBatch)
  execute_filter filter batch = do
    selection_vector ← evaluate float_test filter batch
    ok (apply_selection batch selection_vector)

  -- The virtual `Execute`: the operator after it, and the batch.
  unfoldable pub execute : Transform → RecordBatch → Result (Transform × Option RecordBatch)
  execute (filter_transform f) batch = do out ← execute_filter f batch; ok (filter_transform f, out)
  execute (scalar_transform funcs) batch = do
    out ← execute_scalar funcs batch
    ok (scalar_transform funcs, out)
  execute (drop_transform inds) batch = do
    out ← execute_drop inds batch
    ok (drop_transform inds, out)
  execute (reorder_transform inds) batch = do
    out ← execute_reorder inds batch
    ok (reorder_transform inds, out)
  execute (limit_transform op) batch = do
    out ← execute_limit op batch
    ok (limit_transform out.0, out.1)

  -- The loop over the transforms in `Pipeline::Execute`: the transforms after it, the batch if it was
  -- not skipped, and whether to stop.
  unfoldable pub run_transforms :
      List Transform → RecordBatch → Result (List Transform × Option RecordBatch × Bool)
  run_transforms [] batch = ok ([], some batch, false)
  run_transforms (t ∷ ts) batch = do
    r ← execute t batch
    elim r.1 [
      | none ↦ ok (r.0 ∷ ts, none, false)
      | some out ↦ elim (out.num_rows == 0) [
        | true ↦ ok (r.0 ∷ ts, none, false)
        | false ↦ elim (is_pipeline_done r.0) [
          | true ↦ ok (r.0 ∷ ts, some out, true)
          | false ↦ (do rest ← run_transforms ts out; ok (r.0 ∷ rest.0, rest.1, rest.2))
        ]
      ]
    ]
