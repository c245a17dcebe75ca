-- ===== src/Execution/FilterChain.antt =====
-- The loop of execution/Pipeline.h over transforms that are all filters.
use columnar_engine.Base.{ℕ, Bool, true, ◌&&◌, some, List, [], ◌∷◌, length}
use columnar_engine.Types.ColumnTypes.{ColumnType}
use columnar_engine.Columns.Column.{Column}
use columnar_engine.Execution.Batch.{RecordBatch}
use columnar_engine.Execution.Filters.{Comparison, FilterFunction}
use columnar_engine.Execution.Selected.{passes}

module _ (float_test : ColumnType → Comparison → ℕ → ℕ → Bool) where
  -- A row passes all filters.
  abbrev pub passes_all : List FilterFunction → List Column → ℕ → Bool
  passes_all [] columns r = true
  passes_all (f ∷ fs) columns r = passes float_test f columns r && passes_all fs columns r

  -- The batch of some rows.
  abbrev selection : RecordBatch → ℕ → List ℕ → RecordBatch
  selection batch r rs = record batch {
    num_rows = length (r ∷ rs);
    selection_vector = some (r ∷ rs);
  }
