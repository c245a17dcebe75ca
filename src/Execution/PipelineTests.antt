-- ===== src/Execution/PipelineTests.antt =====
-- A pipeline that counts the rows of a file, with a task of one thread.
use columnar_engine.Base.{ℕ, ◌+◌, ◌≤◌, refl, Bool, true, false, inr, [], ◌∷◌, arith, ok}
use columnar_engine.Types.ColumnTypes.{ColumnType}
use columnar_engine.Execution.Filters.{Comparison}
use columnar_engine.Execution.Operators.{ScanOperator, scan_data, run_transforms}
use columnar_engine.Execution.Pipeline.{
  SinkOperator, Pipeline, sink_batch, after_read, task_round, Tasks, Steps, round, no_step,
  next_step,
}
use columnar_engine.Execution.Terminates.{scan_source, scan-Steps_le}

abbrev no_floats : ColumnType → Comparison → ℕ → ℕ → Bool
no_floats t c a b = false

abbrev count_rows : SinkOperator ℕ
count_rows = record { sink = λ count batch thread_id. ok (count + batch.num_rows) }

abbrev scan : ScanOperator
scan = record {
  file = [];
  metadata = record { columns = []; num_rows = 3 };
  column_indices = [];
  current_chunk = 0;
  total_chunks = 0;
  finished_empty_scan = false;
}

abbrev scanned : ScanOperator
scanned = record scan { finished_empty_scan = true }

abbrev pipeline : Pipeline ScanOperator ℕ
pipeline = record { source = scan; transforms = []; sink_operator = 0 }

abbrev done : Pipeline ScanOperator ℕ
done = record { source = scanned; transforms = []; sink_operator = 3 }

abbrev TestTasks : Type 0
TestTasks = Tasks scan_source count_rows no_floats

abbrev start : TestTasks
start = record { pipeline = pipeline; running = true ∷ [] }

two_rounds :
    Steps scan_source count_rows no_floats start 2
      (record { pipeline = done; running = false ∷ [] })
unfolding task_round after_read sink_batch run_transforms scan_data
two_rounds =
    next_step (round 0 done false refl refl) (next_step (round 0 done true refl refl) no_step)

scan-Steps_le_example : 2 ≤ 1 + 1
scan-Steps_le_example = scan-Steps_le count_rows no_floats 1 two_rounds (inr (omega arith))
