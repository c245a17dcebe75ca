-- ===== src/Execution/Pipeline.antt =====
-- `Pipeline::Execute` of execution/Pipeline.h: the tasks, one for each thread, as rounds of their loop. A
-- round reads, transforms and sinks one batch; rounds of different threads follow one another in any
-- order.
use columnar_engine.Base.{
  ℕ, suc, Bool, true, not, Option, none, some, List, ◌≡◌, ◌==◌, if◌then◌else◌, get_elem?, set,
  Result, ok, ◌>>=◌,
}
use columnar_engine.Types.ColumnTypes.{ColumnType}
use columnar_engine.Execution.Batch.{RecordBatch}
use columnar_engine.Execution.Filters.{Comparison}
use columnar_engine.Execution.Operators.{Transform, run_transforms}

-- `SourceOperator` and `SinkOperator`.
pub record SourceOperator (S : Type 0) : Type 0 where
  pub get_data : S → Result (S × Option RecordBatch)

pub record SinkOperator (K : Type 0) : Type 0 where
  pub sink : K → RecordBatch → ℕ → Result K

pub record Pipeline (S K : Type 0) : Type 0 where
  pub source : S
  pub transforms : List Transform
  pub sink_operator : K

-- `if (batch && batch->num_rows > 0)`.
unfoldable pub sink_batch : {K : Type 0} → SinkOperator K → K → Option RecordBatch → ℕ → Result K
sink_batch sinks k none thread_id = ok k
sink_batch sinks k (some batch) thread_id =
    if batch.num_rows == 0 then ok k else sinks.sink k batch thread_id

module _ {S K : Type 0} (sources : SourceOperator S) (sinks : SinkOperator K)
    (float_test : ColumnType → Comparison → ℕ → ℕ → Bool) where
  -- The body of the loop of a task, behind `GetData`: the pipeline, and whether the loop ends.
  unfoldable pub after_read :
      Pipeline S K → S → Option RecordBatch → ℕ → Result (Pipeline S K × Bool)
  after_read p source none thread_id = ok (record p { source = source }, true)
  after_read p source (some batch) thread_id = do
    out ← run_transforms float_test p.transforms batch
    k ← sink_batch sinks p.sink_operator out.1 thread_id
    ok (record { source = source; transforms = out.0; sink_operator = k }, out.2)

  -- One round.
  unfoldable pub task_round : Pipeline S K → ℕ → Result (Pipeline S K × Bool)
  task_round p thread_id = do read ← sources.get_data p.source; after_read p read.0 read.1 thread_id

  -- The tasks that still run, by thread.
  pub record Tasks : Type 0 where
    pub pipeline : Pipeline S K
    pub running : List Bool

  -- A round of a running task, and some rounds.
  pub data Step : Tasks → Tasks → Type 0 where
    round :
        {s : Tasks} (t : ℕ) (p : Pipeline S K) (ends : Bool)
        → get_elem? s.running t ≡ some true
        → task_round s.pipeline t ≡ ok (p, ends)
        → Step s (record { pipeline = p; running = set s.running t (not ends) })

  pub data Steps : Tasks → ℕ → Tasks → Type 0 where
    no_step : {s : Tasks} → Steps s 0 s
    next_step :
        {s next last : Tasks} {n : ℕ} → Step s next → Steps next n last → Steps s (suc n) last
