-- ===== src/Execution/Terminates.antt =====
-- The tasks of a pipeline end, whatever the order of their rounds.
use columnar_engine.Base.{
  ◌⊎◌, ℕ, zero, suc, ◌+◌, ◌-◌, ◌%◌, ◌≤◌, ◌<◌, ◌^◌, ◌≡◌, refl, sym, ap, ◌∙◌, subst, Bool, true,
  false, not, Option, none, some, List, [], ◌∷◌, arith, leb, get_elem?, set, ok, >>=-eq-ok,
  ok-injective, Bool-cases, inl, inr,
}
use columnar_engine.Base.Words.{Bytes}
use columnar_engine.Io.Reader.{MetadataTable}
use columnar_engine.Types.ColumnTypes.{ColumnType}
use columnar_engine.Execution.Batch.{RecordBatch}
use columnar_engine.Execution.Filters.{Comparison}
use columnar_engine.Execution.Operators.{ScanOperator, scan_data, scan_columns, run_transforms}
use columnar_engine.Execution.Pipeline.{
  SourceOperator, SinkOperator, Pipeline, sink_batch, after_read, task_round, Tasks, Step, Steps,
  round, no_step, next_step,
}

-- A source with at most `m` batches left, which can also be asked `k` times more without giving one.
pub record EndsSource {S : Type 0} (sources : SourceOperator S) : Type 1 where
  pub Left : S → ℕ → ℕ → Type 0
  pub gives :
      (s next : S) (batch : RecordBatch) (m k : ℕ)
      → Left s m k
      → sources.get_data s ≡ ok (next, some batch)
      → (m' : ℕ) × (m' < m) × Left next m' k
  pub ends :
      (s next : S) (m k : ℕ)
      → Left s m (suc k)
      → sources.get_data s ≡ ok (next, none)
      → Left next m k
  -- One that can be asked more often can be asked less often.
  pub fewer : (s : S) (m k : ℕ) → Left s m (suc k) → Left s m k

abbrev pub count_running : List Bool → ℕ
count_running [] = 0
count_running (true ∷ bs) = suc (count_running bs)
count_running (false ∷ bs) = count_running bs

count_after_end :
    (bs : List Bool) (t : ℕ)
    → get_elem? bs t ≡ some true
    → suc (count_running (set bs t false)) ≡ count_running bs
count_after_end [] t e = cc
count_after_end (true ∷ bs) zero e = refl
count_after_end (false ∷ bs) zero e = cc
count_after_end (true ∷ bs) (suc t) e = ap suc (count_after_end bs t e)
count_after_end (false ∷ bs) (suc t) e = count_after_end bs t e

count_after_round :
    (bs : List Bool) (t : ℕ)
    → get_elem? bs t ≡ some true
    → count_running (set bs t true) ≡ count_running bs
count_after_round [] t e = cc
count_after_round (true ∷ bs) zero e = refl
count_after_round (false ∷ bs) zero e = cc
count_after_round (true ∷ bs) (suc t) e = ap suc (count_after_round bs t e)
count_after_round (false ∷ bs) (suc t) e = count_after_round bs t e

module _ {S K : Type 0} (sources : SourceOperator S) (sinks : SinkOperator K)
    (float_test : ColumnType → Comparison → ℕ → ℕ → Bool) (law : EndsSource sources) where
  -- What a round has read is the source that it leaves; without a batch it ends its task.
  after_read-source :
      (p next : Pipeline S K) (source : S) (o : Option RecordBatch) (t : ℕ) (ends : Bool)
      → after_read sources sinks float_test p source o t ≡ ok (next, ends)
      → (source ≡ next.source)
        × (((batch : RecordBatch) × (o ≡ some batch)) ⊎ ((o ≡ none) × (ends ≡ true)))
  unfolding after_read
  after_read-source p next source none t ends e =
      let same = ok-injective e in (ap (λ x. x.0.source) same, inr (refl, sym (ap (λ x. x.1) same)))
  after_read-source p next source (some batch) t ends e =
      let (out, e1, f1) = >>=-eq-ok (run_transforms float_test p.transforms batch) _ e in
      let (k, e2, f2) = >>=-eq-ok (sink_batch sinks p.sink_operator out.1 t) _ f1 in
      (ap (λ x. x.0.source) (ok-injective f2), inl (batch, refl))

  abbrev Running : Type 0
  Running = Tasks sources sinks float_test

  -- One task less, or one batch less.
  Step-Left :
      (m : ℕ) {s next : Running}
      → Step sources sinks float_test s next
      → law.Left s.pipeline.source m (count_running s.running)
      → (m' : ℕ) × law.Left next.pipeline.source m' (count_running next.running)
        × (m' + count_running next.running < m + count_running s.running)
  unfolding task_round
  Step-Left m {s} (round t p ends e run) left =
      let (read, e1, f1) = >>=-eq-ok (sources.get_data s.pipeline.source) _ run in
      let (same, took) = after_read-source s.pipeline p read.0 read.1 t ends f1 in
      let got : sources.get_data s.pipeline.source ≡ ok (p.source, read.1) =
        e1 ∙ ap (λ x. ok (x, read.1)) same in
      let fewer_tasks = count_after_end s.running t e in
      let same_tasks = count_after_round s.running t e in
      elim took [
        | inl (batch, eb) ↦
            let (m', lt, left') =
              law.gives s.pipeline.source p.source batch m (count_running s.running) left
                (got ∙ ap (λ o. ok (p.source, o)) eb) in
            elim (Bool-cases ends) [
              | inl h ↦
                  let down : count_running (set s.running t (not ends))
                      ≡ count_running (set s.running t false) =
                    ap (λ b. count_running (set s.running t (not b))) h in
                  (
                    m',
                    subst (law.Left p.source m') (sym down) (
                        law.fewer p.source m' _
                          (subst (law.Left p.source m') (sym fewer_tasks) left')),
                    omega (arith, lt, down, fewer_tasks),
                  )
              | inr h ↦
                  let as_before : count_running (set s.running t (not ends))
                      ≡ count_running s.running =
                    ap (λ b. count_running (set s.running t (not b))) h ∙ same_tasks in
                  (
                    m',
                    subst (law.Left p.source m') (sym as_before) left',
                    omega (arith, lt, as_before),
                  )
            ]
        | inr (en, h) ↦
            let down : count_running (set s.running t (not ends))
                ≡ count_running (set s.running t false) =
              ap (λ b. count_running (set s.running t (not b))) h in
            (
              m,
              subst (law.Left p.source m) (sym down) (
                  law.ends s.pipeline.source p.source m _
                    (subst (law.Left s.pipeline.source m) (sym fewer_tasks) left)
                    (got ∙ ap (λ o. ok (p.source, o)) en)),
              omega (arith, down, fewer_tasks),
            )
      ]

  -- Rounds of tasks, in any order: no more than there are batches left and tasks running. So the tasks end.
  pub Steps-le :
      (m : ℕ) {s last : Running} {n : ℕ}
      → Steps sources sinks float_test s n last
      → law.Left s.pipeline.source m (count_running s.running)
      → n ≤ m + count_running s.running
  Steps-le m no_step left = omega arith
  Steps-le m (next_step step steps) left =
      let (m', left', lt) = Step-Left m step left in omega (arith, lt, Steps-le m' steps left')

-- A scan gives a batch for each chunk that is left, or one for all rows when it reads no column.
abbrev pub scan_source : SourceOperator ScanOperator
scan_source = record { get_data = scan_data }

abbrev pub ChunksLeft : List ℕ → ScanOperator → ℕ → ℕ → Type 0
ChunksLeft [] op m k = (op.finished_empty_scan ≡ true) ⊎ (0 < m)
ChunksLeft (i ∷ is) op m k =
    (op.current_chunk + m + k < 2 ^ 64) × (op.total_chunks ≤ op.current_chunk + m)

abbrev pub ScanLeft : ScanOperator → ℕ → ℕ → Type 0
ScanLeft op m k = ChunksLeft op.column_indices op m k

-- A scan by its fields.
abbrev scan_of : Bytes → MetadataTable → List ℕ → ℕ → ℕ → Bool → ScanOperator
scan_of file metadata indices current total finished = record {
  file = file;
  metadata = metadata;
  column_indices = indices;
  current_chunk = current;
  total_chunks = total;
  finished_empty_scan = finished;
}

scan_gives :
    (file : Bytes) (metadata : MetadataTable) (indices : List ℕ) (current total : ℕ)
    (finished : Bool) (next : ScanOperator) (batch : RecordBatch) (m k : ℕ)
    → ScanLeft (scan_of file metadata indices current total finished) m k
    → scan_data (scan_of file metadata indices current total finished) ≡ ok (next, some batch)
    → (m' : ℕ) × (m' < m) × ScanLeft next m' k
unfolding scan_data
scan_gives file metadata [] current total true next batch m k left run = cc
scan_gives file metadata [] current total false next batch m k (inl h) run = cc
scan_gives file metadata [] current total false next batch m k (inr h) run =
    let same = ap (λ r. r.0) (ok-injective run) in
    (0, h, subst (λ op. ScanLeft op 0 k) same (inl refl))
scan_gives file metadata (i ∷ is) current total finished next batch m k (small, covers) run =
    elim (Bool-cases (leb total current)) [
      | inl h ↦ (let none_left = rw h at run in cc)
      | inr h ↦
          let reads = rw h at run in
          let (read, e1, e2) =
            >>=-eq-ok
              (scan_columns (scan_of file metadata (i ∷ is) current total finished) (i ∷ is) current
                0)
              _ reads in
          let same = ap (λ r. r.0) (ok-injective e2) in
          let more : current < total = ground arith in
          (
            m - 1,
            omega arith,
            subst (λ op. ScanLeft op (m - 1) k) same
                (let wrapped : (current + 1) % 2 ^ 64 ≡ current + 1 = omega arith in
                  (omega (arith, wrapped), omega (arith, wrapped))),
          )
    ]

scan_ends :
    (file : Bytes) (metadata : MetadataTable) (indices : List ℕ) (current total : ℕ)
    (finished : Bool) (next : ScanOperator) (m k : ℕ)
    → ScanLeft (scan_of file metadata indices current total finished) m (suc k)
    → scan_data (scan_of file metadata indices current total finished) ≡ ok (next, none)
    → ScanLeft next m k
unfolding scan_data
scan_ends file metadata [] current total true next m k left run =
    subst (λ op. ScanLeft op m k) (ap (λ r. r.0) (ok-injective run)) (inl refl)
scan_ends file metadata [] current total false next m k left run = cc
scan_ends file metadata (i ∷ is) current total finished next m k (small, covers) run =
    elim (Bool-cases (leb total current)) [
      | inl h ↦
          let ended = rw h at run in
          let wrapped : (current + 1) % 2 ^ 64 ≡ current + 1 = omega arith in
          subst (λ op. ScanLeft op m k) (ap (λ r. r.0) (ok-injective ended))
            (omega (arith, wrapped), omega (arith, wrapped))
      | inr h ↦
          let reads = rw h at run in
          let (read, e1, e2) =
            >>=-eq-ok
              (scan_columns (scan_of file metadata (i ∷ is) current total finished) (i ∷ is) current
                0)
              _ reads in
          cc
    ]

fewer_scans :
    (indices : List ℕ) (op : ScanOperator) (m k : ℕ)
    → ChunksLeft indices op m (suc k)
    → ChunksLeft indices op m k
fewer_scans [] op m k h = h
fewer_scans (i ∷ is) op m k h = (omega (arith, h.0), h.1)

pub scan_source-EndsSource : EndsSource scan_source
scan_source-EndsSource = record {
  Left = ScanLeft;
  gives = λ s next batch m k.
      scan_gives s.file s.metadata s.column_indices s.current_chunk s.total_chunks
        s.finished_empty_scan next batch m k;
  ends = λ s next m k.
      scan_ends s.file s.metadata s.column_indices s.current_chunk s.total_chunks
        s.finished_empty_scan next m k;
  fewer = λ s m k. fewer_scans s.column_indices s m k;
}

-- The tasks of a pipeline that scans a file: whatever the order of their rounds, there are no more of them
-- than chunks left and running tasks, while that is fewer than 2 ^ 64.
pub scan-Steps_le :
    {K : Type 0} (sinks : SinkOperator K) (float_test : ColumnType → Comparison → ℕ → ℕ → Bool)
    {s last : Tasks scan_source sinks float_test} {n : ℕ} (m : ℕ)
    → Steps scan_source sinks float_test s n last
    → ScanLeft s.pipeline.source m (count_running s.running)
    → n ≤ m + count_running s.running
unfolding scan_source-EndsSource
scan-Steps_le sinks float_test m steps left =
    Steps-le scan_source sinks float_test scan_source-EndsSource m steps left
