-- ===== src/Execution/Steps.antt =====
-- The filter as a transform, LIMIT over many batches, and the loop of a pipeline over its transforms.
use columnar_engine.Base.{
  ℕ, ◌+◌, ◌-◌, ◌^◌, ◌<◌, ◌≡◌, refl, min, Option, none, some, List, [], ◌∷◌, arith, length,
  length-take, take, Result, ok, ◌>>=◌,
}
use columnar_engine.Execution.Batch.{RecordBatch}
use columnar_engine.Execution.Selection.{HasRows}
use columnar_engine.Execution.Operators.{LimitTransformOperator, execute_limit}
use columnar_engine.Execution.Limit.{Passes, execute_limit-Passes}

-- Batches, and the rows of each.
abbrev pub AllRows : List RecordBatch → List (List ℕ) → Type 0
AllRows [] [] = Unit
AllRows [] (rows ∷ rest) = ⊥
AllRows (b ∷ bs) [] = ⊥
AllRows (b ∷ bs) (rows ∷ rest) = HasRows b rows × AllRows bs rest

abbrev pub total : List (List ℕ) → ℕ
total [] = 0
total (rows ∷ rest) = length rows + total rest

-- LIMIT on batches in the order in which the threads count them, and what it passes on.
abbrev pub add_batch : Option RecordBatch → List RecordBatch → List RecordBatch
add_batch none bs = bs
add_batch (some b) bs = b ∷ bs

unfoldable pub limit_steps :
    LimitTransformOperator → List RecordBatch → Result (LimitTransformOperator × List RecordBatch)
limit_steps op [] = ok (op, [])
limit_steps op (b ∷ bs) = do
  r ← execute_limit op b
  rest ← limit_steps r.0 bs
  ok (rest.0, add_batch r.1 rest.1)

add_batch-AllRows :
    (out : Option RecordBatch) (batch : RecordBatch) (rows : List ℕ) (bs : List RecordBatch)
    (rest : List (List ℕ))
    → Passes out batch rows
    → AllRows bs rest
    → (all : List (List ℕ)) × AllRows (add_batch out bs) all
      × (total all ≡ length rows + total rest)
add_batch-AllRows none batch rows bs rest p h = (rest, h, rw p (omega arith))
add_batch-AllRows (some out) batch rows bs rest p h = (rows ∷ rest, (p.0, h), refl)

-- However the batches are split and in whatever order they are counted, LIMIT passes as many rows
-- as are left of the limit, or all of them if there are fewer, while the count stays below 2 ^ 64.
pub limit_steps-total :
    (op : LimitTransformOperator) (bs : List RecordBatch) (rows : List (List ℕ))
    → AllRows bs rows
    → op.cur_rows + total rows < 2 ^ 64
    → (last : LimitTransformOperator) × (outs : List RecordBatch) × (passed : List (List ℕ))
      × (limit_steps op bs ≡ ok (last, outs))
      × AllRows outs passed
      × (total passed ≡ min (op.limit - op.cur_rows) (total rows))
      × (last.cur_rows ≡ op.cur_rows + total rows)
unfolding limit_steps
limit_steps-total op [] [] h fits = (op, [], [], refl, tt, omega arith, omega arith)
limit_steps-total op [] (r ∷ rs) h fits = elim h [ ]
limit_steps-total op (b ∷ bs) [] h fits = elim h [ ]
limit_steps-total op (b ∷ bs) (r ∷ rs) h fits =
    let (next, out, e, p, same_limit, counted, _) = execute_limit-Passes op h.0 (omega arith) in
    let (last, outs, passed, e', all, t, c) =
      limit_steps-total next bs rs h.1 (omega (arith, counted)) in
    let (joined, all', t') =
      add_batch-AllRows out b (take (op.limit - op.cur_rows) r) outs passed p all in
    (
      last,
      add_batch out outs,
      joined,
      rw (e, e'),
      all',
      omega (arith, t, t', same_limit, counted, length-take (op.limit - op.cur_rows) r),
      omega (arith, c, counted),
    )
