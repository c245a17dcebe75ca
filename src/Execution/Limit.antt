-- ===== src/Execution/Limit.antt =====
-- LIMIT over the batches of a pipeline, in whatever order the threads take their atomic steps.
use columnar_engine.Base.{
  ◌||◌, err, out_of_bounds, Option-cases, ℕ, zero, suc, ◌+◌, ◌-◌, ◌%◌, ◌^◌, ◌<◌, ◌≤◌, ◌≡◌, refl,
  sym, ap, ◌∙◌, Bool, true, Option, none, some, List, [], ◌∷◌, leb, arith, length, take,
  length-take, ok, at, All, inl, inr, Bool-cases,
}
use columnar_engine.Execution.Batch.{RecordBatch, real_index}
use columnar_engine.Execution.Selection.{HasRows, Visits, Increasing}
use columnar_engine.Execution.Operators.{LimitTransformOperator, execute_limit, cut_selection, iota}

Increasing-take : (n : ℕ) (rows : List ℕ) → Increasing rows → Increasing (take n rows)
Increasing-take zero rows h = tt
Increasing-take (suc n) [] h = tt
Increasing-take (suc n) (r ∷ rs) h = (All-take (λ s. r < s) n rs h.0, Increasing-take n rs h.1)
  where
    All-take : (P : ℕ → Type 0) (n : ℕ) (xs : List ℕ) → All P xs → All P (take n xs)
    All-take P zero xs h = tt
    All-take P (suc n) [] h = tt
    All-take P (suc n) (x ∷ xs) h = (h.0, All-take P n xs h.1)

take_ge : (n : ℕ) (xs : List ℕ) → length xs ≤ n → take n xs ≡ xs
take_ge zero [] h = refl
take_ge zero (x ∷ xs) h = absurd (omega arith)
take_ge (suc n) [] h = refl
take_ge (suc n) (x ∷ xs) h = ap (◌∷◌ x) (take_ge n xs (omega arith))

-- The entries of `sel` stand at the numbers from `i` on.
abbrev StandsAt : RecordBatch → ℕ → List ℕ → Type 0
StandsAt batch i sel = (k : ℕ) → real_index batch (i + k) ≡ at sel k

StandsAt-next :
    (batch : RecordBatch) (i r : ℕ) (sel : List ℕ)
    → StandsAt batch i (r ∷ sel)
    → (real_index batch i ≡ ok r) × StandsAt batch (suc i) sel
StandsAt-next batch i r sel h = (
  ap (real_index batch) (omega arith) ∙ h 0,
  λ k. ap (real_index batch) (omega arith) ∙ h (suc k),
)

-- A batch whose selection vector is a list visits that list.
pub Visits-self :
    (batch : RecordBatch) (i : ℕ) (sel : List ℕ) → StandsAt batch i sel → Visits batch i sel
Visits-self batch i [] h = tt
Visits-self batch i (r ∷ sel) h =
    let (here, later) = StandsAt-next batch i r sel h in (here, Visits-self batch (suc i) sel later)

-- Without a selection vector the rows are the numbers themselves.
Visits-none :
    (batch : RecordBatch) (i : ℕ) (rows : List ℕ)
    → batch.selection_vector ≡ none
    → Visits batch i rows
    → rows ≡ iota i (length rows)
unfolding real_index iota
Visits-none batch i [] e w = refl
Visits-none batch i (r ∷ rs) e w =
    let first : ok i ≡ ok r = rw e at w.0 in
    let same : r ≡ i = cc in rw same (ap (◌∷◌ i) (Visits-none batch (suc i) rs e w.1))

take-iota : (n i m : ℕ) → n ≤ m → take n (iota i m) ≡ iota i n
unfolding iota
take-iota zero i m h = refl
take-iota (suc n) i zero h = absurd (omega arith)
take-iota (suc n) i (suc m) h = ap (◌∷◌ i) (take-iota n (suc i) m (omega arith))

-- With a selection vector they are the entries of it.
Visits-some :
    (batch : RecordBatch) (i : ℕ) (sel rows : List ℕ)
    → StandsAt batch i sel
    → Visits batch i rows
    → (length rows ≤ length sel) × (take (length rows) sel ≡ rows)
Visits-some batch i sel [] h w = (omega arith, refl)
Visits-some batch i [] (r ∷ rs) h w =
    let past : real_index batch i ≡ err out_of_bounds = ap (real_index batch) (omega arith) ∙ h 0 in
    cc
Visits-some batch i (s ∷ sel) (r ∷ rs) h w =
    let (here, later) = StandsAt-next batch i s sel h in
    let same : s ≡ r = cc in
    let (short, rest) = Visits-some batch (suc i) sel rs later w.1 in (omega arith, rw (same, rest))

take-take : (n m : ℕ) (xs : List ℕ) → n ≤ m → take n (take m xs) ≡ take n xs
take-take zero m xs h = refl
take-take (suc n) zero xs h = absurd (omega arith)
take-take (suc n) (suc m) [] h = refl
take-take (suc n) (suc m) (x ∷ xs) h = ap (◌∷◌ x) (take-take n m xs (omega arith))

cut_selection_lem :
    {batch : RecordBatch} {rows : List ℕ} (n : ℕ)
    → HasRows batch rows
    → n ≤ length rows
    → cut_selection batch.selection_vector n ≡ ok (take n rows)
unfolding cut_selection real_index
cut_selection_lem {batch} {rows} n h le = elim (Option-cases batch.selection_vector) [
  | inl e ↦
      let numbers = Visits-none batch 0 rows e h.visits in
      rw e (ap ok (rw numbers (sym (take-iota n 0 (length rows) le))))
  | inr (sel, e) ↦
      let (short, entries) =
        Visits-some batch 0 sel rows (λ k. rw e (ap (at sel) (omega arith))) h.visits in
      let enough : leb n (length sel) ≡ true = ground arith in
      rw (e, enough) (ap ok (rw (← entries) (sym (take-take n (length rows) sel le))))
]

-- What a transform passes on: nothing, for no rows, or a batch of the same columns.
abbrev pub Passes : Option RecordBatch → RecordBatch → List ℕ → Type 0
Passes none batch rows = rows ≡ []
Passes (some out) batch rows = HasRows out rows × (out.columns ≡ batch.columns)

cut-HasRows :
    {batch : RecordBatch} {rows : List ℕ} (n : ℕ)
    → HasRows batch rows
    → n ≤ length rows
    → HasRows (record batch { num_rows = n; selection_vector = some (take n rows) }) (take n rows)
unfolding real_index
cut-HasRows {batch} {rows} n h le = record {
  counted = omega (arith, length-take n rows);
  visits =
      Visits-self (record batch { num_rows = n; selection_vector = some (take n rows) }) 0
        (take n rows) (λ k. ap (at (take n rows)) (omega arith));
  increasing = Increasing-take n rows h.increasing;
}

-- One step of LIMIT on a batch, while the count of rows does not reach 2 ^ 64: the rows that are
-- left of the limit pass, from the front of the batch and with its columns; the rows of the batch
-- are counted; and LIMIT is done once the count reaches the limit.
pub execute_limit-Passes :
    (op : LimitTransformOperator) {batch : RecordBatch} {rows : List ℕ}
    → HasRows batch rows
    → op.cur_rows + length rows < 2 ^ 64
    → (next : LimitTransformOperator) × (out : Option RecordBatch) × (execute_limit op batch
        ≡ ok (next, out))
      × Passes out batch (take (op.limit - op.cur_rows) rows)
      × (next.limit ≡ op.limit)
      × (next.cur_rows ≡ op.cur_rows + length rows)
      × (next.done ≡ (leb op.limit (op.cur_rows + length rows) || op.done))
unfolding execute_limit
execute_limit-Passes op {batch} {rows} h fits =
    let sum : op.cur_rows + batch.num_rows ≡ op.cur_rows + length rows =
      ap (◌+◌ op.cur_rows) h.counted in
    let wrap : (op.cur_rows + batch.num_rows) % 2 ^ 64 ≡ op.cur_rows + length rows =
      omega (arith, sum) in
    let next : Bool → LimitTransformOperator =
      λ done. record op { cur_rows = op.cur_rows + length rows; done = done } in
    elim (Bool-cases (leb op.limit op.cur_rows)) [
      | inl past ↦
          let none_left : op.limit - op.cur_rows ≡ 0 = ground arith in
          let reached : leb op.limit (op.cur_rows + length rows) ≡ true = ground arith in
          (next true, none, rw (wrap, past), rw none_left, refl, refl, rw reached)
      | inr before ↦ elim (Bool-cases (leb batch.num_rows (op.limit - op.cur_rows))) [
        | inl whole ↦
            let all : take (op.limit - op.cur_rows) rows ≡ rows =
              take_ge (op.limit - op.cur_rows) rows (ground (arith, h.counted)) in
            elim (Bool-cases (leb op.limit (op.cur_rows + length rows))) [
              | inl reached ↦ (
                next true,
                some batch,
                rw (before, whole, wrap, sum, reached),
                (rw all h, refl),
                refl,
                refl,
                rw reached,
              )
              | inr more ↦ (
                next op.done,
                some batch,
                rw (before, whole, wrap, sum, more),
                (rw all h, refl),
                refl,
                refl,
                rw more,
              )
            ]
        | inr cut ↦
            let le : op.limit - op.cur_rows ≤ length rows = ground (arith, h.counted) in
            let reached : leb op.limit (op.cur_rows + length rows) ≡ true =
              ground (arith, h.counted) in
            (
              next true,
              some (record batch {
                num_rows = op.limit - op.cur_rows;
                selection_vector = some (take (op.limit - op.cur_rows) rows);
              }),
              rw (before, cut, wrap, cut_selection_lem (op.limit - op.cur_rows) h le),
              (cut-HasRows (op.limit - op.cur_rows) h le, refl),
              refl,
              refl,
              rw reached,
            )
      ]
    ]
