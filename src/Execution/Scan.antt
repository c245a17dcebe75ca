-- ===== src/Execution/Scan.antt =====
-- A scan of a file gives each of its batches once, in order.
use columnar_engine.Base.{
  All, lt_of_get_elem?, ◌==◌, if◌then◌else◌, ℕ, zero, suc, ◌+◌, ◌%◌, ◌^◌, ◌<◌, ◌≡◌, refl, sym, ap,
  ◌∙◌, Bool, true, false, none, some, List, [], ◌∷◌, ◌++◌, append_assoc, append-nil, arith, leb,
  length, length-append_one, get_elem?, get_elem?-append, Result, ok, err, ◌>>=◌, >>=-eq-ok, at,
  of_option, out_of_fuel, inl, inr, Option-cases,
}
use columnar_engine.Base.Words.{Bytes}
use columnar_engine.Columns.Column.{Column, column_size}
use columnar_engine.Io.Reader.{parse_metadata, MetadataTable, get_column_data}
use columnar_engine.Io.Writer.{ColumnarWriter, finalize}
use columnar_engine.Io.Session.{IsWriting}
use columnar_engine.Io.Contents.{Cell, InRange, read-write}
use columnar_engine.Execution.Batch.{RecordBatch}
use columnar_engine.Execution.Operators.{ScanOperator, scan_columns, scan_data, pick_columns}

-- `while (auto batch = source->GetData())` of a pipeline over a scan: the columns of the batches. A
-- scan of columns ends after the chunks of the file, so their number and one more is fuel enough.
unfoldable pub drain_scan : ℕ → ScanOperator → Result (List (List Column))
drain_scan zero op = err out_of_fuel
drain_scan (suc fuel) op = do
  r ← scan_data op
  elim r.1 [
    | none ↦ ok []
    | some batch ↦ (do rest ← drain_scan fuel r.0; ok (batch.columns ∷ rest))
  ]

at-some : {A : Type 0} (xs : List A) (i : ℕ) {a : A} → at xs i ≡ ok a → get_elem? xs i ≡ some a
at-some xs i e = elim (Option-cases (get_elem? xs i)) [
  | inl h ↦ let bad : of_option none ≡ ok _ = rw h at e in cc
  | inr (b, h) ↦ let good : of_option (some b) ≡ ok _ = rw h at e in cc
]

-- Columns of the batch read from the file.
scan_columns_lem :
    (op : ScanOperator) (inds : List ℕ) (k n : ℕ) (b cols : List Column)
    → ((i : ℕ) (c : Column)
        → get_elem? b i ≡ some c
        → get_column_data op.metadata op.file i k ≡ ok c)
    → pick_columns b inds ≡ ok cols
    → (rows : ℕ) × (scan_columns op inds k n ≡ ok (cols, rows))
unfolding scan_columns pick_columns
scan_columns_lem op [] k n b cols reads e = let same : [] ≡ cols = cc in (n, rw same)
scan_columns_lem op (i ∷ inds) k n b cols reads e =
    let (c, here, e1) = >>=-eq-ok (at b i) _ e in
    let (rest, later, e2) = >>=-eq-ok (pick_columns b inds) _ e1 in
    let same : c ∷ rest ≡ cols = cc in
    let (rows, scanned) =
      scan_columns_lem op inds k (if n == 0 then column_size c else n) b rest reads later in
    (rows, rw (reads i c (at-some b i here), scanned, same))

-- The columns that the scan takes of each batch.
abbrev pub PicksAll : List ℕ → List (List Column) → List (List Column) → Type 0
PicksAll inds [] [] = Unit
PicksAll inds [] (cols ∷ rest) = ⊥
PicksAll inds (b ∷ bs) [] = ⊥
PicksAll inds (b ∷ bs) (cols ∷ rest) = (pick_columns b inds ≡ ok cols) × PicksAll inds bs rest

module _ (file : Bytes) (metadata : MetadataTable) (index : ℕ) (indices : List ℕ) (finished : Bool)
    (bs : List (List Column)) where
  -- A scan of some columns of a file with a chunk for each batch, at a chunk.
  abbrev pub scan_at : ℕ → ScanOperator
  scan_at chunk = record {
    file = file;
    metadata = metadata;
    column_indices = index ∷ indices;
    current_chunk = chunk;
    total_chunks = length bs;
    finished_empty_scan = finished;
  }

  -- The chunks of the file are the columns of the batches.
  abbrev pub HoldsCells : Type 0
  HoldsCells = (i k : ℕ) (c : Column) → Cell bs i k c → get_column_data metadata file i k ≡ ok c

  scan_data-some :
      (chunk : ℕ) (b cols : List Column)
      → HoldsCells
      → length bs < 2 ^ 64
      → get_elem? bs chunk ≡ some b
      → pick_columns b (index ∷ indices) ≡ ok cols
      → (batch : RecordBatch) × (scan_data (scan_at chunk) ≡ ok (scan_at (suc chunk), some batch))
        × (batch.columns ≡ cols)
  unfolding scan_data
  scan_data-some chunk b cols cells few e p =
      let (rows, scanned) =
        scan_columns_lem (scan_at chunk) (index ∷ indices) chunk 0 b cols
          (λ i c here. cells i chunk c (b, e, here)) p in
      let lt = lt_of_get_elem? bs chunk e in
      let within : leb (length bs) chunk ≡ false = ground arith in
      let next : (chunk + 1) % 2 ^ 64 ≡ suc chunk = omega arith in
      (
        record { num_rows = rows; selection_vector = none; columns = cols },
        rw (within, next, scanned),
        refl,
      )

  scan_data-none : (next : ScanOperator) × (scan_data (scan_at (length bs)) ≡ ok (next, none))
  unfolding scan_data
  scan_data-none =
      let past : leb (length bs) (length bs) ≡ true = ground arith in
      (record (scan_at (length bs)) { current_chunk = (length bs + 1) % 2 ^ 64 }, rw past)

  drain_from :
      (fuel : ℕ) (pre left picked : List (List Column))
      → HoldsCells
      → length bs < 2 ^ 64
      → pre ++ left ≡ bs
      → PicksAll (index ∷ indices) left picked
      → length left < fuel
      → drain_scan fuel (scan_at (length pre)) ≡ ok picked
  unfolding drain_scan
  drain_from zero pre left picked cells few e p fit = absurd (omega arith)
  drain_from (suc fuel) pre [] [] cells few e p fit =
      let all : length pre ≡ length bs = ap length (sym (append-nil pre) ∙ e) in
      let (next, done) = scan_data-none in rw (all, done)
  drain_from (suc fuel) pre [] (cols ∷ rest) cells few e p fit = elim p [ ]
  drain_from (suc fuel) pre (b ∷ left) [] cells few e p fit = elim p [ ]
  drain_from (suc fuel) pre (b ∷ left) (cols ∷ rest) cells few e p fit =
      let here : get_elem? bs (length pre) ≡ some b = rw (← e) (get_elem?-append pre b left) in
      let (batch, read, taken) = scan_data-some (length pre) b cols cells few here p.0 in
      let later : drain_scan fuel (scan_at (suc (length pre))) ≡ ok rest =
        rw (← length-append_one pre b) (
          drain_from fuel (pre ++ b ∷ []) left rest cells few (append_assoc pre (b ∷ []) left ∙ e)
            p.1 (omega arith)) in
      rw (read, later, taken)

-- A scan of at least one column, of a file of which each chunk is a column of a batch, ends and
-- gives the chosen columns of each batch, once and in the order of the batches.
pub drain_scan_lem :
    (file : Bytes) (metadata : MetadataTable) (index : ℕ) (indices : List ℕ) (finished : Bool)
    (bs picked : List (List Column))
    → HoldsCells file metadata index indices finished bs
    → length bs < 2 ^ 64
    → PicksAll (index ∷ indices) bs picked
    → drain_scan (suc (length bs)) (scan_at file metadata index indices finished bs 0) ≡ ok picked
drain_scan_lem file metadata index indices finished bs picked cells few p =
    drain_from file metadata index indices finished bs (suc (length bs)) [] bs picked cells few refl
      p (omega arith)

-- From the writer to a scan: after a header and the batches `bs`, in the ranges of the format,
-- finishing the file succeeds, its metadata is parsed, and a scan of at least one column of the file
-- gives the chosen columns of each batch, once and in order, and ends.
pub drain_scan-write :
    {wr : ColumnarWriter} {bs : List (List Column)} (index : ℕ) (indices : List ℕ)
    (picked : List (List Column))
    → IsWriting wr bs
    → InRange wr bs
    → All (λ b. length b ≡ length wr.metadata) bs
    → PicksAll (index ∷ indices) bs picked
    → (done : ColumnarWriter) × (table : MetadataTable) × (finalize wr ≡ ok done)
      × (parse_metadata done.file ≡ ok table)
      × (drain_scan (suc (length bs)) (scan_at done.file table index indices false bs 0)
          ≡ ok picked)
drain_scan-write {wr} {bs} index indices picked w r widths p =
    let (done, table, finished, parsed, _, _, cells) = read-write w r widths in
    let few : length bs < 2 ^ 64 = omega (arith, r.batches_few) in
    (
      done,
      table,
      finished,
      parsed,
      drain_scan_lem done.file table index indices false bs picked cells few p,
    )
