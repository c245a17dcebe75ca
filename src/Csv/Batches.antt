-- ===== src/Csv/Batches.antt =====
-- One round of `WriteToColumnar`: the rows of the cache go to the builders, and the columns of the
-- builders to the file.
use columnar_engine.Base.{
  ℕ, suc, ◌+◌, ◌<◌, ◌≡◌, refl, ap, ◌∙◌, true, List, [], ◌∷◌, ◌++◌, map, append_assoc, arith, length,
  get_or, set, All, All-map, Result, ok, get_elem?-append, length-map, length-append_one,
}
use columnar_engine.Base.Words.{Bytes}
use columnar_engine.Types.ColumnTypes.{ColumnType}
use columnar_engine.Strings.Table.{Table, width}
use columnar_engine.Strings.Reads.{size-Holds}
use columnar_engine.Strings.Rows.{HoldsRows}
use columnar_engine.Columns.Column.{Column, column_size, clear_column}
use columnar_engine.Columns.Builders.{finish_builder}
use columnar_engine.Columns.Built.{
  Built, built_words, built_strings, Built-Storable, column_of, length-Words,
}
use columnar_engine.Columns.BuiltRows.{
  IsTexts, BuiltAll, add_batch-Built, width-HoldsRows, length-IsTexts,
}
use columnar_engine.Io.Metadata.{ColumnMetadata}
use columnar_engine.Io.Stored.{StorableAll, column, no_column}
use columnar_engine.Io.Writer.{ColumnarWriter, write_batch}
use columnar_engine.Csv.Convert.{add_batches, flush_builders, has_rows}

set-append :
    (xs : List Column) (x y : Column) (ys : List Column)
    → set (xs ++ x ∷ ys) (length xs) y ≡ xs ++ y ∷ ys
set-append [] x y ys = refl
set-append (z ∷ xs) x y ys = ap (◌∷◌ z) (set-append xs x y ys)

column_of-append :
    (j : ℕ) (rows more : List (List Bytes))
    → column_of j (rows ++ more) ≡ column_of j rows ++ column_of j more
column_of-append j [] more = refl
column_of-append j (r ∷ rows) more = ap (◌∷◌ (get_or r j [])) (column_of-append j rows more)

module _ (capacity : ℕ) (parse_float : ColumnType → Bytes → Result ℕ) where
  -- The rows of the table are added behind those that the builders have.
  add_batches-BuiltAll :
      (batch : Table) (w : ℕ) (rows more : List (List Bytes)) (ts : List ColumnType)
      (pre cs : List Column)
      → HoldsRows batch more [] []
      → All (λ r. length r ≡ w) more
      → length pre + length ts ≡ w
      → All (IsTexts parse_float (length pre) ts) more
      → BuiltAll parse_float (length pre) ts cs rows
      → (cs' : List Column) × (add_batches capacity parse_float
            (pre ++ cs)
            batch
            (length pre)
            (length ts)
          ≡ ok (pre ++ cs'))
        × BuiltAll parse_float (length pre) ts cs' (rows ++ more)
  unfolding add_batches
  add_batches-BuiltAll batch w rows more [] pre [] holds widths e texts built = ([], refl, tt)
  add_batches-BuiltAll batch w rows more [] pre (c ∷ cs) holds widths e texts built = absurd built
  add_batches-BuiltAll batch w rows more (t ∷ ts) pre [] holds widths e texts built = absurd built
  add_batches-BuiltAll batch w rows more (t ∷ ts) pre (c ∷ cs) holds widths e texts built =
      let (next, added, done) =
        add_batch-Built parse_float batch w (length pre) more holds widths (omega arith)
          (All-map (λ r h. h.0) more texts) built.0 in
      let size = length-append_one pre next in
      let (cs', later, all) =
        add_batches-BuiltAll batch w rows more ts (pre ++ next ∷ []) cs holds widths
          (omega (arith, size)) (rw size (All-map (λ r h. h.1) more texts)) (rw size built.1) in
      let step : add_batches capacity parse_float (pre ++ next ∷ cs) batch (suc (length pre))
            (length ts)
          ≡ ok (pre ++ next ∷ cs') =
        rw (append_assoc pre (next ∷ []) cs, append_assoc pre (next ∷ []) cs', size) at later in
      (
        next ∷ cs',
        rw (get_elem?-append pre c cs, added, set-append pre c next cs) step,
        (rw (column_of-append (length pre) rows more) done, rw size at all),
      )

  -- The builders take all rows of a table that has some.
  pub add_table-BuiltAll :
      (batch : Table) (rows : List (List Bytes)) (r : List Bytes) (more : List (List Bytes))
      (ts : List ColumnType) (cs : List Column)
      → HoldsRows batch (r ∷ more) [] []
      → All (IsTexts parse_float 0 ts) (r ∷ more)
      → BuiltAll parse_float 0 ts cs rows
      → (cs' : List Column) × (add_batches capacity parse_float cs batch 0 (width batch) ≡ ok cs')
        × BuiltAll parse_float 0 ts cs' (rows ++ r ∷ more)
  add_table-BuiltAll batch rows r more ts cs holds texts built =
      let lengths = All-map (λ q h. length-IsTexts parse_float 0 ts q h) (r ∷ more) texts in
      let wide : width batch ≡ length ts = width-HoldsRows holds ∙ lengths.0 ∙ omega arith in
      rw wide (
        add_batches-BuiltAll batch (0 + length ts) rows (r ∷ more) ts [] cs holds lengths refl texts
          built)

-- The columns of builders can be written under the types of the header.
pub BuiltAll-StorableAll :
    (parse_float : ColumnType → Bytes → Result ℕ) (j : ℕ) (ms : List ColumnMetadata)
    (cs : List Column) (rows : List (List Bytes))
    → BuiltAll parse_float j (map (λ m. m.type_of) ms) cs rows
    → StorableAll ms cs
BuiltAll-StorableAll pf j [] [] rows h = no_column
BuiltAll-StorableAll pf j [] (c ∷ cs) rows h = absurd h
BuiltAll-StorableAll pf j (m ∷ ms) [] rows h = absurd h
BuiltAll-StorableAll pf j (m ∷ ms) (c ∷ cs) rows h =
    column (Built-Storable pf h.0) (BuiltAll-StorableAll pf (suc j) ms cs rows h.1)

map-id : (cs : List Column) → map (λ b. (finish_builder b).0) cs ≡ cs
unfolding finish_builder
map-id [] = refl
map-id (c ∷ cs) = ap (◌∷◌ c) (map-id cs)

map-clear : (cs : List Column) → map (λ b. (finish_builder b).1) cs ≡ map clear_column cs
unfolding finish_builder
map-clear [] = refl
map-clear (c ∷ cs) = ap (◌∷◌ (clear_column c)) (map-clear cs)

-- Builders with rows are written as one batch.
pub flush_builders_lem :
    (wr wr' : ColumnarWriter) (cs : List Column)
    → has_rows cs ≡ true
    → write_batch wr cs ≡ ok wr'
    → flush_builders wr cs ≡ ok (record { writer = wr'; builders = map clear_column cs })
unfolding flush_builders
flush_builders_lem wr wr' cs some_rows e = rw (map-id cs, map-clear cs, some_rows, e)

column_size-Built :
    (parse_float : ColumnType → Bytes → Result ℕ) {t : ColumnType} {c : Column} {ss : List Bytes}
    → Built parse_float t c ss
    → column_size c ≡ length ss
unfolding column_size
column_size-Built pf (built_words {t} {ws} {ss} w e h) = length-Words pf t w ss ws h
column_size-Built pf (built_strings h all) = size-Holds h

-- Builders of a column at least that have a row have rows to write.
pub has_rows-BuiltAll :
    (parse_float : ColumnType → Bytes → Result ℕ) (t : ColumnType) (ts : List ColumnType)
    (cs : List Column) (rows : List (List Bytes))
    → 0 < length rows
    → BuiltAll parse_float 0 (t ∷ ts) cs rows
    → has_rows cs ≡ true
unfolding has_rows
has_rows-BuiltAll pf t ts [] rows lt h = absurd h
has_rows-BuiltAll pf t ts (c ∷ cs) rows lt h =
    ground (arith, column_size-Built pf h.0, length-map rows (λ r. get_or r 0 []))
