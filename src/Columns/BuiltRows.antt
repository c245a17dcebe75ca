-- ===== src/Columns/BuiltRows.antt =====
-- What `AddBatch` of each builder makes of the rows of a table.
use columnar_engine.Base.{
  ℕ, zero, suc, ◌+◌, ◌<◌, ◌≡◌, ◌≢◌, refl, sym, ap, ◌∙◌, some, false, List, [], ◌∷◌, ◌++◌, map,
  append_assoc, append-nil, arith, ◌==◌, length, get_elem?, get_elem?_lt, get_or, All, All-map,
  Result, ok, get_elem?-append, get_elem?-append_lt, lt_of_get_elem?, length-append_one,
}
use columnar_engine.Base.Words.{Bytes}
use columnar_engine.Types.ColumnTypes.{
  ColumnType, elem_size, int16, int32, int64, int128, float32, float64, long_double, char, string,
  date, timestamp, unnamed,
}
use columnar_engine.Strings.Flat.{empty}
use columnar_engine.Strings.Reads.{empty-Holds}
use columnar_engine.Strings.Table.{Table, height, width}
use columnar_engine.Strings.Rows.{HoldsRows, width_of}
use columnar_engine.Strings.Cells.{get_string_2d-HoldsRows}
use columnar_engine.Columns.Column.{Column, fixed, strings, clear_column}
use columnar_engine.Columns.Builders.{make_column, make_column_builders, add_rows, add_batch}
use columnar_engine.Columns.Built.{
  IsText, Built, built_words, built_strings, column_of, add_text-Built, Built-clear,
}

get_or-some : (xs : List Bytes) (i : ℕ) {x : Bytes} → get_elem? xs i ≡ some x → get_or xs i [] ≡ x
get_or-some [] i e = cc
get_or-some (y ∷ xs) zero e = cc
get_or-some (y ∷ xs) (suc i) e = get_or-some xs i e

get_elem?-get_or :
    (xs : List Bytes) (i : ℕ) → i < length xs → get_elem? xs i ≡ some (get_or xs i [])
get_elem?-get_or xs i lt =
    let (x, e) = get_elem?_lt xs i lt in e ∙ ap some (sym (get_or-some xs i e))

-- The width of a table of rows of one width.
All-width_of :
    (w : ℕ) (rows : List (List Bytes))
    → All (λ r. length r ≡ w) rows
    → All (λ r. length r ≡ width_of rows) rows
All-width_of w [] h = tt
All-width_of w (r ∷ rows) h = All-map (λ q e. e ∙ sym h.0) (r ∷ rows) h

pub height-HoldsRows :
    {batch : Table} {rows : List (List Bytes)}
    → HoldsRows batch rows [] []
    → height batch ≡ length rows
unfolding height
height-HoldsRows h = rw h.in_line (omega (arith, h.lines_are))

pub width-HoldsRows :
    {batch : Table} {r : List Bytes} {rows : List (List Bytes)}
    → HoldsRows batch (r ∷ rows) [] []
    → width batch ≡ length r
unfolding width
width-HoldsRows {batch} h =
    let later : (batch.lines == 1) ≡ false = ground (arith, h.lines_are) in rw later h.columns_are

module _ (parse_float : ColumnType → Bytes → Result ℕ) where
  -- The fields of a row from `j` on have values in the columns of these types, and are all of it.
  abbrev pub IsTexts : ℕ → List ColumnType → List Bytes → Type 0
  IsTexts j [] r = length r ≡ j
  IsTexts j (t ∷ ts) r = IsText parse_float t (get_or r j []) × IsTexts (suc j) ts r

  pub length-IsTexts :
      (j : ℕ) (ts : List ColumnType) (r : List Bytes) → IsTexts j ts r → length r ≡ j + length ts
  length-IsTexts j [] r h = h ∙ omega arith
  length-IsTexts j (t ∷ ts) r h = omega (arith, length-IsTexts (suc j) ts r h.1)

  -- The columns from `j` on have the values of the rows.
  abbrev pub BuiltAll : ℕ → List ColumnType → List Column → List (List Bytes) → Type 0
  BuiltAll j [] [] rows = Unit
  BuiltAll j (t ∷ ts) (c ∷ cs) rows =
      Built parse_float t c (column_of j rows) × BuiltAll (suc j) ts cs rows
  BuiltAll j _ _ rows = ⊥

  -- The builder of one column takes its fields from the rows of the table.
  add_rows-Built :
      (batch : Table) (w j : ℕ) {t : ColumnType} (pre rest : List (List Bytes)) {c : Column}
      {ss : List Bytes}
      → HoldsRows batch (pre ++ rest) [] []
      → All (λ r. length r ≡ w) (pre ++ rest)
      → j < w
      → All (λ r. IsText parse_float t (get_or r j [])) rest
      → All (λ r. length r ≡ w) rest
      → Built parse_float t c ss
      → (c' : Column) × (add_rows parse_float c batch j (length pre) (length rest) ≡ ok c')
        × Built parse_float t c' (ss ++ column_of j rest)
  unfolding add_rows
  add_rows-Built batch w j pre [] {c} holds widths lt texts ws built =
      (c, refl, rw append-nil built)
  add_rows-Built batch w j {t} pre (r ∷ rest) {c} {ss} holds widths lt texts ws built =
      let s = get_or r j [] in
      let (next, added, built') = add_text-Built parse_float s built texts.0 in
      let row : get_elem? ((pre ++ r ∷ rest) ++ [] ∷ []) (length pre) ≡ some r =
        get_elem?-append_lt (pre ++ r ∷ rest) ([] ∷ []) (length pre)
          (lt_of_get_elem? (pre ++ r ∷ rest) (length pre) (get_elem?-append pre r rest))
        ∙ get_elem?-append pre r rest in
      let field : get_elem? r j ≡ some s = get_elem?-get_or r j (omega (arith, ws.0)) in
      let read =
        get_string_2d-HoldsRows (length pre) j r s holds (All-width_of w (pre ++ r ∷ rest) widths)
          row field in
      let again = append_assoc pre (r ∷ []) rest in
      let (c', more, done) =
        add_rows-Built batch w j (pre ++ r ∷ []) rest (rw again holds) (rw again widths) lt texts.1
          ws.1 built' in
      (
        c',
        rw (read, added, ← length-append_one pre r) more,
        rw (append_assoc ss (s ∷ []) (column_of j rest)) at done,
      )

  pub add_batch-Built :
      (batch : Table) (w j : ℕ) {t : ColumnType} {c : Column} {ss : List Bytes}
      (rows : List (List Bytes))
      → HoldsRows batch rows [] []
      → All (λ r. length r ≡ w) rows
      → j < w
      → All (λ r. IsText parse_float t (get_or r j [])) rows
      → Built parse_float t c ss
      → (c' : Column) × (add_batch parse_float c batch j ≡ ok c')
        × Built parse_float t c' (ss ++ column_of j rows)
  unfolding add_batch
  add_batch-Built batch w j rows holds widths lt texts built =
      rw (height-HoldsRows holds)
        (add_rows-Built batch w j [] rows holds widths lt texts widths built)

  -- A type that has a name has a builder, and a new builder has built nothing.
  make_column-Built :
      (t : ColumnType)
      → ((n : ℕ) → t ≢ unnamed n)
      → (c : Column) × (make_column t ≡ ok c) × Built parse_float t c []
  unfolding make_column elem_size
  make_column-Built int16 h = (fixed int16 [], refl, built_words 2 refl tt)
  make_column-Built int32 h = (fixed int32 [], refl, built_words 4 refl tt)
  make_column-Built int64 h = (fixed int64 [], refl, built_words 8 refl tt)
  make_column-Built int128 h = (fixed int128 [], refl, built_words 16 refl tt)
  make_column-Built float32 h = (fixed float32 [], refl, built_words 4 refl tt)
  make_column-Built float64 h = (fixed float64 [], refl, built_words 8 refl tt)
  make_column-Built long_double h = (fixed long_double [], refl, built_words 16 refl tt)
  make_column-Built char h = (fixed char [], refl, built_words 1 refl tt)
  make_column-Built date h = (fixed date [], refl, built_words 4 refl tt)
  make_column-Built timestamp h = (fixed timestamp [], refl, built_words 8 refl tt)
  make_column-Built string h = (strings empty, refl, built_strings empty-Holds tt)
  make_column-Built (unnamed n) h = absurd (h n refl)

  pub make_column_builders-BuiltAll :
      (j : ℕ) (ts : List ColumnType)
      → All (λ t. (n : ℕ) → t ≢ unnamed n) ts
      → (cs : List Column) × (make_column_builders ts ≡ ok cs) × BuiltAll j ts cs []
  unfolding make_column_builders
  make_column_builders-BuiltAll j [] h = ([], refl, tt)
  make_column_builders-BuiltAll j (t ∷ ts) h =
      let (c, made, built) = make_column-Built t h.0 in
      let (cs, rest, all) = make_column_builders-BuiltAll (suc j) ts h.1 in
      (c ∷ cs, rw (made, rest), (built, all))

  -- Builders that are moved out have built nothing.
  pub BuiltAll-clear :
      (j : ℕ) (ts : List ColumnType) (cs : List Column) (rows : List (List Bytes))
      → BuiltAll j ts cs rows
      → BuiltAll j ts (map clear_column cs) []
  BuiltAll-clear j [] [] rows h = tt
  BuiltAll-clear j [] (c ∷ cs) rows h = absurd h
  BuiltAll-clear j (t ∷ ts) [] rows h = absurd h
  BuiltAll-clear j (t ∷ ts) (c ∷ cs) rows h =
      (Built-clear parse_float h.0, BuiltAll-clear (suc j) ts cs rows h.1)
