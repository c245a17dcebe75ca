-- ===== src/Csv/Loop.antt =====
-- The outer loop of `WriteToColumnar`, round by round.
use columnar_engine.Base.{
  ℕ, suc, ◌+◌, ◌≤◌, ◌<◌, ◌^◌, ◌≡◌, ◌≢◌, refl, sym, ap, ◌∙◌, subst, inl, inr, true, false, not, ◌||◌,
  List, [], ◌∷◌, ◌++◌, map, append-nil, arith, leb, ◌==◌, length, All-split, All, Result, ok, ◌>>=◌,
}
use columnar_engine.Base.Words.{Bytes}
use columnar_engine.Types.ColumnTypes.{ColumnType}
use columnar_engine.Strings.Table.{empty_table, width}
use columnar_engine.Strings.Rows.{HoldsRows}
use columnar_engine.Columns.Column.{Column}
use columnar_engine.Columns.BuiltRows.{IsTexts, BuiltAll}
use columnar_engine.Io.Session.{IsWriting}
use columnar_engine.Csv.Buffer.{Left}
use columnar_engine.Csv.RoundTrip.{quote}
use columnar_engine.Csv.Reader.{CsvReader, Cache, fill_cache, rows_per_chunk}
use columnar_engine.Csv.Import.{Row, IsRow, fields_of, print_rows, Filled, Ends, has_room}
use columnar_engine.Csv.Cache.{Stops, rows_size, rows_size-append, approx_byte_size-HoldsRows}
use columnar_engine.Csv.Convert.{Conversion, import_rows, add_batches, flush_builders}
use columnar_engine.Csv.Imported.{Imported, IsFull}

module _ (capacity : ℕ) (parse_float : ColumnType → Bytes → Result ℕ) where
  -- The ways in which a round ends.
  pub round_end :
      (fuel : ℕ) (reader : CsvReader) (state : Conversion) (acc : ℕ) (c : Cache)
      → fill_cache capacity (suc rows_per_chunk) reader empty_table acc 0 ≡ ok c
      → (c.rows == 0) ≡ true
      → import_rows capacity parse_float (suc fuel) reader state acc ≡ ok state
  unfolding import_rows
  round_end fuel reader state acc c e z = rw (import_rows, e, ◌>>=◌, z)

  pub round_keep :
      (fuel : ℕ) (reader : CsvReader) (state : Conversion) (acc : ℕ) (c : Cache) (cs : List Column)
      → fill_cache capacity (suc rows_per_chunk) reader empty_table acc 0 ≡ ok c
      → (c.rows == 0) ≡ false
      → add_batches capacity parse_float state.builders c.batch 0 (width c.batch) ≡ ok cs
      → (leb rows_per_chunk (acc + c.rows) || not c.end_flag) ≡ false
      → import_rows capacity parse_float (suc fuel) reader state acc
        ≡ import_rows capacity parse_float fuel c.reader
            (record state { builders = cs })
            (acc + c.rows)
  unfolding import_rows
  round_keep fuel reader state acc c cs e z a b = rw (import_rows, e, ◌>>=◌, z, a, ◌>>=◌, b)

  pub round_flush :
      (fuel : ℕ) (reader : CsvReader) (state mid : Conversion) (acc : ℕ) (c : Cache)
      (cs : List Column)
      → fill_cache capacity (suc rows_per_chunk) reader empty_table acc 0 ≡ ok c
      → (c.rows == 0) ≡ false
      → add_batches capacity parse_float state.builders c.batch 0 (width c.batch) ≡ ok cs
      → (leb rows_per_chunk (acc + c.rows) || not c.end_flag) ≡ true
      → flush_builders state.writer cs ≡ ok mid
      → import_rows capacity parse_float (suc fuel) reader state acc ≡ elim c.end_flag [
        | true ↦ import_rows capacity parse_float fuel c.reader mid 0
        | false ↦ ok mid
      ]
  unfolding import_rows
  round_flush fuel reader state mid acc c cs e z a b f =
      rw (import_rows, e, ◌>>=◌, z, a, ◌>>=◌, b, f)

-- A full cache of fewer than 8192 rows is full of bytes.
pub full_of_bytes :
    (c : Cache) (acc : ℕ) (rows : List (List Bytes))
    → HoldsRows c.batch rows [] []
    → has_room c.batch acc c.rows ≡ false
    → acc + c.rows < 8192
    → 2 ^ 20 ≤ rows_size rows + 8
full_of_bytes c acc rows holds full lt = ground (arith, approx_byte_size-HoldsRows holds)

-- An empty cache is not full.
no_rows_end :
    (c : Cache) (acc delim expected : ℕ) (left : List Row)
    → HoldsRows c.batch [] [] []
    → (c.rows ≡ 0)
    → acc < 8192
    → Stops acc c
    → Ends c acc delim expected left
    → left ≡ []
no_rows_end c acc delim expected left holds none lt stops (inr e) = e.1
no_rows_end c acc delim expected left holds none lt stops (inl e) =
    let full = stops.1 e.0 in absurd (ground (arith, approx_byte_size-HoldsRows holds))

pub IsFull-append :
    (pending rows : List (List Bytes)) → 2 ^ 20 ≤ rows_size rows + 8 → IsFull (pending ++ rows)
IsFull-append pending rows h = inr (omega (arith, rows_size-append pending rows))

module _ (k : ℕ) (parse_float : ColumnType → Bytes → Result ℕ) (t : ColumnType)
    (ts : List ColumnType) where
  -- What a round starts with: the rows `todo` in the file, and `pending` in the builders.
  pub record Ready (reader : CsvReader) (state : Conversion) (bs : List (List Column))
      (pending : List (List Bytes)) (todo : List Row) : Type 0 where
    pub left : Left reader.tokenizer (print_rows reader.tokenizer.delim todo)
    pub no_quote : reader.tokenizer.delim ≢ quote
    pub no_line : reader.tokenizer.delim ≢ b'\n'
    pub rows_are : All (IsRow (suc (length ts))) todo
    pub texts : All (λ row. IsTexts parse_float 0 (t ∷ ts) (fields_of row)) todo
    pub expected :
        (reader.expected_columns == 0 || suc (length ts) == reader.expected_columns) ≡ true
    pub writing : IsWriting state.writer bs
    pub types_are : map (λ m. m.type_of) state.writer.metadata ≡ t ∷ ts
    pub built : BuiltAll parse_float 0 (t ∷ ts) state.builders pending
    pub few : length pending < 8192
    pub full : IsFull pending

  -- The next round is ready for the rows that the cache left.
  pub next-Ready :
      {reader : CsvReader} {state : Conversion} {bs : List (List Column)}
      {pending : List (List Bytes)} {todo : List Row} (state' : Conversion)
      (bs' : List (List Column)) (pending' : List (List Bytes)) (taken left : List Row) (c : Cache)
      → Ready reader state bs pending todo
      → todo ≡ taken ++ left
      → Left c.reader.tokenizer (print_rows reader.tokenizer.delim left)
      → c.reader.tokenizer.delim ≡ reader.tokenizer.delim
      → c.reader.expected_columns ≡ reader.expected_columns
      → IsWriting state'.writer bs'
      → map (λ m. m.type_of) state'.writer.metadata ≡ t ∷ ts
      → BuiltAll parse_float 0 (t ∷ ts) state'.builders pending'
      → length pending' < 8192
      → IsFull pending'
      → Ready c.reader state' bs' pending' left
  next-Ready {reader} state' bs' pending' taken left c r e l d x writing types built few full =
      record {
        left = subst (λ n. Left c.reader.tokenizer (print_rows n left)) (sym d) l;
        no_quote = rw d r.no_quote;
        no_line = rw d r.no_line;
        rows_are = (All-split (IsRow (suc (length ts))) taken left (rw e at r.rows_are)).1;
        texts =
            (All-split (λ row. IsTexts parse_float 0 (t ∷ ts) (fields_of row)) taken left
              (rw e at r.texts)).1;
        expected = rw x r.expected;
        writing = writing;
        types_are = types;
        built = built;
        few = few;
        full = full;
      }

  -- The outcome of the loop.
  abbrev pub Outcome :
      ℕ → CsvReader → Conversion → List (List Column) → List (List Bytes) → List Row → Type 0
  Outcome fuel reader state bs pending todo =
      (d : Conversion) × (import_rows (suc k) parse_float fuel reader state (length pending) ≡ ok d)
      × Imported parse_float (t ∷ ts) d state.writer bs (pending ++ map fields_of todo)

  -- No row was left: the rows in the builders stay there.
  pub end_round :
      (fuel : ℕ) (reader : CsvReader) (state : Conversion) (bs : List (List Column))
      (pending : List (List Bytes)) (todo : List Row) (c : Cache)
      → Ready reader state bs pending todo
      → fill_cache (suc k) (suc rows_per_chunk) reader empty_table (length pending) 0 ≡ ok c
      → (f : Filled c [] (length pending) 0 reader.tokenizer.delim reader.expected_columns todo)
      → f.taken ≡ []
      → Stops (length pending) c
      → Outcome (suc fuel) reader state bs pending todo
  end_round fuel reader state bs pending todo c r e f none stops =
      let no_rows : c.rows ≡ 0 = omega (arith, f.counted, ap length none) in
      let holds : HoldsRows c.batch [] [] [] =
        subst (λ taken. HoldsRows c.batch (map fields_of taken) [] []) none f.holds in
      let ended : f.left ≡ [] =
        no_rows_end c (length pending) reader.tokenizer.delim reader.expected_columns f.left holds
          no_rows r.few stops f.ends in
      let nothing : todo ≡ [] = f.splits ∙ rw (none, ended) in
      (
        state,
        round_end (suc k) parse_float fuel reader state (length pending) c e
            (ground (arith, no_rows)),
        record {
          groups = [];
          batches = [];
          lost = pending;
          splits = ap (λ rows. pending ++ map fields_of rows) nothing ∙ append-nil pending;
          each = tt;
          writing = rw append-nil r.writing;
          headers = refl;
          kept = r.built;
          few = r.few;
          full = r.full;
        },
      )
