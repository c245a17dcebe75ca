-- ===== src/Csv/Rounds.antt =====
-- The outer loop of `WriteToColumnar` returns, and writes the rows of the file in order.
use columnar_engine.Base.{
  ℕ, zero, suc, ◌+◌, ◌<◌, ◌≡◌, refl, sym, ap, ◌∙◌, subst, inl, inr, Bool, true, false, not, ◌||◌,
  List, [], ◌∷◌, ◌++◌, map, append_assoc, append-nil, arith, leb, Bool-cases, length, length-append,
  length-map, All-split, All-of_map, map-append, List-cases, All, Result, ok,
}
use columnar_engine.Base.Words.{Bytes}
use columnar_engine.Types.ColumnTypes.{ColumnType}
use columnar_engine.Strings.Table.{empty_table, width}
use columnar_engine.Strings.Rows.{HoldsRows, empty_table-HoldsRows}
use columnar_engine.Columns.Column.{Column}
use columnar_engine.Columns.BuiltRows.{IsTexts, BuiltAll}
use columnar_engine.Csv.Buffer.{Left}
use columnar_engine.Csv.RoundTrip.{any_width}
use columnar_engine.Csv.Reader.{CsvReader, Cache, fill_cache, rows_per_chunk}
use columnar_engine.Csv.Import.{Row, fields_of, print_rows, fill_cache-Filled, Ends}
use columnar_engine.Csv.Cache.{fill_cache-Stops, Stops}
use columnar_engine.Csv.Convert.{Conversion, import_rows, add_batches}
use columnar_engine.Csv.Batches.{add_table-BuiltAll}
use columnar_engine.Csv.Imported.{Imported, Imported-then, flush-Imported, types_of-headers}
use columnar_engine.Csv.Loop.{
  Ready, Outcome, end_round, next-Ready, full_of_bytes, round_keep, round_flush, IsFull-append,
}

go_on : (b : Bool) (x y : Result Conversion) → b ≡ true → elim b [ true ↦ x | false ↦ y ] ≡ x
go_on true x y h = refl
go_on false x y h = cc

stop_here : (b : Bool) (x y : Result Conversion) → b ≡ false → elim b [ true ↦ x | false ↦ y ] ≡ y
stop_here false x y h = refl
stop_here true x y h = cc

keep_test :
    (n : ℕ) (end : Bool) → (leb rows_per_chunk n || not end) ≡ false → (n < 8192) × (end ≡ true)
keep_test n true h = (ground arith, refl)
keep_test n false h = absurd (ground arith)

module _ (k : ℕ) (parse_float : ColumnType → Bytes → Result ℕ) (t : ColumnType)
    (ts : List ColumnType) where
  -- The rows that a cache took, and what the builders make of them.
  pub record Taken (state : Conversion) (pending : List (List Bytes)) (taken : List Row) (c : Cache)
      : Type 0 where
    pub builders : List Column
    pub added :
        add_batches (suc k) parse_float state.builders c.batch 0 (width c.batch) ≡ ok builders
    pub built : BuiltAll parse_float 0 (t ∷ ts) builders (pending ++ map fields_of taken)

  pub take_rows :
      (reader : CsvReader) (state : Conversion) (bs : List (List Column))
      (pending : List (List Bytes)) (todo taken left : List Row) (row : Row) (more : List Row)
      (c : Cache)
      → Ready k parse_float t ts reader state bs pending todo
      → todo ≡ taken ++ left
      → HoldsRows c.batch (map fields_of taken) [] []
      → taken ≡ row ∷ more
      → Taken state pending taken c
  take_rows reader state bs pending todo taken left row more c r splits holds e =
      let P = λ (row : Row). IsTexts parse_float 0 (t ∷ ts) (fields_of row) in
      let texts : All (IsTexts parse_float 0 (t ∷ ts)) (map fields_of taken) =
        All-of_map (IsTexts parse_float 0 (t ∷ ts)) fields_of taken
          (All-split P taken left (rw splits at r.texts)).0 in
      let rows : map fields_of taken ≡ fields_of row ∷ map fields_of more = ap (map fields_of) e in
      let (cs, added, built) =
        add_table-BuiltAll (suc k) parse_float c.batch pending (fields_of row) (map fields_of more)
          (t ∷ ts) state.builders (rw rows at holds) (rw rows at texts) r.built in
      record { builders = cs; added = added; built = rw rows built }

  -- The rows stay in the builders.
  keep_rows :
      (fuel : ℕ) (reader : CsvReader) (state : Conversion) (bs : List (List Column))
      (pending : List (List Bytes)) (todo taken left : List Row) (c : Cache)
      → Ready k parse_float t ts reader state bs pending todo
      → fill_cache (suc k) (suc rows_per_chunk) reader empty_table (length pending) 0 ≡ ok c
      → todo ≡ taken ++ left
      → HoldsRows c.batch (map fields_of taken) [] []
      → c.rows ≡ length taken
      → 0 < length taken
      → (got : Taken state pending taken c) → length pending + c.rows < 8192
      → c.end_flag ≡ true
      → Stops (length pending) c
      → Left c.reader.tokenizer (print_rows reader.tokenizer.delim left)
      → c.reader.tokenizer.delim ≡ reader.tokenizer.delim
      → c.reader.expected_columns ≡ reader.expected_columns
      → (Ready k parse_float t ts c.reader
            (record state { builders = got.builders })
            bs
            (pending ++ map fields_of taken)
            left
          → Outcome k parse_float t ts fuel c.reader
              (record state { builders = got.builders })
              bs
              (pending ++ map fields_of taken)
              left)
      → Outcome k parse_float t ts (suc fuel) reader state bs pending todo
  keep_rows fuel reader state bs pending todo taken left c r e splits holds counted some_rows got
        few not_ended stops l d x ih =
      let rows = pending ++ map fields_of taken in
      let state' = record state { builders = got.builders } in
      let total : length rows ≡ length pending + c.rows =
        omega (arith, length-append pending (map fields_of taken), length-map taken fields_of) in
      let bytes =
        full_of_bytes c (length pending) (map fields_of taken) holds (stops.1 not_ended) few in
      let ready =
        next-Ready k parse_float t ts state' bs rows taken left c r splits l d x r.writing
          r.types_are got.built (omega (arith, total))
          (IsFull-append pending (map fields_of taken) bytes) in
      let (done, later, imported) = ih ready in
      let more : (leb rows_per_chunk (length pending + c.rows) || not c.end_flag) ≡ false =
        ground (arith, not_ended) in
      let all : rows ++ map fields_of left ≡ pending ++ map fields_of todo =
        append_assoc pending (map fields_of taken) (map fields_of left)
        ∙ ap (λ m. pending ++ m)
            (sym (ap (map fields_of) splits ∙ map-append fields_of taken left)) in
      (
        done,
        round_keep (suc k) parse_float fuel reader state (length pending) c got.builders e
              (ground (arith, counted)) got.added more
            ∙ subst (λ n. import_rows (suc k) parse_float fuel c.reader state' n ≡ ok done) total
                later,
        subst (λ m. Imported parse_float (t ∷ ts) done state.writer bs m) all imported,
      )

  -- The rows are written; whether the loop goes on is the flag.
  flush_rows :
      (fuel : ℕ) (reader : CsvReader) (state : Conversion) (bs : List (List Column))
      (pending : List (List Bytes)) (todo taken left : List Row) (c : Cache)
      → Ready k parse_float t ts reader state bs pending todo
      → fill_cache (suc k) (suc rows_per_chunk) reader empty_table (length pending) 0 ≡ ok c
      → todo ≡ taken ++ left
      → c.rows ≡ length taken
      → 0 < length taken
      → Taken state pending taken c
      → Stops (length pending) c
      → (leb rows_per_chunk (length pending + c.rows) || not c.end_flag) ≡ true
      → Ends c (length pending) reader.tokenizer.delim reader.expected_columns left
      → ((mid : Conversion) (bs' : List (List Column))
          → Ready k parse_float t ts c.reader mid bs' [] left
          → Outcome k parse_float t ts fuel c.reader mid bs' [] left)
      → Outcome k parse_float t ts (suc fuel) reader state bs pending todo
  flush_rows fuel reader state bs pending todo taken left c r e splits counted some_rows got stops
        flush ends ih =
      let rows = pending ++ map fields_of taken in
      let total : length rows ≡ length pending + c.rows =
        omega (arith, length-append pending (map fields_of taken), length-map taken fields_of) in
      let (mid, flushed, first, none_lost, cleared) =
        flush-Imported parse_float t ts state.writer got.builders bs rows r.writing r.types_are
          got.built (omega (arith, total)) (omega (arith, total, stops.0)) in
      let all : rows ++ map fields_of left ≡ pending ++ map fields_of todo =
        append_assoc pending (map fields_of taken) (map fields_of left)
        ∙ ap (λ m. pending ++ m)
            (sym (ap (map fields_of) splits ∙ map-append fields_of taken left)) in
      let step =
        round_flush (suc k) parse_float fuel reader state mid (length pending) c got.builders e
          (ground (arith, counted)) got.added flush flushed in
      let types =
        types_of-headers mid.writer.metadata state.writer.metadata first.headers ∙ r.types_are in
      elim ends [
        | inl go ↦
            let ready =
              next-Ready k parse_float t ts mid (bs ++ first.batches) [] taken left c r splits go.1
                go.2 go.3 first.writing types cleared (omega arith) (inl refl) in
            let (done, later, second) = ih mid (bs ++ first.batches) ready in
            (
              done,
              step ∙ go_on c.end_flag _ _ go.0 ∙ later,
              subst (λ m. Imported parse_float (t ∷ ts) done state.writer bs m) all
                  (Imported-then parse_float (t ∷ ts) mid done state.writer bs rows
                    (map fields_of left) first none_lost second),
            )
        | inr done ↦ (
          mid,
          step ∙ stop_here c.end_flag _ _ done.0,
          subst (λ m. Imported parse_float (t ∷ ts) mid state.writer bs m)
              (sym (append-nil rows) ∙ ap (λ l. rows ++ map fields_of l) (sym done.1) ∙ all) first,
        )
      ]

  -- From a state that is ready, with fuel for the rows of the file, the loop returns, and the rows in
  -- the builders and those of the file are written in order, in batches of 8192 rows at most. The
  -- rows left in the builders at the end, if any, are fewer than 8192 and fill a cache.
  pub import_rows-Imported :
      (fuel : ℕ) (reader : CsvReader) (state : Conversion) (bs : List (List Column))
      (pending : List (List Bytes)) (todo : List Row)
      → Ready k parse_float t ts reader state bs pending todo
      → length todo < fuel
      → Outcome k parse_float t ts fuel reader state bs pending todo
  import_rows-Imported zero reader state bs pending todo r lt = absurd (omega arith)
  import_rows-Imported (suc fuel) reader state bs pending todo r lt =
      let (c, e, f) =
        fill_cache-Filled k (suc rows_per_chunk) todo reader empty_table (suc (length ts))
          (length pending) 0 [] r.left r.no_quote r.no_line empty_table-HoldsRows r.rows_are
          any_width r.expected (omega (arith, r.few)) in
      let stops =
        fill_cache-Stops (suc k) (suc rows_per_chunk) reader empty_table (length pending) 0 c e
          (omega (arith, r.few)) in
      elim (List-cases f.taken) [
        | inl none ↦
            end_round k parse_float t ts fuel reader state bs pending todo c r e f none stops
        | inr (row, more, some_taken) ↦
            let got =
              take_rows reader state bs pending todo f.taken f.left row more c r f.splits f.holds
                some_taken in
            let many : length f.taken ≡ suc (length more) = ap length some_taken in
            let fewer : length f.left < fuel =
              omega (arith, many, ap length f.splits, length-append f.taken f.left) in
            elim (Bool-cases (leb rows_per_chunk (length pending + c.rows) || not c.end_flag)) [
              | inl flush ↦
                  flush_rows fuel reader state bs pending todo f.taken f.left c r e f.splits
                    (omega (arith, f.counted)) (omega (arith, many)) got stops flush f.ends
                    (λ mid bs' ready.
                      import_rows-Imported fuel c.reader mid bs' [] f.left ready fewer)
              | inr keep ↦
                  let (few, not_ended) = keep_test (length pending + c.rows) c.end_flag keep in
                  elim f.ends [
                    | inl go ↦
                        keep_rows fuel reader state bs pending todo f.taken f.left c r e f.splits
                          f.holds (omega (arith, f.counted)) (omega (arith, many)) got few not_ended
                          stops go.1 go.2 go.3
                          (λ ready.
                            import_rows-Imported fuel c.reader
                              (record state { builders = got.builders }) bs
                              (pending ++ map fields_of f.taken) f.left ready fewer)
                    | inr done ↦ cc
                  ]
            ]
      ]
