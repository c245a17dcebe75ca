-- ===== src/Csv/Lost.antt =====
-- A file whose last row fills the cache in bytes, before a chunk is complete: the next round of
-- `WriteToColumnar` reads no row, and leaves the loop before the builders are written.
use columnar_engine.Columns.Schema.{Field, delimiter}
use columnar_engine.Columns.SchemaText.{IsWritten, print_schema}
use columnar_engine.Io.Header.{fresh_columns}
use columnar_engine.Io.Finish.{finalize-IsWriting}
use columnar_engine.Io.Writer.{ColumnarWriter, finalize}
use columnar_engine.Csv.Reader.{open_reader}
use columnar_engine.Csv.Convert.{convert_with_schema}
use columnar_engine.Csv.Loop.{round_end}
use columnar_engine.Csv.Rounds.{take_rows}
use columnar_engine.Csv.Converted.{
  FitsSchema, start, finish, names_of, field_types, length-print_rows,
}
use columnar_engine.Base.{
  ℕ, suc, ◌+◌, ◌-◌, ◌≤◌, ◌<◌, ◌^◌, ◌≡◌, sym, ap, ◌∙◌, subst, inl, inr, true, false, not, ◌||◌, List,
  [], ◌∷◌, ◌++◌, map, append-nil, arith, leb, length, length-append, List-cases, All, Result, ok,
}
use columnar_engine.Base.Words.{Bytes}
use columnar_engine.Types.ColumnTypes.{ColumnType}
use columnar_engine.Strings.Table.{empty_table}
use columnar_engine.Strings.Rows.{HoldsRows, empty_table-HoldsRows}
use columnar_engine.Columns.Column.{Column}
use columnar_engine.Csv.Buffer.{Left}
use columnar_engine.Csv.RoundTrip.{any_width}
use columnar_engine.Csv.Reader.{CsvReader, Cache, rows_per_chunk}
use columnar_engine.Csv.Import.{
  Row, IsRow, fields_of, print_rows, fill_cache-Filled, Filled, has_room,
}
use columnar_engine.Csv.Cache.{fill_cache-Stops, Stops, rows_size, approx_byte_size-HoldsRows}
use columnar_engine.Csv.Convert.{Conversion, import_rows}
use columnar_engine.Csv.Loop.{Ready, round_keep}

-- A proper prefix of the rows is a prefix of all but the last.
prefix-le :
    (taken : List Row) (x : Row) (l init : List Row) (last : Row)
    → taken ++ x ∷ l ≡ init ++ last ∷ []
    → rows_size (map fields_of taken) ≤ rows_size (map fields_of init)
prefix-le [] x l init last e = omega arith
prefix-le (y ∷ []) x l [] last e = cc
prefix-le (y ∷ z ∷ taken) x l [] last e = cc
prefix-le (y ∷ taken) x l (z ∷ init) last e =
    let same : z ≡ y = cc in
    let rest : taken ++ x ∷ l ≡ init ++ last ∷ [] = cc in
    omega (arith, prefix-le taken x l init last rest, ap (λ r. rows_size (fields_of r ∷ [])) same)

room_true :
    (c : Cache) (acc : ℕ) (rows : List (List Bytes))
    → HoldsRows c.batch rows [] []
    → rows_size rows + 8 < 2 ^ 20
    → acc + c.rows < 8192
    → has_room c.batch acc c.rows ≡ true
room_true c acc rows holds small few = ground (arith, approx_byte_size-HoldsRows holds)

room_false :
    (c : Cache) (acc : ℕ) (rows : List (List Bytes))
    → HoldsRows c.batch rows [] []
    → 2 ^ 20 ≤ rows_size rows + 8
    → has_room c.batch acc c.rows ≡ false
room_false c acc rows holds big = ground (arith, approx_byte_size-HoldsRows holds)

-- The cache takes all rows, and does not see that the file has ended.
takes_all :
    (c : Cache) (delim expected : ℕ) (init : List Row) (last : Row)
    (f : Filled c [] 0 0 delim expected (init ++ last ∷ []))
    → Stops 0 c
    → rows_size (map fields_of init) + 8 < 2 ^ 20
    → 2 ^ 20 ≤ rows_size (map fields_of (init ++ last ∷ [])) + 8
    → length (init ++ last ∷ []) < 8192
    → (f.left ≡ []) × (c.end_flag ≡ true)
takes_all c delim expected init last f stops small big few = elim (List-cases f.left) [
  | inl none ↦
      let all : f.taken ≡ init ++ last ∷ [] =
        sym (f.splits ∙ ap (λ l. f.taken ++ l) none ∙ append-nil f.taken) in
      (
        none,
        elim f.ends [
          | inl go ↦ go.0
          | inr done ↦
              let full = room_false c 0 (map fields_of f.taken) f.holds (rw all big) in
              let room = done.2 in cc
        ],
      )
  | inr (x, l, some_left) ↦
      let less =
        prefix-le f.taken x l init last (ap (λ l. f.taken ++ l) (sym some_left) ∙ sym f.splits) in
      let fewer : 0 + c.rows < 8192 =
        omega (arith, f.counted, ap length f.splits, length-append f.taken f.left) in
      let room = room_true c 0 (map fields_of f.taken) f.holds (omega (arith, less)) fewer in
      elim f.ends [ inl go ↦ let full = stops.1 go.0 in cc | inr done ↦ let none = done.1 in cc ]
]

module _ (k : ℕ) (parse_float : ColumnType → Bytes → Result ℕ) (f : Field)
    (fields : List Field) where
  -- The loop ends with the writer that it began with.
  lost_rows :
      (fuel : ℕ) (reader : CsvReader) (state : Conversion) (init : List Row) (last : Row)
      → Ready k parse_float f.type_of (field_types fields) reader state [] [] (init ++ last ∷ [])
      → rows_size (map fields_of init) + 8 < 2 ^ 20
      → 2 ^ 20 ≤ rows_size (map fields_of (init ++ last ∷ [])) + 8
      → length (init ++ last ∷ []) < 8192
      → (builders : List Column) × (import_rows (suc k) parse_float (suc (suc fuel)) reader state 0
          ≡ ok (record state { builders = builders }))
  lost_rows fuel reader state init last r small big few =
      let todo = init ++ last ∷ [] in
      let w = suc (length (field_types fields)) in
      let (c, e, f1) =
        fill_cache-Filled k (suc rows_per_chunk) todo reader empty_table w 0 0 [] r.left r.no_quote
          r.no_line empty_table-HoldsRows r.rows_are any_width r.expected (omega arith) in
      let stops =
        fill_cache-Stops (suc k) (suc rows_per_chunk) reader empty_table 0 0 c e (omega arith) in
      let (none, not_ended) =
        takes_all c reader.tokenizer.delim reader.expected_columns init last f1 stops small big
          few in
      let all : f1.taken ≡ todo =
        sym (f1.splits ∙ ap (λ l. f1.taken ++ l) none ∙ append-nil f1.taken) in
      let count : c.rows ≡ length todo = omega (arith, f1.counted, ap length all) in
      let some_rows : 0 < length todo = omega (arith, length-append init (last ∷ [])) in
      elim (List-cases f1.taken) [
        | inl empty ↦ absurd (omega (arith, count, ap length empty, ap length all, some_rows))
        | inr (row, more, taken) ↦
            let got =
              take_rows k parse_float f.type_of (field_types fields) reader state [] [] todo
                f1.taken f1.left row more c r f1.splits f1.holds taken in
            let next = record state { builders = got.builders } in
            let keep : (leb rows_per_chunk (0 + c.rows) || not c.end_flag) ≡ false =
              ground (arith, not_ended, count) in
            elim f1.ends [
              | inl go ↦
                  let left : Left c.reader.tokenizer [] =
                    subst (λ l. Left c.reader.tokenizer (print_rows reader.tokenizer.delim l)) none
                      go.1 in
                  let (c2, e2, f2) =
                    fill_cache-Filled k (suc rows_per_chunk) [] c.reader empty_table w (0 + c.rows)
                      0 [] left (rw go.2 r.no_quote) (rw go.2 r.no_line) empty_table-HoldsRows tt
                      any_width (rw go.3 r.expected) (omega (arith, count)) in
                  let nothing : length f2.taken ≡ 0 =
                    omega (arith, ap length f2.splits, length-append f2.taken f2.left) in
                  (
                    got.builders,
                    round_keep (suc k) parse_float (suc fuel) reader state 0 c got.builders e
                          (ground (arith, count, some_rows)) got.added keep
                        ∙ round_end (suc k) parse_float fuel c.reader next (0 + c.rows) c2 e2
                            (ground (arith, f2.counted, nothing)),
                  )
              | inr done ↦ let ended = done.0 in cc
            ]
      ]

  -- For the text of a schema, whose types are named and whose names are not empty, do not start with a
  -- hash and hold no comma and no line feed: a CSV file of fewer than 8192 rows that fit it, printed with
  -- every field in quotes, where no field holds a carriage return or ends in white space, and of which all
  -- but the last leave room in the cache and all fill it: the conversion succeeds and writes none of them. The columnar file is
  -- the one that a writer finishes behind its header.
  pub convert_with_schema-lost :
      (init : List Row) (last : Row)
      → All IsWritten (f ∷ fields)
      → All (IsRow (suc (length fields))) (init ++ last ∷ [])
      → All (FitsSchema k parse_float f fields) (init ++ last ∷ [])
      → length (init ++ last ∷ []) < 8192
      → rows_size (map fields_of init) + 8 < 2 ^ 20
      → 2 ^ 20 ≤ rows_size (map fields_of (init ++ last ∷ [])) + 8
      → (header : ColumnarWriter) × (done : ColumnarWriter) × (builders : List Column)
        × (header.metadata ≡ fresh_columns (names_of (f ∷ fields)) (field_types (f ∷ fields)))
        × (finalize header ≡ ok done)
        × (convert_with_schema
              (suc k)
              parse_float
              (print_rows delimiter (init ++ last ∷ []))
              (print_schema (f ∷ fields))
            ≡ ok (record { writer = done; builders = builders }))
  convert_with_schema-lost init last written rows texts few small big =
      let todo = init ++ last ∷ [] in
      let st = start k parse_float f fields todo written rows texts in
      let csv = print_rows delimiter todo in
      let (done, finalized) = finalize-IsWriting st.writer [] st.ready.writing in
      let some_bytes : length csv ≡ suc (length csv - 1) =
        omega (arith, length-print_rows delimiter todo, length-append init (last ∷ [])) in
      let (builders, run) =
        lost_rows (length csv - 1) (open_reader csv delimiter)
          (record { writer = st.writer; builders = st.builders }) init last st.ready small big
          few in
      (
        st.writer,
        done,
        builders,
        st.columns_are,
        finalized,
        finish k parse_float f fields todo (record { writer = st.writer; builders = builders }) st
            done written
            (ap
                (λ n.
                  import_rows (suc k) parse_float (suc n) (open_reader csv delimiter)
                    (record { writer = st.writer; builders = st.builders }) 0)
                some_bytes
              ∙ run)
            finalized,
      )
