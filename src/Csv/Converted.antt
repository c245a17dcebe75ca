-- ===== src/Csv/Converted.antt =====
-- `CsvToColumnar::ConvertWithSchema` from its two files to the columnar file.
use columnar_engine.Base.{
  ℕ, suc, ◌≤◌, ◌<◌, ◌≡◌, refl, sym, ap, ◌∙◌, List, [], ◌∷◌, ◌++◌, map, append_assoc, append-nil,
  arith, length, length-append, length-map, All, All-map, Result, ok, inl, suc, ◌≢◌, All-of_map,
}
use columnar_engine.Base.Words.{Bytes}
use columnar_engine.Types.ColumnTypes.{ColumnType, unnamed}
use columnar_engine.Strings.Flat.{VectorOfStrings, empty}
use columnar_engine.Strings.Holds.{Holds}
use columnar_engine.Strings.Reads.{empty-Holds, push_back-Holds}
use columnar_engine.Columns.Column.{Column}
use columnar_engine.Columns.Schema.{Field, delimiter}
use columnar_engine.Columns.SchemaText.{IsWritten, print_schema, deserialize_schema-print_schema}
use columnar_engine.Columns.Builders.{make_column_builders}
use columnar_engine.Columns.BuiltRows.{IsTexts, make_column_builders-BuiltAll}
use columnar_engine.Io.Header.{fresh_columns, write_header_lem}
use columnar_engine.Io.Finish.{finalize-IsWriting}
use columnar_engine.Io.Writer.{ColumnarWriter, open_writer, write_header, finalize}
use columnar_engine.Csv.RoundTrip.{print_row}
use columnar_engine.Csv.Tokenizer.{open_tokenizer}
use columnar_engine.Csv.Reader.{open_reader}
use columnar_engine.Csv.Import.{Row, IsRow, fields_of, print_rows}
use columnar_engine.Csv.Convert.{
  Conversion, convert_with_schema, write_to_columnar, import_rows, header_names,
}
use columnar_engine.Csv.Imported.{Imported}
use columnar_engine.Csv.Loop.{Ready}
use columnar_engine.Csv.Rounds.{import_rows-Imported}

-- A row takes a byte at least.
print_row-lt :
    (delim : ℕ) (f : Bytes) (fs : List Bytes) (rest : Bytes)
    → length rest < length (print_row delim f fs rest)
print_row-lt delim f [] rest = omega (arith, length-append _ (b'"' ∷ b'\n' ∷ rest))
print_row-lt delim f (g ∷ fs) rest = omega (
  arith,
  length-append _ (b'"' ∷ delim ∷ print_row delim g fs rest),
  print_row-lt delim g fs rest,
)

pub length-print_rows : (delim : ℕ) (rows : List Row) → length rows ≤ length (print_rows delim rows)
length-print_rows delim [] = omega arith
length-print_rows delim (row ∷ rows) =
    omega
      (arith, print_row-lt delim row.0 row.1 (print_rows delim rows), length-print_rows delim rows)

abbrev pub names_of : List Field → List Bytes
names_of fields = map (λ f. f.name) fields

abbrev pub field_types : List Field → List ColumnType
field_types fields = map (λ f. f.type_of) fields

header_names-Holds :
    (fields : List Field) {v : VectorOfStrings} {ss : List Bytes}
    → Holds v ss
    → Holds (header_names v fields) (ss ++ names_of fields)
unfolding header_names
header_names-Holds [] h = rw append-nil h
header_names-Holds (f ∷ fields) {v} {ss} h =
    rw (append_assoc ss (f.name ∷ []) (names_of fields)) at
      (header_names-Holds fields (push_back-Holds f.name h))

types_of-fresh :
    (fields : List Field)
    → map (λ m. m.type_of) (fresh_columns (names_of fields) (field_types fields))
      ≡ field_types fields
types_of-fresh [] = refl
types_of-fresh (f ∷ fields) = ap (◌∷◌ f.type_of) (types_of-fresh fields)

module _ (k : ℕ) (parse_float : ColumnType → Bytes → Result ℕ) (f : Field)
    (fields : List Field) where
  -- The fields of a row have values in the columns of the schema.
  abbrev pub FitsSchema : Row → Type 0
  FitsSchema row = IsTexts parse_float 0 (field_types (f ∷ fields)) (fields_of row)

  -- What the conversion does before its loop.
  pub record Started (todo : List Row) : Type 0 where
    pub writer : ColumnarWriter
    pub builders : List Column
    pub made : make_column_builders (field_types (f ∷ fields)) ≡ ok builders
    pub begun :
        write_header open_writer (header_names empty (f ∷ fields)) (field_types (f ∷ fields))
        ≡ ok writer
    pub columns_are :
        writer.metadata ≡ fresh_columns (names_of (f ∷ fields)) (field_types (f ∷ fields))
    pub ready :
        Ready k parse_float f.type_of
          (field_types fields)
          (open_reader (print_rows delimiter todo) delimiter)
          (record { writer = writer; builders = builders })
          []
          []
          todo

  pub start :
      (todo : List Row)
      → All IsWritten (f ∷ fields)
      → All (IsRow (suc (length fields))) todo
      → All FitsSchema todo
      → Started todo
  unfolding open_reader open_tokenizer
  start todo written rows texts =
      let types = field_types (f ∷ fields) in
      let (wr, begun, metadata, _, writing, _) =
        write_header_lem (names_of (f ∷ fields)) types (header_names-Holds (f ∷ fields) empty-Holds)
          (length-map (f ∷ fields) (λ f. f.name)
            ∙ sym (length-map (f ∷ fields) (λ f. f.type_of))) in
      let named : All (λ t. (n : ℕ) → t ≢ unnamed n) types =
        All-of_map (λ t. (n : ℕ) → t ≢ unnamed n) (λ f. f.type_of) (f ∷ fields)
          (All-map (λ f w. w.named) (f ∷ fields) written) in
      let (builders, made, built) = make_column_builders-BuiltAll parse_float 0 types named in
      record {
        writer = wr;
        builders = builders;
        made = made;
        begun = begun;
        columns_are = metadata;
        ready = record {
          left = record { text = refl; open_yet = refl };
          no_quote = omega arith;
          no_line = omega arith;
          rows_are = rw (length-map fields (λ f. f.type_of)) rows;
          texts = texts;
          expected = refl;
          writing = writing;
          types_are = rw metadata (types_of-fresh (f ∷ fields));
          built = built;
          few = omega arith;
          full = inl refl;
        };
      }

  -- After the loop, the file is finished.
  pub finish :
      (todo : List Row) (state : Conversion) (st : Started todo) (done : ColumnarWriter)
      → All IsWritten (f ∷ fields)
      → import_rows
          (suc k)
          parse_float
          (suc (length (print_rows delimiter todo)))
          (open_reader (print_rows delimiter todo) delimiter)
          (record { writer = st.writer; builders = st.builders })
          0
        ≡ ok state
      → finalize state.writer ≡ ok done
      → convert_with_schema
          (suc k)
          parse_float
          (print_rows delimiter todo)
          (print_schema (f ∷ fields))
        ≡ ok (record state { writer = done })
  unfolding convert_with_schema write_to_columnar
  finish todo state st done written imported finalized =
      rw (
        deserialize_schema-print_schema (f ∷ fields) written,
        st.made,
        st.begun,
        imported,
        finalized,
      )

  -- The conversion of the text of a schema, whose types are named and whose names are not empty, do not
  -- start with a hash and hold no comma and no line feed, and of a CSV file of rows that fit it, printed
  -- with every field in quotes, where no field holds a carriage return or ends in white space, returns:
  -- the header of the columnar file has the names and types of the schema, and the
  -- rows are written in order, in batches of 8192 rows at most, before the file is finished. The rows
  -- that are not written, if any, are the last ones of the file; they are fewer than 8192 and fill a
  -- cache.
  pub convert_with_schema-Imported :
      (todo : List Row)
      → All IsWritten (f ∷ fields)
      → All (IsRow (suc (length fields))) todo
      → All FitsSchema todo
      → (header : ColumnarWriter) × (state : Conversion) × (done : ColumnarWriter)
        × (header.metadata ≡ fresh_columns (names_of (f ∷ fields)) (field_types (f ∷ fields)))
        × Imported parse_float (field_types (f ∷ fields)) state header [] (map fields_of todo)
        × (finalize state.writer ≡ ok done)
        × (convert_with_schema
              (suc k)
              parse_float
              (print_rows delimiter todo)
              (print_schema (f ∷ fields))
            ≡ ok (record state { writer = done }))
  convert_with_schema-Imported todo written rows texts =
      let st = start todo written rows texts in
      let (state, run, imported) =
        import_rows-Imported k parse_float f.type_of (field_types fields)
          (suc (length (print_rows delimiter todo)))
          (open_reader (print_rows delimiter todo) delimiter)
          (record { writer = st.writer; builders = st.builders }) [] [] todo st.ready
          (omega (arith, length-print_rows delimiter todo)) in
      let (done, finalized) = finalize-IsWriting state.writer imported.batches imported.writing in
      (
        st.writer,
        state,
        done,
        st.columns_are,
        imported,
        finalized,
        finish todo state st done written run finalized,
      )
