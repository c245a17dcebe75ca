-- ===== src/Csv/Convert.antt =====
-- io/CsvToColumnar.cpp: `WriteToColumnar` with its two loops, of which `fill_cache` is the inner one,
-- and the two entry points of the class `CsvToColumnar`. A file that is read is its bytes, and the
-- file that is written is the one in the writer.
use columnar_engine.Base.{
  ℕ, zero, suc, ◌+◌, Bool, true, false, not, ◌||◌, List, [], ◌∷◌, map, leb, ltb, ◌==◌, set,
  if◌then◌else◌, Result, ok, err, ◌>>=◌, at, length, out_of_fuel,
}
use columnar_engine.Base.Words.{Bytes}
use columnar_engine.Types.ColumnTypes.{ColumnType}
use columnar_engine.Strings.Flat.{VectorOfStrings, empty, push_back}
use columnar_engine.Strings.Table.{Table, empty_table, width}
use columnar_engine.Columns.Column.{Column, column_size}
use columnar_engine.Columns.Builders.{add_batch, finish_builder, make_column_builders}
use columnar_engine.Columns.Schema.{Field, delimiter, deserialize_schema}
use columnar_engine.Io.Writer.{ColumnarWriter, open_writer, write_header, write_batch, finalize}
use columnar_engine.Csv.Reader.{CsvReader, open_reader, read_header, fill_cache, rows_per_chunk}

-- What the loop leaves: the writer, and the builders that the caller passed.
pub record Conversion : Type 0 where
  pub writer : ColumnarWriter
  pub builders : List Column

-- `!columns.empty() && columns[0]->Size() > 0`
unfoldable pub has_rows : List Column → Bool
has_rows [] = false
has_rows (c ∷ cs) = ltb 0 (column_size c)

-- The columns of all builders are written, if they have rows.
unfoldable pub flush_builders : ColumnarWriter → List Column → Result Conversion
flush_builders writer builders =
    let columns = map (λ b. (finish_builder b).0) builders in
    let cleared = map (λ b. (finish_builder b).1) builders in
    if has_rows columns
    then (write_batch writer columns >>= λ next. ok (record { writer = next; builders = cleared }))
    else ok (record { writer = writer; builders = cleared })

-- The names and types of the fields of a schema.
unfoldable pub header_names : VectorOfStrings → List Field → VectorOfStrings
header_names names [] = names
header_names names (field ∷ fields) = header_names (push_back names field.name) fields

module _ (capacity : ℕ) (parse_float : ColumnType → Bytes → Result ℕ) where
  -- `builders[j]->AddBatch(column_batch, j)` from column `j` on.
  unfoldable pub add_batches : List Column → Table → ℕ → ℕ → Result (List Column)
  add_batches builders batch j zero = ok builders
  add_batches builders batch j (suc left) = do
    builder ← at builders j
    next ← add_batch parse_float builder batch j
    add_batches (set builders j next) batch (suc j) left

  -- The outer loop. Each round but the last takes a row at least, and a row takes a byte at least,
  -- so that the length of the file is fuel enough.
  unfoldable pub import_rows : ℕ → CsvReader → Conversion → ℕ → Result Conversion
  import_rows zero reader state accumulated_rows = err out_of_fuel
  import_rows (suc fuel) reader state accumulated_rows = do
    cache ← fill_cache capacity (suc rows_per_chunk) reader empty_table accumulated_rows 0
    elim (cache.rows == 0) [
      | true ↦ ok state
      | false ↦ (do
        builders ← add_batches state.builders cache.batch 0 (width cache.batch)
        elim (leb rows_per_chunk (accumulated_rows + cache.rows) || not cache.end_flag) [
          | true ↦ (do
            flushed ← flush_builders state.writer builders
            elim cache.end_flag [
              | true ↦ import_rows fuel cache.reader flushed 0
              | false ↦ ok flushed
            ])
          | false ↦
              import_rows fuel cache.reader (record state { builders = builders })
                (accumulated_rows + cache.rows)
        ])
    ]

  unfoldable pub write_to_columnar :
      VectorOfStrings → List ColumnType → CsvReader → ℕ → List Column → Result Conversion
  write_to_columnar names types reader rounds builders = do
    writer ← write_header open_writer names types
    done ← import_rows rounds reader (record { writer = writer; builders = builders }) 0
    finished ← finalize done.writer
    ok (record done { writer = finished })

  -- `Convert`: the header is in the file.
  unfoldable pub convert : Bytes → Result Conversion
  convert csv = do
    opened ← read_header capacity (open_reader csv delimiter)
    builders ← make_column_builders opened.1.types
    write_to_columnar opened.1.names opened.1.types opened.0 (suc (length csv)) builders

  unfoldable pub convert_with_schema : Bytes → Bytes → Result Conversion
  convert_with_schema csv schema_text = do
    schema ← deserialize_schema schema_text
    let types = map (λ field. field.type_of) schema.fields
    builders ← make_column_builders types
    write_to_columnar (header_names empty schema.fields) types (open_reader csv delimiter)
        (suc (length csv)) builders
