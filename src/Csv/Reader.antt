-- ===== src/Csv/Reader.antt =====
-- The class `CsvReader` of io/CsvReader.cpp, and the inner loop of `WriteToColumnar`
-- (io/CsvToColumnar.cpp), which reads rows until its cache is full. The capacity of the buffer of
-- the tokenizer is a parameter, as in `Tokenizer`.
use columnar_engine.Base.{
  ◌||◌, ℕ, zero, suc, ◌+◌, ◌^◌, Bool, true, false, ◌&&◌, Option, none, some, List, [], ◌∷◌, ◌++◌,
  ltb, ◌==◌, if◌then◌else◌, Result, ok, err, ◌>>=◌, ◌>>◌, guard, invalid_header_token,
  width_mismatch, out_of_fuel,
}
use columnar_engine.Base.Words.{Bytes}
use columnar_engine.Types.ColumnTypes.{ColumnType, type_names}
use columnar_engine.Columns.Schema.{find_type}
use columnar_engine.Strings.Flat.{VectorOfStrings, empty, push_back}
use columnar_engine.Strings.Table.{
  Table, empty_table, get_table_string, width, start_new_line, approx_byte_size,
}
use columnar_engine.Csv.Tokenizer.{
  CsvTokenizer, open_tokenizer, is_eof, reset_line_flag, get_next_row,
}

pub record CsvReader : Type 0 where
  pub tokenizer : CsvTokenizer
  pub expected_columns : ℕ

unfoldable pub open_reader : Bytes → ℕ → CsvReader
open_reader file delim = record { tokenizer = open_tokenizer file delim; expected_columns = 0 }

-- `token.find(':')`, with what stands before the colon and after it.
unfoldable pub split_token : Bytes → Option (Bytes × Bytes)
split_token [] = none
split_token (c ∷ cs) =
    let rest = split_token cs in
    if c == b':'
    then some ([], cs)
    else elim rest [ none ↦ none | some parts ↦ some (c ∷ parts.0, parts.1) ]

-- The names and types of a header.
pub record Header : Type 0 where
  pub names : VectorOfStrings
  pub types : List ColumnType

unfoldable pub read_token : Header → Bytes → Result Header
read_token header token = elim (split_token token) [
  | none ↦ err invalid_header_token
  | some parts ↦ elim (find_type type_names parts.0) [
    | none ↦ err invalid_header_token
    | some type ↦
        ok (record { names = push_back header.names parts.1; types = header.types ++ type ∷ [] })
  ]
]

-- The loop of `ReadHeader` from token `i` on.
unfoldable pub read_tokens : Header → Table → ℕ → ℕ → Result Header
read_tokens header raw_header i zero = ok header
read_tokens header raw_header i (suc left) = do
  token ← get_table_string raw_header i
  header' ← read_token header token
  read_tokens header' raw_header (suc i) left

abbrev pub rows_per_chunk : ℕ
rows_per_chunk = 8192

abbrev pub bytes_per_cache : ℕ
bytes_per_cache = 2 ^ 20

-- What the inner loop leaves: the reader, the batch, the rows in it, and `end_flag`.
pub record Cache : Type 0 where
  pub reader : CsvReader
  pub batch : Table
  pub rows : ℕ
  pub end_flag : Bool

abbrev pub stopped : ℕ → Bool → CsvReader → Table → Cache
stopped cache_rows end reader' batch' = record {
  reader = reader';
  batch = batch';
  rows = cache_rows;
  end_flag = end;
}

module _ (capacity : ℕ) where
  unfoldable pub read_header : CsvReader → Result (CsvReader × Header)
  read_header reader = do
    r ← get_next_row capacity reader.tokenizer empty_table
    let columns = width r.1
    header ← read_tokens (record { names = empty; types = [] }) r.1 0 columns
    ok (record { tokenizer = reset_line_flag r.0; expected_columns = columns }, header)

  unfoldable pub read_row : CsvReader → Table → Result (CsvReader × Table × Bool)
  read_row reader row = elim (is_eof reader.tokenizer) [
    | true ↦ ok (reader, row, false)
    | false ↦ (do
      r ← get_next_row capacity reader.tokenizer row
      let columns = r.1.columns_in_line
      elim (columns == 0 && is_eof r.0) [
        | true ↦ ok (record reader { tokenizer = r.0 }, r.1, false)
        | false ↦ (do
          guard (reader.expected_columns == 0 || columns == reader.expected_columns) width_mismatch
          ok (record reader { tokenizer = reset_line_flag r.0 }, r.1, true))
      ])
  ]

  -- The loop stops at 8192 rows, so that number and one more is fuel enough.
  unfoldable pub fill_cache : ℕ → CsvReader → Table → ℕ → ℕ → Result Cache
  fill_cache zero reader batch accumulated cache_rows = err out_of_fuel
  fill_cache (suc fuel) reader batch accumulated cache_rows =
      elim (ltb (approx_byte_size batch) bytes_per_cache
        && ltb (accumulated + cache_rows) rows_per_chunk) [
          | false ↦ ok (stopped cache_rows true reader batch)
          | true ↦ (do
            r ← read_row reader batch
            elim r.2 [
              | false ↦ ok (stopped cache_rows false r.0 r.1)
              | true ↦ fill_cache fuel r.0 (start_new_line r.1) accumulated (suc cache_rows)
            ])
        ]
