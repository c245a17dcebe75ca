-- ===== src/Io/Reader.antt =====
-- `MetadataTable` and `ColumnarReader` of io/ColumnarReader.cpp. The file is its bytes: `pread`
-- gives what there is of a range. `memcpy` past the end of the metadata buffer is undefined in the
-- source and refused here; a vector longer than memory is the exception `length_error`.
use columnar_engine.Base.{
  replicate, ◌+◌, ◌^◌, ℕ, zero, suc, ◌-◌, List, [], ◌∷◌, ltb, leb, ◌==◌, if◌then◌else◌, length,
  take, drop, Result, ok, err, out_of_bounds, ◌>>=◌, ◌>>◌, guard, at, file_too_small,
  invalid_footer_magic, column_index_out_of_range, chunk_index_out_of_range, failed_to_read,
  column_not_found, length_error,
}
use columnar_engine.Base.Words.{Bytes, bytes_eq, of_bytes}
use columnar_engine.Types.ColumnTypes.{ColumnType, type_of_code}
use columnar_engine.Columns.Column.{Column}
use columnar_engine.Columns.Bytes.{decode}
use columnar_engine.Io.Metadata.{ColumnMetadata, magic}

pub record MetadataTable : Type 0 where
  pub columns : List ColumnMetadata
  pub num_rows : ℕ

-- `read_from_buf`: `n` bytes from the front of what is left of the buffer, and the rest.
unfoldable pub read_from_buf : ℕ → Bytes → Result (Bytes × Bytes)
read_from_buf n b = if leb n (length b) then ok (take n b, drop n b) else err out_of_bounds

unfoldable pub read_word : ℕ → Bytes → Result (ℕ × Bytes)
read_word w b = do r ← read_from_buf w b; ok (of_bytes r.0, r.1)

-- The loop over the chunks: offsets, sizes and what is left.
unfoldable pub read_chunks : ℕ → Bytes → Result (List ℕ × List ℕ × Bytes)
read_chunks zero b = ok ([], [], b)
read_chunks (suc n) b = do
  o ← read_word 8 b
  s ← read_word 8 o.1
  rest ← read_chunks n s.1
  ok (o.0 ∷ rest.0, s.0 ∷ rest.1, rest.2)

unfoldable pub read_column : Bytes → Result (ColumnMetadata × Bytes)
read_column b = do
  name_length ← read_word 4 b
  name ← read_from_buf name_length.0 name_length.1
  type ← read_word 1 name.1
  num_chunks ← read_word 4 type.1
  chunks ← read_chunks num_chunks.0 num_chunks.1
  ok (
    record { name = name.0; type_of = type_of_code type.0; offsets = chunks.0; sizes = chunks.1 },
    chunks.2,
  )

unfoldable pub read_columns : ℕ → Bytes → Result (List ColumnMetadata)
read_columns zero b = ok []
read_columns (suc n) b = do
  column ← read_column b
  rest ← read_columns n column.1
  ok (column.0 ∷ rest)

-- The buffer of the metadata. Its size is a difference of 64-bit numbers: where it wraps, the vector
-- is either too long, or it stays zero since the seek to a negative position fails.
unfoldable pub metadata_buffer : Bytes → ℕ → ℕ → Result Bytes
metadata_buffer file file_size start =
    if leb start (file_size - 20)
    then ok (take (file_size - 20 - start) (drop start file))
    else (let wrapped = file_size - 20 + 2 ^ 64 - start in
        if ltb wrapped (2 ^ 63) then ok (replicate wrapped 0) else err length_error)

-- `ParseMetadata` on the bytes of the file.
unfoldable pub parse_metadata : Bytes → Result MetadataTable
parse_metadata file = do
  let file_size = length file
  guard (leb 24 file_size) file_too_small
  guard (bytes_eq (drop (file_size - 4) file) magic) invalid_footer_magic
  let footer = drop (file_size - 20) file
  let num_rows = of_bytes (take 8 footer)
  let metadata_start = of_bytes (take 8 (drop 8 footer))
  buffer ← metadata_buffer file file_size metadata_start
  num_cols ← read_word 4 buffer
  columns ← read_columns num_cols.0 num_cols.1
  ok (record { columns = columns; num_rows = num_rows })

-- `ColumnarReader::GetColumnTypeByName`
unfoldable pub get_column_type_by_name : List ColumnMetadata → Bytes → Result ColumnType
get_column_type_by_name [] name = err column_not_found
get_column_type_by_name (m ∷ ms) name =
    if bytes_eq m.name name then ok m.type_of else get_column_type_by_name ms name

-- `pread` gives fewer bytes at the end of the file.
unfoldable pub pread : Bytes → ℕ → ℕ → Bytes
pread file size offset = take size (drop offset file)

unfoldable pub read_raw_column_data : MetadataTable → Bytes → ℕ → ℕ → Result Bytes
unfolding pread
read_raw_column_data table file column_index chunk_index = do
  guard (ltb column_index (length table.columns)) column_index_out_of_range
  meta ← at table.columns column_index
  guard (ltb chunk_index (length meta.offsets)) chunk_index_out_of_range
  offset ← at meta.offsets chunk_index
  size ← at meta.sizes chunk_index
  let buffer = pread file size offset
  guard (length buffer == size) failed_to_read
  ok buffer

unfoldable pub get_column_data : MetadataTable → Bytes → ℕ → ℕ → Result Column
get_column_data table file column_index chunk_index = do
  raw_data ← read_raw_column_data table file column_index chunk_index
  meta ← at table.columns column_index
  decode meta.type_of raw_data
