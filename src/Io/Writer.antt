-- ===== src/Io/Writer.antt =====
-- The class `ColumnarWriter` of io/ColumnarWriter.cpp. The stream is the bytes written to it so
-- far; opening it and writing to it are taken to succeed. Byte counts stay below 2 ^ 64, as long
-- as the file does. The size of a chunk is the number of bytes written, which is the sum that the
-- source keeps as long as no string has 2 ^ 32 bytes.
use columnar_engine.Base.{
  take, ◌%◌, ◌^◌, ℕ, zero, suc, ◌+◌, Bool, true, false, not, List, [], ◌∷◌, ◌++◌, ◌==◌, length,
  Result, ok, err, out_of_bounds, ◌>>=◌, ◌>>◌, guard, at, header_already_written,
  header_not_written, columns_mismatch,
}
use columnar_engine.Base.Words.{Bytes, to_bytes}
use columnar_engine.Strings.Flat.{VectorOfStrings, size, get_string}
use columnar_engine.Types.ColumnTypes.{ColumnType, type_code}
use columnar_engine.Columns.Column.{Column, column_size}
use columnar_engine.Columns.Bytes.{encode}
use columnar_engine.Io.Metadata.{ColumnMetadata, magic}

pub record ColumnarWriter : Type 0 where
  pub file : Bytes
  pub metadata : List ColumnMetadata
  pub header_written : Bool
  pub current_offset : ℕ
  pub num_rows : ℕ

-- The constructor.
unfoldable pub open_writer : ColumnarWriter
open_writer = record {
  file = [];
  metadata = [];
  header_written = false;
  current_offset = 0;
  num_rows = 0;
}

-- The loop of `WriteHeader` from column `i` on, with `left` columns to go.
unfoldable pub header_columns :
    VectorOfStrings → List ColumnType → ℕ → ℕ → Result (List ColumnMetadata)
header_columns names types i zero = ok []
header_columns names types i (suc left) = do
  name ← get_string names i
  type ← at types i
  rest ← header_columns names types (suc i) left
  ok (record { name = name; type_of = type; offsets = []; sizes = [] } ∷ rest)

unfoldable pub write_header :
    ColumnarWriter → VectorOfStrings → List ColumnType → Result ColumnarWriter
write_header wr names types = do
  guard (not wr.header_written) header_already_written
  columns ← header_columns names types 0 (size names)
  ok (record wr {
    file = wr.file ++ magic;
    current_offset = 4;
    metadata = wr.metadata ++ columns;
    header_written = true;
  })

-- What the loop of `WriteBatch` has done: bytes written, metadata of the columns, next offset.
pub record Written : Type 0 where
  pub bytes : Bytes
  pub metadata : List ColumnMetadata
  pub offset : ℕ

abbrev pub add_chunk : ColumnMetadata → ℕ → ℕ → ColumnMetadata
add_chunk meta offset size = record meta {
  offsets = meta.offsets ++ offset ∷ [];
  sizes = meta.sizes ++ size ∷ [];
}

unfoldable pub write_columns : List ColumnMetadata → List Column → ℕ → Result Written
write_columns [] cs offset = ok (record { bytes = []; metadata = []; offset = offset })
write_columns (m ∷ ms) [] offset = err out_of_bounds
write_columns (m ∷ ms) (c ∷ cs) offset = do
  b ← encode m.type_of c
  rest ← write_columns ms cs (offset + length b)
  ok (record {
    bytes = b ++ rest.bytes;
    metadata = add_chunk m offset (length b) ∷ rest.metadata;
    offset = rest.offset;
  })

-- `columns[0]->Size()`, or nothing to add.
abbrev pub first_size : List Column → ℕ
first_size [] = 0
first_size (c ∷ cs) = column_size c

unfoldable pub write_batch : ColumnarWriter → List Column → Result ColumnarWriter
write_batch wr columns = do
  guard wr.header_written header_not_written
  guard (length columns == length wr.metadata) columns_mismatch
  done ← write_columns wr.metadata columns wr.current_offset
  ok (record wr {
    file = wr.file ++ done.bytes;
    metadata = done.metadata;
    current_offset = done.offset;
    num_rows = wr.num_rows + first_size columns;
  })

-- The chunk table of one column: offset and size of each chunk.
unfoldable pub chunk_bytes : List ℕ → List ℕ → Result Bytes
chunk_bytes [] sizes = ok []
chunk_bytes (o ∷ os) [] = err out_of_bounds
chunk_bytes (o ∷ os) (s ∷ ss) = do
  rest ← chunk_bytes os ss
  ok (to_bytes 8 o ++ (to_bytes 8 s ++ rest))

unfoldable pub column_bytes : ColumnMetadata → Result Bytes
column_bytes m = do
  let name_length = length m.name % 2 ^ 32
  let num_batches = length m.offsets % 2 ^ 32
  chunks ← chunk_bytes (take num_batches m.offsets) (take num_batches m.sizes)
  ok (
      to_bytes 4 name_length
      ++ (take name_length m.name
          ++ (to_bytes 1 (type_code m.type_of) ++ (to_bytes 4 num_batches ++ chunks))))

unfoldable pub columns_bytes : List ColumnMetadata → Result Bytes
columns_bytes [] = ok []
columns_bytes (m ∷ ms) = do b ← column_bytes m; rest ← columns_bytes ms; ok (b ++ rest)

-- The number of columns and the columns, from `metadata_start` on.
unfoldable pub metadata_block : List ColumnMetadata → Result Bytes
metadata_block ms = do columns ← columns_bytes ms; ok (to_bytes 4 (length ms) ++ columns)

-- `WriteMetadata`
unfoldable pub write_metadata : ColumnarWriter → Result ColumnarWriter
write_metadata wr = do
  block ← metadata_block wr.metadata
  ok (record wr {
    file = wr.file ++ (block ++ (to_bytes 8 wr.num_rows ++ to_bytes 8 wr.current_offset));
  })

unfoldable pub finalize : ColumnarWriter → Result ColumnarWriter
finalize wr = do
  guard wr.header_written header_not_written
  wr' ← write_metadata wr
  ok (record wr' { file = wr'.file ++ magic })

-- Batches written one after another.
unfoldable pub write_batches : ColumnarWriter → List (List Column) → Result ColumnarWriter
write_batches wr [] = ok wr
write_batches wr (b ∷ bs) = do wr' ← write_batch wr b; write_batches wr' bs
