-- ===== src/Io/Tests.antt =====
-- Runs of the writer and the reader on a small file: two columns and one batch of two rows.
use columnar_engine.Base.{
  false, map, err, header_already_written, ℕ, ◌≡◌, ◌≢◌, refl, subst, List, [], ◌∷◌, arith, ok, ◌++◌,
  true,
}
use columnar_engine.Base.Words.{Bytes, codes, to_bytes}
use columnar_engine.Strings.Flat.{empty, push_back, push_all, size, view}
use columnar_engine.Strings.Reads.{push_all-Holds, empty-Holds}
use columnar_engine.Types.ColumnTypes.{ColumnType, int16, string, unnamed, elem_size}
use columnar_engine.Columns.Column.{Column, fixed, strings, column_size, string_data, fixed_data}
use columnar_engine.Columns.Bytes.{decode, string_block, string_blocks, words_to_bytes, encode}
use columnar_engine.Columns.RoundTrip.{Storable, fixed_words, short_strings, decode-encode}
use columnar_engine.Execution.Operators.{pick_columns}
use columnar_engine.Execution.Scan.{PicksAll, scan_at, drain_scan, drain_scan-write}
use columnar_engine.Io.Metadata.{magic}
use columnar_engine.Io.Writer.{
  ColumnarWriter, open_writer, write_header, write_columns, write_batch, write_batches, finalize,
}
use columnar_engine.Io.Reader.{MetadataTable, parse_metadata, get_column_data}
use columnar_engine.Io.Stored.{header_of, StorableAll, no_column, column, no_chunk}
use columnar_engine.Io.Session.{total_rows, IsWriting, write_batches-IsWriting}
use columnar_engine.Io.Header.{fresh_columns, write_header_lem}
use columnar_engine.Io.Contents.{Cell, InRange, read-write}

abbrev names : List Bytes
names = codes "id" ∷ codes "name" ∷ []

abbrev types : List ColumnType
types = int16 ∷ string ∷ []

abbrev texts : List Bytes
texts = codes "a" ∷ [] ∷ []

abbrev batch : List Column
batch = fixed int16 (1 ∷ 513 ∷ []) ∷ strings (push_all empty texts) ∷ []

abbrev started : ColumnarWriter
started = record {
  file = magic;
  metadata = fresh_columns names types;
  header_written = true;
  current_offset = 4;
  num_rows = 0;
}

abbrev written : ColumnarWriter
written = record {
  file = magic ++ (1 ∷ 0 ∷ 1 ∷ 2 ∷ 1 ∷ 0 ∷ 0 ∷ 0 ∷ 97 ∷ 0 ∷ 0 ∷ 0 ∷ 0 ∷ []);
  metadata =
      record { name = codes "id"; type_of = int16; offsets = 4 ∷ []; sizes = 4 ∷ [] }
      ∷ record { name = codes "name"; type_of = string; offsets = 8 ∷ []; sizes = 9 ∷ [] }
      ∷ [];
  header_written = true;
  current_offset = 17;
  num_rows = 2;
}

numbers-Storable : Storable int16 (fixed int16 (1 ∷ 513 ∷ []))
unfolding elem_size
numbers-Storable = fixed_words 2 refl refl (omega arith, (omega arith, tt))

texts-Storable : Storable string (strings (push_all empty texts))
texts-Storable =
    short_strings texts (push_all-Holds texts empty-Holds) (omega arith, (omega arith, tt))

batch-StorableAll : StorableAll started.metadata batch
batch-StorableAll = column numbers-Storable (column texts-Storable no_column)

started-IsWriting : IsWriting started []
started-IsWriting = record {
  started = refl;
  stored = (no_chunk, (no_chunk, tt));
  at_end = refl;
  rows_are = refl;
  has_magic = omega arith;
}

written_run : write_batches started (batch ∷ []) ≡ ok written
unfolding write_batches write_batch write_columns encode words_to_bytes string_blocks string_block
    to_bytes column_size size push_all push_back empty view elem_size string_data fixed_data
written_run = refl

written-IsWriting : IsWriting written (batch ∷ [])
written-IsWriting =
    let (wr, e, w, _) =
      write_batches-IsWriting (batch ∷ []) started-IsWriting (batch-StorableAll, tt) in
    let run = written_run in
    let same : wr ≡ written = cc in subst (λ x. IsWriting x (batch ∷ [])) same w

int16-IsNamed : (n : ℕ) → int16 ≢ unnamed n
int16-IsNamed n e = cc

string-IsNamed : (n : ℕ) → string ≢ unnamed n
string-IsNamed n e = cc

written-InRange : InRange written (batch ∷ [])
unfolding column_size
written-InRange = record {
  file_short = omega arith;
  rows_few = omega arith;
  columns_few = omega arith;
  batches_few = omega arith;
  headers = ((omega arith, int16-IsNamed), ((omega arith, string-IsNamed), tt));
}

read-write_example :
    (done : ColumnarWriter) × (table : MetadataTable) × (finalize written ≡ ok done)
    × (parse_metadata done.file ≡ ok table)
    × (table.columns ≡ written.metadata)
    × (table.num_rows ≡ total_rows (batch ∷ []))
    × ((i k : ℕ) (c : Column)
        → Cell (batch ∷ []) i k c
        → get_column_data table done.file i k ≡ ok c)
read-write_example = read-write written-IsWriting written-InRange (refl, tt)

write_batches-IsWriting_example :
    (wr : ColumnarWriter) × (write_batches started (batch ∷ batch ∷ []) ≡ ok wr)
    × IsWriting wr (batch ∷ batch ∷ [])
    × (map header_of wr.metadata ≡ map header_of started.metadata)
write_batches-IsWriting_example =
    write_batches-IsWriting (batch ∷ batch ∷ []) started-IsWriting
      (batch-StorableAll, (batch-StorableAll, tt))

decode-encode_example :
    (b : Bytes) × (encode string (strings (push_all empty texts)) ≡ ok b)
    × (decode string b ≡ ok (strings (push_all empty texts)))
decode-encode_example = decode-encode texts-Storable

write_header_lem_example :
    (wr : ColumnarWriter) × (write_header open_writer (push_all empty names) types ≡ ok wr)
    × (wr.metadata ≡ fresh_columns names types)
    × (wr.file ≡ magic)
    × IsWriting wr []
    × (write_header wr (push_all empty names) types ≡ err header_already_written)
write_header_lem_example = write_header_lem names types (push_all-Holds names empty-Holds) refl

batch_picked :
    PicksAll
      (1 ∷ 0 ∷ [])
      (batch ∷ [])
      ((strings (push_all empty texts) ∷ fixed int16 (1 ∷ 513 ∷ []) ∷ []) ∷ [])
unfolding pick_columns
batch_picked = (refl, tt)

drain_scan-write_example :
    (done : ColumnarWriter) × (table : MetadataTable) × (finalize written ≡ ok done)
    × (parse_metadata done.file ≡ ok table)
    × (drain_scan 2 (scan_at done.file table 1 (0 ∷ []) false (batch ∷ []) 0)
        ≡ ok ((strings (push_all empty texts) ∷ fixed int16 (1 ∷ 513 ∷ []) ∷ []) ∷ []))
drain_scan-write_example =
    drain_scan-write 1 (0 ∷ [])
      ((strings (push_all empty texts) ∷ fixed int16 (1 ∷ 513 ∷ []) ∷ []) ∷ []) written-IsWriting
      written-InRange (refl, tt) batch_picked
