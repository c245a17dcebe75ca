-- ===== src/Io/Header.antt =====
-- `WriteHeader` starts a file for the columns that it is given.
use columnar_engine.Base.{
  ℕ, suc, ◌≡◌, refl, true, some, List, [], ◌∷◌, ◌++◌, append_assoc, arith, length, get_elem?,
  get_elem?-append, ok, err, header_already_written, length-append_one,
}
use columnar_engine.Base.Words.{Bytes}
use columnar_engine.Strings.Flat.{VectorOfStrings}
use columnar_engine.Strings.Holds.{Holds}
use columnar_engine.Strings.Reads.{get_string-Holds, size-Holds}
use columnar_engine.Types.ColumnTypes.{ColumnType}
use columnar_engine.Io.Metadata.{ColumnMetadata, magic}
use columnar_engine.Io.Stored.{Stored, no_chunk}
use columnar_engine.Io.Session.{IsWriting}
use columnar_engine.Io.Writer.{ColumnarWriter, open_writer, header_columns, write_header}

-- A column with no chunk yet.
abbrev pub fresh_column : Bytes → ColumnType → ColumnMetadata
fresh_column name type = record { name = name; type_of = type; offsets = []; sizes = [] }

abbrev pub fresh_columns : List Bytes → List ColumnType → List ColumnMetadata
fresh_columns [] types = []
fresh_columns (n ∷ ns) [] = []
fresh_columns (n ∷ ns) (t ∷ ts) = fresh_column n t ∷ fresh_columns ns ts

header_columns_lem :
    {v : VectorOfStrings} (pre ns : List Bytes) (pret ts : List ColumnType)
    → Holds v (pre ++ ns)
    → length pre ≡ length pret
    → length ns ≡ length ts
    → header_columns v (pret ++ ts) (length pre) (length ns) ≡ ok (fresh_columns ns ts)
unfolding header_columns
header_columns_lem pre [] pret ts h e f = refl
header_columns_lem pre (n ∷ ns) pret [] h e f = absurd (omega arith)
header_columns_lem {v} pre (n ∷ ns) pret (t ∷ ts) h e f =
    let rest : header_columns v (pret ++ t ∷ ts) (suc (length pre)) (length ns)
        ≡ ok (fresh_columns ns ts) =
      rw (← length-append_one pre n, ← append_assoc pret (t ∷ []) ts)
        (header_columns_lem (pre ++ n ∷ []) ns (pret ++ t ∷ []) ts (rw append_assoc h)
          (omega (arith, length-append_one pre n, length-append_one pret t)) (omega arith)) in
    let type : get_elem? (pret ++ t ∷ ts) (length pre) ≡ some t =
      rw e (get_elem?-append pret t ts) in
    rw (get_string-Holds (length pre) h, get_elem?-append pre n ns, type, rest)

fresh-Stored :
    (file : Bytes) (i : ℕ) (ns : List Bytes) (ts : List ColumnType)
    → Stored file i (fresh_columns ns ts) []
fresh-Stored file i [] ts = tt
fresh-Stored file i (n ∷ ns) [] = tt
fresh-Stored file i (n ∷ ns) (t ∷ ts) = (no_chunk, fresh-Stored file (suc i) ns ts)

-- On a new writer, and with as many types as names, `WriteHeader` succeeds: the file is the magic,
-- there is one column with no chunk for each name and type, in order, and the writer is ready for
-- its first batch. A second header is refused.
pub write_header_lem :
    {v : VectorOfStrings} (ns : List Bytes) (ts : List ColumnType)
    → Holds v ns
    → length ns ≡ length ts
    → (wr : ColumnarWriter) × (write_header open_writer v ts ≡ ok wr)
      × (wr.metadata ≡ fresh_columns ns ts)
      × (wr.file ≡ magic)
      × IsWriting wr []
      × (write_header wr v ts ≡ err header_already_written)
unfolding write_header open_writer
write_header_lem {v} ns ts h e = (
  record {
    file = magic;
    metadata = fresh_columns ns ts;
    header_written = true;
    current_offset = 4;
    num_rows = 0;
  },
  rw (size-Holds h, header_columns_lem [] ns [] ts h refl e),
  refl,
  refl,
  record {
    started = refl;
    stored = fresh-Stored magic 0 ns ts;
    at_end = refl;
    rows_are = refl;
    has_magic = omega arith;
  },
  refl,
)
