-- ===== src/Io/Session.antt =====
-- A file from its header to its footer, and what a reader finds in it.
use columnar_engine.Base.{
  All-map, append_assoc, append-nil, All, ◌∙◌, suc, map, ℕ, ◌+◌, ◌≤◌, ◌≡◌, refl, ap, true, List, [],
  ◌∷◌, ◌++◌, arith, ◌==◌, length, length-append, ok,
}
use columnar_engine.Columns.Column.{Column}
use columnar_engine.Io.Metadata.{ColumnMetadata}
use columnar_engine.Io.Writer.{write_batches, ColumnarWriter, write_batch, first_size}
use columnar_engine.Io.Stored.{
  column, no_column, Stored, StorableAll, header_of, write_columns-Extends,
}

abbrev pub total_rows : List (List Column) → ℕ
total_rows [] = 0
total_rows (b ∷ bs) = first_size b + total_rows bs

total_rows-append :
    (bs : List (List Column)) (b : List Column)
    → total_rows (bs ++ b ∷ []) ≡ total_rows bs + first_size b
total_rows-append [] b = omega arith
total_rows-append (x ∷ bs) b = omega (arith, total_rows-append bs b)

-- A writer that has written a header and the batches `bs`.
pub record IsWriting (wr : ColumnarWriter) (bs : List (List Column)) : Type 0 where
  pub started : wr.header_written ≡ true
  pub stored : Stored wr.file 0 wr.metadata bs
  pub at_end : wr.current_offset ≡ length wr.file
  pub rows_are : wr.num_rows ≡ total_rows bs
  pub has_magic : 4 ≤ length wr.file

length-StorableAll :
    {ms : List ColumnMetadata} {cs : List Column} → StorableAll ms cs → length cs ≡ length ms
length-StorableAll no_column = refl
length-StorableAll (column s ss) = ap suc (length-StorableAll ss)

-- `WriteBatch` of columns of the header's types succeeds, adds one chunk to each column, keeps the
-- names and types, and leaves every chunk written before in place.
pub write_batch-IsWriting :
    {wr : ColumnarWriter} {bs : List (List Column)} (b : List Column)
    → IsWriting wr bs
    → StorableAll wr.metadata b
    → (wr' : ColumnarWriter) × (write_batch wr b ≡ ok wr')
      × IsWriting wr' (bs ++ b ∷ [])
      × (map header_of wr'.metadata ≡ map header_of wr.metadata)
unfolding write_batch
write_batch-IsWriting {wr} {bs} b w s =
    let (d, written, x) = write_columns-Extends wr.file 0 wr.metadata b [] bs refl w.stored s in
    let same_length : (length b == length wr.metadata) ≡ true =
      ground (arith, length-StorableAll s) in
    (
      record wr {
        file = wr.file ++ d.bytes;
        metadata = d.metadata;
        current_offset = d.offset;
        num_rows = wr.num_rows + first_size b;
      },
      rw (w.started, same_length, w.at_end, written),
      record {
        started = w.started;
        stored = x.stored;
        at_end = x.ends;
        rows_are = rw (total_rows-append bs b, w.rows_are);
        has_magic = omega (arith, w.has_magic, length-append wr.file d.bytes);
      },
      x.headers,
    )

-- Whether columns can be stored depends on the names and types of the header alone.
StorableAll-header :
    (ms ns : List ColumnMetadata) (cs : List Column)
    → map header_of ns ≡ map header_of ms
    → StorableAll ms cs
    → StorableAll ns cs
StorableAll-header [] [] [] e s = no_column
StorableAll-header [] [] (c ∷ cs) e s = elim s [ ]
StorableAll-header [] (n ∷ ns) cs e s = cc
StorableAll-header (m ∷ ms) [] cs e s = cc
StorableAll-header (m ∷ ms) (n ∷ ns) [] e s = elim s [ ]
StorableAll-header (m ∷ ms) (n ∷ ns) (c ∷ cs) e (column s ss) =
    let types : n.type_of ≡ m.type_of = ground arith in
    let rest : map header_of ns ≡ map header_of ms = ground arith in
    column (rw types s) (StorableAll-header ms ns cs rest ss)

-- Batches of columns of the header's types, written one after another, are all written: after them
-- the writer is one that has written the earlier batches and these, with the names and types of its
-- header.
pub write_batches-IsWriting :
    (more : List (List Column)) {wr : ColumnarWriter} {bs : List (List Column)}
    → IsWriting wr bs
    → All (StorableAll wr.metadata) more
    → (wr' : ColumnarWriter) × (write_batches wr more ≡ ok wr')
      × IsWriting wr' (bs ++ more)
      × (map header_of wr'.metadata ≡ map header_of wr.metadata)
unfolding write_batches
write_batches-IsWriting [] {wr} w s = (wr, refl, rw append-nil w, refl)
write_batches-IsWriting (b ∷ more) {wr} {bs} w s =
    let (mid, once, w', h') = write_batch-IsWriting b w s.0 in
    let (end, then_all, w'', h'') =
      write_batches-IsWriting more w'
        (All-map (λ cs. StorableAll-header wr.metadata mid.metadata cs h') more s.1) in
    (end, rw (once, then_all), rw append_assoc at w'', h'' ∙ h')
