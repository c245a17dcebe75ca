-- ===== src/Io/Footer.antt =====
-- The metadata at the end of a file: `ParseMetadata` reads back what `WriteMetadata` wrote.
use columnar_engine.Base.{
  take_all, ◌%◌, ◌>>=◌, append-nil, true, ◌+◌, ◌-◌, drop, take, drop_at, take_at, ℕ, ◌^◌, ◌≤◌, ◌<◌,
  ◌≡◌, refl, sym, ap, ◌∙◌, ◌≢◌, List, [], ◌∷◌, ◌++◌, append_assoc, arith, leb, length,
  length-append, take-append, drop-append, ok, All,
}
use columnar_engine.Base.Words.{bytes_eq_iff, Bytes, to_bytes, length-to_bytes, of_bytes-to_bytes}
use columnar_engine.Types.ColumnTypes.{unnamed, type_code, type_of_code-type_code, type_code_lt}
use columnar_engine.Io.Metadata.{magic, ColumnMetadata}
use columnar_engine.Io.Writer.{
  metadata_block, write_metadata, finalize, ColumnarWriter, chunk_bytes, column_bytes,
  columns_bytes,
}
use columnar_engine.Io.Reader.{
  metadata_buffer, parse_metadata, read_from_buf, read_word, read_chunks, read_column, read_columns,
}

-- The widths of the metadata: lengths and counts in four bytes, offsets and sizes in eight.
pub record Fits (m : ColumnMetadata) : Type 0 where
  pub name_short : length m.name < 2 ^ 32
  pub type_named : (n : ℕ) → m.type_of ≢ unnamed n
  pub few_chunks : length m.offsets < 2 ^ 32
  pub chunks_paired : length m.offsets ≡ length m.sizes
  pub offsets_small : All (λ o. o < 2 ^ 64) m.offsets
  pub sizes_small : All (λ s. s < 2 ^ 64) m.sizes

read_from_buf-append : (xs rest : Bytes) → read_from_buf (length xs) (xs ++ rest) ≡ ok (xs, rest)
unfolding read_from_buf
read_from_buf-append xs rest =
    let fits : leb (length xs) (length (xs ++ rest)) ≡ true =
      ground (arith, length-append xs rest) in
    rw (fits, take-append, drop-append)

read_word-to_bytes :
    (w n : ℕ) (rest : Bytes) → n < 256 ^ w → read_word w (to_bytes w n ++ rest) ≡ ok (n, rest)
unfolding read_word
read_word-to_bytes w n rest h =
    let read : read_from_buf w (to_bytes w n ++ rest) ≡ ok (to_bytes w n, rest) =
      ap (λ k. read_from_buf k (to_bytes w n ++ rest)) (sym (length-to_bytes w n))
      ∙ read_from_buf-append (to_bytes w n) rest in
    rw (read, of_bytes-to_bytes w n h)

read_chunks-chunk_bytes :
    (os ss : List ℕ)
    → length os ≡ length ss
    → All (λ o. o < 2 ^ 64) os
    → All (λ s. s < 2 ^ 64) ss
    → (b : Bytes) × (chunk_bytes os ss ≡ ok b)
      × ((rest : Bytes) → read_chunks (length os) (b ++ rest) ≡ ok (os, ss, rest))
unfolding chunk_bytes read_chunks
read_chunks-chunk_bytes [] [] e ho hs = ([], refl, λ rest. refl)
read_chunks-chunk_bytes [] (s ∷ ss) e ho hs = absurd (omega arith)
read_chunks-chunk_bytes (o ∷ os) [] e ho hs = absurd (omega arith)
read_chunks-chunk_bytes (o ∷ os) (s ∷ ss) e ho hs =
    let (b, w, r) = read_chunks-chunk_bytes os ss (omega arith) ho.1 hs.1 in
    (
      to_bytes 8 o ++ (to_bytes 8 s ++ b),
      rw w,
      λ rest. rw (
        append_assoc (to_bytes 8 o) (to_bytes 8 s ++ b) rest,
        append_assoc (to_bytes 8 s) b rest,
        read_word-to_bytes 8 o (to_bytes 8 s ++ (b ++ rest)) ho.0,
        read_word-to_bytes 8 s (b ++ rest) hs.0,
        r rest,
      ),
    )

read_column-column_bytes :
    (m : ColumnMetadata)
    → Fits m
    → (b : Bytes) × (column_bytes m ≡ ok b)
      × ((rest : Bytes) → read_column (b ++ rest) ≡ ok (m, rest))
unfolding column_bytes read_column
read_column-column_bytes m f =
    let (chunks, w, r) =
      read_chunks-chunk_bytes m.offsets m.sizes f.chunks_paired f.offsets_small f.sizes_small in
    let name_cut : length m.name % 2 ^ 32 ≡ length m.name = omega (arith, f.name_short) in
    let chunks_cut : length m.offsets % 2 ^ 32 ≡ length m.offsets = omega (arith, f.few_chunks) in
    let all_sizes : take (length m.offsets) m.sizes ≡ m.sizes =
      rw f.chunks_paired (take_all m.sizes) in
    (
      to_bytes 4 (length m.name)
          ++ (m.name
              ++ (to_bytes 1 (type_code m.type_of) ++ (to_bytes 4 (length m.offsets) ++ chunks))),
      rw (name_cut, chunks_cut, take_all m.name, take_all m.offsets, all_sizes, w),
      λ rest. rw (
        append_assoc (to_bytes 4 (length m.name)) _ rest,
        append_assoc m.name _ rest,
        append_assoc (to_bytes 1 (type_code m.type_of)) _ rest,
        append_assoc (to_bytes 4 (length m.offsets)) chunks rest,
        read_word-to_bytes 4 (length m.name) _ f.name_short,
        read_from_buf-append m.name _,
        read_word-to_bytes 1 (type_code m.type_of) _ (type_code_lt m.type_of f.type_named),
        read_word-to_bytes 4 (length m.offsets) _ f.few_chunks,
        r rest,
        type_of_code-type_code m.type_of f.type_named,
      ),
    )

read_columns-columns_bytes :
    (ms : List ColumnMetadata)
    → All Fits ms
    → (b : Bytes) × (columns_bytes ms ≡ ok b)
      × ((rest : Bytes) → read_columns (length ms) (b ++ rest) ≡ ok ms)
unfolding columns_bytes read_columns
read_columns-columns_bytes [] h = ([], refl, λ rest. refl)
read_columns-columns_bytes (m ∷ ms) h =
    let (b, w, r) = read_column-column_bytes m h.0 in
    let (bs, ws, rs) = read_columns-columns_bytes ms h.1 in
    (b ++ bs, rw (w, ws), λ rest. rw (append_assoc b bs rest, r (bs ++ rest), rs rest))

-- A writer whose metadata fits, and whose next chunk would start at the end of its file.
pub record CanFinish (wr : ColumnarWriter) : Type 0 where
  pub started : wr.header_written ≡ true
  pub all_fit : All Fits wr.metadata
  pub few_columns : length wr.metadata < 2 ^ 32
  pub at_end : wr.current_offset ≡ length wr.file
  pub offset_small : wr.current_offset < 2 ^ 64
  pub rows_small : wr.num_rows < 2 ^ 64
  pub has_magic : 4 ≤ length wr.file

length_tail : (rows start : ℕ) → length (to_bytes 8 rows ++ (to_bytes 8 start ++ magic)) ≡ 20
length_tail rows start = omega (
  arith,
  length-append (to_bytes 8 rows) (to_bytes 8 start ++ magic),
  length-append (to_bytes 8 start) magic,
  length-to_bytes 8 rows,
  length-to_bytes 8 start,
)

regroup : (a b c d e : Bytes) → a ++ (b ++ (c ++ (d ++ e))) ≡ (a ++ (b ++ (c ++ d))) ++ e
regroup a b c d e = simp append_assoc

end_of :
    (front block : Bytes) (rows start : ℕ) {n : ℕ}
    → n ≡ length front + (length block + 20)
    → n - 4 ≡ length (front ++ (block ++ (to_bytes 8 rows ++ to_bytes 8 start)))
end_of front block rows start e = omega (
  arith,
  length-append front (block ++ (to_bytes 8 rows ++ to_bytes 8 start)),
  length-append block (to_bytes 8 rows ++ to_bytes 8 start),
  length-append (to_bytes 8 rows) (to_bytes 8 start),
  length-to_bytes 8 rows,
  length-to_bytes 8 start,
)

parse_file :
    (file front block : Bytes) (rows start : ℕ)
    → file ≡ front ++ (block ++ (to_bytes 8 rows ++ (to_bytes 8 start ++ magic)))
    → start ≡ length front
    → start < 2 ^ 64
    → rows < 2 ^ 64
    → 4 ≤ length front
    → parse_metadata file ≡ (do
      num_cols ← read_word 4 block
      columns ← read_columns num_cols.0 num_cols.1
      ok (record { columns = columns; num_rows = rows }))
unfolding parse_metadata metadata_buffer
parse_file file front block rows start e at_front hs hr long =
    let tail = to_bytes 8 rows ++ (to_bytes 8 start ++ magic) in
    let tail_length : length tail ≡ 20 = length_tail rows start in
    let size : length file ≡ length front + (length block + 20) =
      rw e (omega (arith, length-append front (block ++ tail), length-append block tail)) in
    let enough : leb 24 (length file) ≡ true = ground arith in
    let in_file : leb start (length file - 20) ≡ true = ground arith in
    let magic_there : drop (length file - 4) file ≡ magic =
      ap (drop (length file - 4))
        (e ∙ regroup front block (to_bytes 8 rows) (to_bytes 8 start) magic)
      ∙ drop_at (length file - 4) _ magic (end_of front block rows start size) in
    let footer : drop (length file - 20) file ≡ tail =
      ap (drop (length file - 20)) (e ∙ sym (append_assoc front block tail))
      ∙ drop_at (length file - 20) (front ++ block) tail
          (omega (arith, length-append front block)) in
    let buffer : take (length file - 20 - start) (drop start file) ≡ block =
      ap (λ b. take (length file - 20 - start) (drop start b)) e
      ∙ ap (take (length file - 20 - start)) (drop_at start front (block ++ tail) at_front)
      ∙ take_at (length file - 20 - start) block tail (omega arith) in
    rw (
      enough,
      magic_there,
      (bytes_eq_iff magic magic).1 refl,
      footer,
      take_at 8 (to_bytes 8 rows) (to_bytes 8 start ++ magic) (sym (length-to_bytes 8 rows)),
      drop_at 8 (to_bytes 8 rows) (to_bytes 8 start ++ magic) (sym (length-to_bytes 8 rows)),
      take_at 8 (to_bytes 8 start) magic (sym (length-to_bytes 8 start)),
      of_bytes-to_bytes 8 rows hr,
      of_bytes-to_bytes 8 start hs,
      in_file,
      buffer,
    )

pub parse_metadata-finalize :
    (wr : ColumnarWriter)
    → CanFinish wr
    → (done : ColumnarWriter) × (finalize wr ≡ ok done)
      × (parse_metadata done.file ≡ ok (record { columns = wr.metadata; num_rows = wr.num_rows }))
      × ((rest : Bytes) × (done.file ≡ wr.file ++ rest))
unfolding finalize write_metadata metadata_block
parse_metadata-finalize wr c =
    let (columns, written, parsed) = read_columns-columns_bytes wr.metadata c.all_fit in
    let block = to_bytes 4 (length wr.metadata) ++ columns in
    let footer = to_bytes 8 wr.num_rows ++ to_bytes 8 wr.current_offset in
    (
      record wr { file = (wr.file ++ (block ++ footer)) ++ magic },
      rw (c.started, written),
      parse_file _ wr.file block wr.num_rows wr.current_offset
            (sym
              (regroup wr.file block (to_bytes 8 wr.num_rows) (to_bytes 8 wr.current_offset) magic))
            c.at_end c.offset_small c.rows_small c.has_magic
          ∙ rw (
            read_word-to_bytes 4 (length wr.metadata) columns c.few_columns,
            ap (read_columns (length wr.metadata)) (sym (append-nil columns)) ∙ parsed [],
          ),
      ((block ++ footer) ++ magic, append_assoc wr.file (block ++ footer) magic),
    )
