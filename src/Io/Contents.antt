-- ===== src/Io/Contents.antt =====
-- What a reader finds in a finished file.
use columnar_engine.Base.{
  All-get_elem?, All-map, ℕ, zero, suc, ◌+◌, ◌^◌, ◌≤◌, ◌<◌, ◌≡◌, refl, sym, ap, ◌≢◌, inl, inr, true,
  some, List, [], ◌∷◌, ◌++◌, append_assoc, arith, ltb, ◌==◌, lt→ltb, Option-cases, length,
  get_elem?, length-append, ok, get_elem?_lt, lt_of_get_elem?, subst, drop_at, take_at, All,
}
use columnar_engine.Base.Words.{Bytes}
use columnar_engine.Types.ColumnTypes.{ColumnType, unnamed}
use columnar_engine.Columns.Column.{Column}
use columnar_engine.Columns.Bytes.{decode, encode}
use columnar_engine.Columns.RoundTrip.{Storable, decode-encode}
use columnar_engine.Io.Metadata.{ColumnMetadata}
use columnar_engine.Io.Writer.{ColumnarWriter, finalize}
use columnar_engine.Io.Reader.{
  MetadataTable, parse_metadata, read_raw_column_data, get_column_data, pread,
}
use columnar_engine.Io.Footer.{Fits, parse_metadata-finalize}
use columnar_engine.Io.Stored.{Chunk, Chunks, no_chunk, chunk, gather, Stored}
use columnar_engine.Io.Session.{IsWriting, total_rows}

Chunks-get :
    {file : Bytes} {t : ColumnType} {os ss : List ℕ} {cs : List Column} (k : ℕ) {c : Column}
    → Chunks file t os ss cs
    → get_elem? cs k ≡ some c
    → (o : ℕ) × (s : ℕ) × (get_elem? os k ≡ some o) × (get_elem? ss k ≡ some s) × Chunk file t o s c
Chunks-get k no_chunk e = cc
Chunks-get zero (chunk {o} {s} x xs) e = (o, s, refl, refl, subst (Chunk _ _ o s) (ground arith) x)
Chunks-get (suc k) (chunk x xs) e = Chunks-get k xs e

Stored-get :
    (file : Bytes) (i j n : ℕ) (ms : List ColumnMetadata) (bs : List (List Column))
    {m : ColumnMetadata}
    → Stored file i ms bs
    → get_elem? ms n ≡ some m
    → j ≡ i + n
    → Chunks file m.type_of m.offsets m.sizes (gather j bs)
Stored-get file i j n [] bs h e at_j = cc
Stored-get file i j zero (x ∷ ms) bs {m} h e at_j =
    let same : x ≡ m = ground arith in
    let same_index : j ≡ i = omega arith in rw (← same, same_index) h.0
Stored-get file i j (suc n) (x ∷ ms) bs h e at_j =
    Stored-get file (suc i) j n ms bs h.1 e (omega arith)

gather-get :
    (i k : ℕ) (bs : List (List Column)) {b : List Column} {c : Column}
    → All (λ x. i < length x) bs
    → get_elem? bs k ≡ some b
    → get_elem? b i ≡ some c
    → get_elem? (gather i bs) k ≡ some c
gather-get i k [] all e f = cc
gather-get i zero (x ∷ bs) {b} all e f = let same : x ≡ b = ground arith in rw (gather, same, f)
gather-get i (suc k) (x ∷ bs) all e f =
    let (y, here) = get_elem?_lt x i all.0 in rw (gather, here) (gather-get i k bs all.1 e f)

-- A chunk is read back whole, from the file or from one that goes on after it.
read-Chunk :
    {file : Bytes} {t : ColumnType} {o s : ℕ} {c : Column} (rest : Bytes)
    → Chunk file t o s c
    → (b : Bytes) × (pread (file ++ rest) s o ≡ b) × (length b ≡ s) × (decode t b ≡ ok c)
unfolding pread
read-Chunk {file} {t} {o} {s} rest k = (
  k.bytes,
  rw (
    k.splits,
    append_assoc,
    append_assoc,
    drop_at o k.front (k.bytes ++ (k.back ++ rest)) k.offset_is,
    take_at s k.bytes (k.back ++ rest) k.size_is,
  ),
  sym k.size_is,
  decode_of k.storable k.encodes,
)
  where
    decode_of :
        {t : ColumnType} {c : Column} {b : Bytes}
        → Storable t c
        → encode t c ≡ ok b
        → decode t b ≡ ok c
    decode_of {b} st e = let (b', e', d) = decode-encode st in let same : b ≡ b' = cc in rw same d

length-Chunks :
    {file : Bytes} {t : ColumnType} {os ss : List ℕ} {cs : List Column}
    → Chunks file t os ss cs
    → (length os ≡ length cs) × (length ss ≡ length cs)
length-Chunks no_chunk = (refl, refl)
length-Chunks (chunk x xs) = (ap suc (length-Chunks xs).0, ap suc (length-Chunks xs).1)

-- Offsets and sizes are bounded by the length of the file.
Chunks-small :
    {file : Bytes} {t : ColumnType} {os ss : List ℕ} {cs : List Column} (n : ℕ)
    → length file < n
    → Chunks file t os ss cs
    → All (λ o. o < n) os × All (λ s. s < n) ss
Chunks-small n h no_chunk = (tt, tt)
Chunks-small {file} n h (chunk x xs) =
    let (os, ss) = Chunks-small n h xs in
    let size : length file ≡ length x.front + (length x.bytes + length x.back) =
      rw x.splits
        (omega (arith, length-append x.front (x.bytes ++ x.back), length-append x.bytes x.back)) in
    ((omega (arith, x.offset_is, size), os), (omega (arith, x.size_is, size), ss))

length-gather : (i : ℕ) (bs : List (List Column)) → length (gather i bs) ≤ length bs
length-gather i [] = omega arith
length-gather i (b ∷ bs) = elim (Option-cases (get_elem? b i)) [
  | inl e ↦ rw (gather, e) (omega (arith, length-gather i bs))
  | inr (c, e) ↦ rw (gather, e) (omega (arith, length-gather i bs))
]

-- Names are shorter than 2 ^ 32 bytes, and types are those of the source.
abbrev pub IsHeader : ColumnMetadata → Type 0
IsHeader m = (length m.name < 2 ^ 32) × ((n : ℕ) → m.type_of ≢ unnamed n)

Stored-Fits :
    (file : Bytes) (i : ℕ) (ms : List ColumnMetadata) (bs : List (List Column))
    → length file < 2 ^ 64
    → length bs < 2 ^ 32
    → All IsHeader ms
    → Stored file i ms bs
    → All Fits ms
Stored-Fits file i [] bs hf hb hm h = tt
Stored-Fits file i (m ∷ ms) bs hf hb hm h =
    let (os, ss) = length-Chunks h.0 in
    let (small_os, small_ss) = Chunks-small (2 ^ 64) hf h.0 in
    (
      record {
        name_short = hm.0.0;
        type_named = hm.0.1;
        few_chunks = omega (arith, length-gather i bs);
        chunks_paired = omega arith;
        offsets_small = small_os;
        sizes_small = small_ss;
      },
      Stored-Fits file (suc i) ms bs hf hb hm.1 h.1,
    )

-- The widths that the format sets: fewer than 2 ^ 64 bytes and rows, and fewer than 2 ^ 32 columns
-- and batches.
pub record InRange (wr : ColumnarWriter) (bs : List (List Column)) : Type 0 where
  pub file_short : length wr.file < 2 ^ 64
  pub rows_few : total_rows bs < 2 ^ 64
  pub columns_few : length wr.metadata < 2 ^ 32
  pub batches_few : length bs < 2 ^ 32
  pub headers : All IsHeader wr.metadata

-- Column `i` of batch `k` stands in a list of batches.
abbrev pub Cell : List (List Column) → ℕ → ℕ → Column → Type 0
Cell bs i k c = (b : List Column) × (get_elem? bs k ≡ some b) × (get_elem? b i ≡ some c)

get_column_data_lem :
    (file rest : Bytes) (ms : List ColumnMetadata) (rows i k : ℕ) (bs : List (List Column))
    {c : Column}
    → Stored file 0 ms bs
    → i < length ms
    → All (λ b. i < length b) bs
    → Cell bs i k c
    → get_column_data (record { columns = ms; num_rows = rows }) (file ++ rest) i k ≡ ok c
unfolding get_column_data read_raw_column_data
get_column_data_lem file rest ms rows i k bs {c} h lt all (b, eb, ec) =
    let (m, em) = get_elem?_lt ms i lt in
    let (o, s, eo, es, x) =
      Chunks-get k (Stored-get file 0 i i ms bs h em (omega arith)) (gather-get i k bs all eb ec) in
    let (raw, got, sized, decoded) = read-Chunk rest x in
    let in_columns : ltb i (length ms) ≡ true = lt→ltb _ _ lt in
    let in_chunks : ltb k (length m.offsets) ≡ true = lt→ltb _ _ (lt_of_get_elem? m.offsets k eo) in
    let whole : (length raw == s) ≡ true = ground arith in
    rw (in_columns, em, in_chunks, eo, es, got, whole, decoded)

-- What is written is what is read. After a header and the batches `bs`, in the ranges of the
-- format, finishing the file succeeds; the parsed metadata has the columns of the writer and the
-- number of rows of all batches; and reading chunk `k` of column `i` gives column `i` of batch `k`.
pub read-write :
    {wr : ColumnarWriter} {bs : List (List Column)}
    → IsWriting wr bs
    → InRange wr bs
    → All (λ b. length b ≡ length wr.metadata) bs
    → (done : ColumnarWriter) × (table : MetadataTable) × (finalize wr ≡ ok done)
      × (parse_metadata done.file ≡ ok table)
      × (table.columns ≡ wr.metadata)
      × (table.num_rows ≡ total_rows bs)
      × ((i k : ℕ) (c : Column) → Cell bs i k c → get_column_data table done.file i k ≡ ok c)
read-write {wr} {bs} w r widths =
    let (done, finished, parsed, (rest, extends)) = parse_metadata-finalize wr (record {
      started = w.started;
      all_fit = Stored-Fits wr.file 0 wr.metadata bs r.file_short r.batches_few r.headers w.stored;
      few_columns = r.columns_few;
      at_end = w.at_end;
      offset_small = omega (arith, w.at_end, r.file_short);
      rows_small = omega (arith, w.rows_are, r.rows_few);
      has_magic = w.has_magic;
    }) in
    (
      done,
      record { columns = wr.metadata; num_rows = wr.num_rows },
      finished,
      parsed,
      refl,
      w.rows_are,
      λ i k c cell.
          let lt : i < length wr.metadata =
            rw (← All-get_elem? (λ b. length b ≡ length wr.metadata) bs k widths cell.1)
              (lt_of_get_elem? cell.0 i cell.2) in
          rw extends (
            get_column_data_lem wr.file rest wr.metadata wr.num_rows i k bs w.stored lt
              (All-map (λ b e. rw e lt) bs widths) cell),
    )
