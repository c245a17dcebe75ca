-- ===== src/Io/Finish.antt =====
-- A writer that writes can finish its file.
use columnar_engine.Base.{
  ℕ, suc, guard, header_not_written, ◌≡◌, refl, sym, ap, ◌∙◌, List, [], ◌∷◌, arith, length,
  length-take, take, min, ◌%◌, ◌^◌, ok, >>=-total,
}
use columnar_engine.Base.Words.{Bytes}
use columnar_engine.Types.ColumnTypes.{ColumnType}
use columnar_engine.Columns.Column.{Column}
use columnar_engine.Io.Metadata.{ColumnMetadata}
use columnar_engine.Io.Stored.{Stored, Chunks, no_chunk, chunk}
use columnar_engine.Io.Session.{IsWriting}
use columnar_engine.Io.Writer.{
  ColumnarWriter, finalize, write_metadata, metadata_block, columns_bytes, column_bytes,
  chunk_bytes,
}

length-Chunks :
    {file : Bytes} {t : ColumnType} {os ss : List ℕ} {cs : List Column}
    → Chunks file t os ss cs
    → length os ≡ length ss
length-Chunks no_chunk = refl
length-Chunks (chunk c cs) = ap suc (length-Chunks cs)

chunk_bytes-total :
    (os ss : List ℕ) → length os ≡ length ss → (b : Bytes) × (chunk_bytes os ss ≡ ok b)
unfolding chunk_bytes
chunk_bytes-total [] ss e = ([], refl)
chunk_bytes-total (o ∷ os) [] e = absurd (omega arith)
chunk_bytes-total (o ∷ os) (s ∷ ss) e =
    >>=-total (chunk_bytes os ss) _ (chunk_bytes-total os ss (omega arith)) (λ rest _. (_, refl))

column_bytes-total :
    (m : ColumnMetadata) → length m.offsets ≡ length m.sizes → (b : Bytes) × (column_bytes m ≡ ok b)
unfolding column_bytes
column_bytes-total m e =
    let n = length m.offsets % 2 ^ 32 in
    let paired : length (take n m.offsets) ≡ length (take n m.sizes) =
      length-take n m.offsets ∙ ap (min n) e ∙ sym (length-take n m.sizes) in
    >>=-total (chunk_bytes (take n m.offsets) (take n m.sizes)) _
      (chunk_bytes-total (take n m.offsets) (take n m.sizes) paired) (λ chunks _. (_, refl))

columns_bytes-total :
    (file : Bytes) (i : ℕ) (ms : List ColumnMetadata) (bs : List (List Column))
    → Stored file i ms bs
    → (b : Bytes) × (columns_bytes ms ≡ ok b)
unfolding columns_bytes
columns_bytes-total file i [] bs h = ([], refl)
columns_bytes-total file i (m ∷ ms) bs h =
    >>=-total (column_bytes m) _ (column_bytes-total m (length-Chunks h.0)) (λ b _.
      >>=-total (columns_bytes ms) _ (columns_bytes-total file (suc i) ms bs h.1)
        (λ rest _. (_, refl)))

pub finalize-IsWriting :
    (wr : ColumnarWriter) (bs : List (List Column))
    → IsWriting wr bs
    → (done : ColumnarWriter) × (finalize wr ≡ ok done)
unfolding finalize write_metadata metadata_block
finalize-IsWriting wr bs w =
    let start : guard wr.header_written header_not_written ≡ ok tt =
      ap (λ b. guard b header_not_written) w.started in
    >>=-total (guard wr.header_written header_not_written) _ (tt, start)
      (λ _ _.
        >>=-total (write_metadata wr) _
          (>>=-total (metadata_block wr.metadata) _
            (>>=-total (columns_bytes wr.metadata) _
              (columns_bytes-total wr.file 0 wr.metadata bs w.stored) (λ columns _. (_, refl)))
            (λ block _. (_, refl)))
          (λ next _. (_, refl)))
