-- ===== src/Execution/SinkKeys.antt =====
-- The keys that `Sink` of GROUP BY makes for the rows of a batch stand in the columns of the batch.
use columnar_engine.Base.{
  ℕ, suc, ◌+◌, ◌<◌, ◌≡◌, refl, sym, ap, ◌∙◌, Option, none, some, List, [], ◌∷◌, arith, length,
  length-replicate, replicate, zero, ok, at, of_option,
}
use columnar_engine.Base.Words.{Bytes}
use columnar_engine.Types.ColumnTypes.{ColumnType}
use columnar_engine.Columns.Column.{Column}
use columnar_engine.Execution.Batch.{RecordBatch}
use columnar_engine.Execution.HashKeys.{selected}
use columnar_engine.Execution.GroupBy.{composite_keys}
use columnar_engine.Execution.Groups.{Selects}
use columnar_engine.Execution.Tracked.{get_elem?-replicate}
use columnar_engine.Execution.KeyBytes.{index_key}
use columnar_engine.Execution.KeyCopies.{KeyFits}
use columnar_engine.Execution.KeyValues.{Fits, string_fits, word_fits}
use columnar_engine.Execution.Keys.{
  KeyValue, ValueAt, text, word, text_at, word_at, encode_key, key_part-encode_value,
}
use columnar_engine.Execution.RowKeys.{ValuesAt, composite_keys-at}
use columnar_engine.Execution.GroupedRows.{length-composite_keys}

Fits-ValueAt :
    {t : ColumnType} {c : Column} {real : ℕ}
    → Fits t c real
    → (k : Option ℕ) × (v : KeyValue) × ValueAt k c real v
Fits-ValueAt (string_fits s e) = (none, text s, text_at s e)
Fits-ValueAt (word_fits w x e e') = (some w, word x, word_at w x e e')

KeyFits-ValuesAt :
    (columns : List Column) (types : List ColumnType) (is : List ℕ) (real : ℕ)
    → KeyFits columns types is real
    → (ks : List (Option ℕ)) × (vs : List KeyValue) × ValuesAt ks columns is real vs
KeyFits-ValuesAt columns [] [] real h = ([], [], tt)
KeyFits-ValuesAt columns [] (i ∷ is) real h = absurd h
KeyFits-ValuesAt columns (t ∷ ts) [] real h = absurd h
KeyFits-ValuesAt columns (t ∷ ts) (i ∷ is) real ((column, e, fits), rest) =
    let (k, v, value) = Fits-ValueAt fits in
    let (ks, vs, values) = KeyFits-ValuesAt columns ts is real rest in
    (k ∷ ks, v ∷ vs, ((column, e, value), values))

index_key-ValuesAt :
    (ks : List (Option ℕ)) (columns : List Column) (is : List ℕ) (real : ℕ) (vs : List KeyValue)
    → ValuesAt ks columns is real vs
    → index_key columns is real ≡ ok (encode_key ks vs)
index_key-ValuesAt [] columns [] real [] h = refl
index_key-ValuesAt [] columns [] real (v ∷ vs) h = absurd h
index_key-ValuesAt [] columns (i ∷ is) real vs h = absurd h
index_key-ValuesAt (k ∷ ks) columns [] real vs h = absurd h
index_key-ValuesAt (k ∷ ks) columns (i ∷ is) real [] h = absurd h
index_key-ValuesAt (k ∷ ks) columns (i ∷ is) real (v ∷ vs) ((column, e, value), rest) =
    rw (e, key_part-encode_value value, index_key-ValuesAt ks columns is real vs rest) refl

-- The rows from `i` on.
add_keys :
    {P : ℕ → Bytes → Type 0} {Q : ℕ → Bytes → Type 0} (sel : Option (List ℕ)) (i : ℕ)
    (keys : List Bytes)
    → ((j real : ℕ) (k : Bytes)
        → at keys j ≡ ok k
        → selected sel (i + j) ≡ ok real
        → P real k
        → Q real k)
    → Selects P sel i keys
    → Selects Q sel i keys
add_keys sel i [] f h = tt
add_keys {P} {Q} sel i (k ∷ ks) f ((real, e, p), h) = (
  (real, e, f 0 real k refl (ap (selected sel) (let same : i + 0 ≡ i = omega arith in same) ∙ e) p),
  add_keys {P = P} {Q = Q} sel (suc i) ks
      (λ j r k' found s p'.
        f (suc j) r k' found
          (ap (selected sel) (let same : i + suc j ≡ suc i + j = omega arith in same) ∙ s) p')
      h,
)

lt_of_found : (keys : List Bytes) (j : ℕ) {k : Bytes} → at keys j ≡ ok k → j < length keys
lt_of_found [] j e = cc
lt_of_found (k ∷ ks) zero e = omega arith
lt_of_found (k ∷ ks) (suc j) e = omega (arith, lt_of_found ks j e)

-- The columns at the indices hold the key that was made for a row.
pub keyed_rows :
    (batch : RecordBatch) (types : List ColumnType) (indices : List ℕ) (keys : List Bytes)
    → composite_keys batch indices (replicate batch.num_rows []) ≡ ok keys
    → Selects (λ real k. KeyFits batch.columns types indices real) batch.selection_vector 0 keys
    → Selects
        (λ real k.
          KeyFits batch.columns types indices real × (index_key batch.columns indices real ≡ ok k))
        batch.selection_vector
        0
        keys
keyed_rows batch types indices keys made h =
    add_keys batch.selection_vector 0 keys
      (λ j real k found s fits.
        let (ks, vs, values) = KeyFits-ValuesAt batch.columns types indices real fits in
        let count =
          length-composite_keys batch indices _ made ∙ length-replicate batch.num_rows [] in
        let blank = ap of_option (
          get_elem?-replicate batch.num_rows [] j
            (omega (arith, count, lt_of_found keys j found))) in
        let key =
          composite_keys-at batch ks indices _ j real [] vs made
            (ap (selected batch.selection_vector) (let z : j ≡ 0 + j = omega arith in z) ∙ s) values
            blank in
        (fits, index_key-ValuesAt ks batch.columns indices real vs values ∙ sym key ∙ found))
      h
