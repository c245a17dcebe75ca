-- ===== src/Columns/Bytes.antt =====
-- The bytes of a column: how `ColumnarWriter::WriteBatch` lays a column out (io/ColumnarWriter.cpp),
-- and how `ReadFromBuffer` of the column classes reads it back.
use columnar_engine.Base.{
  ℕ, zero, suc, ◌-◌, ◌/◌, ◌%◌, ◌^◌, none, some, List, [], ◌∷◌, ◌++◌, ltb, leb, ◌==◌, if◌then◌else◌,
  length, take, drop, Result, ok, err, out_of_bounds, ◌>>=◌, ◌>>◌, guard, at, out_of_fuel,
  unaligned_buffer, unknown_column_type,
}
use columnar_engine.Base.Words.{Bytes, to_bytes, of_bytes}
use columnar_engine.Strings.Flat.{VectorOfStrings, empty, push_back, view}
use columnar_engine.Types.ColumnTypes.{ColumnType, elem_size, is_string}
use columnar_engine.Columns.Column.{Column, fixed, strings, column_size, string_data, fixed_data}

-- `uint32_t length = end - start; insert(length); if (length > 0) insert(raw + start, raw + end);`
unfoldable pub string_block : Bytes → ℕ → ℕ → Result Bytes
string_block raw start end = do
  let len = (end - start) % 2 ^ 32
  str ← view raw start end
  ok (to_bytes 4 len ++ (if ltb 0 len then str else []))

-- The loop over the strings from `k` on, with `left` to go.
unfoldable pub string_blocks : Bytes → List ℕ → ℕ → ℕ → Result Bytes
string_blocks raw offsets k zero = ok []
string_blocks raw offsets k (suc left) = do
  start ← at offsets k
  end ← at offsets (suc k)
  block ← string_block raw start end
  rest ← string_blocks raw offsets (suc k) left
  ok (block ++ rest)

-- The bytes of a vector of words, as `reinterpret_cast<const char*>(vec->data())` sees them.
unfoldable pub words_to_bytes : ℕ → List ℕ → Bytes
words_to_bytes w [] = []
words_to_bytes w (x ∷ xs) = to_bytes w x ++ words_to_bytes w xs

-- What `WriteBatch` writes for one column. A type with no name has no bytes.
unfoldable pub encode : ColumnType → Column → Result Bytes
encode type c =
    if is_string type
    then (do v ← string_data c; string_blocks v.bytes v.offsets 0 (column_size c))
    else (elim (elem_size type) [
      | some w ↦ (do words ← fixed_data c; ok (words_to_bytes w words))
      | none ↦ ok []
    ])

-- `memcpy` of `n` words of `w` bytes out of a buffer.
unfoldable pub bytes_to_words : ℕ → ℕ → Bytes → List ℕ
bytes_to_words w zero b = []
bytes_to_words w (suc n) b = of_bytes (take w b) ∷ bytes_to_words w n (drop w b)

-- `ReadFromBuffer` of a numeric or temporal column, and of a column of characters (`w` is 1).
unfoldable pub read_words : ℕ → Bytes → Result (List ℕ)
read_words w buffer = do
  guard (length buffer % w == 0) unaligned_buffer
  ok (bytes_to_words w (length buffer / w) buffer)

-- The loop of `StringColumn::ReadFromBuffer` on what is left of the buffer. Each round takes at
-- least four bytes, so the length of the buffer is fuel enough.
unfoldable pub read_strings : ℕ → VectorOfStrings → Bytes → Result VectorOfStrings
read_strings fuel v [] = ok v
read_strings zero v (b ∷ bs) = err out_of_fuel
read_strings (suc fuel) v (b ∷ bs) = do
  let buffer = b ∷ bs
  guard (leb 4 (length buffer)) out_of_bounds
  let len = of_bytes (take 4 buffer)
  let rest = drop 4 buffer
  guard (leb len (length rest)) out_of_bounds
  read_strings fuel (push_back v (take len rest)) (drop len rest)

-- The dispatch of `ColumnarReader::GetColumnData`, over FOR_EACH_COLUMN_TYPE.
unfoldable pub decode : ColumnType → Bytes → Result Column
decode type buffer =
    if is_string type
    then (do v ← read_strings (length buffer) empty buffer; ok (strings v))
    else (elim (elem_size type) [
      | some w ↦ (do words ← read_words w buffer; ok (fixed type words))
      | none ↦ err unknown_column_type
    ])
