-- ===== src/Strings/Table.antt =====
-- The class `VectorOfStrings2D` of utils/VectorOfStrings.h: the strings of several lines, the last
-- line still growing. Reserved capacity is left out, as in `Flat`.
use columnar_engine.Base.{
  not_two_dimensional, ℕ, suc, ◌+◌, ◌-◌, ◌*◌, ◌^◌, Bool, true, false, List, [], ◌∷◌, ◌++◌, leb,
  ◌==◌, if◌then◌else◌, length, set, Result, ok, err, out_of_bounds, ◌>>=◌, ◌>>◌, guard, at,
}
use columnar_engine.Base.Words.{Bytes}
use columnar_engine.Strings.Flat.{back, view}

pub record Table : Type 0 where
  pub bytes : Bytes
  pub offsets : List ℕ
  pub column_sizes : List ℕ
  pub lines : ℕ
  pub columns : ℕ
  pub columns_in_line : ℕ
  pub adding_string : Bool

-- The constructor, and the state that `Clear` brings back.
unfoldable pub empty_table : Table
empty_table = record {
  bytes = [];
  offsets = 0 ∷ [];
  column_sizes = [];
  lines = 1;
  columns = 0;
  columns_in_line = 0;
  adding_string = false;
}

unfoldable pub clear_table : Table → Table
unfolding empty_table
clear_table t = empty_table

-- `column_sizes_[i] += n`
unfoldable pub grow : List ℕ → ℕ → ℕ → Result (List ℕ)
grow sizes i n = do old ← at sizes i; ok (set sizes i (old + n))

-- The size bookkeeping of `AddString` and `EndAddString` for a string of `n` bytes in column `i`.
unfoldable pub record_size : Table → ℕ → ℕ → Result (List ℕ)
record_size t i n = if t.lines == 1 then ok (t.column_sizes ++ n ∷ []) else grow t.column_sizes i n

unfoldable pub add_string : Table → Bytes → Result Table
add_string t str = do
  let next_columns_in_line = t.columns_in_line + 1
  let bytes' = t.bytes ++ str
  sizes ← record_size t (next_columns_in_line - 1) (length str)
  ok (record t {
    bytes = bytes';
    offsets = t.offsets ++ length bytes' ∷ [];
    columns_in_line = next_columns_in_line;
    column_sizes = sizes;
  })

unfoldable pub start_add_string : Table → Table
start_add_string t = record t { adding_string = true }

-- `ContinueAddString` of a character, and of a piece of text.
unfoldable pub continue_add_string : Table → ℕ → Table
continue_add_string t c = record t { bytes = t.bytes ++ c ∷ [] }

unfoldable pub continue_add_text : Table → Bytes → Table
continue_add_text t sv = record t { bytes = t.bytes ++ sv }

-- `pop_back()` and `back()` on the bytes.
unfoldable pub init : Bytes → Result Bytes
init [] = err out_of_bounds
init (b ∷ []) = ok []
init (b ∷ c ∷ bs) = do rest ← init (c ∷ bs); ok (b ∷ rest)

unfoldable pub pop_last_char : Table → Result Table
pop_last_char t = do bytes' ← init t.bytes; ok (record t { bytes = bytes' })

unfoldable pub back_last_string : Table → Result ℕ
back_last_string t = back t.bytes

-- A difference of `size_t` numbers.
unfoldable pub sub_size : ℕ → ℕ → ℕ
sub_size a b = if leb b a then a - b else a + 2 ^ 64 - b

unfoldable pub end_add_string : Table → Result Table
end_add_string t = do
  last ← back t.offsets
  let len = sub_size (length t.bytes) last
  sizes ← record_size t t.columns_in_line len
  ok (record t {
    offsets = t.offsets ++ length t.bytes ∷ [];
    column_sizes = sizes;
    columns_in_line = t.columns_in_line + 1;
  })

unfoldable pub start_new_line : Table → Table
start_new_line t = record t {
  columns = if t.lines == 1 then t.columns_in_line else t.columns;
  lines = t.lines + 1;
  columns_in_line = 0;
}

unfoldable pub get_table_string : Table → ℕ → Result Bytes
get_table_string t index = do
  start ← at t.offsets index
  end ← at t.offsets (suc index)
  view t.bytes start end

-- `GetString2D`
unfoldable pub get_string_2d : Table → ℕ → ℕ → Result Bytes
get_string_2d t row_index column_index =
    let row_width = if t.lines == 1 then t.columns_in_line else t.columns in
    get_table_string t (row_index * row_width + column_index)

unfoldable pub table_empty_last_string : Table → Result Bool
table_empty_last_string t = do last ← back t.offsets; ok (last == length t.bytes)

unfoldable pub empty_last_row : Table → Bool
empty_last_row t = t.columns_in_line == 0

unfoldable pub table_size : Table → Result ℕ
table_size t = do guard (t.lines == 1) not_two_dimensional; ok (length t.offsets - 1)

unfoldable pub width : Table → ℕ
width t = if t.lines == 1 then t.columns_in_line else t.columns

unfoldable pub height : Table → ℕ
height t = if t.columns_in_line == 0 then t.lines - 1 else t.lines

-- `ApproxByteSize`; an offset takes eight bytes.
unfoldable pub approx_byte_size : Table → ℕ
approx_byte_size t = length t.bytes + length t.offsets * 8

unfoldable pub column_size : Table → ℕ → Result ℕ
column_size t j = at t.column_sizes j
