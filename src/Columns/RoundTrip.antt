-- ===== src/Columns/RoundTrip.antt =====
-- Reading back what the writer wrote for a column gives that column.
use native.Mathlib.Nat.{mul-div_cancel, mod-eq-sub-div-mul, le_refl}
use columnar_engine.Base.{
  ltb, get_elem?-append, lt_of_get_elem?, zero-add, length-append_one, append_assoc, append-nil,
  ◌-◌, ◌%◌, leb, true, suc, get_elem?, ◌∙◌, some, ℕ, zero, ◌+◌, ◌*◌, ◌/◌, ◌^◌, ◌≤◌, ◌<◌, ◌≡◌, refl,
  sym, ap, false, List, [], ◌∷◌, ◌++◌, arith, length, take, drop, length-append, take-append,
  drop-append, ok, All,
}
use columnar_engine.Base.Words.{Bytes, to_bytes, length-to_bytes, of_bytes-to_bytes}
use columnar_engine.Strings.Flat.{view_lem, push_back, empty, push_all, VectorOfStrings}
use columnar_engine.Strings.Holds.{
  concat, Holds-unique, slice-concat, get_elem?-offsets_from, Holds,
}
use columnar_engine.Strings.Reads.{size-Holds, push_all-Holds, empty-Holds}
use columnar_engine.Types.ColumnTypes.{ColumnType, string, elem_size, elem_size_pos, is_string}
use columnar_engine.Columns.Column.{strings, column_size, string_data, fixed_data, Column, fixed}
use columnar_engine.Columns.Bytes.{
  string_block, encode, decode, string_blocks, words_to_bytes, bytes_to_words, read_words,
  read_strings,
}

-- A column that a file of the column's type can hold: its words fit their width, and its strings
-- are shorter than 2 ^ 32 bytes, the range of the length in front of each.
pub data Storable : ColumnType → Column → Type 0 where
  fixed_words :
      {t : ColumnType} {ws : List ℕ} (w : ℕ)
      → elem_size t ≡ some w
      → is_string t ≡ false
      → All (λ x. x < 256 ^ w) ws
      → Storable t (fixed t ws)
  short_strings :
      {v : VectorOfStrings} (ss : List Bytes)
      → Holds v ss
      → All (λ s. length s < 2 ^ 32) ss
      → Storable string (strings v)

length-words_to_bytes : (w : ℕ) (ws : List ℕ) → length (words_to_bytes w ws) ≡ length ws * w
unfolding words_to_bytes
length-words_to_bytes w [] = omega arith
length-words_to_bytes w (x ∷ ws) = omega (
  arith,
  length-append (to_bytes w x) (words_to_bytes w ws),
  length-to_bytes w x,
  length-words_to_bytes w ws,
)

pub take-to_bytes : (w x : ℕ) (rest : Bytes) → take w (to_bytes w x ++ rest) ≡ to_bytes w x
take-to_bytes w x rest =
    ap (λ k. take k (to_bytes w x ++ rest)) (sym (length-to_bytes w x))
    ∙ take-append (to_bytes w x) rest

pub drop-to_bytes : (w x : ℕ) (rest : Bytes) → drop w (to_bytes w x ++ rest) ≡ rest
drop-to_bytes w x rest =
    ap (λ k. drop k (to_bytes w x ++ rest)) (sym (length-to_bytes w x))
    ∙ drop-append (to_bytes w x) rest

bytes_to_words-words_to_bytes :
    (w : ℕ) (ws : List ℕ)
    → All (λ x. x < 256 ^ w) ws
    → bytes_to_words w (length ws) (words_to_bytes w ws) ≡ ws
unfolding bytes_to_words words_to_bytes
bytes_to_words-words_to_bytes w [] h = refl
bytes_to_words-words_to_bytes w (x ∷ ws) h = rw (
  take-to_bytes,
  drop-to_bytes,
  of_bytes-to_bytes w x h.0,
  bytes_to_words-words_to_bytes w ws h.1,
)

pub read_words_lem :
    (w : ℕ) (ws : List ℕ)
    → 0 < w
    → All (λ x. x < 256 ^ w) ws
    → read_words w (words_to_bytes w ws) ≡ ok ws
unfolding read_words
read_words_lem w ws h all =
    let whole : length ws * w / w ≡ length ws = mul-div_cancel (length ws) h in
    let aligned : length ws * w % w ≡ 0 =
      mod-eq-sub-div-mul (length ws * w) w ∙ rw whole (omega arith) in
    rw (length-words_to_bytes w ws, whole, aligned, bytes_to_words-words_to_bytes w ws all)

-- The bytes of strings, each behind its length.
abbrev blocks : List Bytes → Bytes
blocks [] = []
blocks (s ∷ ss) = (to_bytes 4 (length s) ++ s) ++ blocks ss

string_block_lem :
    (s : Bytes) (raw : Bytes) (start end : ℕ)
    → length s < 2 ^ 32
    → end ≡ start + length s
    → end ≤ length raw
    → take (length s) (drop start raw) ≡ s
    → string_block raw start end ≡ ok (to_bytes 4 (length s) ++ s)
unfolding string_block
string_block_lem [] raw start end h e le t =
    let z : (end - start) % 2 ^ 32 ≡ 0 = omega arith in rw (view_lem raw start end 0 e le, z)
string_block_lem (b ∷ bs) raw start end h e le t =
    let z : (end - start) % 2 ^ 32 ≡ suc (length bs) = omega arith in
    let nonempty : ltb 0 (suc (length bs)) ≡ true = ground arith in
    rw (view_lem raw start end (suc (length bs)) e le, z, t, nonempty)

read_strings_end : (fuel : ℕ) (v : VectorOfStrings) → read_strings fuel v [] ≡ ok v
unfolding read_strings
read_strings_end zero v = refl
read_strings_end (suc fuel) v = refl

string_blocks_lem :
    {v : VectorOfStrings} (pre ss : List Bytes)
    → Holds v (pre ++ ss)
    → All (λ s. length s < 2 ^ 32) ss
    → string_blocks v.bytes v.offsets (length pre) (length ss) ≡ ok (blocks ss)
unfolding string_blocks
string_blocks_lem pre [] h all = refl
string_blocks_lem {v} pre (s ∷ ss) h all =
    let flat = pre ++ s ∷ ss in
    let here : get_elem? flat (length pre) ≡ some s = get_elem?-append pre s ss in
    let (a, b, c) = slice-concat flat (length pre) s [] here in
    let lt = lt_of_get_elem? flat (length pre) here in
    let rest : string_blocks v.bytes v.offsets (suc (length pre)) (length ss) ≡ ok (blocks ss) =
      rw (← length-append_one pre s)
        (string_blocks_lem (pre ++ s ∷ []) ss (rw append_assoc h) all.1) in
    let start : get_elem? v.offsets (length pre) ≡ some (length (concat (take (length pre) flat))) =
      rw h.offsets_are (get_elem?-offsets_from 0 flat (length pre) (omega arith) ∙ rw zero-add) in
    let end : get_elem? v.offsets (suc (length pre))
        ≡ some (length (concat (take (length pre) flat)) + length s) =
      rw h.offsets_are (get_elem?-offsets_from 0 flat (suc (length pre)) lt ∙ rw (zero-add, b)) in
    let block : string_block v.bytes (length (concat (take (length pre) flat)))
          (length (concat (take (length pre) flat)) + length s)
        ≡ ok (to_bytes 4 (length s) ++ s) =
      rw h.bytes_are (string_block_lem s (concat flat) _ _ all.0 refl c (rw append-nil at a)) in
    rw (start, end, block, rest)

read_strings_round :
    (fuel : ℕ) (v : VectorOfStrings) (s rest : Bytes)
    → length s < 2 ^ 32
    → read_strings (suc fuel) v (to_bytes 4 (length s) ++ (s ++ rest))
      ≡ read_strings fuel (push_back v s) rest
unfolding read_strings to_bytes
read_strings_round fuel v s rest h =
    let some_left : leb 4 (suc (suc (suc (suc (length (s ++ rest)))))) ≡ true = ground arith in
    let fits : leb (length s) (length (s ++ rest)) ≡ true = ground (arith, length-append s rest) in
    rw (some_left, of_bytes-to_bytes 4 (length s) h, fits, take-append, drop-append)

read_strings-blocks :
    (fuel : ℕ) (v : VectorOfStrings) (ss : List Bytes)
    → length (blocks ss) ≤ fuel
    → All (λ s. length s < 2 ^ 32) ss
    → read_strings fuel v (blocks ss) ≡ ok (push_all v ss)
unfolding push_all
read_strings-blocks fuel v [] h all = read_strings_end fuel v
read_strings-blocks zero v (s ∷ ss) h all = absurd (
    omega (
      arith,
      length-append (to_bytes 4 (length s) ++ s) (blocks ss),
      length-append (to_bytes 4 (length s)) s,
      length-to_bytes 4 (length s),
    ))
read_strings-blocks (suc fuel) v (s ∷ ss) h all = rw append_assoc (
    read_strings_round fuel v s (blocks ss) all.0
    ∙ read_strings-blocks fuel (push_back v s) ss
        (omega (
          arith,
          length-append (to_bytes 4 (length s) ++ s) (blocks ss),
          length-append (to_bytes 4 (length s)) s,
          length-to_bytes 4 (length s),
        ))
        all.1)

-- A column of the file's type, with words that fit their width or strings shorter than 2 ^ 32 bytes,
-- is written without error, and what is read back from its bytes is that column.
pub decode-encode :
    {t : ColumnType} {c : Column}
    → Storable t c
    → (b : Bytes) × (encode t c ≡ ok b) × (decode t b ≡ ok c)
unfolding encode decode fixed_data string_data column_size
decode-encode (fixed_words {t} {ws} w size_is plain all) = (
  words_to_bytes w ws,
  rw (plain, size_is),
  rw (plain, size_is, read_words_lem w ws (elem_size_pos t size_is) all),
)
decode-encode (short_strings {v} ss h all) = (
  blocks ss,
  rw (size-Holds h) (string_blocks_lem [] ss h all),
  rw (read_strings-blocks (length (blocks ss)) empty ss (le_refl _) all)
      (ap (λ u. ok (strings u)) (Holds-unique (push_all-Holds ss empty-Holds) h)),
)
