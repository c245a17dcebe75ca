-- ===== src/Execution/Filters.antt =====
-- The filter functions of execution/expressions/FilterFunctions.h. The comparison of floating-point
-- values is that of the machine: it is a parameter of the model, `float_test`, on the bit patterns.
use columnar_engine.Base.{
  ◌/◌, ℕ, ◌+◌, ◌%◌, ◌^◌, Bool, true, false, not, ◌&&◌, ◌||◌, none, some, List, [], ◌∷◌, ltb, leb,
  ◌==◌, if◌then◌else◌, Result, ok, ◌>>=◌, at,
}
use columnar_engine.Base.Words.{Bytes, bytes_eq}
use columnar_engine.Types.ColumnTypes.{ColumnType, float32, float64, long_double, elem_size}
use columnar_engine.Columns.Column.{string_data}
use columnar_engine.Strings.Flat.{get_string}
use columnar_engine.Execution.Batch.{RecordBatch, words_of, iterate_column_data}

-- The operator between a value and the target of a filter.
pub data Comparison : Type 0 where
  not_equal equal greater greater_equal less_equal : Comparison

-- A filter on values of a fixed-size type, on strings, and the two ways to combine filters. The
-- type is that of the column class that the filter is an instance for.
pub data FilterFunction : Type 0 where
  compare_word : Comparison → ColumnType → ℕ → ℕ → FilterFunction
  compare_text : Comparison → ℕ → Bytes → FilterFunction
  like : ℕ → Bytes → FilterFunction
  not_like : ℕ → Bytes → FilterFunction
  and_filter : FilterFunction → FilterFunction → FilterFunction
  or_filter : FilterFunction → FilterFunction → FilterFunction

-- A signed integer of `w` bytes as a number that grows with it: half the range is added.
unfoldable pub signed_rank : ℕ → ℕ → ℕ
signed_rank w x = (x + 256 ^ w / 2) % 256 ^ w

-- The comparison of two keys by their order.
unfoldable pub compare_rank : Comparison → ℕ → ℕ → Bool
compare_rank not_equal a b = not (a == b)
compare_rank equal a b = a == b
compare_rank greater a b = ltb b a
compare_rank greater_equal a b = leb b a
compare_rank less_equal a b = leb a b

-- `<` on texts: byte by byte, a prefix first.
unfoldable pub text_less : Bytes → Bytes → Bool
text_less xs [] = false
text_less [] (y ∷ ys) = true
text_less (x ∷ xs) (y ∷ ys) = ltb x y || (x == y && text_less xs ys)

unfoldable pub compare_texts : Comparison → Bytes → Bytes → Bool
compare_texts not_equal a b = not (bytes_eq a b)
compare_texts equal a b = bytes_eq a b
compare_texts greater a b = text_less b a
compare_texts greater_equal a b = not (text_less a b)
compare_texts less_equal a b = not (text_less b a)

-- `value.find(pattern) != npos`
unfoldable pub is_prefix : Bytes → Bytes → Bool
is_prefix [] s = true
is_prefix (p ∷ ps) [] = false
is_prefix (p ∷ ps) (c ∷ cs) = p == c && is_prefix ps cs

unfoldable pub contains : Bytes → Bytes → Bool
contains pattern [] = is_prefix pattern []
contains pattern (c ∷ cs) = is_prefix pattern (c ∷ cs) || contains pattern cs

-- `std::set_intersection` and `std::set_union`.
unfoldable pub set_intersection : List ℕ → List ℕ → List ℕ
set_intersection [] ys = []
set_intersection (x ∷ xs) [] = []
set_intersection (x ∷ xs) (y ∷ ys) =
    let skip_left = set_intersection xs (y ∷ ys) in
    let skip_right = set_intersection (x ∷ xs) ys in
    let both = set_intersection xs ys in
    if ltb x y then skip_left else if ltb y x then skip_right else x ∷ both

unfoldable pub set_union : List ℕ → List ℕ → List ℕ
set_union [] ys = ys
set_union (x ∷ xs) [] = x ∷ xs
set_union (x ∷ xs) (y ∷ ys) =
    let skip_left = set_union xs (y ∷ ys) in
    let skip_right = set_union (x ∷ xs) ys in
    let both = set_union xs ys in
    if ltb x y then x ∷ skip_left else if ltb y x then y ∷ skip_right else x ∷ both

-- The rows whose value passes a test, as the callbacks of the filters push them.
unfoldable pub push_passing {ℓ} : {A : Type ℓ} → (A → Bool) → List (A × ℕ × ℕ) → List ℕ
push_passing test [] = []
push_passing test (call ∷ calls) =
    let rest = push_passing test calls in if test call.0 then call.2 ∷ rest else rest

unfoldable pub select_words : RecordBatch → ColumnType → ℕ → (ℕ → Bool) → Result (List ℕ)
select_words batch t column_ind test = do
  column ← at batch.columns column_ind
  values ← words_of t column
  calls ← iterate_column_data batch (at values)
  ok (push_passing test calls)

unfoldable pub select_texts : RecordBatch → ℕ → (Bytes → Bool) → Result (List ℕ)
select_texts batch column_ind test = do
  column ← at batch.columns column_ind
  values ← string_data column
  calls ← iterate_column_data batch (get_string values)
  ok (push_passing test calls)

module _ (float_test : ColumnType → Comparison → ℕ → ℕ → Bool) where
  unfoldable pub compare_words : ColumnType → Comparison → ℕ → ℕ → Bool
  compare_words float32 c a b = float_test float32 c a b
  compare_words float64 c a b = float_test float64 c a b
  compare_words long_double c a b = float_test long_double c a b
  compare_words t c a b = elim (elem_size t) [
    | none ↦ false
    | some w ↦ compare_rank c (signed_rank w a) (signed_rank w b)
  ]

  unfoldable pub evaluate : FilterFunction → RecordBatch → Result (List ℕ)
  evaluate (compare_word c t column_ind target_val) batch =
      select_words batch t column_ind (λ value. compare_words t c value target_val)
  evaluate (compare_text c column_ind target_val) batch =
      select_texts batch column_ind (λ value. compare_texts c value target_val)
  evaluate (like column_ind pattern) batch = select_texts batch column_ind (contains pattern)
  evaluate (not_like column_ind pattern) batch =
      select_texts batch column_ind (λ value. not (contains pattern value))
  evaluate (and_filter left right) batch = do
    left_res ← evaluate left batch
    right_res ← evaluate right batch
    ok (set_intersection left_res right_res)
  evaluate (or_filter left right) batch = do
    left_res ← evaluate left batch
    right_res ← evaluate right batch
    ok (set_union left_res right_res)
