-- ===== src/Execution/Selected.antt =====
-- A filter evaluated on a batch selects the rows of the batch that pass it.
use columnar_engine.Base.{
  >>=-eq-ok, ℕ, ◌≡◌, ap, ◌∙◌, Bool, not, ◌&&◌, ◌||◌, List, [], Result, ok, ◌>>=◌, at, All,
}
use columnar_engine.Base.Words.{Bytes}
use columnar_engine.Types.ColumnTypes.{ColumnType}
use columnar_engine.Columns.Column.{Column, string_data}
use columnar_engine.Strings.Flat.{VectorOfStrings, get_string}
use columnar_engine.Execution.Batch.{RecordBatch, words_of, iterate_from, iterate_column_data}
use columnar_engine.Execution.Filters.{
  FilterFunction, Comparison, compare_word, compare_text, like, not_like, and_filter, or_filter,
  compare_words, compare_texts, contains, select_words, select_texts, evaluate,
}
use columnar_engine.Execution.Selection.{
  keep, value_or, HasRows, iterate_from-keep, set_intersection-keep, set_union-keep,
}

abbrev pub words_at : List Column → ColumnType → ℕ → Result (List ℕ)
words_at columns t i = do column ← at columns i; words_of t column

abbrev pub texts_at : List Column → ℕ → Result VectorOfStrings
texts_at columns i = do column ← at columns i; string_data column

abbrev pub text_at : List Column → ℕ → ℕ → Bytes
text_at columns i r = value_or [] (do v ← texts_at columns i; get_string v r)

-- Each row has a value.
abbrev pub HasValues {ℓ} : {A : Type ℓ} → (ℕ → Result A) → List ℕ → Type ℓ
HasValues {A} get rows = All (λ r. (v : A) × (get r ≡ ok v)) rows

-- The column at an index is of the class that the filter reads, and has a value at each row.
abbrev pub HasWords : List Column → ColumnType → ℕ → List ℕ → Type 0
HasWords columns t i rows =
    (words : List ℕ) × (words_at columns t i ≡ ok words) × HasValues (at words) rows

abbrev pub HasTexts : List Column → ℕ → List ℕ → Type 0
HasTexts columns i rows =
    (v : VectorOfStrings) × (texts_at columns i ≡ ok v) × HasValues (get_string v) rows

-- All columns that a filter reads are there.
abbrev pub CanRead : FilterFunction → List Column → List ℕ → Type 0
CanRead (compare_word c t i target) columns rows = HasWords columns t i rows
CanRead (compare_text c i target) columns rows = HasTexts columns i rows
CanRead (like i pattern) columns rows = HasTexts columns i rows
CanRead (not_like i pattern) columns rows = HasTexts columns i rows
CanRead (and_filter f g) columns rows = CanRead f columns rows × CanRead g columns rows
CanRead (or_filter f g) columns rows = CanRead f columns rows × CanRead g columns rows

select_words-keep :
    {batch : RecordBatch} (rows : List ℕ) (t : ColumnType) (i : ℕ) (test : ℕ → Bool)
    → HasRows batch rows
    → HasWords batch.columns t i rows
    → select_words batch t i test
      ≡ ok (keep (λ r. test (value_or 0 (do ws ← words_at batch.columns t i; at ws r))) rows)
unfolding select_words iterate_column_data
select_words-keep {batch} rows t i test h (words, e, values) =
    let (calls, c, p) = iterate_from-keep batch (at words) 0 test 0 rows h.visits values in
    let (column, a, b) = >>=-eq-ok (at batch.columns i) (words_of t) e in
    rw (a, b, ap (iterate_from batch (at words) 0) h.counted ∙ c) (ap ok p)

select_texts-keep :
    {batch : RecordBatch} (rows : List ℕ) (i : ℕ) (test : Bytes → Bool)
    → HasRows batch rows
    → HasTexts batch.columns i rows
    → select_texts batch i test ≡ ok (keep (λ r. test (text_at batch.columns i r)) rows)
unfolding select_texts iterate_column_data
select_texts-keep {batch} rows i test h (v, e, values) =
    let (calls, c, p) = iterate_from-keep batch (get_string v) [] test 0 rows h.visits values in
    let (column, a, b) = >>=-eq-ok (at batch.columns i) string_data e in
    rw (a, b, ap (iterate_from batch (get_string v) 0) h.counted ∙ c) (ap ok p)

module _ (float_test : ColumnType → Comparison → ℕ → ℕ → Bool) where
  -- Whether a row passes a filter.
  abbrev pub passes : FilterFunction → List Column → ℕ → Bool
  passes (compare_word c t i target) columns r =
      compare_words float_test t c (value_or 0 (do ws ← words_at columns t i; at ws r)) target
  passes (compare_text c i target) columns r = compare_texts c (text_at columns i r) target
  passes (like i pattern) columns r = contains pattern (text_at columns i r)
  passes (not_like i pattern) columns r = not (contains pattern (text_at columns i r))
  passes (and_filter f g) columns r = passes f columns r && passes g columns r
  passes (or_filter f g) columns r = passes f columns r || passes g columns r

  -- On a batch whose rows come in increasing order, and whose columns can be read at those rows, a
  -- filter selects exactly the rows that pass it, in order; conjunctions and disjunctions are those
  -- of the tests of a row.
  pub evaluate-keep :
      (f : FilterFunction) {batch : RecordBatch} (rows : List ℕ)
      → HasRows batch rows
      → CanRead f batch.columns rows
      → evaluate float_test f batch ≡ ok (keep (passes f batch.columns) rows)
  unfolding evaluate
  evaluate-keep (compare_word c t i target) rows h read =
      select_words-keep rows t i (λ v. compare_words float_test t c v target) h read
  evaluate-keep (compare_text c i target) rows h read =
      select_texts-keep rows i (λ v. compare_texts c v target) h read
  evaluate-keep (like i pattern) rows h read = select_texts-keep rows i (contains pattern) h read
  evaluate-keep (not_like i pattern) rows h read =
      select_texts-keep rows i (λ v. not (contains pattern v)) h read
  evaluate-keep (and_filter f g) {batch} rows h read =
      rw (evaluate-keep f rows h read.0, evaluate-keep g rows h read.1)
        (ap ok (
          set_intersection-keep (passes f batch.columns) (passes g batch.columns) rows
            h.increasing))
  evaluate-keep (or_filter f g) {batch} rows h read =
      rw (evaluate-keep f rows h read.0, evaluate-keep g rows h read.1)
        (ap ok (set_union-keep (passes f batch.columns) (passes g batch.columns) rows h.increasing))
