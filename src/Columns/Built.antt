-- ===== src/Columns/Built.antt =====
-- What a column builder has built: the column of the texts that were added.
use columnar_engine.Base.{
  ℕ, suc, ◌<◌, ◌^◌, ◌≡◌, refl, ap, subst, some, false, List, [], ◌∷◌, ◌++◌, map, length, get_or,
  All, Result, ok,
}
use columnar_engine.Base.Words.{Bytes}
use columnar_engine.Types.ColumnTypes.{ColumnType, string, elem_size, is_string}
use columnar_engine.Strings.Flat.{clear, push_back}
use columnar_engine.Strings.Holds.{Holds}
use columnar_engine.Strings.Reads.{empty-Holds, push_back-Holds}
use columnar_engine.Columns.Column.{Column, fixed, strings, clear_column}
use columnar_engine.Columns.RoundTrip.{Storable, fixed_words, short_strings}
use columnar_engine.Columns.Values.{from_string}
use columnar_engine.Columns.Builders.{add_text}

-- Column `j` of some rows.
abbrev pub column_of : ℕ → List (List Bytes) → List Bytes
column_of j rows = map (λ r. get_or r j []) rows

module _ (parse_float : ColumnType → Bytes → Result ℕ) where
  -- A text that a column of the type has a value for: one that fits the type, or a string shorter
  -- than 2 ^ 32 bytes.
  pub data IsText : ColumnType → Bytes → Type 0 where
    word_text :
        {t : ColumnType} {s : Bytes} (w n : ℕ)
        → elem_size t ≡ some w
        → from_string parse_float t s ≡ ok n
        → n < 256 ^ w
        → IsText t s
    string_text : {s : Bytes} → length s < 2 ^ 32 → IsText string s

  -- The words of texts, in order.
  abbrev pub Words : ColumnType → ℕ → List Bytes → List ℕ → Type 0
  Words t w [] [] = Unit
  Words t w (s ∷ ss) (n ∷ ns) =
      (from_string parse_float t s ≡ ok n) × (n < 256 ^ w) × Words t w ss ns
  Words t w _ _ = ⊥

  -- The column of type `t` with the values of the texts, in order.
  pub data Built : ColumnType → Column → List Bytes → Type 0 where
    built_words :
        {t : ColumnType} {ws : List ℕ} {ss : List Bytes} (w : ℕ)
        → elem_size t ≡ some w
        → Words t w ss ws
        → Built t (fixed t ws) ss
    built_strings :
        {v : _} {ss : List Bytes}
        → Holds v ss
        → All (λ s. length s < 2 ^ 32) ss
        → Built string (strings v) ss

  Words-append :
      (t : ColumnType) (w : ℕ) (ss : List Bytes) (ns : List ℕ) (s : Bytes) (n : ℕ)
      → Words t w ss ns
      → from_string parse_float t s ≡ ok n
      → n < 256 ^ w
      → Words t w (ss ++ s ∷ []) (ns ++ n ∷ [])
  Words-append t w [] [] s n h e lt = (e, lt, tt)
  Words-append t w [] (m ∷ ns) s n h e lt = absurd h
  Words-append t w (r ∷ ss) [] s n h e lt = absurd h
  Words-append t w (r ∷ ss) (m ∷ ns) s n h e lt = (h.0, h.1, Words-append t w ss ns s n h.2 e lt)

  All-append_one :
      (ss : List Bytes) (s : Bytes)
      → All (λ s. length s < 2 ^ 32) ss
      → length s < 2 ^ 32
      → All (λ s. length s < 2 ^ 32) (ss ++ s ∷ [])
  All-append_one [] s h lt = (lt, tt)
  All-append_one (r ∷ ss) s h lt = (h.0, All-append_one ss s h.1 lt)

  -- A text that has a value is added.
  pub add_text-Built :
      {t : ColumnType} {c : Column} {ss : List Bytes} (s : Bytes)
      → Built t c ss
      → IsText t s
      → (c' : Column) × (add_text parse_float c s ≡ ok c') × Built t c' (ss ++ s ∷ [])
  unfolding add_text elem_size
  add_text-Built s (built_words {t} {ws} {ss} w e h) (word_text w' n e' p lt) =
      let same : w' ≡ w = cc in
      (
        fixed t (ws ++ n ∷ []),
        rw p,
        built_words w e (Words-append t w ss ws s n h p (subst (λ k. n < 256 ^ k) same lt)),
      )
  add_text-Built s (built_words w e h) (string_text lt) = cc
  add_text-Built s (built_strings h all) (word_text w' n e' p lt) = cc
  add_text-Built s (built_strings {v} {ss} h all) (string_text lt) = (
    strings (push_back v s),
    refl,
    built_strings (push_back-Holds s h) (All-append_one ss s all lt),
  )

  All-Words :
      (t : ColumnType) (w : ℕ) (ss : List Bytes) (ns : List ℕ)
      → Words t w ss ns
      → All (λ n. n < 256 ^ w) ns
  All-Words t w [] [] h = tt
  All-Words t w [] (n ∷ ns) h = absurd h
  All-Words t w (s ∷ ss) [] h = absurd h
  All-Words t w (s ∷ ss) (n ∷ ns) h = (h.1, All-Words t w ss ns h.2)

  pub length-Words :
      (t : ColumnType) (w : ℕ) (ss : List Bytes) (ns : List ℕ)
      → Words t w ss ns
      → length ns ≡ length ss
  length-Words t w [] [] h = refl
  length-Words t w [] (n ∷ ns) h = absurd h
  length-Words t w (s ∷ ss) [] h = absurd h
  length-Words t w (s ∷ ss) (n ∷ ns) h = ap suc (length-Words t w ss ns h.2)

  not_string : (t : ColumnType) {w : ℕ} → elem_size t ≡ some w → is_string t ≡ false
  unfolding elem_size
  not_string string e = cc
  not_string _ e = refl

  pub Built-Storable : {t : ColumnType} {c : Column} {ss : List Bytes} → Built t c ss → Storable t c
  Built-Storable (built_words {t} {ws} {ss} w e h) =
      fixed_words w e (not_string t e) (All-Words t w ss ws h)
  Built-Storable (built_strings {ss = ss} h all) = short_strings ss h all

  pub Built-clear :
      {t : ColumnType} {c : Column} {ss : List Bytes} → Built t c ss → Built t (clear_column c) []
  unfolding clear_column clear
  Built-clear (built_words w e h) = built_words w e tt
  Built-clear (built_strings h all) = built_strings empty-Holds tt
