-- ===== src/Execution/KeyValues.antt =====
-- Copies of values from a column to the builder of a key, `CopySelection` of execution/ExecutionHelper.h.
use columnar_engine.Strings.Holds.{Holds}
use columnar_engine.Strings.Reads.{push_back-Holds, get_string-Holds}
use columnar_engine.Base.{
  suc, ◌+◌, ◌<◌, ap, length, length-append_one, get_elem?_lt, at_lt, of_option, ℕ, ◌≡◌, refl, some,
  List, [], ◌∷◌, ◌++◌, arith, All, ok, at, ◌==◌, true, subst, sym, ◌∙◌, zero, get_elem?,
  get_elem?-append_lt, get_elem?-append_add,
}
use columnar_engine.Base.Words.{Bytes}
use columnar_engine.Types.ColumnTypes.{ColumnType, string, elem_size, type_code}
use columnar_engine.Strings.Flat.{get_string, push_back}
use columnar_engine.Columns.Column.{Column, fixed, strings, get_type, string_data, fixed_data}
use columnar_engine.Execution.HashKeys.{key_part, copy_value, copy_selection}
use columnar_engine.Strings.Flat.{VectorOfStrings}
use columnar_engine.Execution.Groups.{some-eq}
use columnar_engine.Execution.KeyBytes.{
  Copied, nothing-Copied, next-Copied, part-strings, part-fixed,
}

-- A value of the type that can be read at `real`.
pub data Fits : ColumnType → Column → ℕ → Type 0 where
  string_fits : {v : _} {real : ℕ} (s : _) → get_string v real ≡ ok s → Fits string (strings v) real
  word_fits :
      {t : ColumnType} {ws : List ℕ} {real : ℕ} (w x : ℕ)
      → elem_size t ≡ some w
      → at ws real ≡ ok x
      → Fits t (fixed t ws) real

-- A builder of the type with `n` values.
pub data IsBuilder : ColumnType → ℕ → Column → Type 0 where
  string_builder :
      {v : _} (n : ℕ) (ss : List Bytes)
      → Holds v ss
      → length ss ≡ n
      → IsBuilder string n (strings v)
  word_builder :
      {t : ColumnType} {ws : List ℕ} (n w : ℕ)
      → elem_size t ≡ some w
      → length ws ≡ n
      → IsBuilder t n (fixed t ws)

pub IsBuilder-Fits :
    {t : ColumnType} {n : ℕ} {b : Column} {g : ℕ} → IsBuilder t n b → g < n → Fits t b g
IsBuilder-Fits {g = g} (string_builder n ss h e) lt =
    let (s, found) = get_elem?_lt ss g (omega arith) in
    string_fits s (get_string-Holds g h ∙ ap of_option found)
IsBuilder-Fits {g = g} (word_builder {ws = ws} n w h e) lt =
    let (x, found) = at_lt ws g (omega arith) in word_fits w x h found

copy_string :
    {d : VectorOfStrings} (v : VectorOfStrings) {real : ℕ} (ss : List Bytes) (s : Bytes)
    → Holds d ss
    → get_string v real ≡ ok s
    → Copied
        (key_part (strings d))
        (key_part (strings (push_back d s)))
        (key_part (strings v))
        (length ss)
        (real ∷ [])
copy_string {d} v {real} ss s h e = record { kept = before; copied = here }
  where
    before : (g : ℕ) → g < length ss → key_part (strings (push_back d s)) g ≡ key_part (strings d) g
    before g lt = part-strings (push_back d s) d g g (
        get_string-Holds g (push_back-Holds s h)
        ∙ ap of_option (get_elem?-append_lt ss (s ∷ []) g lt)
        ∙ sym (get_string-Holds g h))

    here :
        (j r : ℕ)
        → get_elem? (real ∷ []) j ≡ some r
        → key_part (strings (push_back d s)) (length ss + j) ≡ key_part (strings v) r
    here zero r f = part-strings (push_back d s) v (length ss + 0) r (
        get_string-Holds (length ss + 0) (push_back-Holds s h)
        ∙ ap of_option (get_elem?-append_add ss (s ∷ []) 0)
        ∙ sym e
        ∙ ap (get_string v) (some-eq f))
    here (suc j) r f = cc

copy_word :
    (t : ColumnType) (ws us : List ℕ) (real x : ℕ)
    → at us real ≡ ok x
    → Copied
        (key_part (fixed t ws))
        (key_part (fixed t (ws ++ x ∷ [])))
        (key_part (fixed t us))
        (length ws)
        (real ∷ [])
copy_word t ws us real x e = record {
  kept = λ g lt.
      part-fixed t (ws ++ x ∷ []) ws g g (ap of_option (get_elem?-append_lt ws (x ∷ []) g lt));
  copied = here;
}
  where
    here :
        (j r : ℕ)
        → get_elem? (real ∷ []) j ≡ some r
        → key_part (fixed t (ws ++ x ∷ [])) (length ws + j) ≡ key_part (fixed t us) r
    here zero r f =
        part-fixed t (ws ++ x ∷ []) us (length ws + 0) r
          (ap of_option (get_elem?-append_add ws (x ∷ []) 0) ∙ sym e ∙ ap (at us) (some-eq f))
    here (suc j) r f = cc

copy_value-IsBuilder :
    {t : ColumnType} {b column : Column} {n real : ℕ}
    → IsBuilder t n b
    → Fits t column real
    → (next : Column) × (copy_value b column real ≡ ok next)
      × IsBuilder t (suc n) next
      × Copied (key_part b) (key_part next) (key_part column) n (real ∷ [])
unfolding copy_value string_data fixed_data get_type elem_size
copy_value-IsBuilder {real = real} (string_builder {v = d} n ss h len) (string_fits {v} s e) = (
  strings (push_back d s),
  rw e refl,
  string_builder (suc n) (ss ++ s ∷ []) (push_back-Holds s h) (length-append_one ss s ∙ ap suc len),
  subst
      (λ k.
        Copied (key_part (strings d)) (key_part (strings (push_back d s))) (key_part (strings v)) k
          (real ∷ []))
      len (copy_string v ss s h e),
)
copy_value-IsBuilder (string_builder n ss h len) (word_fits w x e e') = cc
copy_value-IsBuilder (word_builder n w h len) (string_fits s e) = cc
copy_value-IsBuilder {real = real} (word_builder {t} {ws} n w h len)
      (word_fits {ws = us} w' x e e') =
    let same : type_code t == type_code t ≡ true = ground arith in
    (
      fixed t (ws ++ x ∷ []),
      rw (h, copy_value, same, e') refl,
      word_builder (suc n) w h (length-append_one ws x ∙ ap suc len),
      subst
          (λ k.
            Copied (key_part (fixed t ws)) (key_part (fixed t (ws ++ x ∷ [])))
              (key_part (fixed t us)) k (real ∷ []))
          len (copy_word t ws us real x e'),
    )

pub copy_selection-IsBuilder :
    {t : ColumnType} (column : Column) (rows : List ℕ) (n : ℕ) {b : Column}
    → IsBuilder t n b
    → All (Fits t column) rows
    → (next : Column) × (copy_selection b column rows ≡ ok next)
      × IsBuilder t (length rows + n) next
      × Copied (key_part b) (key_part next) (key_part column) n rows
unfolding copy_selection
copy_selection-IsBuilder {t} column [] n {b = b} h fits =
    (b, refl, subst (λ k. IsBuilder t k b) (omega arith) h, nothing-Copied (key_part b) _ n)
copy_selection-IsBuilder {t} column (r ∷ rows) n h fits =
    let (next, e, h', one) = copy_value-IsBuilder h fits.0 in
    let (last, run, h'', more) = copy_selection-IsBuilder column rows (suc n) h' fits.1 in
    (last, rw e run, subst (λ k. IsBuilder t k last) (omega arith) h'', next-Copied one more)
