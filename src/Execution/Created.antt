-- ===== src/Execution/Created.antt =====
-- A filter that is made for a schema can read the batches of that schema.
use columnar_engine.Base.{
  subst, ℕ, suc, ◌+◌, ◌≡◌, refl, Bool, true, false, List, [], ◌∷◌, ◌==◌, arith, Result, ok, ◌>>=◌,
  ◌>>◌, guard, not_implemented, at, >>=-eq-ok, inl, inr, Bool-cases, Error,
}
use columnar_engine.Base.Words.{Bytes, bytes_eq}
use columnar_engine.Types.ColumnTypes.{ColumnType, type_code, is_string, string}
use columnar_engine.Columns.Column.{fixed_data, Column, fixed, strings, get_type, string_data}
use columnar_engine.Columns.Schema.{
  Field, Schema, schema_type_by_name, schema_index_by_name, type_of_name, index_of_name,
}
use columnar_engine.Strings.Flat.{get_string}
use columnar_engine.Execution.Batch.{words_of}
use columnar_engine.Execution.Filters.{
  Comparison, FilterFunction, compare_word, compare_text, like, not_like, and_filter, or_filter,
}
use columnar_engine.Execution.Selected.{CanRead, HasWords, HasTexts, HasValues}
use columnar_engine.Execution.Expressions.{
  FilterExpression, compare_number, compare_string, like_expression, not_like_expression,
  and_expression, or_expression, create_filter_function, same_type, value_type, is_dispatched,
}

-- A column of a field: of its type, with a value at each row.
abbrev pub IsColumnOf : ColumnType → List ℕ → Column → Type 0
IsColumnOf t rows (fixed u words) = (t ≡ u) × (is_string u ≡ false) × HasValues (at words) rows
IsColumnOf t rows (strings v) = (t ≡ string) × HasValues (get_string v) rows

-- The columns of a batch are those of the schema, one for each field.
abbrev pub Conforms : List Field → List ℕ → List Column → Type 0
Conforms [] rows [] = Unit
Conforms [] rows (c ∷ cs) = ⊥
Conforms (f ∷ fs) rows [] = ⊥
Conforms (f ∷ fs) rows (c ∷ cs) = IsColumnOf f.type_of rows c × Conforms fs rows cs

-- The two lookups of a name find the index and the type of the same field.
lookup :
    (fs : List Field) (rows : List ℕ) (columns : List Column) (name : Bytes) (i j : ℕ)
    (t : ColumnType)
    → Conforms fs rows columns
    → index_of_name fs name i ≡ ok j
    → type_of_name fs name ≡ ok t
    → (k : ℕ) × (c : Column) × (j ≡ i + k) × (at columns k ≡ ok c) × IsColumnOf t rows c
unfolding index_of_name type_of_name
lookup [] rows columns name i j t h a b = cc
lookup (f ∷ fs) rows [] name i j t h a b = elim h [ ]
lookup (f ∷ fs) rows (c ∷ cs) name i j t h a b = elim (Bool-cases (bytes_eq f.name name)) [
  | inl found ↦
      let at_i : ok i ≡ ok j = rw found at a in
      let is_t : ok f.type_of ≡ ok t = rw found at b in
      let same_index : i ≡ j = cc in
      let same_type : f.type_of ≡ t = cc in
      (0, c, omega arith, refl, subst (λ u. IsColumnOf u rows c) same_type h.0)
  | inr other ↦
      let (k, d, e, g, is) =
        lookup fs rows cs name (suc i) j t h.1 (rw other at a) (rw other at b) in
      (suc k, d, omega (arith, e), g, is)
]

find :
    (schema : Schema) (rows : List ℕ) (columns : List Column) (name : Bytes) (j : ℕ)
    (t : ColumnType)
    → Conforms schema.fields rows columns
    → schema_index_by_name schema name ≡ ok j
    → schema_type_by_name schema name ≡ ok t
    → (c : Column) × (at columns j ≡ ok c) × IsColumnOf t rows c
unfolding schema_index_by_name schema_type_by_name
find schema rows columns name j t h a b =
    let (k, c, e, g, is) = lookup schema.fields rows columns name 0 j t h a b in
    let same : j ≡ k = omega (arith, e) in (c, rw same g, is)

words_are :
    (rows : List ℕ) (columns : List Column) (j : ℕ) (t : ColumnType) (c : Column)
    → at columns j ≡ ok c
    → IsColumnOf t rows c
    → is_string t ≡ false
    → HasWords columns t j rows
unfolding words_of get_type fixed_data
words_are rows columns j t (fixed u words) a is plain =
    let itself : (type_code u == type_code u) ≡ true = ground arith in
    (words, rw (a, is.0, itself), is.2)
words_are rows columns j t (strings v) a is plain =
    let text : is_string t ≡ true = rw is.0 refl in cc

texts_are :
    (rows : List ℕ) (columns : List Column) (j : ℕ) (t : ColumnType) (c : Column)
    → at columns j ≡ ok c
    → IsColumnOf t rows c
    → is_string t ≡ true
    → HasTexts columns j rows
unfolding string_data
texts_are rows columns j t (fixed u words) a is text =
    let plain : is_string t ≡ false = rw is.0 is.1 in cc
texts_are rows columns j t (strings v) a is text = (v, rw a, is.1)

guard_inv :
    {A : Type 0} (b : Bool) (e : Error) (next : Result A) {a : A}
    → (guard b e >> next) ≡ ok a
    → (b ≡ true) × (next ≡ ok a)
guard_inv true e next h = (refl, h)
guard_inv false e next h = cc

-- The type of the values of a comparison of numbers is not that of strings.
abbrev pub IsTyped : FilterExpression → Type 0
IsTyped (compare_number c name t value) = same_type string t ≡ false
IsTyped (compare_string c name value) = Unit
IsTyped (like_expression name pattern) = Unit
IsTyped (not_like_expression name pattern) = Unit
IsTyped (and_expression left right) = IsTyped left × IsTyped right
IsTyped (or_expression left right) = IsTyped left × IsTyped right

not_string :
    (t u : ColumnType)
    → same_type (value_type t) u ≡ true
    → same_type string u ≡ false
    → is_string t ≡ false
unfolding value_type
not_string string u h k = cc
not_string _ u h k = refl

module _ (schema : Schema) (rows : List ℕ) (columns : List Column) where
  numbers :
      (c : Comparison) (name : Bytes) (t : ColumnType) (value : ℕ) {g : FilterFunction}
      → Conforms schema.fields rows columns
      → same_type string t ≡ false
      → create_filter_function (compare_number c name t value) schema ≡ ok g
      → CanRead g columns rows
  unfolding create_filter_function
  numbers c name t value {g} h typed e =
      let (j, a, e1) = >>=-eq-ok (schema_index_by_name schema name) _ e in
      let (u, b, e2) = >>=-eq-ok (schema_type_by_name schema name) _ e1 in
      let (_, e3) = guard_inv (is_dispatched u) not_implemented _ e2 in
      let (same, e4) = guard_inv (same_type (value_type u) t) not_implemented _ e3 in
      let made : compare_word c u j value ≡ g = cc in
      let (column, at_j, is) = find schema rows columns name j u h a b in
      subst (λ f. CanRead f columns rows) made
        (words_are rows columns j u column at_j is (not_string u t same typed))

  -- The three filters on strings are made in the same way.
  texts :
      (make : ℕ → FilterFunction) (name : Bytes) {g : FilterFunction}
      → Conforms schema.fields rows columns
      → ((j : ℕ) → HasTexts columns j rows → CanRead (make j) columns rows)
      → (do
        ind ← schema_index_by_name schema name
        column_type ← schema_type_by_name schema name
        guard (is_string column_type) not_implemented
        ok (make ind))
        ≡ ok g
      → CanRead g columns rows
  texts make name {g} h reads e =
      let (j, a, e1) = >>=-eq-ok (schema_index_by_name schema name) _ e in
      let (u, b, e2) = >>=-eq-ok (schema_type_by_name schema name) _ e1 in
      let (text, e3) = guard_inv (is_string u) not_implemented _ e2 in
      let made : make j ≡ g = cc in
      let (column, at_j, is) = find schema rows columns name j u h a b in
      subst (λ f. CanRead f columns rows) made
        (reads j (texts_are rows columns j u column at_j is text))

  -- A filter function that an expression makes for a schema can read every batch of that schema: its
  -- columns are at the indices that it reads, of the class that it reads, and have a value at each
  -- row.
  pub create_filter_function-CanRead :
      (f : FilterExpression) {g : FilterFunction}
      → Conforms schema.fields rows columns
      → IsTyped f
      → create_filter_function f schema ≡ ok g
      → CanRead g columns rows
  unfolding create_filter_function
  create_filter_function-CanRead (compare_number c name t value) h typed e =
      numbers c name t value h typed e
  create_filter_function-CanRead (compare_string c name value) h typed e =
      texts (λ j. compare_text c j value) name h (λ j reads. reads) e
  create_filter_function-CanRead (like_expression name pattern) h typed e =
      texts (λ j. like j pattern) name h (λ j reads. reads) e
  create_filter_function-CanRead (not_like_expression name pattern) h typed e =
      texts (λ j. not_like j pattern) name h (λ j reads. reads) e
  create_filter_function-CanRead (and_expression left right) {g} h typed e =
      let (l, a, e1) = >>=-eq-ok (create_filter_function left schema) _ e in
      let (r, b, e2) = >>=-eq-ok (create_filter_function right schema) _ e1 in
      let made : and_filter l r ≡ g = cc in
      subst (λ f. CanRead f columns rows) made
        (
          create_filter_function-CanRead left h typed.0 a,
          create_filter_function-CanRead right h typed.1 b,
        )
  create_filter_function-CanRead (or_expression left right) {g} h typed e =
      let (l, a, e1) = >>=-eq-ok (create_filter_function left schema) _ e in
      let (r, b, e2) = >>=-eq-ok (create_filter_function right schema) _ e1 in
      let made : or_filter l r ≡ g = cc in
      subst (λ f. CanRead f columns rows) made
        (
          create_filter_function-CanRead left h typed.0 a,
          create_filter_function-CanRead right h typed.1 b,
        )
