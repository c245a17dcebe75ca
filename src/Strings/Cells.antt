-- ===== src/Strings/Cells.antt =====
-- Reads of a `VectorOfStrings2D` by row and column.
use columnar_engine.Base.{
  lt_of_get_elem?, ◌*◌, get_elem?, zero-add, suc, zero, get_elem?-append_add, All,
  get_elem?-append_lt, ℕ, ◌+◌, ◌<◌, ◌≡◌, ap, ◌∙◌, some, List, [], ◌∷◌, ◌++◌, append_assoc, arith,
  ◌==◌, if◌then◌else◌, length, length-append, ok,
}
use columnar_engine.Base.Words.{Bytes}
use columnar_engine.Strings.Flat.{view_lem}
use columnar_engine.Strings.Holds.{slice-concat, get_elem?-offsets_from, concat}
use columnar_engine.Strings.Table.{get_table_string, get_string_2d, Table}
use columnar_engine.Strings.Rows.{HoldsRows, join, width_of}

get_elem?-join :
    (w : ℕ) (rows : List (List Bytes)) (last : List Bytes) (i j : ℕ) (r : List Bytes)
    → All (λ q. length q ≡ w) rows
    → get_elem? (rows ++ last ∷ []) i ≡ some r
    → j < length r
    → get_elem? (join rows ++ last) (i * w + j) ≡ get_elem? r j
get_elem?-join w [] last zero j r all e lt =
    let same : last ≡ r = ground arith in rw same (ap (get_elem? r) (omega arith))
get_elem?-join w [] last (suc i) j r all e lt = cc
get_elem?-join w (q ∷ rows) last zero j r all e lt =
    let same : q ≡ r = ground arith in
    rw (append_assoc q (join rows) last, same)
      (ap (get_elem? (r ++ (join rows ++ last))) (omega arith)
        ∙ get_elem?-append_lt r (join rows ++ last) j lt)
get_elem?-join w (q ∷ rows) last (suc i) j r all e lt = rw (append_assoc q (join rows) last) (
    ap (get_elem? (q ++ (join rows ++ last))) (omega (arith, all.0))
    ∙ get_elem?-append_add q (join rows ++ last) (i * w + j)
    ∙ get_elem?-join w rows last i j r all.1 e lt)

-- The string at a position among all strings, whatever bytes of an unfinished string follow.
get_table_string-HoldsRows :
    {t : Table} {rows : List (List Bytes)} {current : List Bytes} {pending : Bytes}
    → HoldsRows t rows current pending
    → (k : ℕ) (s : Bytes) → get_elem? (join rows ++ current) k ≡ some s
    → get_table_string t k ≡ ok s
unfolding get_table_string
get_table_string-HoldsRows {t} {rows} {current} {pending} h k s e =
    let flat = join rows ++ current in
    let (a, b, c) = slice-concat flat k s pending e in
    let lt = lt_of_get_elem? flat k e in
    rw
      (
        h.offsets_are,
        get_elem?-offsets_from 0 flat k (omega arith),
        get_elem?-offsets_from 0 flat (suc k) lt,
        b,
        h.bytes_are,
      )
      (rw zero-add (
        view_lem (concat flat ++ pending) _ _ (length s) (omega arith)
          (omega (arith, length-append (concat flat) pending))
        ∙ ap ok a))

abbrev row_width : List (List Bytes) → List Bytes → ℕ
row_width [] current = length current
row_width (q ∷ rows) current = length q

row_width_lem :
    (t : Table) (rows : List (List Bytes)) (current : List Bytes)
    → t.lines ≡ suc (length rows)
    → t.columns ≡ width_of rows
    → t.columns_in_line ≡ length current
    → (if t.lines == 1 then t.columns_in_line else t.columns) ≡ row_width rows current
row_width_lem t [] current l c i = ground arith
row_width_lem t (q ∷ rows) current l c i = ground arith

All-row_width :
    (rows : List (List Bytes)) (current : List Bytes)
    → All (λ q. length q ≡ width_of rows) rows
    → All (λ q. length q ≡ row_width rows current) rows
All-row_width [] current h = h
All-row_width (q ∷ rows) current h = h

-- In a table whose finished rows all have the width of the first, `GetString2D` reads the string of
-- a row, the growing one included, and a column.
pub get_string_2d-HoldsRows :
    {t : Table} {rows : List (List Bytes)} {current : List Bytes} {pending : Bytes} (i j : ℕ)
    (r : List Bytes) (s : Bytes)
    → HoldsRows t rows current pending
    → All (λ q. length q ≡ width_of rows) rows
    → get_elem? (rows ++ current ∷ []) i ≡ some r
    → get_elem? r j ≡ some s
    → get_string_2d t i j ≡ ok s
unfolding get_string_2d
get_string_2d-HoldsRows {t} {rows} {current} i j r s h all er es =
    let w = row_width rows current in
    rw (row_width_lem t rows current h.lines_are h.columns_are h.in_line) (
      get_table_string-HoldsRows h (i * w + j) s (
        get_elem?-join w rows current i j r (All-row_width rows current all) er
          (lt_of_get_elem? r j es)
        ∙ es))
