-- ===== src/Strings/Rows.antt =====
-- What a `VectorOfStrings2D` stands for: finished rows, a row that grows, and the bytes of a
-- string that is not ended yet.
use columnar_engine.Base.{
  err, out_of_bounds, none, get_elem?_ge, get_elem?, suc, ℕ, ◌+◌, ◌<◌, ◌≡◌, refl, sym, ap, ◌∙◌,
  false, List, [], ◌∷◌, ◌++◌, append-nil, append_assoc, arith, ◌==◌, if◌then◌else◌, length, set,
  length-append, length-set, ok, at_lt, length-append_one,
}
use columnar_engine.Base.Words.{Bytes}
use columnar_engine.Strings.Flat.{back}
use columnar_engine.Strings.Holds.{
  concat, offsets_from, concat-append, offsets_from-append, back-offsets_from,
}
use columnar_engine.Strings.Table.{
  Table, empty_table, record_size, grow, continue_add_string, sub_size, end_add_string,
  start_new_line,
}

-- All strings of the rows, in order.
abbrev pub join : List (List Bytes) → List Bytes
join [] = []
join (r ∷ rs) = r ++ join rs

-- The number of columns is that of the first row.
abbrev pub width_of : List (List Bytes) → ℕ
width_of [] = 0
width_of (r ∷ rs) = length r

abbrev room : List (List Bytes) → ℕ → ℕ
room [] n = n
room (r ∷ rs) n = length r

pub record HoldsRows (t : Table) (rows : List (List Bytes)) (current : List Bytes) (pending : Bytes)
    : Type 0 where
  pub bytes_are : t.bytes ≡ concat (join rows ++ current) ++ pending
  pub offsets_are : t.offsets ≡ offsets_from 0 (join rows ++ current)
  pub lines_are : t.lines ≡ suc (length rows)
  pub columns_are : t.columns ≡ width_of rows
  pub in_line : t.columns_in_line ≡ length current
  pub sizes_are : length t.column_sizes ≡ room rows (length current)

-- There is a column for one more string: the first line makes its own.
pub data HasRoom : List (List Bytes) → List Bytes → Type 0 where
  first_line : {current : List Bytes} → HasRoom [] current
  next_line :
      {r : List Bytes} {rs : List (List Bytes)} {current : List Bytes}
      → length current < length r
      → HasRoom (r ∷ rs) current

pub empty_table-HoldsRows : HoldsRows empty_table [] [] []
unfolding empty_table
empty_table-HoldsRows = record {
  bytes_are = refl;
  offsets_are = refl;
  lines_are = refl;
  columns_are = refl;
  in_line = refl;
  sizes_are = refl;
}

pub join-append :
    (rows : List (List Bytes)) (r : List Bytes) → join (rows ++ r ∷ []) ≡ join rows ++ r
join-append [] r = append-nil r
join-append (q ∷ rows) r = rw (join-append rows r) (sym (append_assoc q (join rows) r))

pub continue_add_string-HoldsRows :
    {t : Table} {rows : List (List Bytes)} {current : List Bytes} {pending : Bytes} (c : ℕ)
    → HoldsRows t rows current pending
    → HoldsRows (continue_add_string t c) rows current (pending ++ c ∷ [])
unfolding continue_add_string
continue_add_string-HoldsRows {rows} {current} {pending} c h = record {
  bytes_are = rw h.bytes_are (append_assoc (concat (join rows ++ current)) pending (c ∷ []));
  offsets_are = h.offsets_are;
  lines_are = h.lines_are;
  columns_are = h.columns_are;
  in_line = h.in_line;
  sizes_are = h.sizes_are;
}

record_size_lem :
    {t : Table} {rows : List (List Bytes)} {current : List Bytes} {pending : Bytes} (n : ℕ)
    → HoldsRows t rows current pending
    → HasRoom rows current
    → (sizes : List ℕ) × (record_size t t.columns_in_line n ≡ ok sizes)
      × (length sizes ≡ room rows (suc (length current)))
unfolding record_size grow
record_size_lem {t} n h first_line = (
  t.column_sizes ++ n ∷ [],
  rw h.lines_are,
  omega (arith, length-append_one t.column_sizes n, h.sizes_are),
)
record_size_lem {t} n h (next_line {r} {rs} lt) =
    let (old, e) = at_lt t.column_sizes t.columns_in_line (omega (arith, h.sizes_are, h.in_line)) in
    let more : (t.lines == 1) ≡ false = ground (arith, h.lines_are) in
    (
      set t.column_sizes t.columns_in_line (old + n),
      rw (more, e),
      length-set t.column_sizes t.columns_in_line (old + n) ∙ h.sizes_are,
    )

width_of-append :
    (rows : List (List Bytes)) (r : List Bytes)
    → width_of (rows ++ r ∷ []) ≡ (if suc (length rows) == 1 then length r else width_of rows)
width_of-append [] r = refl
width_of-append (q ∷ rows) r = ground arith

room-append :
    (rows : List (List Bytes)) (r : List Bytes) → room (rows ++ r ∷ []) 0 ≡ room rows (length r)
room-append [] r = refl
room-append (q ∷ rows) r = refl

-- Starting a new line when no character of an unended string stands makes the growing row the last
-- finished row, of whatever length and whatever `adding_string` is, and keeps the number of columns that
-- of the first row.
pub start_new_line-HoldsRows :
    {t : Table} {rows : List (List Bytes)} {current : List Bytes}
    → HoldsRows t rows current []
    → HoldsRows (start_new_line t) (rows ++ current ∷ []) [] []
unfolding start_new_line
start_new_line-HoldsRows {t} {rows} {current} h = record {
  bytes_are = rw (join-append, append-nil, append-nil) (rw append-nil at h.bytes_are);
  offsets_are = rw (join-append, append-nil) h.offsets_are;
  lines_are = rw (h.lines_are, length-append_one) (omega arith);
  columns_are = rw (h.lines_are, h.in_line, h.columns_are) (sym (width_of-append rows current));
  in_line = refl;
  sizes_are = rw (room-append rows current) h.sizes_are;
}

sub_size_lem : (a b n : ℕ) → a ≡ b + n → sub_size a b ≡ n
unfolding sub_size
sub_size_lem a b n e = ground arith

pub end_add_string-HoldsRows :
    {t : Table} {rows : List (List Bytes)} {current : List Bytes} {pending : Bytes}
    → HoldsRows t rows current pending
    → HasRoom rows current
    → (t' : Table) × (end_add_string t ≡ ok t')
      × HoldsRows t' rows (current ++ pending ∷ []) []
      × (t'.adding_string ≡ t.adding_string)
unfolding end_add_string
end_add_string-HoldsRows {t} {rows} {current} {pending} h space =
    let flat = join rows ++ current in
    let n : length t.bytes ≡ length (concat flat) + length pending =
      rw h.bytes_are (length-append (concat flat) pending) in
    let (sizes, recorded, sized) = record_size_lem {pending = pending} (length pending) h space in
    (
      record t {
        offsets = t.offsets ++ length t.bytes ∷ [];
        column_sizes = sizes;
        columns_in_line = t.columns_in_line + 1;
      },
      ended n sizes recorded,
      record {
        bytes_are =
            rw
              (
                append-nil,
                ← append_assoc (join rows) current (pending ∷ []),
                concat-append flat pending,
              )
              h.bytes_are;
        offsets_are =
            rw
              (
                ← append_assoc (join rows) current (pending ∷ []),
                offsets_from-append 0 flat pending,
                h.offsets_are,
              )
              (ap (λ k. offsets_from 0 flat ++ k ∷ []) (omega (arith, n)));
        lines_are = h.lines_are;
        columns_are = h.columns_are;
        in_line = rw (h.in_line, length-append_one current pending) (omega arith);
        sizes_are = rw (length-append_one current pending) sized;
      },
      refl,
    )
  where
    ended :
        length t.bytes ≡ length (concat (join rows ++ current)) + length pending
        → (sizes : List ℕ) → record_size t t.columns_in_line (length pending) ≡ ok sizes
        → end_add_string t
          ≡ ok (record t {
            offsets = t.offsets ++ length t.bytes ∷ [];
            column_sizes = sizes;
            columns_in_line = t.columns_in_line + 1;
          })
    ended n sizes recorded =
        let last : back t.offsets ≡ ok (length (concat (join rows ++ current))) =
          rw h.offsets_are
            (rw (back-offsets_from 0 (join rows ++ current)) (ap ok (omega arith))) in
        rw (last, sub_size_lem _ _ (length pending) n, recorded)

-- When the line already has as many strings as the first line, ending one more string writes
-- outside the sizes of the columns.
pub end_add_string-full :
    {t : Table} {r : List Bytes} {rows : List (List Bytes)} {current : List Bytes} {pending : Bytes}
    → HoldsRows t (r ∷ rows) current pending
    → length current ≡ length r
    → end_add_string t ≡ err out_of_bounds
unfolding end_add_string record_size grow
end_add_string-full {t} {r} {rows} {current} {pending} h e =
    let last : back t.offsets ≡ ok (length (concat (join (r ∷ rows) ++ current))) =
      rw h.offsets_are
        (rw (back-offsets_from 0 (join (r ∷ rows) ++ current)) (ap ok (omega arith))) in
    let later : (t.lines == 1) ≡ false = ground (arith, h.lines_are) in
    let past : get_elem? t.column_sizes t.columns_in_line ≡ none =
      get_elem?_ge t.column_sizes t.columns_in_line (omega (arith, h.sizes_are, h.in_line)) in
    rw (last, later, past)
