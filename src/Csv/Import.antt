-- ===== src/Csv/Import.antt =====
-- Filling the cache of an import loses no row of the file.
use columnar_engine.Base.{
  ℕ, zero, suc, ◌+◌, ◌-◌, ◌<◌, ◌≡◌, ◌≢◌, refl, sym, ap, ◌∙◌, subst, ◌⊎◌, inl, inr, Bool, true,
  false, ◌&&◌, ◌||◌, List, [], ◌∷◌, ◌++◌, map, append_assoc, append-nil, arith, ltb, ◌==◌,
  Bool-cases, length, ok, ◌>>=◌, All,
}
use columnar_engine.Base.Words.{Bytes}
use columnar_engine.Strings.Table.{Table, start_new_line, approx_byte_size}
use columnar_engine.Strings.Rows.{HoldsRows, start_new_line-HoldsRows}
use columnar_engine.Csv.Tokenizer.{
  CsvTokenizer, is_eof, reset_line_flag, get_next_row, scan, fill, refill_buffer, finish,
}
use columnar_engine.Csv.Buffer.{Left}
use columnar_engine.Csv.RoundTrip.{
  IsField, RoomFor, any_width, within, quote, print_row, get_next_row-print_row,
}
use columnar_engine.Csv.Reader.{
  CsvReader, Cache, read_row, fill_cache, stopped, rows_per_chunk, bytes_per_cache,
}

-- A row has a field at least.
abbrev pub Row : Type 0
Row = Bytes × List Bytes

abbrev pub fields_of : Row → List Bytes
fields_of row = row.0 ∷ row.1

abbrev pub print_rows : ℕ → List Row → Bytes
print_rows delim [] = []
print_rows delim (row ∷ rows) = print_row delim row.0 row.1 (print_rows delim rows)

-- A row of `w` fields that a CSV file can hold.
abbrev pub IsRow : ℕ → Row → Type 0
IsRow w row = All IsField (fields_of row) × (length (fields_of row) ≡ w)

RoomFor-append :
    {rows : List (List Bytes)} {w : ℕ} (r : List Bytes)
    → RoomFor rows w
    → length r ≡ w
    → RoomFor (rows ++ r ∷ []) w
RoomFor-append r any_width e = within (omega arith)
RoomFor-append r (within le) e = within le

open_lem : (t : CsvTokenizer) → t.eof_reached ≡ false → is_eof t ≡ false
unfolding is_eof
open_lem t h = h

get_next_row-end :
    (k : ℕ) (b u : Bytes) (d : ℕ) (eol eof : Bool) (table : Table)
    → b ++ u ≡ []
    → eof ≡ false
    → (t : CsvTokenizer) × (get_next_row
          (suc k)
          (record { unread = u; buffer = b; delim = d; end_of_line = eol; eof_reached = eof })
          table
        ≡ ok (t, table))
      × (is_eof t ≡ true)
unfolding is_eof get_next_row scan fill refill_buffer finish
get_next_row-end k [] [] d eol false table e h = (_, refl, refl)
get_next_row-end k [] (x ∷ u) d eol false table e h = cc
get_next_row-end k (x ∷ b) u d eol false table e h = cc
get_next_row-end k b u d eol true table e h = cc

-- At the end of the file there is no row, and the table is as it was.
read_row-end :
    (k : ℕ) (reader : CsvReader) {table : Table} {done : List (List Bytes)}
    → Left reader.tokenizer []
    → HoldsRows table done [] []
    → (reader' : CsvReader) × (read_row (suc k) reader table ≡ ok (reader', table, false))
unfolding read_row
read_row-end k reader {table} l h =
    let t = reader.tokenizer in
    let (t', e, ended) =
      get_next_row-end k t.buffer t.unread t.delim t.end_of_line t.eof_reached table l.text
        l.open_yet in
    let started : is_eof t ≡ false = open_lem t l.open_yet in
    let no_columns : (table.columns_in_line == 0) ≡ true = ground (arith, h.in_line) in
    (record reader { tokenizer = t' }, rw (read_row, started, e, ◌>>=◌, ended, no_columns))

read_row_ok :
    (capacity : ℕ) (reader : CsvReader) (table table' : Table) (t : CsvTokenizer)
    → is_eof reader.tokenizer ≡ false
    → get_next_row capacity reader.tokenizer table ≡ ok (t, table')
    → (table'.columns_in_line == 0) ≡ false
    → (reader.expected_columns == 0 || table'.columns_in_line == reader.expected_columns) ≡ true
    → read_row capacity reader table
      ≡ ok (record reader { tokenizer = reset_line_flag t }, table', true)
unfolding read_row
read_row_ok capacity reader table table' t open_yet e some_columns expected =
    rw (read_row, open_yet, e, ◌>>=◌, some_columns, expected)

-- A row of the file is read and its strings are added to the table.
read_row-print_row :
    (k : ℕ) (row : Row) (rest : Bytes) (w : ℕ) (reader : CsvReader) {table : Table}
    {done : List (List Bytes)}
    → Left reader.tokenizer (print_row reader.tokenizer.delim row.0 row.1 rest)
    → reader.tokenizer.delim ≢ quote
    → reader.tokenizer.delim ≢ b'\n'
    → HoldsRows table done [] []
    → IsRow w row
    → RoomFor done w
    → (reader.expected_columns == 0 || w == reader.expected_columns) ≡ true
    → (reader' : CsvReader) × (table' : Table) × (read_row (suc k) reader table
        ≡ ok (reader', table', true))
      × Left reader'.tokenizer rest
      × HoldsRows table' done (fields_of row) []
      × (reader'.tokenizer.delim ≡ reader.tokenizer.delim)
      × (reader'.expected_columns ≡ reader.expected_columns)
unfolding reset_line_flag
read_row-print_row k row rest w reader {table} {done} l nq nl h is room expected =
    let (t, table', e, left, holds, _, d) =
      get_next_row-print_row k row.0 row.1 rest l nq nl h is.0
        (subst (RoomFor done) (sym is.1) room) in
    let some_columns : (table'.columns_in_line == 0) ≡ false = ground (arith, holds.in_line) in
    let columns : table'.columns_in_line ≡ w = holds.in_line ∙ is.1 in
    (
      record reader { tokenizer = reset_line_flag t },
      table',
      read_row_ok (suc k) reader table table' t (open_lem reader.tokenizer l.open_yet) e
          some_columns
          (ap (λ n. reader.expected_columns == 0 || n == reader.expected_columns) columns
            ∙ expected),
      record { text = left.text; open_yet = left.open_yet },
      holds,
      d,
      refl,
    )

abbrev pub has_room : Table → ℕ → ℕ → Bool
has_room table accumulated cache =
    ltb (approx_byte_size table) bytes_per_cache && ltb (accumulated + cache) rows_per_chunk

-- The loop stopped with rows `left` in the file and the reader ready for them, or, with room in the
-- cache, at the end of the file.
abbrev pub Ends : Cache → ℕ → ℕ → ℕ → List Row → Type 0
Ends c accumulated delim expected left =
    ((c.end_flag ≡ true)
      × Left c.reader.tokenizer (print_rows delim left)
      × (c.reader.tokenizer.delim ≡ delim)
      × (c.reader.expected_columns ≡ expected))
    ⊎ ((c.end_flag ≡ false) × (left ≡ []) × (has_room c.batch accumulated c.rows ≡ true))

-- What the loop that fills the cache leaves of the rows `todo`: the rows that it took are in the
-- batch behind those that were there, and it stopped with the other rows still in the file, or at
-- the end of the file with none.
pub record Filled (c : Cache) (done : List (List Bytes)) (accumulated cache_rows delim expected : ℕ)
    (todo : List Row) : Type 0 where
  pub taken : List Row
  pub left : List Row
  pub splits : todo ≡ taken ++ left
  pub holds : HoldsRows c.batch (done ++ map fields_of taken) [] []
  pub counted : c.rows ≡ cache_rows + length taken
  pub ends : Ends c accumulated delim expected left

-- The cache is full.
stop-Filled :
    (k fuel : ℕ) (todo : List Row) (reader : CsvReader) (table : Table) (acc cache : ℕ)
    {done : List (List Bytes)}
    → has_room table acc cache ≡ false
    → Left reader.tokenizer (print_rows reader.tokenizer.delim todo)
    → HoldsRows table done [] []
    → (c : Cache) × (fill_cache (suc k) (suc fuel) reader table acc cache ≡ ok c)
      × Filled c done acc cache reader.tokenizer.delim reader.expected_columns todo
unfolding fill_cache
stop-Filled k fuel todo reader table acc cache full l h = (
  stopped cache true reader table,
  rw (fill_cache, full),
  record {
    taken = [];
    left = todo;
    splits = refl;
    holds = rw append-nil h;
    counted = omega arith;
    ends = inl (refl, l, refl, refl);
  },
)

-- The file has ended.
end-Filled :
    (k fuel : ℕ) (reader : CsvReader) (table : Table) (acc cache : ℕ) {done : List (List Bytes)}
    → has_room table acc cache ≡ true
    → Left reader.tokenizer []
    → HoldsRows table done [] []
    → (c : Cache) × (fill_cache (suc k) (suc fuel) reader table acc cache ≡ ok c)
      × Filled c done acc cache reader.tokenizer.delim reader.expected_columns []
unfolding fill_cache
end-Filled k fuel reader table acc cache more l h =
    let (reader', e) = read_row-end k reader l h in
    (
      stopped cache false reader' table,
      rw (fill_cache, more, e),
      record {
        taken = [];
        left = [];
        splits = refl;
        holds = rw append-nil h;
        counted = omega arith;
        ends = inr (refl, refl, more);
      },
    )

-- A row was read, and the loop goes on.
next-Filled :
    (k fuel : ℕ) (row : Row) (rows : List Row) (reader reader' : CsvReader) (table table' : Table)
    (acc cache : ℕ) {done : List (List Bytes)}
    → has_room table acc cache ≡ true
    → read_row (suc k) reader table ≡ ok (reader', table', true)
    → reader'.tokenizer.delim ≡ reader.tokenizer.delim
    → reader'.expected_columns ≡ reader.expected_columns
    → (c : Cache) × (fill_cache (suc k) fuel reader' (start_new_line table') acc (suc cache) ≡ ok c)
      × Filled c
          (done ++ fields_of row ∷ [])
          acc
          (suc cache)
          reader'.tokenizer.delim
          reader'.expected_columns
          rows
    → (c : Cache) × (fill_cache (suc k) (suc fuel) reader table acc cache ≡ ok c)
      × Filled c done acc cache reader.tokenizer.delim reader.expected_columns (row ∷ rows)
unfolding fill_cache
next-Filled k fuel row rows reader reader' table table' acc cache {done} more e d same
      (c, e', rest) =
    (
      c,
      rw (fill_cache, more, e, ◌>>=◌, e'),
      record {
        taken = row ∷ rest.taken;
        left = rest.left;
        splits = ap (◌∷◌ row) rest.splits;
        holds =
            rw (append_assoc done (fields_of row ∷ []) (map fields_of rest.taken)) at rest.holds;
        counted = omega (arith, rest.counted);
        ends =
            subst (λ n. Ends c acc n reader.expected_columns rest.left) d
              (subst (λ n. Ends c acc reader'.tokenizer.delim n rest.left) same rest.ends);
      },
    )

-- The loop that fills the cache, on a file of rows of one width, the one that the reader expects or
-- any, printed with every field in quotes between delimiters that are neither a quote nor a line feed,
-- where no field holds a carriage return or ends in white space: it returns, and loses no row: the
-- rows that it takes are added to the batch in order, and the others are left in the file. It says that
-- the file has ended only when no row is left.
pub fill_cache-Filled :
    (k fuel : ℕ) (todo : List Row) (reader : CsvReader) (table : Table) (w accumulated cache : ℕ)
    (done : List (List Bytes))
    → Left reader.tokenizer (print_rows reader.tokenizer.delim todo)
    → reader.tokenizer.delim ≢ quote
    → reader.tokenizer.delim ≢ b'\n'
    → HoldsRows table done [] []
    → All (IsRow w) todo
    → RoomFor done w
    → (reader.expected_columns == 0 || w == reader.expected_columns) ≡ true
    → 8192 - (accumulated + cache) < fuel
    → (c : Cache) × (fill_cache (suc k) fuel reader table accumulated cache ≡ ok c)
      × Filled c done accumulated cache reader.tokenizer.delim reader.expected_columns todo
fill_cache-Filled k zero todo reader table w acc cache done l nq nl h is room ex fit =
    absurd (omega arith)
fill_cache-Filled k (suc fuel) [] reader table w acc cache done l nq nl h is room ex fit =
    elim (Bool-cases (has_room table acc cache)) [
      | inl more ↦ end-Filled k fuel reader table acc cache more l h
      | inr full ↦ stop-Filled k fuel [] reader table acc cache full l h
    ]
fill_cache-Filled k (suc fuel) (row ∷ rows) reader table w acc cache done l nq nl h is room ex fit =
    elim (Bool-cases (has_room table acc cache)) [
      | inr full ↦ stop-Filled k fuel (row ∷ rows) reader table acc cache full l h
      | inl more ↦
          let (reader', table', e, left, holds, d, same) =
            read_row-print_row k row (print_rows reader.tokenizer.delim rows) w reader l nq nl h
              is.0 room ex in
          let below : acc + cache < 8192 = ground arith in
          next-Filled k fuel row rows reader reader' table table' acc cache more e d same (
            fill_cache-Filled k fuel rows reader' (start_new_line table') w acc (suc cache)
              (done ++ fields_of row ∷ [])
              (subst (λ x. Left reader'.tokenizer (print_rows x rows)) (sym d) left)
              (subst (λ x. x ≢ quote) (sym d) nq) (subst (λ x. x ≢ b'\n') (sym d) nl)
              (start_new_line-HoldsRows holds) is.1 (RoomFor-append (fields_of row) room is.0.1)
              (subst (λ n. (n == 0 || w == n) ≡ true) (sym same) ex) (omega arith))
    ]
