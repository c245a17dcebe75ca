-- ===== src/Csv/Cache.antt =====
-- Why the loop that fills the cache stops, and how many bytes a cache takes.
use columnar_engine.Base.{
  subst, Bool, Result, ok-injective, ℕ, zero, suc, ◌+◌, ◌*◌, ◌≤◌, ◌≡◌, refl, ap, ◌∙◌, true, false,
  inl, inr, List, [], ◌∷◌, ◌++◌, append-nil, arith, Bool-cases, length, length-append, ok,
  >>=-eq-ok,
}
use columnar_engine.Base.Words.{Bytes}
use columnar_engine.Strings.Holds.{concat, offsets_from}
use columnar_engine.Strings.Table.{Table, approx_byte_size, start_new_line}
use columnar_engine.Strings.Rows.{HoldsRows, join}
use columnar_engine.Csv.Reader.{CsvReader, Cache, fill_cache, read_row, stopped}
use columnar_engine.Csv.Import.{has_room}

abbrev pub Stops : ℕ → Cache → Type 0
Stops acc c = (acc + c.rows ≤ 8192) × (c.end_flag ≡ true → has_room c.batch acc c.rows ≡ false)

stopped-Stops : (acc : ℕ) (x c : Cache) → ok x ≡ ok c → Stops acc x → Stops acc c
stopped-Stops acc x c e h = let same : x ≡ c = ok-injective e in subst (Stops acc) same h

after_row :
    (row : Bool) (reader : CsvReader) (table : Table) (acc cache : ℕ) (more : Result Cache)
    (c : Cache)
    → elim row [ false ↦ ok (stopped cache false reader table) | true ↦ more ] ≡ ok c
    → acc + cache ≤ 8192
    → (more ≡ ok c → Stops acc c)
    → Stops acc c
after_row true reader table acc cache more c e le rec = rec e
after_row false reader table acc cache more c e le rec =
    stopped-Stops acc (stopped cache false reader table) c e (le, λ h. cc)

-- A chunk has 8192 rows at most, and if the file has not ended, the cache is full.
pub fill_cache-Stops :
    (capacity fuel : ℕ) (reader : CsvReader) (table : Table) (acc cache : ℕ) (c : Cache)
    → fill_cache capacity fuel reader table acc cache ≡ ok c
    → acc + cache ≤ 8192
    → Stops acc c
unfolding fill_cache
fill_cache-Stops capacity zero reader table acc cache c e le = cc
fill_cache-Stops capacity (suc fuel) reader table acc cache c e le =
    elim (Bool-cases (has_room table acc cache)) [
      | inr full ↦
          stopped-Stops acc (stopped cache true reader table) c (rw (fill_cache, full) at e)
            (le, λ _. full)
      | inl more ↦
          let (r, read, next) =
            >>=-eq-ok (read_row capacity reader table) _ (rw (fill_cache, more) at e) in
          let below : acc + suc cache ≤ 8192 = ground arith in
          after_row r.2 r.0 r.1 acc cache _ c next le
            (λ h. fill_cache-Stops capacity fuel r.0 (start_new_line r.1) acc (suc cache) c h below)
    ]

-- The bytes of strings in a cache, with eight for the offset of each.
abbrev pub text_size : List Bytes → ℕ
text_size [] = 0
text_size (s ∷ ss) = length s + 8 + text_size ss

abbrev pub rows_size : List (List Bytes) → ℕ
rows_size [] = 0
rows_size (r ∷ rows) = text_size r + rows_size rows

length-concat : (ss : List Bytes) → length (concat ss) + length ss * 8 ≡ text_size ss
length-concat [] = omega arith
length-concat (s ∷ ss) = omega (arith, length-append s (concat ss), length-concat ss)

length-offsets_from :
    (start : ℕ) (ss : List Bytes) → length (offsets_from start ss) ≡ suc (length ss)
length-offsets_from start [] = refl
length-offsets_from start (s ∷ ss) = ap suc (length-offsets_from (start + length s) ss)

text_size-append : (a b : List Bytes) → text_size (a ++ b) ≡ text_size a + text_size b
text_size-append [] b = omega arith
text_size-append (s ∷ a) b = omega (arith, text_size-append a b)

text_size-join : (rows : List (List Bytes)) → text_size (join rows) ≡ rows_size rows
text_size-join [] = refl
text_size-join (r ∷ rows) = omega (arith, text_size-append r (join rows), text_size-join rows)

pub rows_size-append : (a b : List (List Bytes)) → rows_size (a ++ b) ≡ rows_size a + rows_size b
rows_size-append [] b = omega arith
rows_size-append (r ∷ a) b = omega (arith, rows_size-append a b)

-- The size of a table of finished rows.
pub approx_byte_size-HoldsRows :
    {table : Table} {rows : List (List Bytes)}
    → HoldsRows table rows [] []
    → approx_byte_size table ≡ rows_size rows + 8
unfolding approx_byte_size
approx_byte_size-HoldsRows {table} {rows} h =
    let bytes : length table.bytes ≡ length (concat (join rows)) =
      ap length (
        h.bytes_are ∙ append-nil (concat (join rows ++ [])) ∙ ap concat (append-nil (join rows))) in
    let offsets : length table.offsets ≡ suc (length (join rows)) =
      ap length (h.offsets_are ∙ ap (offsets_from 0) (append-nil (join rows)))
      ∙ length-offsets_from 0 (join rows) in
    omega (arith, bytes, offsets, length-concat (join rows), text_size-join rows)
