-- ===== src/Csv/Trim.antt =====
-- Ending a token: white space at its end is dropped, and what is left becomes a string of the row.
use columnar_engine.Base.{
  false, ◌>>=◌, ℕ, suc, ◌+◌, ◌≡◌, refl, ap, ◌∙◌, List, [], ◌∷◌, ◌++◌, arith, ◌==◌, length,
  length-append, ok, zero, ◌<◌, ◌⊎◌, inl, inr, sym, subst, true, Bool-cases, All, append_assoc,
  append-nil, ok-injective,
}
use columnar_engine.Base.Words.{Bytes}
use columnar_engine.Strings.Flat.{back}
use columnar_engine.Strings.Holds.{concat, back-offsets_from}
use columnar_engine.Strings.Table.{
  Table, table_empty_last_string, back_last_string, init, pop_last_char,
}
use columnar_engine.Strings.Rows.{HoldsRows, HasRoom, join, end_add_string-HoldsRows}
use columnar_engine.Csv.Tokenizer.{is_whitespace, trim_end, close_token}

-- The text does not end in white space.
abbrev pub IsTrimmed : Bytes → Type 0
IsTrimmed s = (c : ℕ) → back s ≡ ok c → is_whitespace c ≡ false

back-append_cons : (xs : Bytes) (y : ℕ) (ys : Bytes) → back (xs ++ y ∷ ys) ≡ back (y ∷ ys)
unfolding back
back-append_cons [] y ys = refl
back-append_cons (x ∷ []) y ys = refl
back-append_cons (x ∷ z ∷ xs) y ys = back-append_cons (z ∷ xs) y ys

back_cons : (y : ℕ) (ys : Bytes) → (c : ℕ) × (back (y ∷ ys) ≡ ok c)
unfolding back
back_cons y [] = (y, refl)
back_cons y (z ∷ ys) = back_cons z ys

stops :
    (t : Table) (fuel c : ℕ)
    → table_empty_last_string t ≡ ok false
    → back t.bytes ≡ ok c
    → is_whitespace c ≡ false
    → trim_end (suc fuel) t ≡ ok t
unfolding trim_end back_last_string
stops t fuel c e b w = rw (e, b, ◌>>=◌, w)

module _ {t : Table} {rows : List (List Bytes)} {current : List Bytes} where
  empty_pending :
      {pending : Bytes}
      → HoldsRows t rows current pending
      → table_empty_last_string t ≡ ok (length pending == 0)
  unfolding table_empty_last_string
  empty_pending {pending} h =
      let flat = concat (join rows ++ current) in
      let last : back t.offsets ≡ ok (length flat) =
        rw h.offsets_are (rw (back-offsets_from 0 (join rows ++ current)) (ap ok (omega arith))) in
      let size : length t.bytes ≡ length flat + length pending =
        rw h.bytes_are (length-append flat pending) in
      rw (last, size) (ap ok (same (length flat) (length pending)))
    where
      same : (a b : ℕ) → (a == a + b) ≡ (b == 0)
      same a b = ground arith

  trim_end-trimmed :
      (fuel : ℕ) (pending : Bytes)
      → HoldsRows t rows current pending
      → IsTrimmed pending
      → trim_end (suc fuel) t ≡ ok t
  unfolding trim_end back_last_string
  trim_end-trimmed fuel [] h trimmed = rw (empty_pending h)
  trim_end-trimmed fuel (y ∷ ys) h trimmed =
      let (c, last) = back_cons y ys in
      let there : back t.bytes ≡ ok c =
        rw h.bytes_are (back-append_cons (concat (join rows ++ current)) y ys ∙ last) in
      let full : (suc (length ys) == 0) ≡ false = ground arith in
      stops t fuel c (rw full at (empty_pending h)) there (trimmed c last)

-- A text is empty or has a last character.
last_cases : (s : Bytes) → (s ≡ []) ⊎ ((front : Bytes) × (c : ℕ) × (s ≡ front ++ c ∷ []))
last_cases [] = inl refl
last_cases (x ∷ xs) = elim (last_cases xs) [
  | inl e ↦ inr ([], x, ap (◌∷◌ x) e)
  | inr (front, c, e) ↦ inr (x ∷ front, c, ap (◌∷◌ x) e)
]

init-append_one : (xs : Bytes) (c : ℕ) → init (xs ++ c ∷ []) ≡ ok xs
unfolding init
init-append_one [] c = refl
init-append_one (x ∷ []) c = refl
init-append_one (x ∷ y ∷ xs) c = rw (init-append_one (y ∷ xs) c) refl

All-append_one : (P : ℕ → Type 0) (xs : Bytes) (c : ℕ) → All P xs → P c → All P (xs ++ c ∷ [])
All-append_one P [] c h p = (p, tt)
All-append_one P (x ∷ xs) c h p = (h.0, All-append_one P xs c h.1 p)

-- A text is what is left of another when the white space at its end is dropped.
pub record Trimmed (pending kept : Bytes) : Type 0 where
  pub white : Bytes
  pub splits : pending ≡ kept ++ white
  pub all_white : All (λ c. is_whitespace c ≡ true) white
  pub is_trimmed : IsTrimmed kept

module _ {rows : List (List Bytes)} {current : List Bytes} where
  -- The table without the last character.
  pop_lem :
      {t : Table} (front : Bytes) (c : ℕ)
      → HoldsRows t rows current (front ++ c ∷ [])
      → (t' : Table) × (pop_last_char t ≡ ok t') × HoldsRows t' rows current front
  unfolding pop_last_char
  pop_lem {t} front c h =
      let flat = concat (join rows ++ current) in
      let same : t.bytes ≡ (flat ++ front) ++ c ∷ [] =
        h.bytes_are ∙ sym (append_assoc flat front (c ∷ [])) in
      (
        record t { bytes = flat ++ front },
        rw (same, init-append_one (flat ++ front) c) refl,
        record {
          bytes_are = refl;
          offsets_are = h.offsets_are;
          lines_are = h.lines_are;
          columns_are = h.columns_are;
          in_line = h.in_line;
          sizes_are = h.sizes_are;
        },
      )

  -- A character of white space at the end is taken off.
  trim_end_next :
      {t t' : Table} (fuel : ℕ) (front : Bytes) (c : ℕ)
      → HoldsRows t rows current (front ++ c ∷ [])
      → is_whitespace c ≡ true
      → pop_last_char t ≡ ok t'
      → trim_end (suc fuel) t ≡ trim_end fuel t'
  unfolding trim_end back_last_string back
  trim_end_next {t} fuel front c h w popped =
      let full : (length (front ++ c ∷ []) == 0) ≡ false =
        ground (arith, length-append front (c ∷ [])) in
      let there : back t.bytes ≡ ok c =
        ap back (h.bytes_are ∙ sym (append_assoc (concat (join rows ++ current)) front (c ∷ [])))
        ∙ back-append_cons (concat (join rows ++ current) ++ front) c [] in
      rw (empty_pending h ∙ ap ok full, there, ◌>>=◌, w, popped) refl

  trim_end-Trimmed :
      (fuel : ℕ) (pending : Bytes) (t : Table)
      → HoldsRows t rows current pending
      → length pending < fuel
      → (t' : Table) × (kept : Bytes) × (trim_end fuel t ≡ ok t')
        × Trimmed pending kept
        × HoldsRows t' rows current kept
  unfolding back
  trim_end-Trimmed zero pending t h lt = absurd (omega arith)
  trim_end-Trimmed (suc fuel) pending t h lt = elim (last_cases pending) [
    | inl e ↦
        let none : IsTrimmed pending =
          λ c f. (let x : back [] ≡ ok c = ap back (sym e) ∙ f in cc) in
        (
          t,
          pending,
          trim_end-trimmed fuel pending h none,
          record {
            white = [];
            splits = sym (append-nil pending);
            all_white = tt;
            is_trimmed = none;
          },
          h,
        )
    | inr (front, c, e) ↦ elim (Bool-cases (is_whitespace c)) [
      | inl w ↦
          let h' = subst (HoldsRows t rows current) e h in
          let (t1, popped, h1) = pop_lem front c h' in
          let (t2, kept, run, trims, h2) =
            trim_end-Trimmed fuel front t1 h1
              (omega (arith, ap length e, length-append front (c ∷ []))) in
          (
            t2,
            kept,
            trim_end_next fuel front c h' w popped ∙ run,
            record {
              white = trims.white ++ c ∷ [];
              splits =
                  e ∙ ap (λ s. s ++ c ∷ []) trims.splits ∙ append_assoc kept trims.white (c ∷ []);
              all_white = All-append_one _ trims.white c trims.all_white w;
              is_trimmed = trims.is_trimmed;
            },
            h2,
          )
      | inr w ↦
          let ends : IsTrimmed pending = λ b f.
            (let x : back (front ++ c ∷ []) ≡ ok b = ap back (sym e) ∙ f in
              let y : back (front ++ c ∷ []) ≡ ok c = back-append_cons front c [] in
              let same : b ≡ c = ok-injective (sym x ∙ y) in rw same w) in
          (
            t,
            pending,
            trim_end-trimmed fuel pending h ends,
            record {
              white = [];
              splits = sym (append-nil pending);
              all_white = tt;
              is_trimmed = ends;
            },
            h,
          )
    ]
  ]

-- Where there is a column for it, a token becomes the next string of the row without the white space at
-- its end.
pub close_token-Trimmed :
    {t : Table} {rows : List (List Bytes)} {current : List Bytes} {pending : Bytes}
    → HoldsRows t rows current pending
    → HasRoom rows current
    → (t' : Table) × (kept : Bytes) × (close_token t ≡ ok t')
      × Trimmed pending kept
      × HoldsRows t' rows (current ++ kept ∷ []) []
unfolding close_token
close_token-Trimmed {t} {rows} {current} {pending} h room =
    let enough = ap length h.bytes_are ∙ length-append (concat (join rows ++ current)) pending in
    let (t1, kept, run, trims, h1) =
      trim_end-Trimmed (suc (length t.bytes)) pending t h (omega (arith, enough)) in
    let (t2, ended, h2, _) = end_add_string-HoldsRows h1 room in (t2, kept, rw run ended, trims, h2)

-- Where there is a column for it, a token that does not end in white space becomes the next string
-- of the row as it is.
pub close_token-HoldsRows :
    {t : Table} {rows : List (List Bytes)} {current : List Bytes} {pending : Bytes}
    → HoldsRows t rows current pending
    → HasRoom rows current
    → IsTrimmed pending
    → (t' : Table) × (close_token t ≡ ok t') × HoldsRows t' rows (current ++ pending ∷ []) []
unfolding close_token
close_token-HoldsRows {t} {rows} {current} {pending} h room trimmed =
    let (t', ended, h', _) = end_add_string-HoldsRows h room in
    (t', rw (trim_end-trimmed (length t.bytes) pending h trimmed) ended, h')
