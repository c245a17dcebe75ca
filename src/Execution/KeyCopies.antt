-- ===== src/Execution/KeyCopies.antt =====
-- Copies of keys from the columns of a batch to the builders of a thread.
use columnar_engine.Strings.Reads.{empty-Holds}
use columnar_engine.Base.{
  suc, ◌+◌, ◌<◌, ◌⊎◌, inl, inr, length, ℕ, ◌≡◌, refl, List, [], ◌∷◌, arith, All, ok, at, subst, sym,
  ◌∙◌, ok-injective, All-map,
}
use columnar_engine.Types.ColumnTypes.{ColumnType, string, unnamed, elem_size}
use columnar_engine.Columns.Column.{Column}
use columnar_engine.Columns.Builders.{make_column, make_column_builders}
use columnar_engine.Execution.KeyBytes.{
  row_key, index_key, Copied, nothing-Copied, columns-Copied, row-Copied,
}
use columnar_engine.Execution.GroupBy.{init_builders, copy_keys, copy_new_keys, copy_key}
use columnar_engine.Execution.KeyValues.{
  Fits, IsBuilder, string_builder, word_builder, IsBuilder-Fits, copy_selection-IsBuilder,
}

-- A builder for each type.
abbrev pub AreBuilders : List ColumnType → ℕ → List Column → Type 0
AreBuilders [] n [] = Unit
AreBuilders (t ∷ ts) n (b ∷ bs) = IsBuilder t n b × AreBuilders ts n bs
AreBuilders _ n _ = ⊥

-- The key of row `real`: a value of each type, in the columns at the indices.
abbrev pub KeyFits : List Column → List ColumnType → List ℕ → ℕ → Type 0
KeyFits columns [] [] real = Unit
KeyFits columns (t ∷ ts) (i ∷ is) real =
    ((column : Column) × (at columns i ≡ ok column) × Fits t column real)
    × KeyFits columns ts is real
KeyFits columns _ _ real = ⊥

-- The same column serves all rows.
all_fit :
    (columns : List Column) (t : ColumnType) (i : ℕ) {column : Column} (rows : List ℕ)
    → at columns i ≡ ok column
    → All (λ real. (c : Column) × (at columns i ≡ ok c) × Fits t c real) rows
    → All (Fits t column) rows
all_fit columns t i [] e h = tt
all_fit columns t i (r ∷ rows) e ((c, e', fits), rest) =
    (subst (λ k. Fits t k r) (ok-injective (sym e' ∙ e)) fits, all_fit columns t i rows e rest)

copy_keys-AreBuilders :
    (types : List ColumnType) (n : ℕ) (builders columns : List Column) (indices : List ℕ) (r : ℕ)
    (rows : List ℕ)
    → AreBuilders types n builders
    → All (KeyFits columns types indices) (r ∷ rows)
    → (next : List Column) × (copy_keys builders columns indices (r ∷ rows) ≡ ok next)
      × AreBuilders types (length (r ∷ rows) + n) next
      × Copied (row_key builders) (row_key next) (index_key columns indices) n (r ∷ rows)
unfolding copy_keys
copy_keys-AreBuilders [] n [] columns [] r rows h fits =
    ([], refl, tt, record { kept = λ g lt. refl; copied = λ j real e. refl })
copy_keys-AreBuilders [] n [] columns (i ∷ is) r rows h fits = absurd fits.0
copy_keys-AreBuilders [] n (b ∷ bs) columns is r rows h fits = absurd h
copy_keys-AreBuilders (t ∷ ts) n [] columns is r rows h fits = absurd h
copy_keys-AreBuilders (t ∷ ts) n (b ∷ bs) columns [] r rows h fits = absurd fits.0
copy_keys-AreBuilders (t ∷ ts) n (b ∷ bs) columns (i ∷ is) r rows h fits =
    let (column, e, fit) = fits.0.0 in
    let (next, run, h', one) =
      copy_selection-IsBuilder column (r ∷ rows) n h.0
        (fit, all_fit columns t i rows e (All-map (λ real p. p.0) rows fits.1)) in
    let (rest, run', hs, more) =
      copy_keys-AreBuilders ts n bs columns is r rows h.1
        (All-map (λ real p. p.1) (r ∷ rows) fits) in
    (
      next ∷ rest,
      rw (e, run, run') refl,
      (h', hs),
      columns-Copied b next column bs rest columns i is e one more,
    )

-- The keys of the rows that made a group.
pub copy_new_keys-AreBuilders :
    (types : List ColumnType) (n : ℕ) (builders columns : List Column) (indices rows : List ℕ)
    → AreBuilders types n builders
    → All (KeyFits columns types indices) rows
    → (next : List Column) × (copy_new_keys builders columns indices rows ≡ ok next)
      × AreBuilders types (length rows + n) next
      × Copied (row_key builders) (row_key next) (index_key columns indices) n rows
unfolding copy_new_keys
copy_new_keys-AreBuilders types n builders columns indices [] h fits = (
  builders,
  refl,
  subst (λ k. AreBuilders types k builders) (omega arith) h,
  nothing-Copied (row_key builders) _ n,
)
copy_new_keys-AreBuilders types n builders columns indices (r ∷ rows) h fits =
    copy_keys-AreBuilders types n builders columns indices r rows h fits

-- The key of group `gid` of another thread.
pub copy_key-AreBuilders :
    (types : List ColumnType) (n k : ℕ) (builders columns : List Column) (gid : ℕ)
    → AreBuilders types n builders
    → AreBuilders types k columns
    → gid < k
    → (next : List Column) × (copy_key builders columns gid ≡ ok next)
      × AreBuilders types (suc n) next
      × Copied (row_key builders) (row_key next) (row_key columns) n (gid ∷ [])
unfolding copy_key
copy_key-AreBuilders [] n k [] [] gid h h' lt =
    ([], refl, tt, record { kept = λ g lt. refl; copied = λ j real e. refl })
copy_key-AreBuilders [] n k (b ∷ bs) cs gid h h' lt = absurd h
copy_key-AreBuilders [] n k [] (c ∷ cs) gid h h' lt = absurd h'
copy_key-AreBuilders (t ∷ ts) n k [] cs gid h h' lt = absurd h
copy_key-AreBuilders (t ∷ ts) n k (b ∷ bs) [] gid h h' lt = absurd h'
copy_key-AreBuilders (t ∷ ts) n k (b ∷ bs) (c ∷ cs) gid h h' lt =
    let (next, run, is, one) =
      copy_selection-IsBuilder c (gid ∷ []) n h.0 (IsBuilder-Fits h'.0 lt, tt) in
    let (rest, run', are, more) = copy_key-AreBuilders ts n k bs cs gid h.1 h'.1 lt in
    (
      next ∷ rest,
      rw (run, run') refl,
      (subst (λ m. IsBuilder t m next) (omega arith) is, are),
      row-Copied b next c bs rest cs one more,
    )

-- A type that has columns.
abbrev pub IsKnown : ColumnType → Type 0
IsKnown t = (builder : Column) × (make_column t ≡ ok builder)

make_column-IsBuilder : (t : ColumnType) {b : Column} → make_column t ≡ ok b → IsBuilder t 0 b
unfolding make_column elem_size
make_column-IsBuilder string e =
    subst (IsBuilder string 0) (ok-injective e) (string_builder 0 [] empty-Holds refl)
make_column-IsBuilder (unnamed n) e = cc
make_column-IsBuilder _ e = subst (IsBuilder _ 0) (ok-injective e) (word_builder 0 _ refl refl)

make_column_builders-AreBuilders :
    (ts : List ColumnType)
    → All IsKnown ts
    → (bs : List Column) × (make_column_builders ts ≡ ok bs) × AreBuilders ts 0 bs
unfolding make_column_builders
make_column_builders-AreBuilders [] h = ([], refl, tt)
make_column_builders-AreBuilders (t ∷ ts) ((b, e), h) =
    let (bs, run, hs) = make_column_builders-AreBuilders ts h in
    (b ∷ bs, rw (e, run) refl, (make_column-IsBuilder t e, hs))

-- The builders of a thread with `n` groups: none before its first batch, or one for each type.
abbrev pub HasBuilders : List ColumnType → ℕ → List Column → Type 0
HasBuilders ts n [] = (n ≡ 0) ⊎ (ts ≡ [])
HasBuilders ts n (b ∷ bs) = AreBuilders ts n (b ∷ bs)

-- The builders of a thread with groups are kept.
pub init_builders-AreBuilders :
    (ts : List ColumnType) (n : ℕ) (builders : List Column)
    → All IsKnown ts
    → HasBuilders ts n builders
    → (bs : List Column) × (init_builders ts builders ≡ ok bs)
      × AreBuilders ts n bs
      × ((n ≡ 0) ⊎ (bs ≡ builders))
unfolding init_builders make_column_builders
init_builders-AreBuilders ts n [] known (inl e) =
    let (bs, made, are) = make_column_builders-AreBuilders ts known in
    (bs, made, subst (λ k. AreBuilders ts k bs) (sym e) are, inl e)
init_builders-AreBuilders [] n [] known (inr e) = ([], refl, tt, inr refl)
init_builders-AreBuilders (t ∷ ts) n [] known (inr e) = cc
init_builders-AreBuilders ts n (b ∷ bs) known h = (b ∷ bs, refl, h, inr refl)

pub AreBuilders-HasBuilders :
    (ts : List ColumnType) (n : ℕ) (builders : List Column)
    → AreBuilders ts n builders
    → HasBuilders ts n builders
AreBuilders-HasBuilders [] n [] h = inr refl
AreBuilders-HasBuilders (t ∷ ts) n [] h = absurd h
AreBuilders-HasBuilders ts n (b ∷ bs) h = h

-- The keys of a thread that has groups.
pub HasBuilders-AreBuilders :
    (ts : List ColumnType) (n : ℕ) (builders : List Column)
    → HasBuilders ts (suc n) builders
    → AreBuilders ts (suc n) builders
HasBuilders-AreBuilders ts n [] (inl e) = cc
HasBuilders-AreBuilders ts n [] (inr e) = subst (λ us. AreBuilders us (suc n) []) (sym e) tt
HasBuilders-AreBuilders ts n (b ∷ bs) h = h
