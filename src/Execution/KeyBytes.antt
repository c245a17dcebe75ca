-- ===== src/Execution/KeyBytes.antt =====
-- The bytes of a key that stands in a row of some columns, as `HashKeys` of execution/ExecutionHelper.h
-- makes them, and what copies of rows do to them.
use columnar_engine.Base.{
  ℕ, zero, suc, ◌+◌, ◌<◌, ◌≡◌, refl, ap, ap₂, ◌∙◌, none, some, List, [], ◌∷◌, ◌++◌, arith, length,
  get_elem?, Result, ok, ◌>>=◌, at,
}
use columnar_engine.Base.Words.{Bytes, to_bytes}
use columnar_engine.Strings.Flat.{VectorOfStrings, get_string}
use columnar_engine.Types.ColumnTypes.{ColumnType, elem_size}
use columnar_engine.Columns.Column.{Column, fixed, strings}
use columnar_engine.Execution.HashKeys.{key_part}

abbrev join_parts : Result Bytes → Result Bytes → Result Bytes
join_parts front back = do part ← front; rest ← back; ok (part ++ rest)

-- The key in row `g` of all columns.
abbrev pub row_key : List Column → ℕ → Result Bytes
row_key [] g = ok []
row_key (c ∷ cs) g = join_parts (key_part c g) (row_key cs g)

-- The key in row `real` of the columns at the indices.
abbrev pub index_key : List Column → List ℕ → ℕ → Result Bytes
index_key columns [] real = ok []
index_key columns (i ∷ is) real =
    at columns i >>= λ column. join_parts (key_part column real) (index_key columns is real)

pub part-strings :
    (u v : VectorOfStrings) (g h : ℕ)
    → get_string u g ≡ get_string v h
    → key_part (strings u) g ≡ key_part (strings v) h
unfolding key_part
part-strings u v g h e = ap (λ r. r >>= λ val. ok (to_bytes 8 (length val) ++ val)) e

pub part-fixed :
    (t : ColumnType) (us ws : List ℕ) (g h : ℕ)
    → at us g ≡ at ws h
    → key_part (fixed t us) g ≡ key_part (fixed t ws) h
unfolding key_part
part-fixed t us ws g h e =
    ap (λ r. elim (elem_size t) [ none ↦ ok [] | some size ↦ (r >>= λ w. ok (to_bytes size w)) ]) e

-- The rows below `n` are kept, and behind them stand copies of `rows`.
pub record Copied {ℓ} {A : Type ℓ} (old next source : ℕ → A) (n : ℕ) (rows : List ℕ) : Type ℓ where
  pub kept : (g : ℕ) → g < n → next g ≡ old g
  pub copied : (j real : ℕ) → get_elem? rows j ≡ some real → next (n + j) ≡ source real

pub nothing-Copied : {A : Type 0} (old source : ℕ → A) (n : ℕ) → Copied old old source n []
nothing-Copied old source n = record { kept = λ g lt. refl; copied = λ j real e. cc }

-- One row, and then some more.
pub next-Copied :
    {A : Type 0} {old mid last source : ℕ → A} {n r : ℕ} {rows : List ℕ}
    → Copied old mid source n (r ∷ [])
    → Copied mid last source (suc n) rows
    → Copied old last source n (r ∷ rows)
next-Copied {A} {old} {mid} {last} {source} {n} {r} {rows} one more = record {
  kept = λ g lt. more.kept g (omega arith) ∙ one.kept g lt;
  copied = after;
}
  where
    after : (j real : ℕ) → get_elem? (r ∷ rows) j ≡ some real → last (n + j) ≡ source real
    after zero real e =
        ap last (let same : n + 0 ≡ n = omega arith in same)
        ∙ more.kept n (omega arith)
        ∙ ap mid (let same : n ≡ n + 0 = omega arith in same)
        ∙ one.copied 0 real e
    after (suc j) real e =
        ap last (let same : n + suc j ≡ suc n + j = omega arith in same) ∙ more.copied j real e

-- A column in front of others.
pub columns-Copied :
    (b next column : Column) (bs nexts columns : List Column) (i : ℕ) (is : List ℕ) {n : ℕ}
    {rows : List ℕ}
    → at columns i ≡ ok column
    → Copied (key_part b) (key_part next) (key_part column) n rows
    → Copied (row_key bs) (row_key nexts) (index_key columns is) n rows
    → Copied (row_key (b ∷ bs)) (row_key (next ∷ nexts)) (index_key columns (i ∷ is)) n rows
columns-Copied b next column bs nexts columns i is e one more = record {
  kept = λ g lt. ap₂ join_parts (one.kept g lt) (more.kept g lt);
  copied =
      λ j real found. rw e (ap₂ join_parts (one.copied j real found) (more.copied j real found));
}

pub row-Copied :
    (b next column : Column) (bs nexts columns : List Column) {n : ℕ} {rows : List ℕ}
    → Copied (key_part b) (key_part next) (key_part column) n rows
    → Copied (row_key bs) (row_key nexts) (row_key columns) n rows
    → Copied (row_key (b ∷ bs)) (row_key (next ∷ nexts)) (row_key (column ∷ columns)) n rows
row-Copied b next column bs nexts columns one more = record {
  kept = λ g lt. ap₂ join_parts (one.kept g lt) (more.kept g lt);
  copied = λ j real found. ap₂ join_parts (one.copied j real found) (more.copied j real found);
}
