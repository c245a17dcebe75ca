-- ===== src/Csv/Imported.antt =====
-- What `WriteToColumnar` makes of the rows of a file.
use columnar_engine.Base.{
  ℕ, ◌+◌, ◌≤◌, ◌<◌, ◌^◌, ◌≡◌, refl, sym, ap, ◌∙◌, ◌⊎◌, inl, List, [], ◌∷◌, ◌++◌, map, append_assoc,
  append-nil, arith, length, Result, ok,
}
use columnar_engine.Base.Words.{Bytes}
use columnar_engine.Types.ColumnTypes.{ColumnType}
use columnar_engine.Columns.Column.{Column, clear_column}
use columnar_engine.Columns.BuiltRows.{BuiltAll, BuiltAll-clear}
use columnar_engine.Io.Metadata.{ColumnMetadata}
use columnar_engine.Io.Stored.{header_of}
use columnar_engine.Io.Writer.{ColumnarWriter}
use columnar_engine.Io.Session.{IsWriting, write_batch-IsWriting}
use columnar_engine.Csv.Cache.{rows_size}
use columnar_engine.Csv.Convert.{Conversion, flush_builders}
use columnar_engine.Csv.Batches.{BuiltAll-StorableAll, flush_builders_lem, has_rows-BuiltAll}

-- The rows of batches, one after another.
abbrev pub rows_of : List (List (List Bytes)) → List (List Bytes)
rows_of [] = []
rows_of (rows ∷ more) = rows ++ rows_of more

-- Rows that are left in builders between two rounds take up a cache.
abbrev pub IsFull : List (List Bytes) → Type 0
IsFull rows = (rows ≡ []) ⊎ (2 ^ 20 ≤ rows_size rows + 8)

module _ (parse_float : ColumnType → Bytes → Result ℕ) (ts : List ColumnType) where
  -- A batch for each group of rows, of 8192 rows at most.
  abbrev pub BatchesOf : List (List (List Bytes)) → List (List Column) → Type 0
  BatchesOf [] [] = Unit
  BatchesOf (rows ∷ more) (b ∷ bs) =
      BuiltAll parse_float 0 ts b rows × (length rows ≤ 8192) × BatchesOf more bs
  BatchesOf _ _ = ⊥

  -- From a writer with the header of `wr` and the batches `bs`, the rows `rows` became the batches
  -- `batches`, and those at the end that did not, `lost`, stayed in the builders.
  pub record Imported (d : Conversion) (wr : ColumnarWriter) (bs : List (List Column))
      (rows : List (List Bytes)) : Type 0 where
    pub groups : List (List (List Bytes))
    pub batches : List (List Column)
    pub lost : List (List Bytes)
    pub splits : rows ≡ rows_of groups ++ lost
    pub each : BatchesOf groups batches
    pub writing : IsWriting d.writer (bs ++ batches)
    pub headers : map header_of d.writer.metadata ≡ map header_of wr.metadata
    pub kept : BuiltAll parse_float 0 ts d.builders lost
    pub few : length lost < 8192
    pub full : IsFull lost

pub types_of-headers :
    (ms ns : List ColumnMetadata)
    → map header_of ms ≡ map header_of ns
    → map (λ m. m.type_of) ms ≡ map (λ m. m.type_of) ns
types_of-headers [] [] e = refl
types_of-headers [] (n ∷ ns) e = cc
types_of-headers (m ∷ ms) [] e = cc
types_of-headers (m ∷ ms) (n ∷ ns) e =
    let rest : map header_of ms ≡ map header_of ns = ground arith in
    let head : m.type_of ≡ n.type_of = ground arith in let tail = types_of-headers ms ns rest in cc

-- Builders with rows, at most a chunk of them, are written as a batch.
module _ (parse_float : ColumnType → Bytes → Result ℕ) (t : ColumnType) (ts : List ColumnType) where
  pub flush-Imported :
      (wr : ColumnarWriter) (cs : List Column) (bs : List (List Column)) (rows : List (List Bytes))
      → IsWriting wr bs
      → map (λ m. m.type_of) wr.metadata ≡ t ∷ ts
      → BuiltAll parse_float 0 (t ∷ ts) cs rows
      → 0 < length rows
      → length rows ≤ 8192
      → (d : Conversion) × (flush_builders wr cs ≡ ok d)
        × (done : Imported parse_float (t ∷ ts) d wr bs rows) × (done.lost ≡ [])
        × BuiltAll parse_float 0 (t ∷ ts) d.builders []
  flush-Imported wr cs bs rows writing types built some_rows le =
      let storable = BuiltAll-StorableAll parse_float 0 wr.metadata cs rows (rw types built) in
      let (wr', written, writing', headers) = write_batch-IsWriting cs writing storable in
      let cleared = BuiltAll-clear parse_float 0 (t ∷ ts) cs rows built in
      (
        record { writer = wr'; builders = map clear_column cs },
        flush_builders_lem wr wr' cs (has_rows-BuiltAll parse_float t ts cs rows some_rows built)
            written,
        record {
          groups = rows ∷ [];
          batches = cs ∷ [];
          lost = [];
          splits = sym (append-nil (rows ++ []) ∙ append-nil rows);
          each = (built, le, tt);
          writing = writing';
          headers = headers;
          kept = cleared;
          few = omega arith;
          full = inl refl;
        },
        refl,
        cleared,
      )

BatchesOf-cons :
    (parse_float : ColumnType → Bytes → Result ℕ) (ts : List ColumnType)
    (gs hs : List (List (List Bytes))) (bs cs : List (List Column))
    → BatchesOf parse_float ts gs bs
    → BatchesOf parse_float ts hs cs
    → BatchesOf parse_float ts (gs ++ hs) (bs ++ cs)
BatchesOf-cons pf ts [] hs [] cs h k = k
BatchesOf-cons pf ts [] hs (b ∷ bs) cs h k = absurd h
BatchesOf-cons pf ts (g ∷ gs) hs [] cs h k = absurd h
BatchesOf-cons pf ts (g ∷ gs) hs (b ∷ bs) cs h k =
    (h.0, h.1, BatchesOf-cons pf ts gs hs bs cs h.2 k)

rows_of-append : (gs hs : List (List (List Bytes))) → rows_of (gs ++ hs) ≡ rows_of gs ++ rows_of hs
rows_of-append [] hs = refl
rows_of-append (g ∷ gs) hs =
    rw (rows_of-append gs hs) (sym (append_assoc g (rows_of gs) (rows_of hs)))

-- Two stretches of rows, of which the first left none behind.
pub Imported-then :
    (parse_float : ColumnType → Bytes → Result ℕ) (ts : List ColumnType) (mid d : Conversion)
    (wr : ColumnarWriter) (bs : List (List Column)) (rows more : List (List Bytes))
    (first : Imported parse_float ts mid wr bs rows)
    → first.lost ≡ []
    → Imported parse_float ts d mid.writer (bs ++ first.batches) more
    → Imported parse_float ts d wr bs (rows ++ more)
Imported-then pf ts mid d wr bs rows more first none_lost second = record {
  groups = first.groups ++ second.groups;
  batches = first.batches ++ second.batches;
  lost = second.lost;
  splits =
      let front : rows ≡ rows_of first.groups =
        first.splits
        ∙ ap (λ l. rows_of first.groups ++ l) none_lost
        ∙ append-nil (rows_of first.groups) in
      ap (λ r. r ++ more) front
      ∙ ap (λ m. rows_of first.groups ++ m) second.splits
      ∙ sym (append_assoc (rows_of first.groups) (rows_of second.groups) second.lost)
      ∙ ap (λ r. r ++ second.lost) (sym (rows_of-append first.groups second.groups));
  each =
      BatchesOf-cons pf ts first.groups second.groups first.batches second.batches first.each
        second.each;
  writing = rw (append_assoc bs first.batches second.batches) at second.writing;
  headers = second.headers ∙ first.headers;
  kept = second.kept;
  few = second.few;
  full = second.full;
}
