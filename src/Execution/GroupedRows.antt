-- ===== src/Execution/GroupedRows.antt =====
-- `Sink` of GROUP BY: each thread keeps the rows of each key in a group of its own.
use columnar_engine.Base.{
  ℕ, zero, suc, ◌<◌, ◌≡◌, ◌≢◌, inl, inr, refl, sym, ap, fun_ext, ◌∙◌, subst, Option, none, some,
  List, [], ◌∷◌, ◌++◌, arith, length, set, get_elem?, replicate, if◌then◌else◌, ◌==◌, length-set,
  get_elem?-set_self, get_elem?-set_ne, lt_of_get_elem?, true, Bool-cases, All, Result, ok, at,
  >>=-eq-ok,
}
use columnar_engine.Base.Words.{Bytes}
use columnar_engine.Types.ColumnTypes.{ColumnType}
use columnar_engine.Columns.Column.{Column}
use columnar_engine.Execution.Batch.{RecordBatch}
use columnar_engine.Execution.HashKeys.{selected, key_part, hash_from, hash_keys}
use columnar_engine.Execution.GroupBy.{
  HashMap, GroupedFunction, GroupByOperator, GroupByThreadState, composite_keys, each_function,
  update_functions,
}
use columnar_engine.Execution.Groups.{some-eq, IsNumbered, Ids, Selects}
use columnar_engine.Execution.KeyBytes.{row_key}
use columnar_engine.Execution.KeyCopies.{KeyFits, HasBuilders, IsKnown}
use columnar_engine.Execution.Tracked.{Row, pad, add_rows, rows_with, Tracks}

-- The rows of each key in each thread, with those of a batch in thread `t`.
abbrev pub vals_with : (ℕ → Bytes → List Row) → ℕ → RecordBatch → List Bytes → ℕ → Bytes → List Row
vals_with vals t batch keys u k = if u == t then vals u k ++ rows_with k batch 0 keys else vals u k

-- Aggregation functions of some kinds, whose groups, of every thread, have seen some rows.
pub record SeesRows {F : Type 0} (class : GroupedFunction F) : Type 1 where
  pub Reads : RecordBatch → Type 0
  pub Kind : Type 0
  pub Seen : Kind → F → List (List (List Row)) → Type 0
  pub sees_resize :
      (kind : Kind) (f : F) (m : List (List (List Row))) (t n : ℕ) (rs : List (List Row))
      → Seen kind f m
      → get_elem? m t ≡ some rs
      → (next : F) × (class.resize f n t ≡ ok next) × Seen kind next (set m t (pad rs n))
  pub sees_update :
      (kind : Kind) (f : F) (m : List (List (List Row))) (t : ℕ) (rs : List (List Row))
      (batch : RecordBatch) (ids : List ℕ)
      → Reads batch
      → Seen kind f m
      → get_elem? m t ≡ some rs
      → length ids ≡ batch.num_rows
      → All (λ g. g < length rs) ids
      → (next : F) × (class.update f batch ids t ≡ ok next)
        × Seen kind next (set m t (add_rows rs batch 0 ids))
  pub sees_combine :
      (kind : Kind) (f : F) (m : List (List (List Row))) (t src_gid gid : ℕ)
      (src global : List (List Row)) (a b : List Row)
      → Seen kind f m
      → get_elem? m t ≡ some src
      → get_elem? m 0 ≡ some global
      → get_elem? src src_gid ≡ some a
      → get_elem? global gid ≡ some b
      → (next : F) × (class.combine_state f t src_gid gid ≡ ok next)
        × Seen kind next (set m 0 (set global gid (b ++ a)))
  pub sees_finalize :
      (kind : Kind) (f : F) (m : List (List (List Row))) {global : List (List Row)}
      → Seen kind f m
      → get_elem? m 0 ≡ some global
      → (column : Column) × (class.finalize_function f ≡ ok column)

-- A relation of the items of two lists at the same places.
abbrev pub Zip : {K F : Type 0} → (K → F → Type 0) → List K → List F → Type 0
Zip R [] [] = Unit
Zip R (k ∷ ks) (f ∷ fs) = R k f × Zip R ks fs
Zip R _ _ = ⊥

pub each_function-Zip :
    {K F : Type 0} {P Q : K → F → Type 0} (call : F → Result F) (kinds : List K) (funcs : List F)
    → ((k : K) (f : F) → P k f → (next : F) × (call f ≡ ok next) × Q k next)
    → Zip P kinds funcs
    → (nexts : List F) × (each_function call funcs ≡ ok nexts) × Zip Q kinds nexts
unfolding each_function
each_function-Zip call [] [] step h = ([], refl, tt)
each_function-Zip call [] (f ∷ funcs) step h = absurd h
each_function-Zip call (k ∷ ks) [] step h = absurd h
each_function-Zip call (k ∷ ks) (f ∷ funcs) step (p, h) =
    let (next, e, q) = step k f p in
    let (nexts, run, qs) = each_function-Zip call ks funcs step h in
    (next ∷ nexts, rw (e, run) refl, (q, qs))

length-hash_from :
    (column : _) (sel : Option (List ℕ)) (i left : ℕ) (keys : List Bytes) {out : List Bytes}
    → hash_from column sel i left keys ≡ ok out
    → length out ≡ length keys
unfolding hash_from
length-hash_from column sel i zero keys e = cc
length-hash_from column sel i (suc left) keys e =
    let (idx, _, e1) = >>=-eq-ok (selected sel i) _ e in
    let (part, _, e2) = >>=-eq-ok (key_part column idx) _ e1 in
    let (key, _, e3) = >>=-eq-ok (at keys i) _ e2 in
    length-hash_from column sel (suc i) left (set keys i (key ++ part)) e3
    ∙ length-set keys i (key ++ part)

length-hash_keys :
    (column : _) (keys : List Bytes) (sel : Option (List ℕ)) {out : List Bytes}
    → hash_keys column keys sel ≡ ok out
    → length out ≡ length keys
unfolding hash_keys
length-hash_keys column keys none e = length-hash_from column none 0 _ keys e
length-hash_keys column keys (some s) e = length-hash_from column (some s) 0 _ keys e

pub length-composite_keys :
    (batch : RecordBatch) (indices : List ℕ) (keys : List Bytes) {out : List Bytes}
    → composite_keys batch indices keys ≡ ok out
    → length out ≡ length keys
unfolding composite_keys
length-composite_keys batch [] keys e = cc
length-composite_keys batch (i ∷ indices) keys e =
    let (column, _, e1) = >>=-eq-ok (at batch.columns i) _ e in
    let (next, e2, e3) = >>=-eq-ok (hash_keys column keys batch.selection_vector) _ e1 in
    length-composite_keys batch indices next e3
    ∙ length-hash_keys column keys batch.selection_vector e2

pub lt_of_replicate :
    {A : Type 0} (n t : ℕ) {a x : A} → get_elem? (replicate n a) t ≡ some x → (a ≡ x) × (t < n)
lt_of_replicate zero t e = cc
lt_of_replicate (suc n) zero e = (some-eq e, omega arith)
lt_of_replicate (suc n) (suc t) e = let (same, lt) = lt_of_replicate n t e in (same, omega arith)

module _ {Map : Type 0} (map : HashMap Map) where
  pub length-Ids :
      (table : Map) (keys : List Bytes) (ids : List ℕ)
      → Ids map table keys ids
      → length ids ≡ length keys
  length-Ids table [] [] h = refl
  length-Ids table [] (g ∷ gs) h = absurd h
  length-Ids table (k ∷ ks) [] h = absurd h
  length-Ids table (k ∷ ks) (g ∷ gs) h = ap suc (length-Ids table ks gs h.1)

  pub Ids-below :
      {table : Map} {n : ℕ} (keys : List Bytes) (ids : List ℕ)
      → IsNumbered map table n
      → Ids map table keys ids
      → All (λ g. g < n) ids
  Ids-below [] [] numbered h = tt
  Ids-below [] (g ∷ gs) numbered h = absurd h
  Ids-below (k ∷ ks) [] numbered h = absurd h
  Ids-below (k ∷ ks) (g ∷ gs) numbered h = (numbered.below k g h.0, Ids-below ks gs numbered h.1)

module _ {Map : Type 0} (map : HashMap Map) where
  -- The columns of the keys hold the key of each group, in the row with the number of the group.
  abbrev pub HoldsKeys : Map → List Column → Type 0
  HoldsKeys table columns =
      (k : Bytes) (g : ℕ) → map.find table k ≡ some g → row_key columns g ≡ ok k

  -- A thread, with the rows that each of its groups has seen and those of each key.
  pub record ThreadFollows (types : List ColumnType) (st : GroupByThreadState Map)
      (rs : List (List Row)) (vals : Bytes → List Row) : Type 0 where
    pub numbered : IsNumbered map st.hash_table st.num_groups
    pub tracks : Tracks map st.hash_table st.num_groups rs vals
    pub builders : HasBuilders types st.num_groups st.key_builders
    pub holds_keys : HoldsKeys st.hash_table st.key_builders

module _ {F : Type 0} {class : GroupedFunction F} (law : SeesRows class) where
  -- A batch whose keys, in the columns at `indices`, and values can be read.
  pub record Sinkable (indices : List ℕ) (types : List ColumnType) (batch : RecordBatch)
      (keys : List Bytes) : Type 0 where
    pub keyed : composite_keys batch indices (replicate batch.num_rows []) ≡ ok keys
    pub fits :
        Selects (λ real k. KeyFits batch.columns types indices real) batch.selection_vector 0 keys
    pub reads : law.Reads batch

module _ {Map F : Type 0} (map : HashMap Map) {class : GroupedFunction F} (law : SeesRows class)
    (kinds : List law.Kind) where
  -- The operator, with the rows of each key that each thread has been given.
  pub record Follows (op : GroupByOperator Map F) (m : List (List (List Row)))
      (vals : ℕ → Bytes → List Row) : Type 0 where
    pub known : All IsKnown op.key_types
    pub functions : Zip (λ kind f. law.Seen kind f m) kinds op.agg_funcs
    pub threads :
        (t : ℕ) (st : GroupByThreadState Map)
        → get_elem? op.thread_states t ≡ some st
        → (rs : List (List Row)) × (get_elem? m t ≡ some rs)
          × ThreadFollows map op.key_types st rs (vals t)

  -- Every thread follows its rows, where thread `t` has become `new`.
  pub set_threads :
      (types : List ColumnType) (states : List (GroupByThreadState Map))
      (m : List (List (List Row))) (vals : ℕ → Bytes → List Row) (batch : RecordBatch)
      (keys : List Bytes) (t : ℕ) (new : GroupByThreadState Map) (a b : List (List Row))
      → ((u : ℕ) (st : GroupByThreadState Map)
          → get_elem? states u ≡ some st
          → (rs : List (List Row)) × (get_elem? m u ≡ some rs)
            × ThreadFollows map types st rs (vals u))
      → t < length states
      → t < length m
      → ThreadFollows map types new b (λ k. vals t k ++ rows_with k batch 0 keys)
      → (u : ℕ) (st : GroupByThreadState Map) → get_elem? (set states t new) u ≡ some st
      → (rs : List (List Row)) × (get_elem? (set (set m t a) t b) u ≡ some rs)
        × ThreadFollows map types st rs (vals_with vals t batch keys u)
  set_threads types states m vals batch keys t new a b h lt lt' thread u st e =
      elim (Bool-cases (u == t)) [
        | inl eq ↦
            let same : u ≡ t = ground arith in
            let it : new ≡ st = some-eq (
              sym (get_elem?-set_self states t new lt)
              ∙ ap (get_elem? (set states t new)) (sym same)
              ∙ e) in
            (
              b,
              ap (get_elem? (set (set m t a) t b)) same
                  ∙ get_elem?-set_self (set m t a) t b
                      (subst (λ n. t < n) (sym (length-set m t a)) lt'),
              subst (ThreadFollows map types st b) (sym (fun_ext (λ k. rw eq refl))) (
                  subst
                    (λ w. ThreadFollows map types st b (λ k. vals w k ++ rows_with k batch 0 keys))
                    (sym same)
                    (subst
                      (λ s. ThreadFollows map types s b (λ k. vals t k ++ rows_with k batch 0 keys))
                      it thread)),
            )
        | inr ne ↦
            let other : t ≢ u = λ same. (let clash : u == t ≡ true = ground arith in cc) in
            let (rs, found, follows) = h u st (sym (get_elem?-set_ne states new other) ∙ e) in
            (
              rs,
              get_elem?-set_ne (set m t a) b other ∙ get_elem?-set_ne m a other ∙ found,
              subst (ThreadFollows map types st rs) (sym (fun_ext (λ k. rw ne refl))) follows,
            )
      ]

  pub update_functions-Seen :
      (funcs : List F) (m : List (List (List Row))) (t n : ℕ) (rs : List (List Row))
      (batch : RecordBatch) (ids : List ℕ)
      → law.Reads batch
      → Zip (λ kind f. law.Seen kind f m) kinds funcs
      → get_elem? m t ≡ some rs
      → length ids ≡ batch.num_rows
      → All (λ g. g < length (pad rs n)) ids
      → (nexts : List F) × (update_functions class funcs n batch ids t ≡ ok nexts)
        × Zip
            (λ kind f.
              law.Seen kind f (set (set m t (pad rs n)) t (add_rows (pad rs n) batch 0 ids)))
            kinds
            nexts
  unfolding update_functions
  update_functions-Seen funcs m t n rs batch ids reads seen found count below =
      each_function-Zip _ kinds funcs
        (λ kind f h.
          let (resized, e, h') = law.sees_resize kind f m t n rs h found in
          let (next, e', h'') =
            law.sees_update kind resized _ t (pad rs n) batch ids reads h'
              (get_elem?-set_self m t (pad rs n) (lt_of_get_elem? m t found)) count below in
          (next, rw (e, e') refl, h''))
        seen
