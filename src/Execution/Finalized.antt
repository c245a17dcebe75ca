-- ===== src/Execution/Finalized.antt =====
-- `Finalize` of GROUP BY: one group for each key, with the rows of all threads.
use columnar_engine.Base.{
  ℕ, zero, suc, ◌+◌, ◌<◌, ◌≡◌, ◌≢◌, ◌⊎◌, inl, inr, refl, sym, ap, fun_ext, ◌∙◌, subst, none, some,
  List, [], ◌∷◌, ◌++◌, arith, length, set, get_elem?, get_elem?_lt, get_elem?-set_self,
  append_assoc, append-nil, ok, drop, ◌≤◌, ◌^◌,
}
use columnar_engine.Base.Words.{Bytes}
use columnar_engine.Types.ColumnTypes.{ColumnType}
use columnar_engine.Columns.Column.{Column}
use columnar_engine.Execution.Batch.{RecordBatch}
use columnar_engine.Execution.GroupBy.{
  HashMap, GroupedFunction, GroupByOperator, GroupByThreadState, finalize_functions, merge_entries,
  merge_locals, finalize_group_by,
}
use columnar_engine.Execution.Groups.{IsMap, Option-cases, some-eq}
use columnar_engine.Execution.KeyCopies.{
  AreBuilders, HasBuilders, init_builders-AreBuilders, HasBuilders-AreBuilders,
}
use columnar_engine.Execution.Tracked.{Row}
use columnar_engine.Execution.GroupCounts.{total_groups}
use columnar_engine.Execution.GroupedSink.{init_keys}
use columnar_engine.Execution.GroupedRows.{Zip, SeesRows, ThreadFollows, Follows}
use columnar_engine.Execution.Merged.{Local, Merging}
use columnar_engine.Execution.MergedTable.{merge_table-Merges}

-- The rows of a key in `n` threads from `t` on.
abbrev pub rows_from : (ℕ → Bytes → List Row) → ℕ → ℕ → Bytes → List Row
rows_from vals t zero k = []
rows_from vals t (suc n) k = vals t k ++ rows_from vals (suc t) n k

ℕ-cases : (n : ℕ) → (n ≡ 0) ⊎ ((k : ℕ) × (n ≡ suc k))
ℕ-cases zero = inl refl
ℕ-cases (suc n) = inr (n, refl)

get_elem?-drop_one :
    {A : Type 0} (xs : List A) (i : ℕ) → get_elem? (drop 1 xs) i ≡ get_elem? xs (suc i)
get_elem?-drop_one [] i = refl
get_elem?-drop_one (x ∷ xs) i = refl

groups-drop_one :
    {Map : Type 0} (sts : List (GroupByThreadState Map)) {st : GroupByThreadState Map}
    → get_elem? sts 0 ≡ some st
    → st.num_groups + total_groups (drop 1 sts) ≡ total_groups sts
groups-drop_one [] e = cc
groups-drop_one (s ∷ sts) {st} e =
    let same : s.num_groups ≡ st.num_groups = ap (λ u. u.num_groups) (some-eq e) in omega arith

length-drop_one : {A : Type 0} (xs : List A) → 0 < length xs → suc (length (drop 1 xs)) ≡ length xs
length-drop_one [] h = elim h [ ]
length-drop_one (x ∷ xs) h = refl

module _ {Map F : Type 0} (map : HashMap Map) {class : GroupedFunction F} (law : SeesRows class)
    (kinds : List law.Kind) where
  finalize_functions-total :
      (ks : List law.Kind) (funcs : List F) (m : List (List (List Row))) {global : List (List Row)}
      → Zip (λ kind f. law.Seen kind f m) ks funcs
      → get_elem? m 0 ≡ some global
      → (columns : List Column) × (finalize_functions class funcs ≡ ok columns)
        × Zip (λ f column. class.finalize_function f ≡ ok column) funcs columns
  unfolding finalize_functions
  finalize_functions-total [] [] m h e = ([], refl, tt)
  finalize_functions-total [] (f ∷ funcs) m h e = absurd h
  finalize_functions-total (k ∷ ks) [] m h e = absurd h
  finalize_functions-total (k ∷ ks) (f ∷ funcs) m h e =
      let (column, run) = law.sees_finalize k f m h.0 e in
      let (columns, run', all) = finalize_functions-total ks funcs m h.1 e in
      (column ∷ columns, rw (run, run') refl, (run, all))

  -- A thread without groups has no rows.
  no_groups :
      {types : List ColumnType} {st : GroupByThreadState Map} {rs : List (List Row)}
      {vals : Bytes → List Row}
      → ThreadFollows map types st rs vals
      → st.num_groups ≡ 0
      → (k : Bytes) → vals k ≡ []
  no_groups {st = st} h e k = elim (Option-cases (map.find st.hash_table k)) [
    | inl fresh ↦ h.tracks.unseen k fresh
    | inr (g, found) ↦
        (let clash : g < 0 = omega (arith, e, h.numbered.below k g found) in elim clash [ ])
  ]

  to-Local :
      {types : List ColumnType} {m : List (List (List Row))} {t : ℕ} {st : GroupByThreadState Map}
      {rs : List (List Row)} {vals : Bytes → List Row} (n : ℕ)
      → get_elem? m t ≡ some rs
      → ThreadFollows map types st rs vals
      → st.num_groups ≡ suc n
      → Local map types m t st.hash_table st.num_groups st.key_builders vals
  to-Local {types = types} {st = st} {rs = rs} n found h e = record {
    source = rs;
    at_source = found;
    local_numbered = h.numbered;
    local_tracks = h.tracks;
    local_holds = h.holds_keys;
    local_keys =
        subst (λ k. AreBuilders types k st.key_builders) (sym e)
          (HasBuilders-AreBuilders types n st.key_builders
            (subst (λ k. HasBuilders types k st.key_builders) e h.builders));
  }

  merge_locals-skip :
      (global : GroupByThreadState Map) (funcs : List F) (t : ℕ) (st : GroupByThreadState Map)
      (sts : List (GroupByThreadState Map))
      → st.num_groups ≡ 0
      → merge_locals map class global funcs t (st ∷ sts)
        ≡ merge_locals map class global funcs (suc t) sts
  unfolding merge_locals
  merge_locals-skip global funcs t st sts e = rw (e, merge_locals) refl

  merge_locals-next :
      (global : GroupByThreadState Map) (funcs : List F) (t : ℕ) (st : GroupByThreadState Map)
      (sts : List (GroupByThreadState Map)) (n : ℕ) (next : GroupByThreadState Map × List F)
      → st.num_groups ≡ suc n
      → merge_entries map class global funcs st.key_builders t (map.entries st.hash_table) ≡ ok next
      → merge_locals map class global funcs t (st ∷ sts)
        ≡ merge_locals map class next.0 next.1 (suc t) sts
  unfolding merge_locals
  merge_locals-next global funcs t st sts n next e run = rw (e, merge_locals, run) refl

  -- The operator after `Finalize`: the table of the first thread has one group for each key, which has
  -- seen the rows of `vals`, and the result has a row for each group, with its key in the columns of the
  -- keys, and a column for each function.
  pub record Finalized (types : List ColumnType) (op : GroupByOperator Map F)
      (vals : Bytes → List Row) : Type 0 where
    pub first : GroupByThreadState Map
    pub is_first : get_elem? op.thread_states 0 ≡ some first
    pub final : List (List (List Row))
    pub merged : Merging map law kinds types first op.agg_funcs final vals
    pub columns : List Column
    pub finished : Zip (λ f column. class.finalize_function f ≡ ok column) op.agg_funcs columns
    pub is_result :
        op.result_batch
        ≡ some (record {
          num_rows = first.num_groups;
          selection_vector = none;
          columns = first.key_builders ++ columns;
        })

  module _ (axioms : IsMap map) where
    -- The threads from `t` on.
    merge_locals-Merges :
        (types : List ColumnType) (vals : ℕ → Bytes → List Row)
        (locals : List (GroupByThreadState Map)) (t : ℕ) (state : GroupByThreadState Map)
        (funcs : List F) (m : List (List (List Row))) (acc : Bytes → List Row)
        → t ≢ 0
        → state.num_groups + total_groups locals ≤ 2 ^ 32
        → Merging map law kinds types state funcs m acc
        → ((i u : ℕ) (st : GroupByThreadState Map)
            → u ≡ t + i
            → get_elem? locals i ≡ some st
            → (rs : List (List Row)) × (get_elem? m u ≡ some rs)
              × ThreadFollows map types st rs (vals u))
        → (out : GroupByThreadState Map × List F) × (merge_locals map class state funcs t locals
            ≡ ok out)
          × (m' : List (List (List Row))) × Merging map law kinds types out.0 out.1 m'
              (λ k. acc k ++ rows_from vals t (length locals) k)
    unfolding merge_locals
    merge_locals-Merges types vals [] t state funcs m acc ne small h threads = (
      (state, funcs),
      refl,
      m,
      subst (Merging map law kinds types state funcs m) (fun_ext (λ k. sym (append-nil (acc k)))) h,
    )
    merge_locals-Merges types vals (st ∷ sts) t state funcs m acc ne small h threads =
        let (rs, found, follows) = threads 0 t st (omega arith) refl in
        elim (ℕ-cases st.num_groups) [
          | inl e ↦
              let (out, run, m', h') =
                merge_locals-Merges types vals sts (suc t) state funcs m acc (λ z. cc)
                  (omega (arith, e)) h (λ i u st' eu. threads (suc i) u st' (omega (arith, eu))) in
              (
                out,
                merge_locals-skip state funcs t st sts e ∙ run,
                m',
                subst (Merging map law kinds types out.0 out.1 m')
                    (fun_ext (λ k.
                      ap (λ l. acc k ++ (l ++ rows_from vals (suc t) (length sts) k))
                        (sym (no_groups follows e k))))
                    h',
              )
          | inr (n, e) ↦
              let (next, run, few, (m1, h1, kept)) =
                merge_table-Merges map law kinds axioms types t st.hash_table st.num_groups
                  st.key_builders (vals t) state funcs m acc ne (omega arith) h
                  (to-Local n found follows e) in
              let (out, run', m2, h2) =
                merge_locals-Merges types vals sts (suc t) next.0 next.1 m1 _ (λ z. cc)
                  (omega arith) h1
                  (λ i u st' eu g.
                    let (rs', found', follows') = threads (suc i) u st' (omega (arith, eu)) g in
                    let above : u ≢ 0 =
                      λ z. (let clash : 0 < 0 = omega (arith, eu, z) in elim clash [ ]) in
                    (rs', kept u above ∙ found', follows')) in
              (
                out,
                merge_locals-next state funcs t st sts n next e run ∙ run',
                m2,
                subst (Merging map law kinds types out.0 out.1 m2)
                    (fun_ext (λ k. append_assoc (acc k) _ _)) h2,
              )
        ]

    -- An operator of at least one thread whose threads follow their rows and have 2 ^ 32 groups at most
    -- among them: `Finalize` succeeds, and the
    -- groups have the rows of each key in all threads.
    pub finalize_group_by-Finalized :
        (op : GroupByOperator Map F) (m : List (List (List Row))) (vals : ℕ → Bytes → List Row)
        → Follows map law kinds op m vals
        → 0 < length op.thread_states
        → total_groups op.thread_states ≤ 2 ^ 32
        → (next : GroupByOperator Map F) × (finalize_group_by map class op ≡ ok next)
          × Finalized op.key_types next (rows_from vals 0 (length op.thread_states))
    unfolding finalize_group_by
    finalize_group_by-Finalized op m vals follows lt small =
        let (first, at_first) = get_elem?_lt op.thread_states 0 lt in
        let (rs, found, thread) = follows.threads 0 first at_first in
        let (builders, init, are, made) =
          init_builders-AreBuilders op.key_types first.num_groups first.key_builders follows.known
            thread.builders in
        let (out, run, m', h) =
          merge_locals-Merges op.key_types vals (drop 1 op.thread_states) 1
            (record first { key_builders = builders }) op.agg_funcs m (vals 0) (λ z. cc)
            (omega (arith, groups-drop_one op.thread_states at_first))
            (record {
              global = rs;
              at_zero = found;
              seen = follows.functions;
              numbered = thread.numbered;
              tracks = thread.tracks;
              keys = are;
              holds_keys =
                  init_keys map law kinds axioms first.hash_table first.num_groups
                    first.key_builders builders thread.numbered made thread.holds_keys;
            })
            (λ i u st eu g. follows.threads u st (
              ap (get_elem? op.thread_states) (let at_u : u ≡ suc i = omega (arith, eu) in at_u)
              ∙ sym (get_elem?-drop_one op.thread_states i)
              ∙ g)) in
        let (columns, finish, all) = finalize_functions-total kinds out.1 m' h.seen h.at_zero in
        let result : RecordBatch = record {
          num_rows = out.0.num_groups;
          selection_vector = none;
          columns = out.0.key_builders ++ columns;
        } in
        (
          record op {
            agg_funcs = out.1;
            thread_states = set op.thread_states 0 out.0;
            result_batch = some result;
          },
          rw (at_first, init, run, finish) refl,
          record {
            first = out.0;
            is_first = get_elem?-set_self op.thread_states 0 out.0 lt;
            final = m';
            merged =
                subst (Merging map law kinds op.key_types out.0 out.1 m')
                  (fun_ext
                    (λ k. ap (λ n. rows_from vals 0 n k) (length-drop_one op.thread_states lt)))
                  h;
            columns = columns;
            finished = all;
            is_result = refl;
          },
        )
