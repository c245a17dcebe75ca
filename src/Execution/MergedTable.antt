-- ===== src/Execution/MergedTable.antt =====
-- The loop of `Finalize` of GROUP BY over the table of a thread takes in all rows of the thread.
use columnar_engine.Base.{
  ℕ, ◌+◌, ◌≤◌, ◌^◌, length, arith, ◌≡◌, ◌≢◌, inl, inr, refl, sym, ap, fun_ext, ◌∙◌, subst, some,
  List, [], ◌∷◌, ◌++◌, append_assoc, append-nil, All, ok, Bool-cases,
}
use columnar_engine.Base.Words.{Bytes, bytes_eq, bytes_eq_iff}
use columnar_engine.Types.ColumnTypes.{ColumnType}
use columnar_engine.Columns.Column.{Column}
use columnar_engine.Execution.GroupBy.{HashMap, GroupedFunction, GroupByThreadState, merge_entries}
use columnar_engine.Execution.Groups.{IsMap, with_key, Option-cases}
use columnar_engine.Execution.Tracked.{Row, all_if}
use columnar_engine.Execution.GroupedRows.{SeesRows}
use columnar_engine.Execution.Merged.{Local, Merging, Merges, keep-Local, merge_entry-Merges}

-- The rows of a key in a thread, once for every entry of the key.
abbrev pub entry_rows : (Bytes → List Row) → List (Bytes × ℕ) → Bytes → List Row
entry_rows vals [] k = []
entry_rows vals (e ∷ es) k = all_if (bytes_eq e.0 k) (vals e.0) ++ entry_rows vals es k

module _ {Map F : Type 0} (map : HashMap Map) {class : GroupedFunction F} (law : SeesRows class)
    (kinds : List law.Kind) where
  module _ (axioms : IsMap map) where
    merge_entries-Merges :
        (types : List ColumnType) (t : ℕ) (table : Map) (n : ℕ) (cols : List Column)
        (tvals : Bytes → List Row) (entries : List (Bytes × ℕ)) (state : GroupByThreadState Map)
        (funcs : List F) (m : List (List (List Row))) (vals : Bytes → List Row)
        → t ≢ 0
        → state.num_groups + length entries ≤ 2 ^ 32
        → Merging map law kinds types state funcs m vals
        → Local map types m t table n cols tvals
        → All (λ e. map.find table e.0 ≡ some e.1) entries
        → (out : GroupByThreadState Map × List F) × (merge_entries map class state funcs cols t
              entries
            ≡ ok out)
          × (out.0.num_groups ≤ state.num_groups + length entries)
          × Merges map law kinds types out.0 out.1 m (λ k. vals k ++ entry_rows tvals entries k)
    unfolding merge_entries
    merge_entries-Merges types t table n cols tvals [] state funcs m vals ne small h local sound = (
      (state, funcs),
      refl,
      omega arith,
      (
        m,
        subst (Merging map law kinds types state funcs m) (fun_ext (λ k. sym (append-nil (vals k))))
            h,
        λ u ne'. refl,
      ),
    )
    merge_entries-Merges types t table n cols tvals (e ∷ es) state funcs m vals ne small h local
          sound =
        let (out, run, few, (m1, h1, kept)) =
          merge_entry-Merges map law kinds axioms types state funcs m vals tvals t table n cols e ne
            (omega arith) h local sound.0 in
        let (last, run', few', (m2, h2, kept')) =
          merge_entries-Merges types t table n cols tvals es out.0 out.1 m1 _ ne (omega arith) h1
            (keep-Local map local (kept t ne)) sound.1 in
        (
          last,
          rw run run',
          omega arith,
          (
            m2,
            subst (Merging map law kinds types last.0 last.1 m2)
                (fun_ext (λ k. append_assoc (vals k) _ _)) h2,
            λ u ne'. kept' u ne' ∙ kept u ne',
          ),
        )

    -- The entries of the table of a thread have the rows of every key.
    entry_rows-with_key :
        (vals : Bytes → List Row) (k : Bytes) (es : List (Bytes × ℕ))
        → entry_rows vals es k ≡ entry_rows vals (with_key k es) k
    entry_rows-with_key vals k [] = refl
    entry_rows-with_key vals k (e ∷ es) = elim (Bool-cases (bytes_eq e.0 k)) [
      | inl eq ↦ rw (eq, eq) (ap (λ l. vals e.0 ++ l) (entry_rows-with_key vals k es))
      | inr ne ↦ rw (ne) (entry_rows-with_key vals k es)
    ]

    entry_rows-entries :
        {types : List ColumnType} {m : List (List (List Row))} {t : ℕ} {table : Map} {n : ℕ}
        {cols : List Column} (vals : Bytes → List Row) (k : Bytes)
        → Local map types m t table n cols vals
        → entry_rows vals (map.entries table) k ≡ vals k
    entry_rows-entries {table = table} vals k local = elim (Option-cases (map.find table k)) [
      | inl fresh ↦
          entry_rows-with_key vals k (map.entries table)
          ∙ ap (λ es. entry_rows vals es k) (axioms.entries_missing table k fresh)
          ∙ sym (local.local_tracks.unseen k fresh)
      | inr (g, found) ↦
          entry_rows-with_key vals k (map.entries table)
          ∙ ap (λ es. entry_rows vals es k) (axioms.entries_found table k g found)
          ∙ ap (λ b. all_if b (vals k) ++ []) ((bytes_eq_iff k k).1 refl)
          ∙ append-nil (vals k)
    ]

    -- The whole table of a thread.
    pub merge_table-Merges :
        (types : List ColumnType) (t : ℕ) (table : Map) (n : ℕ) (cols : List Column)
        (tvals : Bytes → List Row) (state : GroupByThreadState Map) (funcs : List F)
        (m : List (List (List Row))) (vals : Bytes → List Row)
        → t ≢ 0
        → state.num_groups + n ≤ 2 ^ 32
        → Merging map law kinds types state funcs m vals
        → Local map types m t table n cols tvals
        → (out : GroupByThreadState Map × List F) × (merge_entries map class state funcs cols t
              (map.entries table)
            ≡ ok out)
          × (out.0.num_groups ≤ state.num_groups + n)
          × Merges map law kinds types out.0 out.1 m (λ k. vals k ++ tvals k)
    merge_table-Merges types t table n cols tvals state funcs m vals ne small h local =
        let count : length (map.entries table) ≡ n = local.local_numbered.counted in
        let (out, run, few, (m', h', kept)) =
          merge_entries-Merges types t table n cols tvals (map.entries table) state funcs m vals ne
            (omega arith) h local (axioms.entries_sound table) in
        (
          out,
          run,
          omega arith,
          (
            m',
            subst (Merging map law kinds types out.0 out.1 m')
                (fun_ext (λ k. ap (λ l. vals k ++ l) (entry_rows-entries tvals k local))) h',
            kept,
          ),
        )
