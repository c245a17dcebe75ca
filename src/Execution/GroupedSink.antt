-- ===== src/Execution/GroupedSink.antt =====
-- `Sink` of GROUP BY keeps that every thread follows its rows.
use columnar_engine.Base.{
  ℕ, ◌<◌, ◌≡◌, inl, refl, sym, ◌∙◌, subst, none, some, List, [], arith, length, set, replicate,
  length-replicate, length-set, get_elem?_lt, lt_of_get_elem?, All, All-map, ok, ◌+◌, ◌≤◌, ◌^◌, ◌⊎◌,
  inr, ap,
}
use columnar_engine.Base.Words.{Bytes}
use columnar_engine.Types.ColumnTypes.{ColumnType}
use columnar_engine.Execution.Batch.{RecordBatch}
use columnar_engine.Execution.GroupBy.{
  HashMap, GroupedFunction, Grouping, GroupByOperator, make_group_by, sink_group_by,
}
use columnar_engine.Columns.Column.{Column}
use columnar_engine.Execution.KeyBytes.{row_key, index_key, Copied}
use columnar_engine.Execution.SinkKeys.{keyed_rows}
use columnar_engine.Execution.Groups.{
  IsMap, IsNumbered, Groups, Option-cases, some-eq, group_rows-Groups,
}
use columnar_engine.Execution.KeyCopies.{
  KeyFits, AreBuilders, IsKnown, copy_new_keys-AreBuilders, init_builders-AreBuilders,
  AreBuilders-HasBuilders,
}
use columnar_engine.Execution.Tracked.{
  Row, pad, length-pad, get_elem?-replicate, add_rows, pad-Tracks, add_rows-Tracks,
}
use columnar_engine.Execution.GroupedRows.{
  Zip, HoldsKeys, SeesRows, vals_with, Sinkable, ThreadFollows, Follows, set_threads,
  update_functions-Seen, length-composite_keys, length-Ids, Ids-below, lt_of_replicate,
}
use columnar_engine.Execution.GroupCounts.{total_groups, total_groups-set, groups_le}

-- The same plan on as many threads.
abbrev pub Same : {Map F : Type 0} → GroupByOperator Map F → GroupByOperator Map F → Type 0
Same op next =
    (next.group_by_col_indices ≡ op.group_by_col_indices)
    × (next.key_types ≡ op.key_types)
    × (length next.thread_states ≡ length op.thread_states)

module _ {Map F : Type 0} (map : HashMap Map) {class : GroupedFunction F} (law : SeesRows class)
    (kinds : List law.Kind) where
  module _ (axioms : IsMap map) where
    -- A new operator has been given no rows.
    pub make_group_by-Follows :
        (indices : List ℕ) (types : List ColumnType) (funcs : List F) (n : ℕ)
        → All IsKnown types
        → Zip (λ kind f. law.Seen kind f (replicate n [])) kinds funcs
        → Follows map law kinds
            (make_group_by map indices types funcs n)
            (replicate n [])
            (λ t k. [])
    unfolding make_group_by
    make_group_by-Follows indices types funcs n known seen = record {
      known = known;
      functions = seen;
      threads = λ t st e.
          let (same, lt) = lt_of_replicate n t e in
          (
            [],
            get_elem?-replicate n [] t lt,
            subst (λ s. ThreadFollows map types s [] (λ k. [])) same
                (record {
                  numbered = record {
                    below =
                        λ k g e. (let both : none ≡ some g = sym (axioms.find_empty k) ∙ e in cc);
                    injective = λ k k' g e e'.
                        (let both : none ≡ some g = sym (axioms.find_empty k) ∙ e in cc);
                    counted = axioms.count_empty;
                  };
                  tracks = record {
                    sized = refl;
                    tracked =
                        λ k g e. (let both : none ≡ some g = sym (axioms.find_empty k) ∙ e in cc);
                    unseen = λ k e. refl;
                  };
                  builders = inl refl;
                  holds_keys =
                      λ k g e. (let both : none ≡ some g = sym (axioms.find_empty k) ∙ e in cc);
                }),
          );
    }

    -- The builders of a thread with keys are not made again.
    pub init_keys :
        (table : Map) (n : ℕ) (old builders : List Column)
        → IsNumbered map table n
        → (n ≡ 0) ⊎ (builders ≡ old)
        → HoldsKeys map table old
        → HoldsKeys map table builders
    init_keys table n old builders numbered (inl e) h k g found =
        (let clash : g < 0 = omega (arith, e, numbered.below k g found) in elim clash [ ])
    init_keys table n old builders numbered (inr e) h k g found =
        ap (λ bs. row_key bs g) e ∙ h k g found

    -- The keys of the new groups are put behind those of the old ones.
    sink_keys :
        (types : List ColumnType) (columns : List Column) (indices : List ℕ) (table : Map) (n : ℕ)
        (builders copied : List Column) (keys : List Bytes) (r : Grouping Map)
        → IsNumbered map table n
        → HoldsKeys map table builders
        → Groups map
            (λ real k. KeyFits columns types indices real × (index_key columns indices real ≡ ok k))
            table
            n
            keys
            r
        → Copied
            (row_key builders)
            (row_key copied)
            (index_key columns indices)
            n
            r.new_group_indices
        → HoldsKeys map r.table copied
    sink_keys types columns indices table n builders copied keys r numbered h groups copies k g
          found =
        elim (Option-cases (map.find table k)) [
          | inl fresh ↦
              let (j, at_j, real, made, p) = groups.placed k g found fresh in
              ap (row_key copied) at_j ∙ copies.copied j real made ∙ p.1
          | inr (g', old) ↦
              let same : g' ≡ g = some-eq (sym (groups.extends.old k g' old) ∙ found) in
              copies.kept g (omega (arith, same, numbered.below k g' old))
              ∙ h k g (old ∙ ap some same)
        ]

    -- A batch is sunk by a thread of the operator, where the groups of all threads and the rows of the
    -- batch are at most 2 ^ 32, the ids that there are: the call succeeds, makes no more groups than there
    -- are rows, and the groups of the thread have seen the rows of the batch, each in the group of its key,
    -- and have their key in the columns of the keys.
    pub sink_group_by-Follows :
        (op : GroupByOperator Map F) (m : List (List (List Row))) (vals : ℕ → Bytes → List Row)
        (batch : RecordBatch) (keys : List Bytes) (t : ℕ)
        → Follows map law kinds op m vals
        → Sinkable law op.group_by_col_indices op.key_types batch keys
        → t < length op.thread_states
        → total_groups op.thread_states + batch.num_rows ≤ 2 ^ 32
        → (next : GroupByOperator Map F) × (sink_group_by map class op batch t ≡ ok next)
          × Same op next
          × (total_groups next.thread_states ≤ total_groups op.thread_states + batch.num_rows)
          × (m' : List (List (List Row))) × Follows map law kinds next m'
              (vals_with vals t batch keys)
    unfolding sink_group_by
    sink_group_by-Follows op m vals batch keys t follows sinkable lt small =
        let (local, at_t) = get_elem?_lt op.thread_states t lt in
        let (rs, found, thread) = follows.threads t local at_t in
        let (builders, init, are, kept) =
          init_builders-AreBuilders op.key_types local.num_groups local.key_builders follows.known
            thread.builders in
        let rows : length keys ≡ batch.num_rows =
          length-composite_keys batch op.group_by_col_indices _ sinkable.keyed
          ∙ length-replicate batch.num_rows [] in
        let (r, run, g) =
          group_rows-Groups axioms _ batch.selection_vector local.hash_table local.num_groups 0 keys
            thread.numbered (omega (arith, small, rows, groups_le op.thread_states t at_t))
            (keyed_rows batch op.key_types op.group_by_col_indices keys sinkable.keyed
              sinkable.fits) in
        let (copied, copy, are', copies) =
          copy_new_keys-AreBuilders op.key_types local.num_groups builders batch.columns
            op.group_by_col_indices r.new_group_indices are
            (All-map (λ real p. p.1.0) r.new_group_indices g.readable) in
        let tracks =
          add_rows-Tracks map batch 0 keys r.group_ids g.numbered g.ids
            (pad-Tracks map thread.tracks g.extends g.numbered (omega (arith, g.grown))) in
        let count : length r.group_ids ≡ batch.num_rows =
          length-Ids map r.table keys r.group_ids g.ids ∙ rows in
        let (funcs, update, seen) =
          update_functions-Seen map law kinds op.agg_funcs m t r.groups rs batch r.group_ids
            sinkable.reads follows.functions found count
            (subst (λ n. All (λ g'. g' < n) r.group_ids)
              (sym (length-pad rs r.groups (omega (arith, thread.tracks.sized, g.grown))))
              (Ids-below map keys r.group_ids g.numbered g.ids)) in
        (
          record op {
            agg_funcs = funcs;
            thread_states =
                set op.thread_states t
                  (record { hash_table = r.table; key_builders = copied; num_groups = r.groups });
          },
          rw (at_t, init, sinkable.keyed, run, copy, update) refl,
          (refl, refl, length-set op.thread_states t _),
          omega (arith, g.few, rows, total_groups-set op.thread_states t _ at_t),
          set (set m t (pad rs r.groups)) t (add_rows (pad rs r.groups) batch 0 r.group_ids),
          record {
            known = follows.known;
            functions = seen;
            threads =
                set_threads map law kinds op.key_types op.thread_states m vals batch keys t _ _ _
                  follows.threads lt (lt_of_get_elem? m t found)
                  (record {
                    numbered = g.numbered;
                    tracks = tracks;
                    builders =
                        AreBuilders-HasBuilders op.key_types r.groups copied
                          (subst (λ n. AreBuilders op.key_types n copied) g.grown are');
                    holds_keys =
                        sink_keys op.key_types batch.columns op.group_by_col_indices
                          local.hash_table local.num_groups builders copied keys r thread.numbered
                          (init_keys local.hash_table local.num_groups local.key_builders builders
                            thread.numbered kept thread.holds_keys)
                          g copies;
                  });
          },
        )
