-- ===== src/Execution/GroupedClass.antt =====
-- The grouped classes of aggregation functions fill the interface that GROUP BY uses.
use columnar_engine.Base.{
  ℕ, zero, suc, ◌<◌, ◌≡◌, refl, sym, subst, List, [], set, replicate, Result, ok, lt_of_get_elem?,
}
use columnar_engine.Columns.Column.{Column}
use columnar_engine.Execution.Batch.{RecordBatch, iterate_column_data}
use columnar_engine.Execution.Aggregates.{
  Aggregate, resize_groups, grouped_update, resize_thread, update_thread, combine_threads,
  combine_state,
}
use columnar_engine.Execution.Aggregated.{Specifies}
use columnar_engine.Execution.Tracked.{Row}
use columnar_engine.Execution.GroupedRows.{SeesRows}
use columnar_engine.Execution.GroupedStates.{
  grouped_class, Total, SeesThreads, at-SeesThreads, at-SeesGroups, length-SeesThreads,
  set-SeesThreads, resize_groups-SeesGroups, update_groups-SeesGroups, set-SeesGroups,
  merge-SeesGroup,
}

module _ {V S R : Type 0} {agg : Aggregate V S R} {spec : List V → R} (law : Specifies agg spec)
    (get : RecordBatch → ℕ → Result V) where
  pub grouped_class-SeesRows :
      (finish : List (List S) → Result Column) (total : Total finish)
      → SeesRows (grouped_class agg get finish)
  unfolding grouped_class resize_thread update_thread grouped_update iterate_column_data
      combine_threads combine_state
  grouped_class-SeesRows finish total = record {
    Reads = λ batch. (rows : List (V × ℕ × ℕ)) × (iterate_column_data batch (get batch) ≡ ok rows);
    Kind = Unit;
    Seen = λ kind. SeesThreads law get;
    sees_resize = λ kind f m t n rs h e.
        let (ss, found, groups) = at-SeesThreads law get f m t h e in
        (
          set f t (resize_groups agg ss n),
          rw found refl,
          set-SeesThreads law get f m t _ _ h (resize_groups-SeesGroups law get ss rs n groups),
        );
    sees_update = λ kind f m t rs batch ids reads h e count below.
        let (rows, read) = reads in
        let (ss, found, groups) = at-SeesThreads law get f m t h e in
        let (next, update, groups') =
          update_groups-SeesGroups law get batch batch.num_rows 0 ids ids ss rs read refl count
            below groups in
        (set f t next, rw (found, read, update) refl, set-SeesThreads law get f m t _ _ h groups');
    sees_combine = λ kind f m t src_gid gid src global a b h at_t at_zero at_src at_global.
        let (ss, found, groups) = at-SeesThreads law get f m t h at_t in
        let (gs, found', groups') = at-SeesThreads law get f m 0 h at_zero in
        let (s, here, sees) = at-SeesGroups law get ss src src_gid groups at_src in
        let (g, here', sees') = at-SeesGroups law get gs global gid groups' at_global in
        (
          set f 0 (set gs gid (agg.merge g s)),
          rw (found, found', here, here') refl,
          set-SeesThreads law get f m 0 _ _ h (
              set-SeesGroups law get gs global gid _ _ groups'
                (merge-SeesGroup law get g s b a sees' sees)),
        );
    sees_finalize = λ kind f m h at_zero.
        total f (
          subst (λ n. 0 < n) (sym (length-SeesThreads law get f m h))
            (lt_of_get_elem? m 0 at_zero));
  }

  -- A batch whose values can be read, and a new object for `n` threads.
  pub grouped_class-Reads :
      (finish : List (List S) → Result Column) (total : Total finish) (batch : RecordBatch)
      (rows : List (V × ℕ × ℕ))
      → iterate_column_data batch (get batch) ≡ ok rows
      → (grouped_class-SeesRows finish total).Reads batch
  unfolding grouped_class-SeesRows
  grouped_class-Reads finish total batch rows e = (rows, e)

  -- The aggregates of the class are all of one kind.
  pub grouped_class-Kind :
      (finish : List (List S) → Result Column) (total : Total finish)
      → (grouped_class-SeesRows finish total).Kind
  unfolding grouped_class-SeesRows
  grouped_class-Kind finish total = tt

  SeesThreads-replicate : (n : ℕ) → SeesThreads law get (replicate n []) (replicate n [])
  SeesThreads-replicate zero = tt
  SeesThreads-replicate (suc n) = (tt, SeesThreads-replicate n)

  pub grouped_class-Seen :
      (finish : List (List S) → Result Column) (total : Total finish)
      (kind : (grouped_class-SeesRows finish total).Kind) (n : ℕ)
      → (grouped_class-SeesRows finish total).Seen kind (replicate n []) (replicate n [])
  unfolding grouped_class-SeesRows
  grouped_class-Seen finish total kind n = SeesThreads-replicate n

  pub grouped_class-SeesThreads :
      (finish : List (List S) → Result Column) (total : Total finish)
      (kind : (grouped_class-SeesRows finish total).Kind) (f : List (List S))
      (m : List (List (List Row)))
      → (grouped_class-SeesRows finish total).Seen kind f m
      → SeesThreads law get f m
  unfolding grouped_class-SeesRows
  grouped_class-SeesThreads finish total kind f m h = h
