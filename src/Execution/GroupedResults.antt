-- ===== src/Execution/GroupedResults.antt =====
-- The result of GROUP BY for a key: that of the values of all its rows.
use mathlib.Core.List.{Permᴰ}
use columnar_engine.Base.{
  length, ◌≤◌, ◌^◌, ℕ, zero, none, suc, ◌<◌, ◌≡◌, refl, ap, ◌∙◌, subst, some, List, [], ◌∷◌, All,
  All-map, Result, ok, at, of_option, get_elem?, replicate,
}
use columnar_engine.Base.Words.{Bytes}
use columnar_engine.Types.ColumnTypes.{ColumnType}
use columnar_engine.Columns.Column.{Column}
use columnar_engine.Execution.Batch.{RecordBatch}
use columnar_engine.Execution.Aggregates.{Aggregate}
use columnar_engine.Execution.Aggregated.{Specifies}
use columnar_engine.Execution.GroupBy.{HashMap, GroupByOperator}
use columnar_engine.Execution.Groups.{IsMap}
use columnar_engine.Execution.KeyCopies.{IsKnown}
use columnar_engine.Execution.Tracked.{Row}
use columnar_engine.Execution.GroupedRows.{Zip}
use columnar_engine.Execution.GroupedStates.{
  grouped_class, Total, HasValue, HasValues, SeesThreads, at-SeesThreads, at-SeesGroups,
}
use columnar_engine.Execution.GroupedClass.{
  grouped_class-Kind, grouped_class-SeesRows, grouped_class-Seen, grouped_class-SeesThreads,
}
use columnar_engine.Execution.GroupedRun.{
  Calls, all_rows, count_rows, AreSinkable, run_group_by, run_group_by-Finalized,
}

nil-Perm : {A : Type 0} {xs ys : List A} → Permᴰ xs ys → xs ≡ [] → ys ≡ []
nil-Perm Permᴰ.nil e = refl
nil-Perm (Permᴰ.cons h p) e = cc
nil-Perm (Permᴰ.swap h h') e = cc
nil-Perm (Permᴰ.trans p q) e = nil-Perm q (nil-Perm p e)

Zip-replicate :
    {K A : Type 0} (R : K → A → Type 0) (c : ℕ) (k : K) (a : A)
    → R k a
    → Zip R (replicate c k) (replicate c a)
Zip-replicate R zero k a p = tt
Zip-replicate R (suc c) k a p = (p, Zip-replicate R c k a p)

-- As many items, of which each is related to `k`.
Zip-All :
    {K A : Type 0} (R : K → A → Type 0) (c : ℕ) (k : K) (xs : List A)
    → Zip R (replicate c k) xs
    → (length xs ≡ c) × All (R k) xs
Zip-All R zero k [] h = (refl, tt)
Zip-All R zero k (a ∷ xs) h = absurd h
Zip-All R (suc c) k [] h = absurd h
Zip-All R (suc c) k (a ∷ xs) (p, h) =
    let (count, all) = Zip-All R c k xs h in (ap suc count, (p, all))

module _ {V : Type 0} (get : RecordBatch → ℕ → Result V) where
  -- The values of rows in another order.
  HasValues-Perm :
      {rows rows' : List Row} (vs : List V)
      → Permᴰ rows rows'
      → HasValues get rows vs
      → (vs' : List V) × HasValues get rows' vs' × Permᴰ vs vs'
  HasValues-Perm [] Permᴰ.nil h = ([], tt, Permᴰ.nil)
  HasValues-Perm (v ∷ vs) Permᴰ.nil h = absurd h
  HasValues-Perm [] (Permᴰ.cons e p) h = absurd h
  HasValues-Perm (v ∷ vs) (Permᴰ.cons e p) h =
      let (vs', h', q) = HasValues-Perm vs p h.1 in
      (v ∷ vs', (subst (λ r. HasValue get r v) e h.0, h'), Permᴰ.cons refl q)
  HasValues-Perm [] (Permᴰ.swap e e') h = absurd h
  HasValues-Perm (v ∷ []) (Permᴰ.swap e e') h = absurd h.1
  HasValues-Perm (v ∷ w ∷ vs) (Permᴰ.swap e e') h = (
    w ∷ v ∷ vs,
    (subst (λ r. HasValue get r w) e' h.1.0, (subst (λ r. HasValue get r v) e h.0, h.1.1)),
    Permᴰ.swap refl refl,
  )
  HasValues-Perm vs (Permᴰ.trans p q) h =
      let (vs', h', p') = HasValues-Perm vs p h in
      let (vs'', h'', q') = HasValues-Perm vs' q h' in (vs'', h'', Permᴰ.trans p' q')

module _ {V S R : Type 0} {agg : Aggregate V S R} {spec : List V → R} (law : Specifies agg spec)
    (get : RecordBatch → ℕ → Result V) where
  -- The state of group `g` of the first thread, whose result is that of the values of some rows.
  abbrev pub HasResult : List Row → ℕ → List (List S) → Type 0
  HasResult rows g threads =
      (states : List S) × (at threads 0 ≡ ok states)
      × (s : S) × (at states g ≡ ok s)
      × (vs : List V) × HasValues get rows vs
      × (agg.result s ≡ spec vs)

  SeesThreads-HasResult :
      (f : List (List S)) (m : List (List (List Row))) (g : ℕ) {global : List (List Row)}
      {rows rows' : List Row}
      → SeesThreads law get f m
      → get_elem? m 0 ≡ some global
      → get_elem? global g ≡ some rows
      → Permᴰ rows rows'
      → HasResult rows' g f
  SeesThreads-HasResult f m g {global = global} h e e' p =
      let (states, found, groups) = at-SeesThreads law get f m 0 h e in
      let (s, found', (vs, has, sees)) = at-SeesGroups law get states global g groups e' in
      let (vs', has', q) = HasValues-Perm get vs p has in
      (
        states,
        ap of_option found,
        s,
        ap of_option found',
        vs',
        has',
        law.sees_result s vs sees ∙ law.spec_perm vs vs' q,
      )

  module _ {Map : Type 0} (map : HashMap Map) (axioms : IsMap map)
      (finish : List (List S) → Result Column) (total : Total finish) where
    -- GROUP BY of `c` aggregates on at least one thread, by threads in whatever order, on batches that
    -- can be read and have 2 ^ 32 rows at most: it succeeds, and there are `c` aggregates at its end. A key
    -- without a group has no row in any batch; the states of the group of a key have, in every aggregate,
    -- the result of the values of all rows with that key.
    pub run_group_by-HasResult :
        (indices : List ℕ) (types : List ColumnType) (n c : ℕ) (calls : Calls)
        → 0 < n
        → All IsKnown types
        → AreSinkable (grouped_class-SeesRows law get finish total) indices types n calls
        → count_rows calls ≤ 2 ^ 32
        → (last : GroupByOperator Map (List (List S))) × (run_group_by map
              (grouped_class agg get finish)
              indices
              types
              (replicate c (replicate n []))
              n
              calls
            ≡ ok last)
          × (length last.agg_funcs ≡ c)
          × (first : _) × (at last.thread_states 0 ≡ ok first)
          × ((k : Bytes) → map.find first.hash_table k ≡ none → all_rows calls k ≡ [])
          × ((k : Bytes) (g : ℕ)
              → map.find first.hash_table k ≡ some g
              → All (HasResult (all_rows calls k) g) last.agg_funcs)
    run_group_by-HasResult indices types n c calls lt known sinkable small =
        let kind = grouped_class-Kind law get finish total in
        let (last, run, vals, final, perm) =
          run_group_by-Finalized map (grouped_class-SeesRows law get finish total)
            (replicate c kind) axioms indices types n (replicate c (replicate n [])) calls lt known
            (Zip-replicate _ c kind (replicate n [])
              (grouped_class-Seen law get finish total kind n))
            sinkable small in
        let (count, all) = Zip-All _ c kind last.agg_funcs final.merged.seen in
        (
          last,
          run,
          count,
          final.first,
          ap of_option final.is_first,
          λ k e. nil-Perm (perm k) (final.merged.tracks.unseen k e),
          λ k g e.
              All-map
                (λ f h.
                  SeesThreads-HasResult f final.final g
                    (grouped_class-SeesThreads law get finish total kind f final.final h)
                    final.merged.at_zero (final.merged.tracks.tracked k g e) (perm k))
                last.agg_funcs all,
        )
