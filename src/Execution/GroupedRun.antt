-- ===== src/Execution/GroupedRun.antt =====
-- GROUP BY from its first batch to its result.
use mathlib.Core.List.{Permᴰ}
use mathlib.Core.List.Permᴰ
use columnar_engine.Base.{
  ℕ, zero, suc, ◌+◌, ◌≤◌, ◌<◌, ◌≡◌, ◌≢◌, ◌==◌, inl, inr, refl, sym, ap, ap₂, ◌∙◌, subst, true,
  Bool-cases, List, [], ◌∷◌, ◌++◌, arith, length, length-replicate, replicate, append_assoc,
  append-nil, ◌^◌, All, All-map, Result, ok, ◌>>=◌,
}
use columnar_engine.Base.Perms.{perm_of_eq, perm_move_last}
use columnar_engine.Base.Words.{Bytes}
use columnar_engine.Types.ColumnTypes.{ColumnType}
use columnar_engine.Execution.Batch.{RecordBatch}
use columnar_engine.Execution.GroupBy.{
  HashMap, GroupedFunction, GroupByOperator, make_group_by, sink_group_by, finalize_group_by,
}
use columnar_engine.Execution.Groups.{IsMap}
use columnar_engine.Execution.KeyCopies.{IsKnown}
use columnar_engine.Execution.Tracked.{Row, rows_with}
use columnar_engine.Execution.GroupedRows.{Zip, SeesRows, vals_with, Sinkable, Follows}
use columnar_engine.Execution.GroupCounts.{total_groups, make_group_by-empty}
use columnar_engine.Execution.GroupedSink.{make_group_by-Follows, sink_group_by-Follows}
use columnar_engine.Execution.Finalized.{rows_from, Finalized, finalize_group_by-Finalized}

-- The calls of `Sink`, each with its thread and the keys of its batch.
abbrev pub Calls : Type 0
Calls = List (ℕ × RecordBatch × List Bytes)

-- The rows of a key in all batches, in the order of the calls.
abbrev pub all_rows : Calls → Bytes → List Row
all_rows [] k = []
all_rows ((t, batch, keys) ∷ calls) k = rows_with k batch 0 keys ++ all_rows calls k

-- How many rows the batches have.
abbrev pub count_rows : Calls → ℕ
count_rows [] = 0
count_rows ((t, batch, keys) ∷ calls) = batch.num_rows + count_rows calls

abbrev vals_after : (ℕ → Bytes → List Row) → Calls → ℕ → Bytes → List Row
vals_after vals [] = vals
vals_after vals ((t, batch, keys) ∷ calls) = vals_after (vals_with vals t batch keys) calls

module _ (vals : ℕ → Bytes → List Row) (t : ℕ) (batch : RecordBatch) (keys : List Bytes)
    (k : Bytes) where
  vals_with_ne : (u : ℕ) → u ≢ t → vals_with vals t batch keys u k ≡ vals u k
  vals_with_ne u ne = elim (Bool-cases (u == t)) [
    | inl e ↦ absurd (ne (ground arith))
    | inr e ↦ rw e refl
  ]

  vals_with_self : vals_with vals t batch keys t k ≡ vals t k ++ rows_with k batch 0 keys
  vals_with_self = let same : t == t ≡ true = ground arith in rw same refl

  rows_from-above :
      (n s : ℕ) → t < s → rows_from (vals_with vals t batch keys) s n k ≡ rows_from vals s n k
  rows_from-above zero s lt = refl
  rows_from-above (suc n) s lt =
      ap₂ ◌++◌ (vals_with_ne s (λ e. (let x : 0 < 0 = omega (arith, e) in elim x [ ])))
        (rows_from-above n (suc s) (omega arith))

  -- The rows of a batch are added to one of the threads.
  rows_from-vals_with :
      (n s : ℕ)
      → s ≤ t
      → t < s + n
      → Permᴰ
          (rows_from (vals_with vals t batch keys) s n k)
          (rows_from vals s n k ++ rows_with k batch 0 keys)
  rows_from-vals_with zero s le lt = (let x : 0 < 0 = omega arith in elim x [ ])
  rows_from-vals_with (suc n) s le lt = elim (Bool-cases (s == t)) [
    | inl e ↦
        let here : vals_with vals t batch keys s k ≡ vals s k ++ rows_with k batch 0 keys =
          rw e refl in
        Permᴰ.trans (perm_of_eq (ap₂ ◌++◌ here (rows_from-above n (suc s) (ground arith))))
          (perm_move_last (vals s k) (rows_with k batch 0 keys) (rows_from vals (suc s) n k))
    | inr e ↦
        let ne : s ≢ t = λ h. (let x : s == t ≡ true = ground arith in cc) in
        Permᴰ.trans
          (perm_of_eq (
            ap (λ h. h ++ rows_from (vals_with vals t batch keys) (suc s) n k) (vals_with_ne s ne)))
          (Permᴰ.trans
            (Permᴰ.append_left (vals s k)
              (rows_from-vals_with n (suc s) (ground arith) (omega arith)))
            (perm_of_eq (
              sym
                (append_assoc (vals s k) (rows_from vals (suc s) n k) (rows_with k batch 0 keys)))))
  ]

rows_from-vals_after :
    (calls : Calls) (vals : ℕ → Bytes → List Row) (n : ℕ) (k : Bytes)
    → All (λ c. c.0 < n) calls
    → Permᴰ (rows_from (vals_after vals calls) 0 n k) (rows_from vals 0 n k ++ all_rows calls k)
rows_from-vals_after [] vals n k h = perm_of_eq (sym (append-nil (rows_from vals 0 n k)))
rows_from-vals_after ((t, batch, keys) ∷ calls) vals n k h =
    Permᴰ.trans (rows_from-vals_after calls (vals_with vals t batch keys) n k h.1) (
      Permᴰ.trans
        (Permᴰ.append_right (all_rows calls k)
          (rows_from-vals_with vals t batch keys k n 0 (omega arith) (omega (arith, h.0))))
        (perm_of_eq
          (append_assoc (rows_from vals 0 n k) (rows_with k batch 0 keys) (all_rows calls k))))

rows_from-none : (s n : ℕ) (k : Bytes) → rows_from (λ t k. []) s n k ≡ []
rows_from-none s zero k = refl
rows_from-none s (suc n) k = rows_from-none (suc s) n k

module _ {Map F : Type 0} (map : HashMap Map) (class : GroupedFunction F) where
  unfoldable pub run_sinks : GroupByOperator Map F → Calls → Result (GroupByOperator Map F)
  run_sinks op [] = ok op
  run_sinks op ((thread_id, batch, keys) ∷ calls) = do
    next ← sink_group_by map class op batch thread_id
    run_sinks next calls

  -- GROUP BY with the calls of `Sink` in some order, and `Finalize`.
  unfoldable pub run_group_by :
      List ℕ → List ColumnType → List F → ℕ → Calls → Result (GroupByOperator Map F)
  run_group_by indices types funcs n calls = do
    last ← run_sinks (make_group_by map indices types funcs n) calls
    finalize_group_by map class last

module _ {F : Type 0} {class : GroupedFunction F} (law : SeesRows class) (indices : List ℕ)
    (types : List ColumnType) (n : ℕ) where
  -- Calls by threads below `n`, whose batches can be read.
  abbrev pub AreSinkable : Calls → Type 0
  AreSinkable calls = All (λ c. (c.0 < n) × Sinkable law indices types c.1 c.2) calls

module _ {Map F : Type 0} (map : HashMap Map) {class : GroupedFunction F} (law : SeesRows class)
    (kinds : List law.Kind) (axioms : IsMap map) (indices : List ℕ) (types : List ColumnType)
    (n : ℕ) where
  run_sinks-Follows :
      (calls : Calls) (op : GroupByOperator Map F) (m : List (List (List Row)))
      (vals : ℕ → Bytes → List Row)
      → op.group_by_col_indices ≡ indices
      → op.key_types ≡ types
      → length op.thread_states ≡ n
      → Follows map law kinds op m vals
      → AreSinkable law indices types n calls
      → total_groups op.thread_states + count_rows calls ≤ 2 ^ 32
      → (next : GroupByOperator Map F) × (run_sinks map class op calls ≡ ok next)
        × (next.key_types ≡ types)
        × (length next.thread_states ≡ n)
        × (total_groups next.thread_states ≤ 2 ^ 32)
        × (m' : List (List (List Row))) × Follows map law kinds next m' (vals_after vals calls)
  unfolding run_sinks
  run_sinks-Follows [] op m vals ei et en h sinkable small = (op, refl, et, en, omega arith, m, h)
  run_sinks-Follows ((t, batch, keys) ∷ calls) op m vals ei et en h ((lt, can), rest) small =
      let can' =
        subst (λ i. Sinkable law i op.key_types batch keys) (sym ei)
          (subst (λ u. Sinkable law indices u batch keys) (sym et) can) in
      let (next, run, (ei', et', en'), few, m', h') =
        sink_group_by-Follows map law kinds axioms op m vals batch keys t h can'
          (omega (arith, en, lt)) (omega arith) in
      let (last, run', et'', en'', small', m'', h'') =
        run_sinks-Follows calls next m' _ (ei' ∙ ei) (et' ∙ et) (en' ∙ en) h' rest (omega arith) in
      (last, rw run run', et'', en'', small', m'', h'')

  -- The whole of GROUP BY on at least one thread, by threads in whatever order, on batches that can be
  -- read and have 2 ^ 32 rows at most: it succeeds, its table has one group for each key, with the rows of
  -- the key in all batches in every function, and the result has the key of each group in its row of the
  -- columns of the keys, and a column for each function.
  pub run_group_by-Finalized :
      (funcs : List F) (calls : Calls)
      → 0 < n
      → All IsKnown types
      → Zip (λ kind f. law.Seen kind f (replicate n [])) kinds funcs
      → AreSinkable law indices types n calls
      → count_rows calls ≤ 2 ^ 32
      → (last : GroupByOperator Map F) × (run_group_by map class indices types funcs n calls
          ≡ ok last)
        × (vals : Bytes → List Row) × Finalized map law kinds types last vals
        × ((k : Bytes) → Permᴰ (vals k) (all_rows calls k))
  unfolding run_group_by make_group_by
  run_group_by-Finalized funcs calls lt known seen sinkable small =
      let op = make_group_by map indices types funcs n in
      let (mid, run, et, en, small', m, h) =
        run_sinks-Follows calls op (replicate n []) (λ t k. []) refl refl (length-replicate n _)
          (make_group_by-Follows map law kinds axioms indices types funcs n known seen) sinkable
          (omega (arith, make_group_by-empty map indices types funcs n)) in
      let (last, run', final) =
        finalize_group_by-Finalized map law kinds axioms mid m _ h (omega (arith, en)) small' in
      (
        last,
        rw (run, run') refl,
        rows_from (vals_after (λ t k. []) calls) 0 n,
        subst
            (λ j. Finalized map law kinds types last (rows_from (vals_after (λ t k. []) calls) 0 j))
            en
            (subst
              (λ u.
                Finalized map law kinds u last
                  (rows_from (vals_after (λ t k. []) calls) 0 (length mid.thread_states)))
              et final),
        λ k.
            Permᴰ.trans
              (rows_from-vals_after calls (λ t k. []) n k (All-map (λ c p. p.0) calls sinkable))
              (perm_of_eq (ap (λ l. l ++ all_rows calls k) (rows_from-none 0 n k))),
      )
