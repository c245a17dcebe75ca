-- ===== src/Execution/GroupByTests.antt =====
-- A GROUP BY of a column of strings with the sum of a column of integers.
use columnar_engine.Base.{
  at_lt, length, ◌+◌, ◌≤◌, replicate, ◌↔◌, some, All, ℕ, ◌≡◌, refl, List, [], ◌∷◌, ◌++◌, arith,
  none, Result, ok, at, ◌>>=◌, ℤ, pos, pos_part, map, ltb_ℤ, ◌+ℤ◌,
}
use columnar_engine.Base.Words.{Bytes, codes, to_bytes}
use columnar_engine.Strings.Flat.{empty, push_back, push_all, get_string, view, size}
use columnar_engine.Types.ColumnTypes.{string, int32, int64, type_code}
use columnar_engine.Columns.Column.{Column, fixed, strings, get_type, fixed_data, column_size}
use columnar_engine.Columns.Builders.{make_column}
use columnar_engine.Execution.Batch.{
  RecordBatch, real_index, words_of, iterate_column_data, iterate_from,
}
use columnar_engine.Execution.Aggregates.{
  Aggregate, apply, sum_operation, TypedState, typed_aggregate,
}
use columnar_engine.Execution.Combined.{total, typed_aggregate-Specifies}
use columnar_engine.Execution.AggregateTests.{ℤ_Combines}
use columnar_engine.Execution.HashKeys.{hash_keys, hash_from, key_part, selected}
use columnar_engine.Execution.GroupBy.{
  GroupByOperator, GroupedFunction, GroupByThreadState, make_group_by, composite_keys,
  sink_group_by,
}
use columnar_engine.Execution.KeyCopies.{IsKnown}
use columnar_engine.Execution.KeyValues.{string_fits}
use columnar_engine.Execution.Tracked.{Row}
use columnar_engine.Execution.GroupedRows.{SeesRows, Follows, Sinkable, vals_with}
use columnar_engine.Execution.GroupCounts.{total_groups}
use columnar_engine.Execution.GroupedSink.{Same, make_group_by-Follows, sink_group_by-Follows}
use columnar_engine.Execution.Finalized.{Finalized}
use columnar_engine.Execution.GroupedRun.{Calls, all_rows, run_group_by, run_group_by-Finalized}
use columnar_engine.Execution.Aggregated.{Specifies}
use mathlib.Core.List.{Permᴰ}
use columnar_engine.Execution.GroupedStates.{grouped_class, Total}
use columnar_engine.Execution.GroupedClass.{
  grouped_class-SeesRows, grouped_class-Kind, grouped_class-Reads, grouped_class-Seen,
}
use columnar_engine.Execution.GroupedResults.{HasResult, run_group_by-HasResult}
use columnar_engine.Execution.Keys.{text, text_at}
use columnar_engine.Execution.RowKeys.{ValuesAt, composite_keys_iff}
use columnar_engine.Execution.AssocMap.{find_entry, Entries, assoc_map, assoc_map-IsMap}

abbrev urls : List Bytes
urls = codes "a" ∷ codes "b" ∷ codes "a" ∷ []

abbrev batch : RecordBatch
batch = record {
  num_rows = 3;
  selection_vector = none;
  columns = strings (push_all empty urls) ∷ fixed int32 (1 ∷ 2 ∷ 3 ∷ []) ∷ [];
}

abbrev get : RecordBatch → ℕ → Result ℤ
get b i = do column ← at b.columns 1; words ← words_of int32 column; w ← at words i; ok (pos w)

abbrev agg : Aggregate ℤ (TypedState ℤ) ℤ
agg = typed_aggregate ltb_ℤ ◌+ℤ◌ (pos 0) sum_operation

-- The column of the sums, which are not negative here.
abbrev finish : List (List (TypedState ℤ)) → Result Column
finish threads = do states ← at threads 0; ok (fixed int64 (map (λ s. pos_part s.value) states))

abbrev operator : GroupByOperator Entries (List (List (TypedState ℤ)))
operator = make_group_by assoc_map (0 ∷ []) (string ∷ []) (([] ∷ [] ∷ []) ∷ []) 2

finish-Total : Total finish
finish-Total threads lt =
    let (states, e) = at_lt threads 0 lt in
    (fixed int64 (map (λ s. pos_part s.value) states), rw e refl)

abbrev sums : Specifies agg (total (apply ltb_ℤ ◌+ℤ◌ sum_operation) (pos 0))
sums = typed_aggregate-Specifies ℤ_Combines (pos 0) sum_operation

abbrev class : GroupedFunction (List (List (TypedState ℤ)))
class = grouped_class agg get finish

abbrev law : SeesRows class
law = grouped_class-SeesRows sums get finish finish-Total

string-known : IsKnown string
unfolding make_column
string-known = (_, refl)

abbrev kind : law.Kind
kind = grouped_class-Kind sums get finish finish-Total

new-Seen : law.Seen kind ([] ∷ [] ∷ []) ([] ∷ [] ∷ [])
new-Seen = grouped_class-Seen sums get finish finish-Total kind 2

operator-Follows : Follows assoc_map law (kind ∷ []) operator ([] ∷ [] ∷ []) (λ t k. [])
operator-Follows =
    make_group_by-Follows assoc_map law (kind ∷ []) assoc_map-IsMap (0 ∷ []) (string ∷ [])
      (([] ∷ [] ∷ []) ∷ []) 2 (string-known, tt) (new-Seen, tt)

abbrev keys : List Bytes
keys = (to_bytes 8 1 ++ codes "a") ∷ (to_bytes 8 1 ++ codes "b") ∷ (to_bytes 8 1 ++ codes "a") ∷ []

batch-Sinkable : Sinkable law (0 ∷ []) (string ∷ []) batch keys
unfolding composite_keys hash_keys hash_from key_part selected get_string column_size push_all
    push_back empty to_bytes real_index words_of iterate_column_data iterate_from type_code get_type
    fixed_data view size
batch-Sinkable = record {
  keyed = refl;
  fits = (
    (0, refl, ((_, refl, string_fits (codes "a") refl), tt)),
    (
      (1, refl, ((_, refl, string_fits (codes "b") refl), tt)),
      ((2, refl, ((_, refl, string_fits (codes "a") refl), tt)), tt),
    ),
  );
  reads =
      grouped_class-Reads sums get finish finish-Total batch
        ((pos 1, 0, 0) ∷ (pos 2, 1, 1) ∷ (pos 3, 2, 2) ∷ []) refl;
}

sink_group_by-Follows_example :
    (next : GroupByOperator Entries (List (List (TypedState ℤ)))) × (sink_group_by assoc_map class
        operator batch 1
      ≡ ok next)
    × Same operator next
    × (total_groups next.thread_states ≤ total_groups operator.thread_states + 3)
    × (m : List (List (List Row))) × Follows assoc_map law
        (kind ∷ [])
        next
        m
        (vals_with (λ t k. []) 1 batch keys)
unfolding make_group_by
sink_group_by-Follows_example =
    sink_group_by-Follows assoc_map law (kind ∷ []) assoc_map-IsMap operator ([] ∷ [] ∷ [])
      (λ t k. []) batch keys 1 operator-Follows batch-Sinkable (omega arith) (omega arith)

abbrev calls : Calls
calls = (1, batch, keys) ∷ (0, batch, keys) ∷ []

run_group_by-Finalized_example :
    (last : GroupByOperator Entries (List (List (TypedState ℤ)))) × (run_group_by assoc_map class
        (0 ∷ [])
        (string ∷ [])
        (([] ∷ [] ∷ []) ∷ [])
        2
        calls
      ≡ ok last)
    × (vals : Bytes → List Row) × Finalized assoc_map law (kind ∷ []) (string ∷ []) last vals
    × ((k : Bytes) → Permᴰ (vals k) (all_rows calls k))
run_group_by-Finalized_example =
    run_group_by-Finalized assoc_map law (kind ∷ []) assoc_map-IsMap (0 ∷ []) (string ∷ []) 2
      (([] ∷ [] ∷ []) ∷ []) calls (omega arith) (string-known, tt) (new-Seen, tt)
      ((omega arith, batch-Sinkable), ((omega arith, batch-Sinkable), tt)) (omega arith)

run_group_by-HasResult_example :
    (last : GroupByOperator Entries (List (List (TypedState ℤ)))) × (run_group_by assoc_map class
        (0 ∷ [])
        (string ∷ [])
        (([] ∷ [] ∷ []) ∷ [])
        2
        calls
      ≡ ok last)
    × (length last.agg_funcs ≡ 1)
    × (first : GroupByThreadState Entries) × (at last.thread_states 0 ≡ ok first)
    × ((k : Bytes) → find_entry first.hash_table k ≡ none → all_rows calls k ≡ [])
    × ((k : Bytes) (g : ℕ)
        → find_entry first.hash_table k ≡ some g
        → All (HasResult sums get (all_rows calls k) g) last.agg_funcs)
run_group_by-HasResult_example =
    run_group_by-HasResult sums get assoc_map assoc_map-IsMap finish finish-Total (0 ∷ [])
      (string ∷ []) 2 1 calls (omega arith) (string-known, tt)
      ((omega arith, batch-Sinkable), ((omega arith, batch-Sinkable), tt)) (omega arith)

batch-keyed : composite_keys batch (0 ∷ []) (replicate 3 []) ≡ ok keys
batch-keyed = batch-Sinkable.keyed

row_values :
    (r : ℕ) (s : Bytes)
    → get_string (push_all empty urls) r ≡ ok s
    → ValuesAt (none ∷ []) batch.columns (0 ∷ []) r (text s ∷ [])
row_values r s e = ((_, refl, text_at s e), tt)

composite_keys_iff_example :
    (at keys 0 ≡ at keys 2) ↔ (text (codes "a") ∷ [] ≡ text (codes "a") ∷ [])
unfolding selected get_string push_all push_back empty view size
composite_keys_iff_example =
    composite_keys_iff (none ∷ []) (0 ∷ []) (0 ∷ []) batch batch keys keys 0 2 0 2
      (text (codes "a") ∷ []) (text (codes "a") ∷ []) batch-keyed batch-keyed (omega arith)
      (omega arith) refl refl (row_values 0 (codes "a") refl) (row_values 2 (codes "a") refl)
      (omega arith, tt) (omega arith, tt)
