-- ===== src/Execution/GroupCounts.antt =====
-- How many groups the threads of a GROUP BY have.
use columnar_engine.Base.{
  ℕ, ◌≡◌, refl, some, List, [], arith, set, replicate, zero, suc, ◌+◌, ◌≤◌, ap, ◌∷◌, get_elem?,
}
use columnar_engine.Types.ColumnTypes.{ColumnType}
use columnar_engine.Execution.GroupBy.{HashMap, GroupByThreadState, make_group_by}
use columnar_engine.Execution.Groups.{some-eq}

-- The groups of all threads.
abbrev pub total_groups : {Map : Type 0} → List (GroupByThreadState Map) → ℕ
total_groups [] = 0
total_groups (st ∷ sts) = st.num_groups + total_groups sts

pub total_groups-set :
    {Map : Type 0} (sts : List (GroupByThreadState Map)) (t : ℕ) {old : GroupByThreadState Map}
    (new : GroupByThreadState Map)
    → get_elem? sts t ≡ some old
    → total_groups (set sts t new) + old.num_groups ≡ total_groups sts + new.num_groups
total_groups-set [] t new e = cc
total_groups-set (st ∷ sts) zero {old} new e =
    let same : st.num_groups ≡ old.num_groups = ap (λ s. s.num_groups) (some-eq e) in omega arith
total_groups-set (st ∷ sts) (suc t) new e = omega (arith, total_groups-set sts t new e)

pub groups_le :
    {Map : Type 0} (sts : List (GroupByThreadState Map)) (t : ℕ) {st : GroupByThreadState Map}
    → get_elem? sts t ≡ some st
    → st.num_groups ≤ total_groups sts
groups_le [] t e = cc
groups_le (s ∷ sts) zero {st} e =
    let same : s.num_groups ≡ st.num_groups = ap (λ u. u.num_groups) (some-eq e) in omega arith
groups_le (s ∷ sts) (suc t) e = omega (arith, groups_le sts t e)

groups_zero :
    {Map : Type 0} (map : HashMap Map) (n : ℕ)
    → total_groups
        (replicate n (record { hash_table = map.empty; key_builders = []; num_groups = 0 }))
      ≡ 0
groups_zero map zero = refl
groups_zero map (suc n) = omega (arith, groups_zero map n)

pub make_group_by-empty :
    {Map F : Type 0} (map : HashMap Map) (indices : List ℕ) (types : List ColumnType)
    (funcs : List F) (n : ℕ)
    → total_groups (make_group_by map indices types funcs n).thread_states ≡ 0
unfolding make_group_by
make_group_by-empty map indices types funcs n = groups_zero map n
