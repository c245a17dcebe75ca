-- ===== src/Execution/Merged.antt =====
-- One entry of the loop of `Finalize` of GROUP BY over the table of a thread: a group of the first thread
-- takes in the rows of a group of another.
use columnar_engine.Base.{
  [], ◌∷◌, ◌+◌, ◌<◌, ◌≤◌, ◌^◌, ◌%◌, ℕ, suc, ◌≡◌, ◌≢◌, inl, inr, refl, sym, ap, ◌∙◌, none, some,
  List, ◌++◌, arith, set, get_elem?, get_elem?-set_self, get_elem?-set_ne, lt_of_get_elem?, ok,
}
use columnar_engine.Base.Words.{Bytes, bytes_eq}
use columnar_engine.Types.ColumnTypes.{ColumnType}
use columnar_engine.Columns.Column.{Column}
use columnar_engine.Execution.GroupBy.{
  HashMap, GroupedFunction, GroupByThreadState, each_function, merge_entry,
}
use columnar_engine.Execution.Groups.{
  find_insert-cases, IsMap, IsNumbered, Extends, insert-IsNumbered, insert-Extends, Option-cases,
}
use columnar_engine.Execution.KeyCopies.{AreBuilders, copy_key-AreBuilders}
use columnar_engine.Execution.Tracked.{
  Row, pad, rows_of, rows_of-get_elem?, all_if, Tracks, pad-Tracks, add_to-Tracks,
}
use columnar_engine.Execution.GroupedRows.{Zip, HoldsKeys, SeesRows, each_function-Zip}
use columnar_engine.Execution.KeyBytes.{row_key, Copied}

module _ {Map : Type 0} (map : HashMap Map) where
  -- The table and the keys of thread `t`.
  pub record Local (types : List ColumnType) (m : List (List (List Row))) (t : ℕ) (table : Map)
      (n : ℕ) (cols : List Column) (vals : Bytes → List Row) : Type 0 where
    pub source : List (List Row)
    pub at_source : get_elem? m t ≡ some source
    pub local_numbered : IsNumbered map table n
    pub local_tracks : Tracks map table n source vals
    pub local_keys : AreBuilders types n cols
    pub local_holds : HoldsKeys map table cols

  pub keep-Local :
      {types : List ColumnType} {m m' : List (List (List Row))} {t : ℕ} {table : Map} {n : ℕ}
      {cols : List Column} {vals : Bytes → List Row}
      → Local types m t table n cols vals
      → get_elem? m' t ≡ get_elem? m t
      → Local types m' t table n cols vals
  keep-Local h e = record {
    source = h.source;
    at_source = e ∙ h.at_source;
    local_numbered = h.local_numbered;
    local_tracks = h.local_tracks;
    local_keys = h.local_keys;
    local_holds = h.local_holds;
  }

module _ {Map F : Type 0} (map : HashMap Map) {class : GroupedFunction F} (law : SeesRows class)
    (kinds : List law.Kind) where
  -- The first thread, which has taken in the rows of `vals`.
  pub record Merging (types : List ColumnType) (state : GroupByThreadState Map) (funcs : List F)
      (m : List (List (List Row))) (vals : Bytes → List Row) : Type 0 where
    pub global : List (List Row)
    pub at_zero : get_elem? m 0 ≡ some global
    pub seen : Zip (λ kind f. law.Seen kind f m) kinds funcs
    pub numbered : IsNumbered map state.hash_table state.num_groups
    pub tracks : Tracks map state.hash_table state.num_groups global vals
    pub keys : AreBuilders types state.num_groups state.key_builders
    pub holds_keys : HoldsKeys map state.hash_table state.key_builders

  -- The same, where the rows of the other threads are as before.
  abbrev pub Merges :
      List ColumnType
      → GroupByThreadState Map
      → List F
      → List (List (List Row))
      → (Bytes → List Row)
      → Type 0
  Merges types state funcs m vals =
      (m' : List (List (List Row))) × Merging types state funcs m' vals
      × ((u : ℕ) → u ≢ 0 → get_elem? m' u ≡ get_elem? m u)

  -- `func->CombineState(t, local_gid, gid)`, where both are the group of the key.
  combine-Merges :
      (types : List ColumnType) (state : GroupByThreadState Map) (funcs : List F)
      (m : List (List (List Row))) (vals tvals : Bytes → List Row) (t : ℕ) (table : Map) (n : ℕ)
      (cols : List Column) (key : Bytes) (local_gid gid : ℕ)
      → Merging types state funcs m vals
      → Local map types m t table n cols tvals
      → map.find table key ≡ some local_gid
      → map.find state.hash_table key ≡ some gid
      → (nexts : List F) × (each_function (λ func. class.combine_state func t local_gid gid) funcs
          ≡ ok nexts)
        × Merges types state nexts m (λ k. vals k ++ all_if (bytes_eq key k) (tvals key))
  combine-Merges types state funcs m vals tvals t table n cols key local_gid gid h local here
        there =
      let found = h.tracks.tracked key gid there in
      let rows = rows_of h.global gid in
      let found' : get_elem? h.global gid ≡ some rows =
        found ∙ ap some (sym (rows_of-get_elem? h.global gid found)) in
      let next_global = set h.global gid (rows ++ tvals key) in
      let (nexts, run, seen) =
        each_function-Zip (λ func. class.combine_state func t local_gid gid) kinds funcs
          (λ kind f s.
            law.sees_combine kind f m t local_gid gid local.source h.global (tvals key) rows s
              local.at_source h.at_zero (local.local_tracks.tracked key local_gid here) found')
          h.seen in
      (
        nexts,
        run,
        (
          set m 0 next_global,
          record {
            global = next_global;
            at_zero = get_elem?-set_self m 0 next_global (lt_of_get_elem? m 0 h.at_zero);
            seen = seen;
            numbered = h.numbered;
            tracks = add_to-Tracks map key gid (tvals key) h.numbered there h.tracks;
            keys = h.keys;
            holds_keys = h.holds_keys;
          },
          λ u ne. get_elem?-set_ne m next_global (λ e. ne (sym e)),
        ),
      )

  module _ (axioms : IsMap map) where
    -- A new group for a key that the first thread does not have.
    insert-Merges :
        (types : List ColumnType) (state : GroupByThreadState Map) (funcs : List F)
        (m : List (List (List Row))) (vals : Bytes → List Row) (key : Bytes)
        (builders : List Column)
        → Merging types state funcs m vals
        → map.find state.hash_table key ≡ none
        → AreBuilders types (suc state.num_groups) builders
        → HoldsKeys map (map.insert state.hash_table key state.num_groups) builders
        → (nexts : List F) × (each_function
              (λ func. class.resize func (suc state.num_groups) 0)
              funcs
            ≡ ok nexts)
          × Merges types
              (record {
                hash_table = map.insert state.hash_table key state.num_groups;
                key_builders = builders;
                num_groups = suc state.num_groups;
              })
              nexts
              m
              vals
    insert-Merges types state funcs m vals key builders h fresh are holds =
        let n = state.num_groups in
        let next_global = pad h.global (suc n) in
        let numbered = insert-IsNumbered axioms state.hash_table n key h.numbered fresh in
        let same : Extends map (map.insert state.hash_table key n)
            (map.insert state.hash_table key n) (suc n) =
          record { old = λ k g e. e; new = λ k g e e'. cc } in
        let extends =
          insert-Extends axioms state.hash_table (map.insert state.hash_table key n) n key fresh
            same in
        let (nexts, run, seen) =
          each_function-Zip (λ func. class.resize func (suc n) 0) kinds funcs
            (λ kind f s. law.sees_resize kind f m 0 (suc n) h.global s h.at_zero) h.seen in
        (
          nexts,
          run,
          (
            set m 0 next_global,
            record {
              global = next_global;
              at_zero = get_elem?-set_self m 0 next_global (lt_of_get_elem? m 0 h.at_zero);
              seen = seen;
              numbered = numbered;
              tracks = pad-Tracks map h.tracks extends numbered (omega arith);
              keys = are;
              holds_keys = holds;
            },
            λ u ne. get_elem?-set_ne m next_global (λ e. ne (sym e)),
          ),
        )

    -- The key of the new group is put behind the others.
    merge_keys :
        (table : Map) (n : ℕ) (old builders cols : List Column) (key : Bytes) (local_gid : ℕ)
        → IsNumbered map table n
        → HoldsKeys map table old
        → row_key cols local_gid ≡ ok key
        → Copied (row_key old) (row_key builders) (row_key cols) n (local_gid ∷ [])
        → HoldsKeys map (map.insert table key n) builders
    merge_keys table n old builders cols key local_gid numbered h there copies k g found =
        elim (find_insert-cases axioms table key n k g found) [
          | inl (same, at_n) ↦
              ap (row_key builders) (let z : g ≡ n + 0 = omega (arith, at_n) in z)
              ∙ copies.copied 0 local_gid refl
              ∙ there
              ∙ ap ok same
          | inr e ↦ copies.kept g (numbered.below k g e) ∙ h k g e
        ]

    pub merge_entry-Merges :
        (types : List ColumnType) (state : GroupByThreadState Map) (funcs : List F)
        (m : List (List (List Row))) (vals tvals : Bytes → List Row) (t : ℕ) (table : Map) (n : ℕ)
        (cols : List Column) (entry : Bytes × ℕ)
        → t ≢ 0
        → state.num_groups < 2 ^ 32
        → Merging types state funcs m vals
        → Local map types m t table n cols tvals
        → map.find table entry.0 ≡ some entry.1
        → (out : GroupByThreadState Map × List F) × (merge_entry map class state funcs cols t entry
            ≡ ok out)
          × (out.0.num_groups ≤ suc state.num_groups)
          × Merges types out.0 out.1 m (λ k. vals k ++ all_if (bytes_eq entry.0 k) (tvals entry.0))
    unfolding merge_entry
    merge_entry-Merges types state funcs m vals tvals t table n cols (key, local_gid) ne small h
          local here =
        elim (Option-cases (map.find state.hash_table key)) [
          | inl fresh ↦
              let lt = local.local_numbered.below key local_gid here in
              let (builders, copy, are, copies) =
                copy_key-AreBuilders types state.num_groups n state.key_builders cols local_gid
                  h.keys local.local_keys lt in
              let (resized, resize, (m1, h1, kept)) =
                insert-Merges types state funcs m vals key builders h fresh are (
                  merge_keys state.hash_table state.num_groups state.key_builders builders cols key
                    local_gid h.numbered h.holds_keys (local.local_holds key local_gid here)
                    copies) in
              let (nexts, run, (m2, h2, kept')) =
                combine-Merges types _ resized m1 vals tvals t table n cols key local_gid
                  state.num_groups h1 (keep-Local map local (kept t ne)) here
                  (axioms.find_insert state.hash_table key state.num_groups) in
              let fits : state.num_groups % 2 ^ 32 ≡ state.num_groups = omega arith in
              (
                (_, nexts),
                rw (fresh, merge_entry, fits, copy, resize, run) refl,
                omega arith,
                (m2, h2, λ u ne'. kept' u ne' ∙ kept u ne'),
              )
          | inr (gid, there) ↦
              let (nexts, run, merges) =
                combine-Merges types state funcs m vals tvals t table n cols key local_gid gid h
                  local here there in
              ((state, nexts), rw (there, merge_entry, run) refl, omega arith, merges)
        ]
