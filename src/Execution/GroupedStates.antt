-- ===== src/Execution/GroupedStates.antt =====
-- The grouped classes of aggregation functions: each group of a thread keeps the state of its values.
use columnar_engine.Base.{
  ℕ, zero, suc, ◌-◌, ◌<◌, ◌≡◌, refl, sym, ap, subst, List, [], ◌∷◌, ◌++◌, arith, length, set,
  get_elem?, replicate, some, All, Result, ok, >>=-eq-ok, ok-injective, length-set, drop,
}
use columnar_engine.Columns.Column.{Column}
use columnar_engine.Execution.Batch.{RecordBatch, real_index, iterate_from}
use columnar_engine.Execution.Aggregates.{
  Aggregate, resize_groups, update_groups, resize_thread, update_thread, combine_threads,
}
use columnar_engine.Execution.Aggregated.{Specifies}
use columnar_engine.Execution.GroupBy.{GroupedFunction}
use columnar_engine.Execution.Groups.{some-eq}
use columnar_engine.Execution.Tracked.{Row, pad, rows_of, add_rows}

-- A function of the states of at least one thread.
abbrev pub Total : {S : Type 0} → (List (List S) → Result Column) → Type 0
Total finish = (threads : _) → 0 < length threads → (column : Column) × (finish threads ≡ ok column)

drop-cons :
    {A : Type 0} (xs : List A) (i : ℕ) {y : A} {ys : List A}
    → drop i xs ≡ y ∷ ys
    → (get_elem? xs i ≡ some y) × (drop (suc i) xs ≡ ys)
drop-cons [] zero e = cc
drop-cons [] (suc i) e = cc
drop-cons (x ∷ xs) zero e =
    ((let same : x ≡ _ = cc in ap some same), (let same : xs ≡ _ = cc in same))
drop-cons (x ∷ xs) (suc i) e = drop-cons xs i e

module _ {V S R : Type 0} (agg : Aggregate V S R) (get : RecordBatch → ℕ → Result V)
    (finish : List (List S) → Result Column) where
  -- The class of the aggregate, with what it writes.
  unfoldable pub grouped_class : GroupedFunction (List (List S))
  grouped_class = record {
    resize = resize_thread agg;
    update = λ f batch ids t. update_thread agg f batch (get batch) ids t;
    combine_state = combine_threads agg;
    finalize_function = finish;
  }

module _ {V : Type 0} (get : RecordBatch → ℕ → Result V) where
  -- The value of a row.
  abbrev pub HasValue : Row → V → Type 0
  HasValue row v = (real : ℕ) × (real_index row.0 row.1 ≡ ok real) × (get row.0 real ≡ ok v)

  abbrev pub HasValues : List Row → List V → Type 0
  HasValues [] [] = Unit
  HasValues (row ∷ rows) (v ∷ vs) = HasValue row v × HasValues rows vs
  HasValues _ _ = ⊥

  HasValues-append :
      (rows : List Row) (vs : List V) (row : Row) (v : V)
      → HasValues rows vs
      → HasValue row v
      → HasValues (rows ++ row ∷ []) (vs ++ v ∷ [])
  HasValues-append [] [] row v h e = (e, tt)
  HasValues-append [] (v' ∷ vs) row v h e = absurd h
  HasValues-append (r ∷ rows) [] row v h e = absurd h
  HasValues-append (r ∷ rows) (v' ∷ vs) row v h e = (h.0, HasValues-append rows vs row v h.1 e)

  HasValues-append_list :
      (rows : List Row) (vs : List V) (rows' : List Row) (vs' : List V)
      → HasValues rows vs
      → HasValues rows' vs'
      → HasValues (rows ++ rows') (vs ++ vs')
  HasValues-append_list [] [] rows' vs' h h' = h'
  HasValues-append_list [] (v ∷ vs) rows' vs' h h' = absurd h
  HasValues-append_list (r ∷ rows) [] rows' vs' h h' = absurd h
  HasValues-append_list (r ∷ rows) (v ∷ vs) rows' vs' h h' =
      (h.0, HasValues-append_list rows vs rows' vs' h.1 h')

module _ {V S R : Type 0} {agg : Aggregate V S R} {spec : List V → R} (law : Specifies agg spec)
    (get : RecordBatch → ℕ → Result V) where
  open law use {Sees, sees_initial, sees_step, sees_merge}

  -- A state that has seen the values of some rows.
  abbrev pub SeesGroup : S → List Row → Type 0
  SeesGroup s rows = (vs : List V) × HasValues get rows vs × Sees s vs

  abbrev pub SeesGroups : List S → List (List Row) → Type 0
  SeesGroups [] [] = Unit
  SeesGroups (s ∷ ss) (rows ∷ rs) = SeesGroup s rows × SeesGroups ss rs
  SeesGroups _ _ = ⊥

  abbrev pub SeesThreads : List (List S) → List (List (List Row)) → Type 0
  SeesThreads [] [] = Unit
  SeesThreads (ss ∷ f) (rs ∷ m) = SeesGroups ss rs × SeesThreads f m
  SeesThreads _ _ = ⊥

  length-SeesGroups :
      (ss : List S) (rs : List (List Row)) → SeesGroups ss rs → length ss ≡ length rs
  length-SeesGroups [] [] h = refl
  length-SeesGroups [] (r ∷ rs) h = absurd h
  length-SeesGroups (s ∷ ss) [] h = absurd h
  length-SeesGroups (s ∷ ss) (r ∷ rs) h = ap suc (length-SeesGroups ss rs h.1)

  replicate-SeesGroups : (n : ℕ) → SeesGroups (replicate n agg.initial) (replicate n [])
  replicate-SeesGroups zero = tt
  replicate-SeesGroups (suc n) = (([], tt, sees_initial), replicate-SeesGroups n)

  append-SeesGroups :
      (ss ss' : List S) (rs rs' : List (List Row))
      → SeesGroups ss rs
      → SeesGroups ss' rs'
      → SeesGroups (ss ++ ss') (rs ++ rs')
  append-SeesGroups [] ss' [] rs' h h' = h'
  append-SeesGroups [] ss' (r ∷ rs) rs' h h' = absurd h
  append-SeesGroups (s ∷ ss) ss' [] rs' h h' = absurd h
  append-SeesGroups (s ∷ ss) ss' (r ∷ rs) rs' h h' = (h.0, append-SeesGroups ss ss' rs rs' h.1 h')

  pub resize_groups-SeesGroups :
      (ss : List S) (rs : List (List Row)) (n : ℕ)
      → SeesGroups ss rs
      → SeesGroups (resize_groups agg ss n) (pad rs n)
  unfolding resize_groups
  resize_groups-SeesGroups ss rs n h = append-SeesGroups ss _ rs _ h (
      subst (λ k. SeesGroups (replicate (n - k) agg.initial) (replicate (n - length rs) []))
        (sym (length-SeesGroups ss rs h)) (replicate-SeesGroups (n - length rs)))

  -- One group sees one more row.
  step-SeesGroups :
      (ss : List S) (rs : List (List Row)) (g : ℕ) (row : Row) (v : V)
      → SeesGroups ss rs
      → g < length rs
      → HasValue get row v
      → (s : S) × (get_elem? ss g ≡ some s)
        × SeesGroups (set ss g (agg.step s v)) (set rs g (rows_of rs g ++ row ∷ []))
  step-SeesGroups [] [] g row v h lt e = elim lt [ ]
  step-SeesGroups [] (r ∷ rs) g row v h lt e = absurd h
  step-SeesGroups (s ∷ ss) [] g row v h lt e = absurd h
  step-SeesGroups (s ∷ ss) (r ∷ rs) zero row v ((vs, has, sees), rest) lt e = (
    s,
    refl,
    ((vs ++ v ∷ [], HasValues-append get r vs row v has e, sees_step s vs v sees), rest),
  )
  step-SeesGroups (s ∷ ss) (r ∷ rs) (suc g) row v h lt e =
      let (x, found, next) = step-SeesGroups ss rs g row v h.1 (omega arith) e in
      (x, found, (h.0, next))

  -- The loop over a batch from row `i` on, whose ids are left of `all`.
  pub update_groups-SeesGroups :
      (batch : RecordBatch) (left i : ℕ) (all ids : List ℕ) (ss : List S) (rs : List (List Row))
      {rows : List (V × ℕ × ℕ)}
      → iterate_from batch (get batch) i left ≡ ok rows
      → drop i all ≡ ids
      → length ids ≡ left
      → All (λ g. g < length rs) ids
      → SeesGroups ss rs
      → (next : List S) × (update_groups agg ss rows all ≡ ok next)
        × SeesGroups next (add_rows rs batch i ids)
  unfolding update_groups iterate_from
  update_groups-SeesGroups batch zero i all [] ss rs run e count below h =
      subst (λ r. (next : List S) × (update_groups agg ss r all ≡ ok next) × SeesGroups next rs)
        (ok-injective run) (ss, refl, h)
  update_groups-SeesGroups batch zero i all (g ∷ ids) ss rs run e count below h =
      elim (let x : 0 < 0 = omega arith in x) [ ]
  update_groups-SeesGroups batch (suc left) i all [] ss rs run e count below h =
      elim (let x : 0 < 0 = omega arith in x) [ ]
  update_groups-SeesGroups batch (suc left) i all (g ∷ ids) ss rs run e count below h =
      let (real, e1, run1) = >>=-eq-ok (real_index batch i) _ run in
      let (value, e2, run2) = >>=-eq-ok (get batch real) _ run1 in
      let (rest, e3, run3) = >>=-eq-ok (iterate_from batch (get batch) (suc i) left) _ run2 in
      let (here, there) = drop-cons all i e in
      let (s, found, h') = step-SeesGroups ss rs g (batch, i) value h below.0 (real, e1, e2) in
      let next_rs = set rs g (rows_of rs g ++ (batch, i) ∷ []) in
      let (next, update, h'') =
        update_groups-SeesGroups batch left (suc i) all ids (set ss g (agg.step s value)) next_rs e3
          there (omega arith)
          (subst (λ n. All (λ g'. g' < n) ids) (sym (length-set rs g _)) below.1) h' in
      subst
        (λ r.
          (out : List S) × (update_groups agg ss r all ≡ ok out)
          × SeesGroups out (add_rows rs batch i (g ∷ ids)))
        (ok-injective run3) (next, rw (here, found) update, h'')

  -- What one thread does to its groups, in the states of all.
  pub at-SeesThreads :
      (f : List (List S)) (m : List (List (List Row))) (t : ℕ) {rs : List (List Row)}
      → SeesThreads f m
      → get_elem? m t ≡ some rs
      → (ss : List S) × (get_elem? f t ≡ some ss) × SeesGroups ss rs
  at-SeesThreads [] [] t h e = cc
  at-SeesThreads [] (r ∷ m) t h e = absurd h
  at-SeesThreads (s ∷ f) [] t h e = absurd h
  at-SeesThreads (s ∷ f) (r ∷ m) zero h e = (s, refl, subst (SeesGroups s) (some-eq e) h.0)
  at-SeesThreads (s ∷ f) (r ∷ m) (suc t) h e = at-SeesThreads f m t h.1 e

  pub set-SeesThreads :
      (f : List (List S)) (m : List (List (List Row))) (t : ℕ) (ss : List S) (rs : List (List Row))
      → SeesThreads f m
      → SeesGroups ss rs
      → SeesThreads (set f t ss) (set m t rs)
  set-SeesThreads [] [] t ss rs h e = tt
  set-SeesThreads [] (r ∷ m) t ss rs h e = absurd h
  set-SeesThreads (s ∷ f) [] t ss rs h e = absurd h
  set-SeesThreads (s ∷ f) (r ∷ m) zero ss rs h e = (e, h.1)
  set-SeesThreads (s ∷ f) (r ∷ m) (suc t) ss rs h e = (h.0, set-SeesThreads f m t ss rs h.1 e)

  -- The state of a group sees the values of another group.
  pub set-SeesGroups :
      (ss : List S) (rs : List (List Row)) (g : ℕ) (s : S) (rows : List Row)
      → SeesGroups ss rs
      → SeesGroup s rows
      → SeesGroups (set ss g s) (set rs g rows)
  set-SeesGroups [] [] g s rows h e = tt
  set-SeesGroups [] (r ∷ rs) g s rows h e = absurd h
  set-SeesGroups (x ∷ ss) [] g s rows h e = absurd h
  set-SeesGroups (x ∷ ss) (r ∷ rs) zero s rows h e = (e, h.1)
  set-SeesGroups (x ∷ ss) (r ∷ rs) (suc g) s rows h e = (h.0, set-SeesGroups ss rs g s rows h.1 e)

  pub at-SeesGroups :
      (ss : List S) (rs : List (List Row)) (g : ℕ) {rows : List Row}
      → SeesGroups ss rs
      → get_elem? rs g ≡ some rows
      → (s : S) × (get_elem? ss g ≡ some s) × SeesGroup s rows
  at-SeesGroups [] [] g h e = cc
  at-SeesGroups [] (r ∷ rs) g h e = absurd h
  at-SeesGroups (s ∷ ss) [] g h e = absurd h
  at-SeesGroups (s ∷ ss) (r ∷ rs) zero h e = (s, refl, subst (SeesGroup s) (some-eq e) h.0)
  at-SeesGroups (s ∷ ss) (r ∷ rs) (suc g) h e = at-SeesGroups ss rs g h.1 e

  pub merge-SeesGroup :
      (s t : S) (a b : List Row)
      → SeesGroup s a
      → SeesGroup t b
      → SeesGroup (agg.merge s t) (a ++ b)
  merge-SeesGroup s t a b (vs, has, sees) (ws, has', sees') =
      (vs ++ ws, HasValues-append_list get a vs b ws has has', sees_merge s t vs ws sees sees')

  pub length-SeesThreads :
      (f : List (List S)) (m : List (List (List Row))) → SeesThreads f m → length f ≡ length m
  length-SeesThreads [] [] h = refl
  length-SeesThreads [] (r ∷ m) h = absurd h
  length-SeesThreads (s ∷ f) [] h = absurd h
  length-SeesThreads (s ∷ f) (r ∷ m) h = ap suc (length-SeesThreads f m h.1)
