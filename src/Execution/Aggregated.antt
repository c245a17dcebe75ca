-- ===== src/Execution/Aggregated.antt =====
-- The states of an aggregation, spread over the threads, against the values of all batches.
use mathlib.Core.List.{Permᴰ}
use mathlib.Core.List.Permᴰ
use columnar_engine.Base.{
  ℕ, zero, suc, ◌<◌, ◌≡◌, refl, sym, ap, ◌∙◌, List, [], ◌∷◌, ◌++◌, map, append_assoc, append-nil,
  arith, length, replicate, set, Result, ok, ◌>>=◌, at, length-set, length-replicate,
}
use columnar_engine.Base.Perms.{perm_move_last, perm_of_eq}
use columnar_engine.Execution.Batch.{RecordBatch, iterate_column_data}
use columnar_engine.Execution.Aggregates.{
  Aggregate, update_state, make_threads, global_update, merge_threads, global_result,
}

-- An aggregate computes `spec` of the values that a state has seen, in whatever order.
pub record Specifies {V S R : Type 0} (agg : Aggregate V S R) (spec : List V → R) : Type 1 where
  pub Sees : S → List V → Type 0
  pub sees_initial : Sees agg.initial []
  pub sees_step : (s : S) (vs : List V) (v : V) → Sees s vs → Sees (agg.step s v) (vs ++ v ∷ [])
  pub sees_merge :
      (s t : S) (vs ws : List V) → Sees s vs → Sees t ws → Sees (agg.merge s t) (vs ++ ws)
  pub sees_result : (s : S) (vs : List V) → Sees s vs → agg.result s ≡ spec vs
  pub spec_perm : (vs ws : List V) → Permᴰ vs ws → spec vs ≡ spec ws

abbrev pub flatten {ℓ} : {A : Type ℓ} → List (List A) → List A
flatten [] = []
flatten (xs ∷ rest) = xs ++ flatten rest

module _ {V : Type 0} (get : RecordBatch → ℕ → Result V) where
  -- The values of batches that are sunk by threads below `n`, in the order of the calls.
  pub data Sunk (n : ℕ) : List (ℕ × RecordBatch) → List V → Type 0 where
    no_call : Sunk n [] []
    call :
        {t : ℕ} {b : RecordBatch} {rest : List (ℕ × RecordBatch)} {vs : List V}
        (rows : List (V × ℕ × ℕ))
        → t < n
        → iterate_column_data b (get b) ≡ ok rows
        → Sunk n rest vs
        → Sunk n ((t, b) ∷ rest) (map (λ r. r.0) rows ++ vs)

-- The calls of `Sink` of an aggregation, with the thread of each.
module _ {V S R : Type 0} (agg : Aggregate V S R) (get : RecordBatch → ℕ → Result V) where
  unfoldable pub run_updates : List S → List (ℕ × RecordBatch) → Result (List S)
  run_updates states [] = ok states
  run_updates states ((thread_id, batch) ∷ calls) = do
    next ← global_update agg states batch (get batch) thread_id
    run_updates next calls

module _ {V S R : Type 0} {agg : Aggregate V S R} {spec : List V → R}
    (law : Specifies agg spec) where
  open law use {Sees, sees_initial, sees_step, sees_merge, sees_result, spec_perm}

  -- Each thread has seen its values.
  abbrev SeesAll : List S → List (List V) → Type 0
  SeesAll [] [] = Unit
  SeesAll (s ∷ ss) (vs ∷ seen) = Sees s vs × SeesAll ss seen
  SeesAll _ _ = ⊥

  update_state-Sees :
      (s : S) (vs : List V) (rows : List (V × ℕ × ℕ))
      → Sees s vs
      → Sees (update_state agg s rows) (vs ++ map (λ r. r.0) rows)
  unfolding update_state
  update_state-Sees s vs [] h = rw append-nil h
  update_state-Sees s vs (r ∷ rows) h =
      rw (append_assoc vs (r.0 ∷ []) (map (λ r. r.0) rows)) at
        (update_state-Sees (agg.step s r.0) (vs ++ r.0 ∷ []) rows (sees_step s vs r.0 h))

  make_threads-SeesAll : (n : ℕ) → SeesAll (make_threads agg n) (replicate n [])
  unfolding make_threads
  make_threads-SeesAll zero = tt
  make_threads-SeesAll (suc n) = (sees_initial, make_threads-SeesAll n)

  length-make_threads : (n : ℕ) → length (make_threads agg n) ≡ n
  unfolding make_threads
  length-make_threads n = length-replicate n agg.initial

  flatten-replicate : (n : ℕ) → flatten (replicate n (let e : List V = [] in e)) ≡ []
  flatten-replicate zero = refl
  flatten-replicate (suc n) = flatten-replicate n

  length-SeesAll : (ss : List S) (seen : List (List V)) → SeesAll ss seen → length seen ≡ length ss
  length-SeesAll [] [] h = refl
  length-SeesAll [] (vs ∷ seen) h = absurd h
  length-SeesAll (s ∷ ss) [] h = absurd h
  length-SeesAll (s ∷ ss) (vs ∷ seen) h = ap suc (length-SeesAll ss seen h.1)

  -- One thread sees more values.
  set-SeesAll :
      (ss : List S) (seen : List (List V)) (t : ℕ) (rows : List (V × ℕ × ℕ))
      → SeesAll ss seen
      → t < length ss
      → (s : S) × (at ss t ≡ ok s)
        × (seen' : List (List V)) × SeesAll (set ss t (update_state agg s rows)) seen'
        × Permᴰ (flatten seen') (flatten seen ++ map (λ r. r.0) rows)
  set-SeesAll [] seen t rows h lt = elim lt [ ]
  set-SeesAll (s ∷ ss) [] t rows h lt = absurd h
  set-SeesAll (s ∷ ss) (vs ∷ seen) zero rows h lt = (
    s,
    refl,
    (vs ++ map (λ r. r.0) rows) ∷ seen,
    (update_state-Sees s vs rows h.0, h.1),
    perm_move_last vs (map (λ r. r.0) rows) (flatten seen),
  )
  set-SeesAll (s ∷ ss) (vs ∷ seen) (suc t) rows h lt =
      let (x, e, seen', sees, perm) = set-SeesAll ss seen t rows h.1 (omega arith) in
      (
        x,
        e,
        vs ∷ seen',
        (h.0, sees),
        Permᴰ.trans (Permᴰ.append_left vs perm)
            (perm_of_eq (sym (append_assoc vs (flatten seen) (map (λ r. r.0) rows)))),
      )

  run_updates-SeesAll :
      (get : RecordBatch → ℕ → Result V) (n : ℕ) {calls : List (ℕ × RecordBatch)} {vs : List V}
      (ss : List S) (seen : List (List V))
      → Sunk get n calls vs
      → SeesAll ss seen
      → length ss ≡ n
      → (ss' : List S) × (run_updates agg get ss calls ≡ ok ss')
        × (seen' : List (List V)) × SeesAll ss' seen'
        × Permᴰ (flatten seen') (flatten seen ++ vs)
  unfolding run_updates global_update
  run_updates-SeesAll get n ss seen no_call h e =
      (ss, refl, seen, h, perm_of_eq (sym (append-nil (flatten seen))))
  run_updates-SeesAll get n ss seen (call {t} {vs = vs} rows lt read rest) h e =
      let (s, got, seen', sees, perm) = set-SeesAll ss seen t rows h (omega arith) in
      let next = set ss t (update_state agg s rows) in
      let (ss', run, seen'', sees', perm') =
        run_updates-SeesAll get n next seen' rest sees
          (length-set ss t (update_state agg s rows) ∙ e) in
      (
        ss',
        rw (got, read) run,
        seen'',
        sees',
        Permᴰ.trans perm' (
            Permᴰ.trans (Permᴰ.append_right vs perm)
              (perm_of_eq (append_assoc (flatten seen) (map (λ r. r.0) rows) vs))),
      )

  merge_threads-Sees :
      (s : S) (vs : List V) (ss : List S) (seen : List (List V))
      → Sees s vs
      → SeesAll ss seen
      → Sees (merge_threads agg s ss) (vs ++ flatten seen)
  unfolding merge_threads
  merge_threads-Sees s vs [] [] h all = rw append-nil h
  merge_threads-Sees s vs [] (ws ∷ seen) h all = absurd all
  merge_threads-Sees s vs (t ∷ ss) [] h all = absurd all
  merge_threads-Sees s vs (t ∷ ss) (ws ∷ seen) h all =
      rw (append_assoc vs ws (flatten seen)) at
        (merge_threads-Sees (agg.merge s t) (vs ++ ws) ss seen (sees_merge s t vs ws h all.0) all.1)

  -- However the batches are spread over the threads and in whatever order the threads sink them, all
  -- calls succeed, and the result is that of all their values.
  pub global_result-run_updates :
      (get : RecordBatch → ℕ → Result V) (n : ℕ) {calls : List (ℕ × RecordBatch)} {vs : List V}
      → Sunk get n calls vs
      → (states : List S) × (run_updates agg get (make_threads agg n) calls ≡ ok states)
        × (global_result agg states ≡ spec vs)
  unfolding global_result
  global_result-run_updates get n {vs = vs} sunk =
      let (states, run, seen, sees, perm) =
        run_updates-SeesAll get n (make_threads agg n) (replicate n []) sunk
          (make_threads-SeesAll n) (length-make_threads n) in
      let all : Permᴰ (flatten seen) vs =
        Permᴰ.trans perm (perm_of_eq (ap (λ l. l ++ vs) (flatten-replicate n))) in
      (
        states,
        run,
        sees_result _ (flatten seen)
              (merge_threads-Sees agg.initial [] states seen sees_initial sees)
            ∙ spec_perm (flatten seen) vs all,
      )
