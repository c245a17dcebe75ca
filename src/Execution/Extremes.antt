-- ===== src/Execution/Extremes.antt =====
-- The maximum and the minimum of an aggregation, as bounds of the values.
use columnar_engine.Base.{
  ℕ, zero, suc, subst, ◌≡◌, sym, refl, Bool, false, Result, ok, at, List, [], ◌∷◌, arith, All,
  Bool-cases, inl, inr,
}
use columnar_engine.Execution.Batch.{RecordBatch}
use columnar_engine.Execution.Aggregates.{
  max_operation, TypedState, apply, typed_aggregate, make_threads, global_result,
}
use columnar_engine.Execution.Aggregated.{Sunk, run_updates, global_result-run_updates}
use columnar_engine.Execution.Combined.{
  Ordered, Combines, larger, less_ntrans, less_asym, fold, typed_aggregate-Specifies,
}

-- One of the values, and none is above it.
pub record IsGreatest {T : Type 0} (less : T → T → Bool) (m : T) (vs : List T) : Type 0 where
  pub index : ℕ
  pub found : at vs index ≡ ok m
  pub bounds : All (λ v. less m v ≡ false) vs

module _ {T : Type 0} {less : T → T → Bool} (order : Ordered less) where
  larger_left : (a b : T) → less (larger order a b) a ≡ false
  larger_left a b =
      let irrefl = order.less_irrefl a in let asym = less_asym order a b in ground arith

  larger_right : (a b : T) → less (larger order a b) b ≡ false
  larger_right a b = let irrefl = order.less_irrefl b in ground arith

  -- A value behind the larger of two is behind both of them.
  at-larger :
      (a b : T) (vs : List T) (m : T) (i : ℕ)
      → at (larger order a b ∷ vs) i ≡ ok m
      → (j : ℕ) × (at (a ∷ b ∷ vs) j ≡ ok m)
  at-larger a b vs m (suc i) h = (suc (suc i), h)
  at-larger a b vs m zero h = elim (Bool-cases (less a b)) [
    | inl e ↦ (1, rw e at h)
    | inr e ↦ (0, rw e at h)
  ]

  fold-IsGreatest : (a : T) (vs : List T) → IsGreatest less (fold (larger order) a vs) (a ∷ vs)
  fold-IsGreatest a [] = record { index = 0; found = refl; bounds = (order.less_irrefl a, tt) }
  fold-IsGreatest a (v ∷ vs) =
      let ih = fold-IsGreatest (larger order a v) vs in
      let m = fold (larger order) (larger order a v) vs in
      let (j, found) = at-larger a v vs m ih.index ih.found in
      record {
        index = j;
        found = found;
        bounds = (
          less_ntrans order m (larger order a v) a ih.bounds.0 (larger_left a v),
          (less_ntrans order m (larger order a v) v ih.bounds.0 (larger_right a v), ih.bounds.1),
        );
      }

module _ {T : Type 0} {less : T → T → Bool} {add : T → T → T} (laws : Combines less add)
    (default : T) where
  -- However the batches are spread over the threads, all calls succeed, and the maximum is one of the
  -- values, of which there is at least one, that no value is above.
  pub global_result-IsGreatest :
      (get : RecordBatch → ℕ → Result T) (n : ℕ) {calls : List (ℕ × RecordBatch)} {v : T}
      {vs : List T}
      → Sunk get n calls (v ∷ vs)
      → (states : List (TypedState T)) × (run_updates
            (typed_aggregate less add default max_operation)
            get
            (make_threads (typed_aggregate less add default max_operation) n)
            calls
          ≡ ok states)
        × IsGreatest less
            (global_result (typed_aggregate less add default max_operation) states)
            (v ∷ vs)
  unfolding apply
  global_result-IsGreatest get n {v = v} {vs = vs} sunk =
      let (states, run, e) =
        global_result-run_updates (typed_aggregate-Specifies laws default max_operation) get n
          sunk in
      (
        states,
        run,
        subst (λ m. IsGreatest less m (v ∷ vs)) (sym e) (fold-IsGreatest laws.ordered v vs),
      )
