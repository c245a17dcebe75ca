-- ===== src/Execution/Averages.antt =====
-- The count and the average of an aggregation.
use mathlib.Core.List.{Permᴰ}
use columnar_engine.Base.{
  ℕ, suc, ◌+◌, ◌≡◌, refl, sym, ap, ap₂, ◌∙◌, List, [], ◌∷◌, ◌++◌, length, length-append, ltb,
  if◌then◌else◌,
}
use columnar_engine.Execution.Aggregates.{
  AvgState, avg_step, avg_merge, avg_aggregate, count_aggregate,
}
use columnar_engine.Execution.Aggregated.{Specifies}
use columnar_engine.Execution.Combined.{fold, fold-append, fold-op, fold-Perm}

module _ {V : Type 0} where
  count-Perm : {vs ws : List V} → Permᴰ vs ws → length vs ≡ length ws
  count-Perm Permᴰ.nil = refl
  count-Perm (Permᴰ.cons e p) = ap suc (count-Perm p)
  count-Perm (Permᴰ.swap e e') = refl
  count-Perm (Permᴰ.trans p q) = count-Perm p ∙ count-Perm q

  pub count_aggregate-Specifies : Specifies (count_aggregate {V = V}) length
  unfolding count_aggregate
  count_aggregate-Specifies = record {
    Sees = λ s vs. s ≡ length vs;
    sees_initial = refl;
    sees_step = λ s vs v h. ap (λ n. n + 1) h ∙ sym (length-append vs (v ∷ []));
    sees_merge = λ s t vs ws h h'. ap₂ ◌+◌ h h' ∙ sym (length-append vs ws);
    sees_result = λ s vs h. h;
    spec_perm = λ vs ws p. count-Perm p;
  }

module _ {T R : Type 0} (add : T → T → T) (compute_avg : T → ℕ → R) (zero_sum : T)
    (default : R) where
  -- The average of some values: their sum, divided by their number, if there are any.
  abbrev pub average : List T → R
  average vs = if ltb 0 (length vs) then compute_avg (fold add zero_sum vs) (length vs) else default

  module _ (assoc : (a b c : T) → add (add a b) c ≡ add a (add b c))
      (comm : (a b : T) → add a b ≡ add b a) (identity : (a : T) → add a zero_sum ≡ a) where
    seen : List T → AvgState T
    seen vs = record { total = fold add zero_sum vs; count = length vs }

    fold-merge :
        (vs ws : List T)
        → add (fold add zero_sum vs) (fold add zero_sum ws) ≡ fold add zero_sum (vs ++ ws)
    fold-merge vs ws =
        fold-op add assoc comm (fold add zero_sum vs) zero_sum ws
        ∙ ap (λ a. fold add a ws) (identity (fold add zero_sum vs))
        ∙ sym (fold-append add zero_sum vs ws)

    pub avg_aggregate-Specifies : Specifies (avg_aggregate add compute_avg zero_sum default) average
    unfolding avg_aggregate avg_step avg_merge seen
    avg_aggregate-Specifies = record {
      Sees = λ s vs. s ≡ seen vs;
      sees_initial = refl;
      sees_step = λ s vs v h.
          ap (λ t. avg_step add compute_avg t v) h
          ∙ ap₂ (λ t n. record { total = t; count = n })
              (sym (fold-append add zero_sum vs (v ∷ []))) (sym (length-append vs (v ∷ [])));
      sees_merge = λ s t vs ws h h'.
          ap₂ (avg_merge add compute_avg) h h'
          ∙ ap₂ (λ t n. record { total = t; count = n }) (fold-merge vs ws)
              (sym (length-append vs ws));
      sees_result = λ s vs h. rw h refl;
      spec_perm = λ vs ws p.
          ap₂ (λ t n. if ltb 0 n then compute_avg t n else default)
            (fold-Perm add assoc comm zero_sum p) (count-Perm p);
    }
