-- ===== src/Execution/Selection.antt =====
-- What the filters are for: the rows of a batch that pass a test, row by row.
use columnar_engine.Base.{
  ℕ, suc, ◌<◌, ◌≡◌, refl, sym, ap, ◌∙◌, Bool, true, false, ◌&&◌, ◌||◌, List, [], ◌∷◌, arith, Result,
  ok, err, All, ltb, inl, inr, Bool-cases, length,
}
use columnar_engine.Execution.Batch.{RecordBatch, real_index, iterate_from}
use columnar_engine.Execution.Filters.{push_passing, set_intersection, set_union}

abbrev pub add_if : Bool → ℕ → List ℕ → List ℕ
add_if true r rs = r ∷ rs
add_if false r rs = rs

-- The rows that pass a test.
abbrev pub keep : (ℕ → Bool) → List ℕ → List ℕ
keep test [] = []
keep test (r ∷ rs) = add_if (test r) r (keep test rs)

abbrev pub Increasing : List ℕ → Type 0
Increasing [] = Unit
Increasing (r ∷ rs) = All (λ s. r < s) rs × Increasing rs

abbrev pub value_or {ℓ} : {A : Type ℓ} → A → Result A → A
value_or default (ok a) = a
value_or default (err e) = default

-- The rows that the loop over a batch visits from number `i` on.
abbrev pub Visits : RecordBatch → ℕ → List ℕ → Type 0
Visits batch i [] = Unit
Visits batch i (r ∷ rs) = (real_index batch i ≡ ok r) × Visits batch (suc i) rs

pub record HasRows (batch : RecordBatch) (rows : List ℕ) : Type 0 where
  pub counted : batch.num_rows ≡ length rows
  pub visits : Visits batch 0 rows
  pub increasing : Increasing rows

pub All-keep :
    (P : ℕ → Type 0) (test : ℕ → Bool) (rows : List ℕ) → All P rows → All P (keep test rows)
All-keep P test [] h = tt
All-keep P test (r ∷ rs) h = elim (Bool-cases (test r)) [
  | inl e ↦ rw e (h.0, All-keep P test rs h.1)
  | inr e ↦ rw e (All-keep P test rs h.1)
]

set_intersection-nil : (xs : List ℕ) → set_intersection xs [] ≡ []
unfolding set_intersection
set_intersection-nil [] = refl
set_intersection-nil (x ∷ xs) = refl

skip_left :
    (x : ℕ) (xs ys : List ℕ)
    → All (λ y. x < y) ys
    → set_intersection (x ∷ xs) ys ≡ set_intersection xs ys
unfolding set_intersection
skip_left x xs [] h = sym (set_intersection-nil xs)
skip_left x xs (y ∷ ys) h = let less : ltb x y ≡ true = ground (arith, h.0) in rw less

skip_right :
    (xs : List ℕ) (y : ℕ) (ys : List ℕ)
    → All (λ x. y < x) xs
    → set_intersection xs (y ∷ ys) ≡ set_intersection xs ys
unfolding set_intersection
skip_right [] y ys h = refl
skip_right (x ∷ xs) y ys h =
    let more : ltb x y ≡ false = ground (arith, h.0) in
    let less : ltb y x ≡ true = ground (arith, h.0) in rw (more, less)

set_intersection_same :
    (x : ℕ) (xs ys : List ℕ) → set_intersection (x ∷ xs) (x ∷ ys) ≡ x ∷ set_intersection xs ys
unfolding set_intersection
set_intersection_same x xs ys = let equal : ltb x x ≡ false = ground arith in rw equal

-- The intersection of two selections of increasing rows is the selection by both tests.
pub set_intersection-keep :
    (p q : ℕ → Bool) (rows : List ℕ)
    → Increasing rows
    → set_intersection (keep p rows) (keep q rows) ≡ keep (λ r. p r && q r) rows
set_intersection-keep p q [] h = set_intersection-nil []
set_intersection-keep p q (r ∷ rs) h =
    let rest = set_intersection-keep p q rs h.1 in
    elim (Bool-cases (p r)) [
      | inl a ↦ elim (Bool-cases (q r)) [
        | inl b ↦ rw (a, b) (set_intersection_same r (keep p rs) (keep q rs) ∙ ap (◌∷◌ r) rest)
        | inr b ↦
            rw (a, b) (skip_left r (keep p rs) (keep q rs) (All-keep (λ s. r < s) q rs h.0) ∙ rest)
      ]
      | inr a ↦ elim (Bool-cases (q r)) [
        | inl b ↦
            rw (a, b) (skip_right (keep p rs) r (keep q rs) (All-keep (λ s. r < s) p rs h.0) ∙ rest)
        | inr b ↦ rw (a, b) rest
      ]
    ]

set_union-nil : (xs : List ℕ) → set_union xs [] ≡ xs
unfolding set_union
set_union-nil [] = refl
set_union-nil (x ∷ xs) = refl

take_left :
    (x : ℕ) (xs ys : List ℕ) → All (λ y. x < y) ys → set_union (x ∷ xs) ys ≡ x ∷ set_union xs ys
unfolding set_union
take_left x xs [] h = ap (◌∷◌ x) (sym (set_union-nil xs))
take_left x xs (y ∷ ys) h = let less : ltb x y ≡ true = ground (arith, h.0) in rw less

take_right :
    (xs : List ℕ) (y : ℕ) (ys : List ℕ)
    → All (λ x. y < x) xs
    → set_union xs (y ∷ ys) ≡ y ∷ set_union xs ys
unfolding set_union
take_right [] y ys h = refl
take_right (x ∷ xs) y ys h =
    let more : ltb x y ≡ false = ground (arith, h.0) in
    let less : ltb y x ≡ true = ground (arith, h.0) in rw (more, less)

set_union_same : (x : ℕ) (xs ys : List ℕ) → set_union (x ∷ xs) (x ∷ ys) ≡ x ∷ set_union xs ys
unfolding set_union
set_union_same x xs ys = let equal : ltb x x ≡ false = ground arith in rw equal

-- The union of two selections of increasing rows is the selection by either test.
pub set_union-keep :
    (p q : ℕ → Bool) (rows : List ℕ)
    → Increasing rows
    → set_union (keep p rows) (keep q rows) ≡ keep (λ r. p r || q r) rows
set_union-keep p q [] h = set_union-nil []
set_union-keep p q (r ∷ rs) h =
    let rest = set_union-keep p q rs h.1 in
    elim (Bool-cases (p r)) [
      | inl a ↦ elim (Bool-cases (q r)) [
        | inl b ↦ rw (a, b) (set_union_same r (keep p rs) (keep q rs) ∙ ap (◌∷◌ r) rest)
        | inr b ↦
            rw (a, b)
              (take_left r (keep p rs) (keep q rs) (All-keep (λ s. r < s) q rs h.0)
                ∙ ap (◌∷◌ r) rest)
      ]
      | inr a ↦ elim (Bool-cases (q r)) [
        | inl b ↦
            rw (a, b)
              (take_right (keep p rs) r (keep q rs) (All-keep (λ s. r < s) p rs h.0)
                ∙ ap (◌∷◌ r) rest)
        | inr b ↦ rw (a, b) rest
      ]
    ]

push_passing_lem {ℓ} :
    {A : Type ℓ} (test : A → Bool) (call : A × ℕ × ℕ) (calls : List (A × ℕ × ℕ))
    → push_passing test (call ∷ calls) ≡ add_if (test call.0) call.2 (push_passing test calls)
unfolding push_passing
push_passing_lem test call calls = elim (Bool-cases (test call.0)) [ inl e ↦ rw e | inr e ↦ rw e ]

-- The loop over the data of a column, and the callback of a filter, against the test of each row.
pub iterate_from-keep {ℓ} :
    {A : Type ℓ} (batch : RecordBatch) (get : ℕ → Result A) (default : A) (test : A → Bool) (i : ℕ)
    (rows : List ℕ)
    → Visits batch i rows
    → All (λ r. (v : A) × (get r ≡ ok v)) rows
    → (calls : List (A × ℕ × ℕ)) × (iterate_from batch get i (length rows) ≡ ok calls)
      × (push_passing test calls ≡ keep (λ r. test (value_or default (get r))) rows)
unfolding iterate_from push_passing
iterate_from-keep batch get default test i [] w h = ([], refl, refl)
iterate_from-keep batch get default test i (r ∷ rs) w h =
    let (calls, e, p) = iterate_from-keep batch get default test (suc i) rs w.1 h.1 in
    let (v, g) = h.0 in
    ((v, i, r) ∷ calls, rw (w.0, g, e), push_passing_lem test (v, i, r) calls ∙ rw (g, p))
