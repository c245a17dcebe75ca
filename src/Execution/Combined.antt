-- ===== src/Execution/Combined.antt =====
-- Sum, maximum and minimum of values, as a fold, and the states that compute them.
use mathlib.Core.List.{Permᴰ}
use mathlib.Core.Bool.{true≢false}
use columnar_engine.Base.{
  ◌≡◌, refl, sym, ap, ap₂, ◌∙◌, Bool, true, false, List, [], ◌∷◌, ◌++◌, append-nil, arith,
  if◌then◌else◌, subst, Bool-cases, inl, inr,
}
use columnar_engine.Execution.Aggregates.{
  Operation, sum_operation, max_operation, min_operation, TypedState, apply, typed_step,
  typed_merge, typed_aggregate,
}
use columnar_engine.Execution.Aggregated.{Specifies}

-- An order whose incomparable values are equal.
pub record Ordered {T : Type 0} (less : T → T → Bool) : Type 0 where
  pub less_irrefl : (a : T) → less a a ≡ false
  pub less_trans : (a b c : T) → less a b ≡ true → less b c ≡ true → less a c ≡ true
  pub less_total : (a b : T) → less a b ≡ false → less b a ≡ false → a ≡ b

-- An order and a sum of the type of a state.
pub record Combines {T : Type 0} (less : T → T → Bool) (add : T → T → T) : Type 0 where
  pub ordered : Ordered less
  pub add_assoc : (a b c : T) → add (add a b) c ≡ add a (add b c)
  pub add_comm : (a b : T) → add a b ≡ add b a

pub flip-Ordered : {T : Type 0} {less : T → T → Bool} → Ordered less → Ordered (λ a b. less b a)
flip-Ordered h = record {
  less_irrefl = h.less_irrefl;
  less_trans = λ a b c ab bc. h.less_trans c b a bc ab;
  less_total = λ a b ab ba. sym (h.less_total b a ab ba);
}

module _ {T : Type 0} {less : T → T → Bool} (order : Ordered less) where
  open order use {less_irrefl, less_trans, less_total}

  abbrev pub larger : T → T → T
  larger a b = if less a b then b else a

  pub less_asym : (a b : T) → less a b ≡ true → less b a ≡ false
  less_asym a b h = elim (Bool-cases (less b a)) [
    | inl e ↦ absurd (true≢false (sym (less_trans a b a h e) ∙ less_irrefl a))
    | inr e ↦ e
  ]

  pub less_ntrans : (a b c : T) → less a b ≡ false → less b c ≡ false → less a c ≡ false
  less_ntrans a b c h h' = elim (Bool-cases (less b a)) [
    | inl e ↦ elim (Bool-cases (less a c)) [
      | inl e' ↦ absurd (true≢false (sym (less_trans b a c e e') ∙ h'))
      | inr e' ↦ e'
    ]
    | inr e ↦ subst (λ x. less x c ≡ false) (sym (less_total a b h e)) h'
  ]

  larger_comm : (a b : T) → larger a b ≡ larger b a
  larger_comm a b = let asym = less_asym a b in let total = less_total a b in ground arith

  larger_assoc : (a b c : T) → larger (larger a b) c ≡ larger a (larger b c)
  larger_assoc a b c =
      let trans = less_trans a b c in let ntrans = less_ntrans a b c in ground arith

module _ {T : Type 0} (op : T → T → T) where
  abbrev pub fold : T → List T → T
  fold a [] = a
  fold a (x ∷ xs) = fold (op a x) xs

  -- The combination of all values, or the default when there is none.
  abbrev pub total : T → List T → T
  total default [] = default
  total default (x ∷ xs) = fold x xs

  pub fold-append : (a : T) (xs ys : List T) → fold a (xs ++ ys) ≡ fold (fold a xs) ys
  fold-append a [] ys = refl
  fold-append a (x ∷ xs) ys = fold-append (op a x) xs ys

  module _ (assoc : (a b c : T) → op (op a b) c ≡ op a (op b c))
      (comm : (a b : T) → op a b ≡ op b a) where
    pub fold-op : (a b : T) (xs : List T) → op a (fold b xs) ≡ fold (op a b) xs
    fold-op a b [] = refl
    fold-op a b (x ∷ xs) = fold-op a (op b x) xs ∙ ap (λ c. fold c xs) (sym (assoc a b x))

    swap_op : (a x y : T) → op (op a x) y ≡ op (op a y) x
    swap_op a x y = assoc a x y ∙ ap (op a) (comm x y) ∙ sym (assoc a y x)

    pub fold-Perm : {xs ys : List T} (a : T) → Permᴰ xs ys → fold a xs ≡ fold a ys
    fold-Perm a Permᴰ.nil = refl
    fold-Perm a (Permᴰ.cons {a = x} {l₂ = ys} e p) =
        fold-Perm (op a x) p ∙ ap (λ x. fold (op a x) ys) e
    fold-Perm a (Permᴰ.swap {a = x} {b = y} {l = l} e e') =
        ap (λ c. fold c l) (swap_op a x y ∙ ap₂ (λ u v. op (op a u) v) e' e)
    fold-Perm a (Permᴰ.trans p q) = fold-Perm a p ∙ fold-Perm a q

    pub total-Perm :
        (default : T) {xs ys : List T} → Permᴰ xs ys → total default xs ≡ total default ys
    total-Perm d Permᴰ.nil = refl
    total-Perm d (Permᴰ.cons {l₂ = ys} e p) = fold-Perm _ p ∙ ap (λ x. fold x ys) e
    total-Perm d (Permᴰ.swap {a = x} {b = y} {l = l} e e') =
        ap (λ c. fold c l) (comm x y ∙ ap₂ op e' e)
    total-Perm d (Permᴰ.trans p q) = total-Perm d p ∙ total-Perm d q

module _ {T : Type 0} {less : T → T → Bool} {add : T → T → T} (laws : Combines less add) where
  open laws use {ordered, add_assoc, add_comm}

  apply_comm : (op : Operation) (a b : T) → apply less add op a b ≡ apply less add op b a
  unfolding apply
  apply_comm sum_operation a b = add_comm a b
  apply_comm max_operation a b = larger_comm ordered a b
  apply_comm min_operation a b = larger_comm (flip-Ordered ordered) a b

  apply_assoc :
      (op : Operation) (a b c : T)
      → apply less add op (apply less add op a b) c ≡ apply less add op a (apply less add op b c)
  unfolding apply
  apply_assoc sum_operation a b c = add_assoc a b c
  apply_assoc max_operation a b c = larger_assoc ordered a b c
  apply_assoc min_operation a b c = larger_assoc (flip-Ordered ordered) a b c

  -- The state that has seen some values.
  abbrev seen : T → Operation → List T → TypedState T
  seen default op [] = record { value = default; has_data = false }
  seen default op (x ∷ xs) = record { value = fold (apply less add op) x xs; has_data = true }

  value-seen :
      (default : T) (op : Operation) (vs : List T)
      → (seen default op vs).value ≡ total (apply less add op) default vs
  value-seen default op [] = refl
  value-seen default op (x ∷ xs) = refl

  typed_step-seen :
      (default : T) (op : Operation) (vs : List T) (v : T)
      → typed_step less add op (seen default op vs) v ≡ seen default op (vs ++ v ∷ [])
  unfolding typed_step
  typed_step-seen default op [] v = refl
  typed_step-seen default op (x ∷ xs) v =
      ap (λ t. record { value = t; has_data = true })
        (sym (fold-append (apply less add op) x xs (v ∷ [])))

  typed_merge-seen :
      (default : T) (op : Operation) (vs ws : List T)
      → typed_merge less add op (seen default op vs) (seen default op ws)
        ≡ seen default op (vs ++ ws)
  unfolding typed_merge typed_step
  typed_merge-seen default op vs [] = ap (seen default op) (sym (append-nil vs))
  typed_merge-seen default op [] (w ∷ ws) = refl
  typed_merge-seen default op (x ∷ xs) (w ∷ ws) =
      ap (λ t. record { value = t; has_data = true })
        (fold-op (apply less add op) (apply_assoc op) (apply_comm op) _ w ws
          ∙ sym (fold-append (apply less add op) x xs (w ∷ ws)))

  pub typed_aggregate-Specifies :
      (default : T) (op : Operation)
      → Specifies (typed_aggregate less add default op) (total (apply less add op) default)
  unfolding typed_aggregate
  typed_aggregate-Specifies default op = record {
    Sees = λ s vs. s ≡ seen default op vs;
    sees_initial = refl;
    sees_step =
        λ s vs v h. ap (λ t. typed_step less add op t v) h ∙ typed_step-seen default op vs v;
    sees_merge =
        λ s t vs ws h h'. ap₂ (typed_merge less add op) h h' ∙ typed_merge-seen default op vs ws;
    sees_result = λ s vs h. ap (λ t. t.value) h ∙ value-seen default op vs;
    spec_perm =
        λ vs ws p. total-Perm (apply less add op) (apply_assoc op) (apply_comm op) default p;
  }
