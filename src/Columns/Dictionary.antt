-- ===== src/Columns/Dictionary.antt =====
-- What the dictionary of `CodecDictionary::Encode` says of its indices.
use mathlib.Core.List.{Permᴰ}
use mathlib.Core.List.Permᴰ
use columnar_engine.Base.{
  ℕ, zero, suc, Option, some, none, true, false, List, [], ◌∷◌, ◌++◌, ◌+◌, ◌%◌, ◌^◌, ◌<◌, ◌≤◌, ◌≡◌,
  refl, sym, ap, ◌∙◌, subst, ◌==◌, length-append_one, length, map, get_elem?, All, arith, ==_iff,
  Bool-cases, inl, inr, Option-cases, get_elem?-append, get_elem?-append_lt, lt_of_get_elem?,
}
use columnar_engine.Columns.Codec.{find_index, index_items}

-- The item of an index in the pairs of a dictionary, in any order.
unfoldable pub item_of : List (ℕ × ℕ) → ℕ → Option ℕ
item_of [] index = none
item_of (pair ∷ pairs) index = elim (pair.1 == index) [
  | true ↦ some pair.0
  | false ↦ item_of pairs index
]

abbrev pub Has : List (ℕ × ℕ) → ℕ × ℕ → Type 0
Has pairs p = (j : ℕ) × (get_elem? pairs j ≡ some p)

-- The index of a pair is its place, counted from `k`.
abbrev pub Coded : ℕ → List (ℕ × ℕ) → Type 0
Coded k [] = Unit
Coded k (p ∷ pairs) = (p.1 ≡ k) × Coded (suc k) pairs

Has-cons : (q : ℕ × ℕ) (l : List (ℕ × ℕ)) {p : ℕ × ℕ} → Has l p → Has (q ∷ l) p
Has-cons q l h = (suc h.0, h.1)

pub Has-Permᴰ : {l m : List (ℕ × ℕ)} {p : ℕ × ℕ} → Permᴰ l m → Has l p → Has m p
Has-Permᴰ Permᴰ.nil h = h
Has-Permᴰ (Permᴰ.cons e d) (zero, h) = (0, ap some (sym e) ∙ h)
Has-Permᴰ (Permᴰ.cons {b = b} {l₂ = l₂} e d) (suc j, h) = Has-cons b l₂ (Has-Permᴰ d (j, h))
Has-Permᴰ (Permᴰ.swap e f) (zero, h) = (1, ap some (sym e) ∙ h)
Has-Permᴰ (Permᴰ.swap e f) (suc zero, h) = (0, ap some (sym f) ∙ h)
Has-Permᴰ (Permᴰ.swap e f) (suc (suc j), h) = (suc (suc j), h)
Has-Permᴰ (Permᴰ.trans d e) h = Has-Permᴰ e (Has-Permᴰ d h)

Has-append : (l m : List (ℕ × ℕ)) {p : ℕ × ℕ} → Has l p → Has (l ++ m) p
Has-append l m (j, h) = (j, get_elem?-append_lt l m j (lt_of_get_elem? l j h) ∙ h)

find_index_lem : (l : List (ℕ × ℕ)) (x i : ℕ) → find_index l x ≡ some i → Has l (x, i)
unfolding find_index
find_index_lem [] x i h = cc
find_index_lem (p ∷ l) x i h = elim (Bool-cases (p.0 == x)) [
  | inl same ↦
      let here : some p.1 ≡ some i = rw (find_index, same) at h in
      let y : p.0 ≡ x = (==_iff p.0 x).0 same in (0, cc)
  | inr differ ↦ Has-cons p l (find_index_lem l x i (rw (find_index, differ) at h))
]

-- A pair of another index is not the first.
later :
    (p : ℕ × ℕ) (l : List (ℕ × ℕ)) (x i j : ℕ)
    → (p.1 == i) ≡ false
    → get_elem? (p ∷ l) j ≡ some (x, i)
    → Has l (x, i)
later p l x i zero differ h = let e : p.1 ≡ i = cc in absurd (ground (arith, e))
later p l x i (suc j) differ h = (j, h)

item_of_lem :
    (l : List (ℕ × ℕ)) (x i : ℕ)
    → ((a : ℕ) → Has l (a, i) → a ≡ x)
    → Has l (x, i)
    → item_of l i ≡ some x
unfolding item_of
item_of_lem [] x i only (j, h) = cc
item_of_lem (p ∷ l) x i only (j, h) = elim (Bool-cases (p.1 == i)) [
  | inl same ↦
      rw (item_of, same) (ap some (only p.0 (0, ap (λ k. some (p.0, k)) ((==_iff p.1 i).0 same))))
  | inr differ ↦
      rw (item_of, differ)
        (item_of_lem l x i (λ a e. only a (Has-cons p l e)) (later p l x i j differ h))
]

-- One step of the loop, as its two cases.
index_items_found :
    (l : List (ℕ × ℕ)) (n x : ℕ) (xs : List ℕ) {i : ℕ}
    → find_index l x ≡ some i
    → index_items l n (x ∷ xs) ≡ ((index_items l n xs).0, i ∷ (index_items l n xs).1)
unfolding index_items
index_items_found l n x xs h = rw (index_items, h)

index_items_new :
    (l : List (ℕ × ℕ)) (n x : ℕ) (xs : List ℕ)
    → find_index l x ≡ none
    → n + 1 < 2 ^ 32
    → index_items l n (x ∷ xs) ≡ (
      (index_items (l ++ (x, n) ∷ []) (suc n) xs).0,
      n ∷ (index_items (l ++ (x, n) ∷ []) (suc n) xs).1,
    )
unfolding index_items
index_items_new l n x xs h lt =
    let e : (n + 1) % 2 ^ 32 ≡ suc n = omega arith in rw (index_items, h, e)

Coded-append :
    (k : ℕ) (l : List (ℕ × ℕ)) (x n : ℕ) → n ≡ k + length l → Coded k l → Coded k (l ++ (x, n) ∷ [])
Coded-append k [] x n e c = (omega arith, tt)
Coded-append k (p ∷ l) x n e c = (c.0, Coded-append (suc k) l x n (omega arith) c.1)

pub Coded-index :
    (k : ℕ) (l : List (ℕ × ℕ)) (p : ℕ × ℕ) (j : ℕ)
    → Coded k l
    → get_elem? l j ≡ some p
    → p.1 ≡ k + j
Coded-index k [] p j c h = cc
Coded-index k (q ∷ l) p zero c h = let e : q.1 ≡ p.1 = cc in let f : q.1 ≡ k = c.0 in omega arith
Coded-index k (q ∷ l) p (suc j) c h =
    let e : p.1 ≡ suc k + j = Coded-index (suc k) l p j c.1 h in omega arith

All-append_one :
    {m : ℕ} (l : List (ℕ × ℕ)) (q : ℕ × ℕ)
    → All (λ p. p.0 < m) l
    → q.0 < m
    → All (λ p. p.0 < m) (l ++ q ∷ [])
All-append_one [] q a h = (h, tt)
All-append_one (p ∷ l) q a h = (a.0, All-append_one l q a.1 h)

-- Each index is paired with its item.
abbrev pub Named : List (ℕ × ℕ) → List ℕ → List ℕ → Type 0
Named pairs [] xs = (xs ≡ [])
Named pairs (i ∷ is) [] = (i ∷ is ≡ [])
Named pairs (i ∷ is) (x ∷ xs) = Has pairs (x, i) × Named pairs is xs

-- What the loop reaches from the dictionary `l`.
pub record Indexed (l : List (ℕ × ℕ)) (xs : List ℕ) (r : List (ℕ × ℕ) × List ℕ) : Type 0 where
  pub coded : Coded 0 r.0
  pub grown : (p : ℕ × ℕ) → Has l p → Has r.0 p
  pub named : Named r.0 r.1 xs
  pub bound : length r.0 ≤ length l + length xs
  pub fits : (m : ℕ) → All (λ p. p.0 < m) l → All (λ x. x < m) xs → All (λ p. p.0 < m) r.0

pub index_items-Indexed :
    (l : List (ℕ × ℕ)) (n : ℕ) (xs : List ℕ)
    → n ≡ length l
    → n + length xs < 2 ^ 32
    → Coded 0 l
    → Indexed l xs (index_items l n xs)
unfolding index_items
index_items-Indexed l n [] e lt c = record {
  coded = c;
  grown = λ p h. h;
  named = refl;
  bound = omega arith;
  fits = λ m a b. a;
}
index_items-Indexed l n (x ∷ xs) e lt c = elim (Option-cases (find_index l x)) [
  | inl new ↦
      let pairs = l ++ (x, n) ∷ [] in
      let rest =
        index_items-Indexed pairs (suc n) xs (omega (arith, length-append_one l (x, n)))
          (omega arith) (Coded-append 0 l x n (omega arith) c) in
      let here : get_elem? pairs (length l) ≡ some (x, n) = get_elem?-append l (x, n) [] in
      subst (λ r. Indexed l (x ∷ xs) r) (sym (index_items_new l n x xs new (omega arith)))
        (record {
          coded = rest.coded;
          grown = λ p h. rest.grown p (Has-append l ((x, n) ∷ []) h);
          named = (rest.grown (x, n) (length l, here), rest.named);
          bound = omega (arith, rest.bound, length-append_one l (x, n));
          fits = λ m a b. rest.fits m (All-append_one l (x, n) a b.0) b.1;
        })
  | inr (i, found) ↦
      let rest = index_items-Indexed l n xs e (omega arith) c in
      subst (λ r. Indexed l (x ∷ xs) r) (sym (index_items_found l n x xs found))
        (record {
          coded = rest.coded;
          grown = rest.grown;
          named = (rest.grown (x, i) (find_index_lem l x i found), rest.named);
          bound = omega (arith, rest.bound);
          fits = λ m a b. rest.fits m a b.1;
        })
]

pub Coded-unique : (d : List (ℕ × ℕ)) (a x i : ℕ) → Coded 0 d → Has d (a, i) → Has d (x, i) → a ≡ x
Coded-unique d a x i c (j, h) (k, g) =
    let e : i ≡ 0 + j = Coded-index 0 d (a, i) j c h in
    let f : i ≡ 0 + k = Coded-index 0 d (x, i) k c g in let same : j ≡ k = omega arith in cc

-- The items of the indices, in any order of the pairs.
pub items-Named :
    (d m : List (ℕ × ℕ)) (is xs : List ℕ)
    → Coded 0 d
    → Permᴰ d m
    → Named d is xs
    → map (item_of m) is ≡ map some xs
items-Named d m [] xs c perm h = ap (map some) (sym h)
items-Named d m (i ∷ is) [] c perm h = cc
items-Named d m (i ∷ is) (x ∷ xs) c perm h =
    let only : (a : ℕ) → Has m (a, i) → a ≡ x =
      λ a e. Coded-unique d a x i c (Has-Permᴰ (Permᴰ.symm perm) e) h.0 in
    let head : item_of m i ≡ some x = item_of_lem m x i only (Has-Permᴰ perm h.0) in
    rw (head, items-Named d m is xs c perm h.1)
