-- ===== src/Execution/Groups.antt =====
-- The ids of groups: equal keys have equal ids, and every id is in use.
use mathlib.Core.Bool.{true≢false}
use columnar_engine.Base.{
  length, ◌+◌, if◌then◌else◌, ℕ, suc, ◌≤◌, ◌<◌, ◌≡◌, ◌≢◌, ◌⊎◌, inl, inr, refl, sym, ap, ◌∙◌, Option,
  none, some, List, [], ◌∷◌, arith, All, ok, Bool-cases, ◌%◌, ◌^◌, get_elem?, subst,
}
use columnar_engine.Base.Words.{Bytes, bytes_eq, bytes_eq_iff}
use columnar_engine.Execution.HashKeys.{selected}
use columnar_engine.Execution.GroupBy.{HashMap, Grouping, group_rows}

-- The entries of a key.
abbrev pub with_key : Bytes → List (Bytes × ℕ) → List (Bytes × ℕ)
with_key k [] = []
with_key k (e ∷ es) = if bytes_eq e.0 k then e ∷ with_key k es else with_key k es

-- What a map of the kind of `absl::flat_hash_map` does.
pub record IsMap {Map : Type 0} (map : HashMap Map) : Type 0 where
  pub find_empty : (k : Bytes) → map.find map.empty k ≡ none
  pub find_insert : (m : Map) (k : Bytes) (g : ℕ) → map.find (map.insert m k g) k ≡ some g
  pub find_insert_ne :
      (m : Map) (k k' : Bytes) (g : ℕ) → k ≢ k' → map.find (map.insert m k g) k' ≡ map.find m k'
  pub entries_sound : (m : Map) → All (λ e. map.find m e.0 ≡ some e.1) (map.entries m)
  pub entries_found :
      (m : Map) (k : Bytes) (g : ℕ)
      → map.find m k ≡ some g
      → with_key k (map.entries m) ≡ (k, g) ∷ []
  pub entries_missing :
      (m : Map) (k : Bytes) → map.find m k ≡ none → with_key k (map.entries m) ≡ []
  pub count_empty : length (map.entries map.empty) ≡ 0
  pub count_insert :
      (m : Map) (k : Bytes) (g : ℕ)
      → map.find m k ≡ none
      → length (map.entries (map.insert m k g)) ≡ suc (length (map.entries m))

pub same_key : (k k' : Bytes) → (k ≡ k') ⊎ (k ≢ k')
same_key k k' = elim (Bool-cases (bytes_eq k k')) [
  | inl e ↦ inl ((bytes_eq_iff k k').0 e)
  | inr e ↦ inr (λ h. true≢false (sym ((bytes_eq_iff k k').1 h) ∙ e))
]

pub Option-cases : {A : Type 0} (o : Option A) → (o ≡ none) ⊎ ((a : A) × (o ≡ some a))
Option-cases none = inl refl
Option-cases (some a) = inr (a, refl)

-- The rows from `i` on can be selected, and have their keys.
abbrev pub Selects : (ℕ → Bytes → Type 0) → Option (List ℕ) → ℕ → List Bytes → Type 0
Selects P sel i [] = Unit
Selects P sel i (k ∷ ks) =
    ((real : ℕ) × (selected sel i ≡ ok real) × P real k) × Selects P sel (suc i) ks

clash : {n g : ℕ} → n ≡ g → g < n → ⊥
clash e h = omega arith

pub some-eq : {A : Type 0} {m n : A} → some m ≡ some n → m ≡ n
some-eq h = cc

module _ {Map : Type 0} (map : HashMap Map) where
  -- The ids are below `n`, different keys have different ids, and there are `n` keys.
  pub record IsNumbered (table : Map) (n : ℕ) : Type 0 where
    pub below : (k : Bytes) (g : ℕ) → map.find table k ≡ some g → g < n
    pub injective :
        (k k' : Bytes) (g : ℕ) → map.find table k ≡ some g → map.find table k' ≡ some g → k ≡ k'
    pub counted : length (map.entries table) ≡ n

  -- A table with more keys, whose ids are from `n` on.
  pub record Extends (table next : Map) (n : ℕ) : Type 0 where
    pub old : (k : Bytes) (g : ℕ) → map.find table k ≡ some g → map.find next k ≡ some g
    pub new : (k : Bytes) (g : ℕ) → map.find next k ≡ some g → map.find table k ≡ none → n ≤ g

  -- The id of every key.
  abbrev pub Ids : Map → List Bytes → List ℕ → Type 0
  Ids table [] [] = Unit
  Ids table (k ∷ ks) (g ∷ gs) = (map.find table k ≡ some g) × Ids table ks gs
  Ids table _ _ = ⊥

  -- A key that is new has its id by its place among the rows that made a group.
  abbrev pub Placed : (ℕ → Bytes → Type 0) → ℕ → List ℕ → Bytes → ℕ → Type 0
  Placed P n rows k g =
      (j : ℕ) × (g ≡ n + j) × (real : ℕ) × (get_elem? rows j ≡ some real) × P real k

  pub record Groups (P : ℕ → Bytes → Type 0) (table : Map) (n : ℕ) (keys : List Bytes)
      (r : Grouping Map) : Type 0 where
    pub numbered : IsNumbered r.table r.groups
    pub grown : length r.new_group_indices + n ≡ r.groups
    pub extends : Extends table r.table n
    pub ids : Ids r.table keys r.group_ids
    pub readable : All (λ real. (k : Bytes) × P real k) r.new_group_indices
    pub few : r.groups ≤ length keys + n
    pub placed :
        (k : Bytes) (g : ℕ)
        → map.find r.table k ≡ some g
        → map.find table k ≡ none
        → Placed P n r.new_group_indices k g

module _ {Map : Type 0} {map : HashMap Map} (law : IsMap map) where
  pub find_insert-cases :
      (table : Map) (key : Bytes) (n : ℕ) (k : Bytes) (g : ℕ)
      → map.find (map.insert table key n) k ≡ some g
      → ((key ≡ k) × (n ≡ g)) ⊎ (map.find table k ≡ some g)
  find_insert-cases table key n k g e = elim (same_key key k) [
    | inl same ↦ inl (
      same,
      some-eq (sym (law.find_insert table key n) ∙ ap (map.find (map.insert table key n)) same ∙ e),
    )
    | inr ne ↦ inr (sym (law.find_insert_ne table key k n ne) ∙ e)
  ]

  pub insert-IsNumbered :
      (table : Map) (n : ℕ) (key : Bytes)
      → IsNumbered map table n
      → map.find table key ≡ none
      → IsNumbered map (map.insert table key n) (suc n)
  insert-IsNumbered table n key h fresh = record {
    below = λ k g e. elim (find_insert-cases table key n k g e) [
      | inl (_, e') ↦ omega arith
      | inr e' ↦ omega (arith, h.below k g e')
    ];
    injective = λ k k' g e e'. elim (find_insert-cases table key n k g e) [
      | inl (same, eq) ↦ elim (find_insert-cases table key n k' g e') [
        | inl (same', eq') ↦ sym same ∙ same'
        | inr old' ↦ absurd (clash eq (h.below k' g old'))
      ]
      | inr old ↦ elim (find_insert-cases table key n k' g e') [
        | inl (same', eq') ↦ absurd (clash eq' (h.below k g old))
        | inr old' ↦ h.injective k k' g old old'
      ]
    ];
    counted = law.count_insert table key n fresh ∙ ap suc h.counted;
  }

  pub insert-Extends :
      (table next : Map) (n : ℕ) (key : Bytes)
      → map.find table key ≡ none
      → Extends map (map.insert table key n) next (suc n)
      → Extends map table next n
  insert-Extends table next n key fresh h = record {
    old = λ k g e. elim (same_key key k) [
      | inl same ↦ (let clash : none ≡ some g = sym fresh ∙ ap (map.find table) same ∙ e in cc)
      | inr ne ↦ h.old k g (law.find_insert_ne table key k n ne ∙ e)
    ];
    new = λ k g e unused. elim (same_key key k) [
      | inl same ↦ omega (
        arith,
        some-eq (
            sym (
              h.old k n
                (ap (map.find (map.insert table key n)) (sym same) ∙ law.find_insert table key n))
            ∙ e),
      )
      | inr ne ↦ omega (arith, h.new k g e (law.find_insert_ne table key k n ne ∙ unused))
    ];
  }

  -- The row that makes a group for `key`, with those that follow it.
  Placed-next :
      (P : ℕ → Bytes → Type 0) (table next : Map) (n real : ℕ) (key : Bytes) (rows : List ℕ)
      → P real key
      → Extends map (map.insert table key n) next (suc n)
      → ((k : Bytes) (g : ℕ)
          → map.find next k ≡ some g
          → map.find (map.insert table key n) k ≡ none
          → Placed map P (suc n) rows k g)
      → (k : Bytes) (g : ℕ) → map.find next k ≡ some g
      → map.find table k ≡ none
      → Placed map P n (real ∷ rows) k g
  Placed-next P table next n real key rows p ext later k g e unused = elim (same_key key k) [
    | inl same ↦
        let it : n ≡ g = some-eq (
          sym (
            ext.old k n
              (ap (map.find (map.insert table key n)) (sym same) ∙ law.find_insert table key n))
          ∙ e) in
        (0, omega (arith, it), real, refl, subst (P real) same p)
    | inr ne ↦
        let (j, at_j, real', found, p') =
          later k g e (law.find_insert_ne table key k n ne ∙ unused) in
        (suc j, omega (arith, at_j), real', found, p')
  ]

  -- The loop over the rows, as long as the ids have 32 bits.
  pub group_rows-Groups :
      (P : ℕ → Bytes → Type 0) (sel : Option (List ℕ)) (table : Map) (n i : ℕ) (keys : List Bytes)
      → IsNumbered map table n
      → n + length keys ≤ 2 ^ 32
      → Selects P sel i keys
      → (r : Grouping Map) × (group_rows map sel table n i keys ≡ ok r)
        × Groups map P table n keys r
  unfolding group_rows
  group_rows-Groups P sel table n i [] h small s = (
    _,
    refl,
    record {
      numbered = h;
      grown = omega arith;
      extends = record { old = λ k g e. e; new = λ k g e e'. cc };
      ids = tt;
      readable = tt;
      few = omega arith;
      placed = λ k g e e'. (let both : none ≡ some g = sym e' ∙ e in cc);
    },
  )
  group_rows-Groups P sel table n i (key ∷ keys) h small ((real, select, p), s) =
      elim (Option-cases (map.find table key)) [
        | inl e ↦
            let (r, run, g) =
              group_rows-Groups P sel (map.insert table key n) (suc n) (suc i) keys
                (insert-IsNumbered table n key h e) (omega arith) s in
            let fits : n % 2 ^ 32 ≡ n = omega arith in
            (
              record r {
                group_ids = n ∷ r.group_ids;
                new_group_indices = real ∷ r.new_group_indices;
              },
              rw (e, group_rows, fits, select, run) refl,
              record {
                numbered = g.numbered;
                grown = omega (arith, g.grown);
                extends = insert-Extends table r.table n key e g.extends;
                ids = (g.extends.old key n (law.find_insert table key n), g.ids);
                readable = ((key, p), g.readable);
                few = omega (arith, g.few);
                placed =
                    Placed-next P table r.table n real key r.new_group_indices p g.extends g.placed;
              },
            )
        | inr (gid, e) ↦
            let (r, run, g) = group_rows-Groups P sel table n (suc i) keys h (omega arith) s in
            (
              record r { group_ids = gid ∷ r.group_ids },
              rw (e, group_rows, run) refl,
              record {
                numbered = g.numbered;
                grown = g.grown;
                extends = g.extends;
                ids = (g.extends.old key gid e, g.ids);
                readable = g.readable;
                few = omega (arith, g.few);
                placed = g.placed;
              },
            )
      ]
