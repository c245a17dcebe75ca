-- ===== src/Execution/Tracked.antt =====
-- The rows that the groups of a thread have seen, against the rows of each key.
use columnar_engine.Base.{
  ℕ, zero, suc, ◌+◌, ◌-◌, ◌≤◌, ◌<◌, ◌≡◌, ◌≢◌, inl, inr, refl, sym, ap, ap₂, fun_ext, ◌∙◌, subst,
  none, some, List, [], ◌∷◌, ◌++◌, arith, length, set, get_elem?, replicate, length-append,
  length-replicate, length-set, get_elem?-append_lt, get_elem?-set_self, get_elem?-set_ne,
  lt_of_get_elem?, append_assoc, append-nil, Bool, true, false, Bool-cases,
}
use columnar_engine.Base.Words.{Bytes, bytes_eq, bytes_eq_iff}
use columnar_engine.Execution.Batch.{RecordBatch}
use columnar_engine.Execution.GroupBy.{HashMap}
use columnar_engine.Execution.Groups.{IsNumbered, Extends, Ids, Option-cases, some-eq, same_key}

-- Row number `i` of a batch.
abbrev pub Row : Type 0
Row = RecordBatch × ℕ

-- Groups, new ones without rows.
abbrev pub pad : List (List Row) → ℕ → List (List Row)
pad rs n = rs ++ replicate (n - length rs) []

abbrev pub rows_of : List (List Row) → ℕ → List Row
rows_of [] g = []
rows_of (r ∷ rs) zero = r
rows_of (r ∷ rs) (suc g) = rows_of rs g

-- The rows of a batch from `i` on, each to its group.
abbrev pub add_rows : List (List Row) → RecordBatch → ℕ → List ℕ → List (List Row)
add_rows rs batch i [] = rs
add_rows rs batch i (g ∷ ids) =
    add_rows (set rs g (rows_of rs g ++ (batch, i) ∷ [])) batch (suc i) ids

-- The rows from `i` on with a key.
abbrev pub all_if : Bool → List Row → List Row
all_if true rows = rows
all_if false rows = []

abbrev pub rows_with : Bytes → RecordBatch → ℕ → List Bytes → List Row
rows_with k batch i [] = []
rows_with k batch i (key ∷ keys) =
    all_if (bytes_eq key k) ((batch, i) ∷ []) ++ rows_with k batch (suc i) keys

pub rows_of-get_elem? :
    (rs : List (List Row)) (g : ℕ) {r : List Row} → get_elem? rs g ≡ some r → rows_of rs g ≡ r
rows_of-get_elem? [] g e = cc
rows_of-get_elem? (r ∷ rs) zero e = cc
rows_of-get_elem? (r ∷ rs) (suc g) e = rows_of-get_elem? rs g e

pub get_elem?-replicate :
    {A : Type 0} (n : ℕ) (a : A) (g : ℕ) → g < n → get_elem? (replicate n a) g ≡ some a
get_elem?-replicate zero a g h = elim h [ ]
get_elem?-replicate (suc n) a zero h = refl
get_elem?-replicate (suc n) a (suc g) h = get_elem?-replicate n a g (omega arith)

get_elem?-pad :
    (rs : List (List Row)) (n g : ℕ) → length rs ≤ g → g < n → get_elem? (pad rs n) g ≡ some []
get_elem?-pad [] n g le lt =
    ap (λ k. get_elem? (replicate k []) g) (omega arith) ∙ get_elem?-replicate n [] g lt
get_elem?-pad (r ∷ rs) n zero le lt = elim le [ ]
get_elem?-pad (r ∷ rs) n (suc g) le lt =
    ap (λ k. get_elem? (rs ++ replicate k []) g) (omega arith)
    ∙ get_elem?-pad rs (n - 1) g (omega arith) (omega arith)

pub length-pad : (rs : List (List Row)) (n : ℕ) → length rs ≤ n → length (pad rs n) ≡ n
length-pad rs n h =
    length-append rs (replicate (n - length rs) [])
    ∙ ap (λ k. length rs + k) (length-replicate (n - length rs) [])
    ∙ omega arith

pub bytes_eq_self : (k : Bytes) → bytes_eq k k ≡ true
bytes_eq_self k = (bytes_eq_iff k k).1 refl

pub bytes_eq_ne : {k k' : Bytes} → k ≢ k' → bytes_eq k k' ≡ false
bytes_eq_ne {k} {k'} ne = elim (Bool-cases (bytes_eq k k')) [
  | inl e ↦ absurd (ne ((bytes_eq_iff k k').0 e))
  | inr e ↦ e
]

module _ {Map : Type 0} (map : HashMap Map) where
  -- The group of a key has seen the rows of the key; a key without a group has no rows.
  pub record Tracks (table : Map) (n : ℕ) (rs : List (List Row)) (vals : Bytes → List Row)
      : Type 0 where
    pub sized : length rs ≡ n
    pub tracked : (k : Bytes) (g : ℕ) → map.find table k ≡ some g → get_elem? rs g ≡ some (vals k)
    pub unseen : (k : Bytes) → map.find table k ≡ none → vals k ≡ []

  pub pad-Tracks :
      {table next : Map} {n n' : ℕ} {rs : List (List Row)} {vals : Bytes → List Row}
      → Tracks table n rs vals
      → Extends map table next n
      → IsNumbered map next n'
      → n ≤ n'
      → Tracks next n' (pad rs n') vals
  pad-Tracks {table = table} {n' = n'} {rs = rs} {vals = vals} h ext numbered le = record {
    sized = length-pad rs n' (omega (arith, h.sized));
    tracked = λ k g e. elim (Option-cases (map.find table k)) [
      | inl fresh ↦
          get_elem?-pad rs n' g (omega (arith, h.sized, ext.new k g e fresh)) (numbered.below k g e)
          ∙ ap some (sym (h.unseen k fresh))
      | inr (g', e') ↦
          let same : g' ≡ g = some-eq (sym (ext.old k g' e') ∙ e) in
          let found : get_elem? rs g ≡ some (vals k) = h.tracked k g (e' ∙ ap some same) in
          get_elem?-append_lt rs (replicate (n' - length rs) []) g (lt_of_get_elem? rs g found)
          ∙ found
    ];
    unseen = λ k e. elim (Option-cases (map.find table k)) [
      | inl fresh ↦ h.unseen k fresh
      | inr (g', e') ↦ (let both : none ≡ some g' = sym e ∙ ext.old k g' e' in cc)
    ];
  }

  -- Rows are added to the group of their key.
  pub add_to-Tracks :
      {table : Map} {n : ℕ} {rs : List (List Row)} {vals : Bytes → List Row} (key : Bytes) (g : ℕ)
      (extra : List Row)
      → IsNumbered map table n
      → map.find table key ≡ some g
      → Tracks table n rs vals
      → Tracks table n
          (set rs g (rows_of rs g ++ extra))
          (λ k. vals k ++ all_if (bytes_eq key k) extra)
  add_to-Tracks {table = table} {n} {rs} {vals} key g extra numbered e h =
      let other : (k : Bytes) → key ≢ k → vals k ++ all_if (bytes_eq key k) extra ≡ vals k =
        λ k ne. ap (λ b. vals k ++ all_if b extra) (bytes_eq_ne ne) ∙ append-nil (vals k) in
      record {
        sized = length-set rs g _ ∙ h.sized;
        tracked = λ k g' e'. elim (same_key key k) [
          | inl same ↦
              let id : g' ≡ g = some-eq (sym e' ∙ sym (ap (map.find table) same) ∙ e) in
              let found : get_elem? rs g ≡ some (vals k) =
                h.tracked k g (sym (ap (map.find table) same) ∙ e) in
              ap (get_elem? (set rs g (rows_of rs g ++ extra))) id
              ∙ get_elem?-set_self rs g _ (lt_of_get_elem? rs g found)
              ∙ ap some (
                  ap₂ (λ r b. r ++ all_if b extra) (rows_of-get_elem? rs g found)
                    (sym ((bytes_eq_iff key k).1 same)))
          | inr ne ↦
              get_elem?-set_ne rs _ (λ eq. ne (numbered.injective key k g' (e ∙ ap some eq) e'))
              ∙ h.tracked k g' e'
              ∙ ap some (sym (other k ne))
        ];
        unseen = λ k e'.
            let ne : key ≢ k =
              λ same. let both : some g ≡ none = sym e ∙ ap (map.find table) same ∙ e' in cc in
            other k ne ∙ h.unseen k e';
      }

  pub add_rows-Tracks :
      {table : Map} {n : ℕ} (batch : RecordBatch) (i : ℕ) (keys : List Bytes) (ids : List ℕ)
      {rs : List (List Row)} {vals : Bytes → List Row}
      → IsNumbered map table n
      → Ids map table keys ids
      → Tracks table n rs vals
      → Tracks table n (add_rows rs batch i ids) (λ k. vals k ++ rows_with k batch i keys)
  add_rows-Tracks batch i [] [] {vals = vals} numbered ids h =
      subst (Tracks _ _ _) (fun_ext (λ k. sym (append-nil (vals k)))) h
  add_rows-Tracks batch i [] (g ∷ gs) numbered ids h = absurd ids
  add_rows-Tracks batch i (key ∷ keys) [] numbered ids h = absurd ids
  add_rows-Tracks batch i (key ∷ keys) (g ∷ gs) {vals = vals} numbered ids h =
      subst (Tracks _ _ _) (fun_ext (λ k. append_assoc (vals k) _ _)) (
        add_rows-Tracks batch (suc i) keys gs numbered ids.1
          (add_to-Tracks key g ((batch, i) ∷ []) numbered ids.0 h))
