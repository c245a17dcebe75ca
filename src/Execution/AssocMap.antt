-- ===== src/Execution/AssocMap.antt =====
-- An association list that is a map of the kind of `absl::flat_hash_map`.
use mathlib.Core.Bool.{true≢false}
use columnar_engine.Base.{
  ap, ap₂, length, suc, All, true, ℕ, ◌≡◌, ◌≢◌, refl, sym, ◌∙◌, Bool-cases, Option, none, some,
  List, [], ◌∷◌, if◌then◌else◌, inl, inr,
}
use columnar_engine.Base.Words.{Bytes, bytes_eq, bytes_eq_iff}
use columnar_engine.Execution.GroupBy.{HashMap}
use columnar_engine.Execution.Groups.{IsMap, with_key, same_key, some-eq}
use columnar_engine.Execution.Tracked.{bytes_eq_self, bytes_eq_ne}

abbrev pub Entries : Type 0
Entries = List (Bytes × ℕ)

abbrev pub find_entry : Entries → Bytes → Option ℕ
find_entry [] k = none
find_entry (e ∷ es) k = if bytes_eq e.0 k then some e.1 else find_entry es k

abbrev remove_entry : Entries → Bytes → Entries
remove_entry [] k = []
remove_entry (e ∷ es) k = if bytes_eq e.0 k then remove_entry es k else e ∷ remove_entry es k

abbrev list_entries : Entries → Entries
list_entries [] = []
list_entries (e ∷ es) = e ∷ remove_entry (list_entries es) e.0

abbrev pub assoc_map : HashMap Entries
assoc_map = record {
  empty = [];
  find = find_entry;
  insert = λ m k g. (k, g) ∷ remove_entry m k;
  entries = list_entries;
}

find-remove_entry :
    (m : Entries) (k k' : Bytes) → k ≢ k' → find_entry (remove_entry m k) k' ≡ find_entry m k'
find-remove_entry [] k k' ne = refl
find-remove_entry (e ∷ es) k k' ne = elim (Bool-cases (bytes_eq e.0 k)) [
  | inl eq ↦
      let other : e.0 ≢ k' = λ h. ne (sym ((bytes_eq_iff e.0 k).0 eq) ∙ h) in
      rw (eq, bytes_eq_ne other) (find-remove_entry es k k' ne)
  | inr ne1 ↦ elim (Bool-cases (bytes_eq e.0 k')) [
    | inl eq' ↦ rw (ne1, eq') refl
    | inr ne2 ↦ rw (ne1, ne2) (find-remove_entry es k k' ne)
  ]
]

with_key-remove_entry : (k : Bytes) (m : Entries) → with_key k (remove_entry m k) ≡ []
with_key-remove_entry k [] = refl
with_key-remove_entry k (e ∷ es) = elim (Bool-cases (bytes_eq e.0 k)) [
  | inl eq ↦ rw eq (with_key-remove_entry k es)
  | inr ne ↦ rw (ne, ne) (with_key-remove_entry k es)
]

with_key-remove_entry_ne :
    (k k' : Bytes) (m : Entries) → k' ≢ k → with_key k (remove_entry m k') ≡ with_key k m
with_key-remove_entry_ne k k' [] ne = refl
with_key-remove_entry_ne k k' (e ∷ es) ne = elim (Bool-cases (bytes_eq e.0 k')) [
  | inl eq ↦
      let other : e.0 ≢ k = λ h. ne (sym ((bytes_eq_iff e.0 k').0 eq) ∙ h) in
      rw (eq, bytes_eq_ne other) (with_key-remove_entry_ne k k' es ne)
  | inr ne1 ↦ elim (Bool-cases (bytes_eq e.0 k)) [
    | inl eq ↦ rw (ne1, eq) (ap (◌∷◌ e) (with_key-remove_entry_ne k k' es ne))
    | inr ne2 ↦ rw (ne1, ne2) (with_key-remove_entry_ne k k' es ne)
  ]
]

-- The pairs of a list, once for each key.
list_entries_found :
    (m : Entries) (k : Bytes) (g : ℕ)
    → find_entry m k ≡ some g
    → with_key k (list_entries m) ≡ (k, g) ∷ []
list_entries_found [] k g h = cc
list_entries_found (e ∷ es) k g h = elim (same_key e.0 k) [
  | inl same ↦
      let hit : bytes_eq e.0 k ≡ true = (bytes_eq_iff e.0 k).1 same in
      let value : e.1 ≡ g = some-eq (rw hit at h) in
      rw hit (
        ap₂ ◌∷◌ (ap₂ (λ a b. (a, b)) same value) (
          ap (λ x. with_key x (remove_entry (list_entries es) e.0)) (sym same)
          ∙ with_key-remove_entry e.0 (list_entries es)))
  | inr ne ↦ rw (bytes_eq_ne ne) (
      with_key-remove_entry_ne k e.0 (list_entries es) ne
      ∙ list_entries_found es k g (rw (bytes_eq_ne ne) at h))
]

list_entries_missing :
    (m : Entries) (k : Bytes) → find_entry m k ≡ none → with_key k (list_entries m) ≡ []
list_entries_missing [] k h = refl
list_entries_missing (e ∷ es) k h = elim (Bool-cases (bytes_eq e.0 k)) [
  | inl eq ↦ (let both : some e.1 ≡ none = rw eq at h in cc)
  | inr ne ↦
      let other : e.0 ≢ k = λ same. true≢false (sym ((bytes_eq_iff e.0 k).1 same) ∙ ne) in
      rw ne (
        with_key-remove_entry_ne k e.0 (list_entries es) other
        ∙ list_entries_missing es k (rw ne at h))
]

remove_entry_sound :
    (e : Bytes × ℕ) (es m : Entries)
    → All (λ x. find_entry es x.0 ≡ some x.1) m
    → All (λ x. find_entry (e ∷ es) x.0 ≡ some x.1) (remove_entry m e.0)
remove_entry_sound e es [] h = tt
remove_entry_sound e es (x ∷ m) h = elim (same_key e.0 x.0) [
  | inl same ↦
      let hit : bytes_eq x.0 e.0 ≡ true = (bytes_eq_iff x.0 e.0).1 (sym same) in
      rw hit (remove_entry_sound e es m h.1)
  | inr ne ↦
      rw (bytes_eq_ne (λ s. ne (sym s))) (rw (bytes_eq_ne ne) h.0, remove_entry_sound e es m h.1)
]

list_entries_sound : (m : Entries) → All (λ x. find_entry m x.0 ≡ some x.1) (list_entries m)
list_entries_sound [] = tt
list_entries_sound (e ∷ es) =
    (rw (bytes_eq_self e.0) refl, remove_entry_sound e es (list_entries es) (list_entries_sound es))

-- A key that is not there is not removed.
remove_entry_absent : (k : Bytes) (m : Entries) → with_key k m ≡ [] → remove_entry m k ≡ m
remove_entry_absent k [] h = refl
remove_entry_absent k (e ∷ es) h = elim (Bool-cases (bytes_eq e.0 k)) [
  | inl eq ↦ (let both : e ∷ with_key k es ≡ [] = rw eq at h in cc)
  | inr ne ↦ rw ne (ap (◌∷◌ e) (remove_entry_absent k es (rw ne at h)))
]

with_key_absent : (m : Entries) (k : Bytes) → find_entry m k ≡ none → with_key k m ≡ []
with_key_absent [] k h = refl
with_key_absent (e ∷ es) k h = elim (Bool-cases (bytes_eq e.0 k)) [
  | inl eq ↦ (let both : some e.1 ≡ none = rw eq at h in cc)
  | inr ne ↦ rw ne (with_key_absent es k (rw ne at h))
]

count_insert_lem :
    (m : Entries) (k : Bytes) (g : ℕ)
    → find_entry m k ≡ none
    → length (list_entries ((k, g) ∷ remove_entry m k)) ≡ suc (length (list_entries m))
count_insert_lem m k g h =
    ap (λ l. suc (length (remove_entry (list_entries l) k)))
      (remove_entry_absent k m (with_key_absent m k h))
    ∙ ap (λ l. suc (length l)) (remove_entry_absent k (list_entries m) (list_entries_missing m k h))

pub assoc_map-IsMap : IsMap assoc_map
assoc_map-IsMap = record {
  find_empty = λ k. refl;
  count_empty = refl;
  count_insert = count_insert_lem;
  find_insert = λ m k g. rw (bytes_eq_self k) refl;
  entries_sound = list_entries_sound;
  entries_found = list_entries_found;
  entries_missing = list_entries_missing;
  find_insert_ne = λ m k k' g ne. rw (bytes_eq_ne ne) (find-remove_entry m k k' ne);
}
