-- ===== src/Execution/RowKeys.antt =====
-- The keys that GROUP BY makes for the rows of a batch.
use columnar_engine.Base.{
  ℕ, zero, suc, ◌+◌, ◌≤◌, ◌<◌, ◌≡◌, ◌≢◌, ◌↔◌, sym, ap, ap₂, ◌∙◌, subst, Option, none, some, List,
  [], ◌∷◌, ◌++◌, arith, length, set, replicate, get_elem?-set_self, get_elem?-set_ne, append_assoc,
  append-nil, ok, at, >>=-eq-ok, of_option, ok-injective, inl, inr, Bool-cases, ◌==◌, true,
}
use columnar_engine.Base.Words.{Bytes}
use columnar_engine.Columns.Column.{Column, column_size}
use columnar_engine.Execution.Batch.{RecordBatch}
use columnar_engine.Execution.HashKeys.{key_part, selected, hash_from, hash_keys}
use columnar_engine.Execution.GroupBy.{composite_keys}
use columnar_engine.Execution.Tracked.{get_elem?-replicate}
use columnar_engine.Execution.Keys.{
  KeyValue, ValueAt, AreValues, encode_value, encode_key, encode_key_cancel, key_part-encode_value,
  lt_of_at, ValueAt-lt,
}

at-set_self : {A : Type 0} (xs : List A) (i : ℕ) (v : A) → i < length xs → at (set xs i v) i ≡ ok v
at-set_self xs i v lt = ap of_option (get_elem?-set_self xs i v lt)

at-set_ne : {A : Type 0} (xs : List A) (i j : ℕ) (v : A) → i ≢ j → at (set xs i v) j ≡ at xs j
at-set_ne xs i j v ne = ap of_option (get_elem?-set_ne xs v ne)

-- The loop leaves the keys before `i` as they are.
hash_from-below :
    (col : Column) (sel : Option (List ℕ)) (i left : ℕ) (keys : List Bytes) {out : List Bytes}
    (r : ℕ)
    → hash_from col sel i left keys ≡ ok out
    → r < i
    → at out r ≡ at keys r
unfolding hash_from
hash_from-below col sel i zero keys r e lt = ap (λ ks. at ks r) (sym (ok-injective e))
hash_from-below col sel i (suc left) keys r e lt =
    let (idx, e1, f1) = >>=-eq-ok (selected sel i) _ e in
    let (part, e2, f2) = >>=-eq-ok (key_part col idx) _ f1 in
    let (key, e3, f3) = >>=-eq-ok (at keys i) _ f2 in
    hash_from-below col sel (suc i) left (set keys i (key ++ part)) r f3 (omega arith)
    ∙ at-set_ne keys i r (key ++ part)
        (λ h. (let clash : 0 < 0 = omega (arith, h) in elim clash [ ]))

-- The key of a row that the loop comes to: the value of the column is appended.
hash_from-at :
    (col : Column) (sel : Option (List ℕ)) (i left : ℕ) (keys : List Bytes) {out : List Bytes}
    (r real : ℕ) (key part : Bytes)
    → hash_from col sel i left keys ≡ ok out
    → i ≤ r
    → r < i + left
    → selected sel r ≡ ok real
    → key_part col real ≡ ok part
    → at keys r ≡ ok key
    → at out r ≡ ok (key ++ part)
unfolding hash_from
hash_from-at col sel i zero keys r real key part e le lt s p a =
    (let clash : 0 < 0 = omega arith in elim clash [ ])
hash_from-at col sel i (suc left) keys {out} r real key part e le lt s p a =
    let (idx, e1, f1) = >>=-eq-ok (selected sel i) _ e in
    let (part', e2, f2) = >>=-eq-ok (key_part col idx) _ f1 in
    let (key', e3, f3) = >>=-eq-ok (at keys i) _ f2 in
    elim (Bool-cases (i == r)) [
      | inl h ↦
          let here : i ≡ r = ground arith in
          let idx_eq : idx ≡ real = ok-injective (sym e1 ∙ ap (selected sel) here ∙ s) in
          let part_eq : part' ≡ part = ok-injective (sym e2 ∙ ap (key_part col) idx_eq ∙ p) in
          let key_eq : key' ≡ key = ok-injective (sym e3 ∙ ap (at keys) here ∙ a) in
          ap (at out) (sym here)
          ∙ hash_from-below col sel (suc i) left (set keys i (key' ++ part')) i f3 (omega arith)
          ∙ at-set_self keys i (key' ++ part') (lt_of_at keys i e3)
          ∙ ap ok (ap₂ ◌++◌ key_eq part_eq)
      | inr h ↦
          let ne : i ≢ r = λ same. (let x : i == r ≡ true = ground arith in cc) in
          hash_from-at col sel (suc i) left (set keys i (key' ++ part')) r real key part f3
            (ground arith) (omega arith) s p (at-set_ne keys i r (key' ++ part') ne ∙ a)
    ]

hash_keys-at :
    (col : Column) (sel : Option (List ℕ)) (keys : List Bytes) {out : List Bytes} (r real : ℕ)
    (key : Bytes) {k : Option ℕ} {v : KeyValue}
    → hash_keys col keys sel ≡ ok out
    → selected sel r ≡ ok real
    → ValueAt k col real v
    → at keys r ≡ ok key
    → at out r ≡ ok (key ++ encode_value k v)
unfolding hash_keys selected
hash_keys-at col none keys r real key e s v a =
    hash_from-at col none 0 (column_size col) keys r real key _ e (omega arith)
      (omega (arith, ValueAt-lt v, ok-injective s)) s (key_part-encode_value v) a
hash_keys-at col (some sel) keys r real key e s v a =
    hash_from-at col (some sel) 0 (length sel) keys r real key _ e (omega arith)
      (omega (arith, lt_of_at sel r s)) s (key_part-encode_value v) a

-- The values of the columns at the indices, in row `real`.
abbrev pub ValuesAt : List (Option ℕ) → List Column → List ℕ → ℕ → List KeyValue → Type 0
ValuesAt [] columns [] real [] = Unit
ValuesAt (k ∷ ks) columns (i ∷ is) real (v ∷ vs) =
    ((column : Column) × (at columns i ≡ ok column) × ValueAt k column real v)
    × ValuesAt ks columns is real vs
ValuesAt _ columns _ real _ = ⊥

pub composite_keys-at :
    (batch : RecordBatch) (ks : List (Option ℕ)) (indices : List ℕ) (keys : List Bytes)
    {out : List Bytes} (r real : ℕ) (key : Bytes) (vs : List KeyValue)
    → composite_keys batch indices keys ≡ ok out
    → selected batch.selection_vector r ≡ ok real
    → ValuesAt ks batch.columns indices real vs
    → at keys r ≡ ok key
    → at out r ≡ ok (key ++ encode_key ks vs)
unfolding composite_keys
composite_keys-at batch [] [] keys r real key [] e s h a =
    ap (λ l. at l r) (sym (ok-injective e)) ∙ a ∙ ap ok (sym (append-nil key))
composite_keys-at batch [] [] keys r real key (v ∷ vs) e s h a = absurd h
composite_keys-at batch [] (i ∷ is) keys r real key vs e s h a = absurd h
composite_keys-at batch (k ∷ ks) [] keys r real key vs e s h a = absurd h
composite_keys-at batch (k ∷ ks) (i ∷ is) keys r real key [] e s h a = absurd h
composite_keys-at batch (k ∷ ks) (i ∷ is) keys r real key (v ∷ vs) e s ((column, at_i, value), rest)
      a =
    let (column', e1, f1) = >>=-eq-ok (at batch.columns i) _ e in
    let (next, e2, f2) = >>=-eq-ok (hash_keys column' keys batch.selection_vector) _ f1 in
    let same : column ≡ column' = ok-injective (sym at_i ∙ e1) in
    composite_keys-at batch ks is next r real _ vs f2 s rest (
      hash_keys-at column' batch.selection_vector keys r real key e2 s
        (subst (λ c. ValueAt k c real v) same value) a)
    ∙ ap ok (append_assoc key (encode_value k v) (encode_key ks vs))

-- Two rows, of the same batch or of two, have the same key when they have the same values in the columns
-- of the key, and only then.
pub composite_keys_iff :
    (ks : List (Option ℕ)) (indices indices' : List ℕ) (batch batch' : RecordBatch)
    (keys keys' : List Bytes) (r r' real real' : ℕ) (us vs : List KeyValue)
    → composite_keys batch indices (replicate batch.num_rows []) ≡ ok keys
    → composite_keys batch' indices' (replicate batch'.num_rows []) ≡ ok keys'
    → r < batch.num_rows
    → r' < batch'.num_rows
    → selected batch.selection_vector r ≡ ok real
    → selected batch'.selection_vector r' ≡ ok real'
    → ValuesAt ks batch.columns indices real us
    → ValuesAt ks batch'.columns indices' real' vs
    → AreValues ks us
    → AreValues ks vs
    → (at keys r ≡ at keys' r') ↔ (us ≡ vs)
composite_keys_iff ks indices indices' batch batch' keys keys' r r' real real' us vs e e' lt lt' s
      s' h h' are are' =
    let key : at keys r ≡ ok (encode_key ks us) =
      composite_keys-at batch ks indices _ r real [] us e s h
        (ap of_option (get_elem?-replicate batch.num_rows [] r lt)) in
    let key' : at keys' r' ≡ ok (encode_key ks vs) =
      composite_keys-at batch' ks indices' _ r' real' [] vs e' s' h'
        (ap of_option (get_elem?-replicate batch'.num_rows [] r' lt')) in
    (
      λ same. encode_key_cancel ks us vs are are' (ok-injective (sym key ∙ same ∙ key')),
      λ same. key ∙ ap (λ l. ok (encode_key ks l)) same ∙ sym key',
    )
