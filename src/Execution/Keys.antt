-- ===== src/Execution/Keys.antt =====
-- The bytes of a key stand for the values of its columns, and for no others.
use columnar_engine.Base.{
  ℕ, zero, suc, ◌^◌, ◌<◌, ◌≡◌, refl, sym, ap, ap₂, ◌∙◌, Option, none, some, List, [], ◌∷◌, ◌++◌,
  arith, length, append_assoc, ok, at, >>=-eq-ok,
}
use columnar_engine.Base.Words.{Bytes, to_bytes, of_bytes, length-to_bytes, of_bytes-to_bytes}
use columnar_engine.Strings.Flat.{get_string, size}
use columnar_engine.Types.ColumnTypes.{elem_size}
use columnar_engine.Columns.Column.{Column, fixed, strings, column_size}
use columnar_engine.Execution.HashKeys.{key_part}

-- A value of a column of words, or of strings.
pub data KeyValue : Type 0 where
  word : ℕ → KeyValue
  text : Bytes → KeyValue

-- The values of columns whose words have `w` bytes, and of strings.
abbrev pub IsValue : Option ℕ → KeyValue → Type 0
IsValue (some w) (word x) = x < 256 ^ w
IsValue none (text s) = length s < 256 ^ 8
IsValue _ _ = ⊥

abbrev pub encode_value : Option ℕ → KeyValue → Bytes
encode_value (some w) (word x) = to_bytes w x
encode_value none (text s) = to_bytes 8 (length s) ++ s
encode_value _ _ = []

append_cancel :
    {A : Type 0} (xs ys zs ws : List A)
    → length xs ≡ length ys
    → xs ++ zs ≡ ys ++ ws
    → (xs ≡ ys) × (zs ≡ ws)
append_cancel [] [] zs ws l e = (refl, e)
append_cancel [] (y ∷ ys) zs ws l e = cc
append_cancel (x ∷ xs) [] zs ws l e = cc
append_cancel (x ∷ xs) (y ∷ ys) zs ws l e =
    let tails : xs ++ zs ≡ ys ++ ws = cc in
    let heads : x ≡ y = cc in
    let (same, rest) = append_cancel xs ys zs ws (omega arith) tails in (ap₂ ◌∷◌ heads same, rest)

to_bytes_cancel :
    (w x y : ℕ) (zs ws : Bytes)
    → x < 256 ^ w
    → y < 256 ^ w
    → to_bytes w x ++ zs ≡ to_bytes w y ++ ws
    → (x ≡ y) × (zs ≡ ws)
to_bytes_cancel w x y zs ws lt lt' e =
    let (same, rest) =
      append_cancel (to_bytes w x) (to_bytes w y) zs ws
        (length-to_bytes w x ∙ sym (length-to_bytes w y)) e in
    (sym (of_bytes-to_bytes w x lt) ∙ ap of_bytes same ∙ of_bytes-to_bytes w y lt', rest)

encode_value_cancel :
    (k : Option ℕ) (u v : KeyValue) (zs ws : Bytes)
    → IsValue k u
    → IsValue k v
    → encode_value k u ++ zs ≡ encode_value k v ++ ws
    → (u ≡ v) × (zs ≡ ws)
encode_value_cancel (some w) (word x) (word y) zs ws h h' e =
    let (same, rest) = to_bytes_cancel w x y zs ws h h' e in (ap word same, rest)
encode_value_cancel (some w) (word x) (text s) zs ws h h' e = absurd h'
encode_value_cancel (some w) (text s) v zs ws h h' e = absurd h
encode_value_cancel none (word x) v zs ws h h' e = absurd h
encode_value_cancel none (text s) (word y) zs ws h h' e = absurd h'
encode_value_cancel none (text s) (text r) zs ws h h' e =
    let (lengths, rest) = to_bytes_cancel 8 (length s) (length r) (s ++ zs) (r ++ ws) h h' (
      sym (append_assoc (to_bytes 8 (length s)) s zs)
      ∙ e
      ∙ append_assoc (to_bytes 8 (length r)) r ws) in
    let (same, rest') = append_cancel s r zs ws lengths rest in (ap text same, rest')

-- The values of a key, by the kinds of its columns.
abbrev pub AreValues : List (Option ℕ) → List KeyValue → Type 0
AreValues [] [] = Unit
AreValues (k ∷ ks) (v ∷ vs) = IsValue k v × AreValues ks vs
AreValues _ _ = ⊥

abbrev pub encode_key : List (Option ℕ) → List KeyValue → Bytes
encode_key (k ∷ ks) (v ∷ vs) = encode_value k v ++ encode_key ks vs
encode_key _ _ = []

pub encode_key_cancel :
    (ks : List (Option ℕ)) (us vs : List KeyValue)
    → AreValues ks us
    → AreValues ks vs
    → encode_key ks us ≡ encode_key ks vs
    → us ≡ vs
encode_key_cancel [] [] [] h h' e = refl
encode_key_cancel [] (u ∷ us) vs h h' e = absurd h
encode_key_cancel [] [] (v ∷ vs) h h' e = absurd h'
encode_key_cancel (k ∷ ks) [] vs h h' e = absurd h
encode_key_cancel (k ∷ ks) (u ∷ us) [] h h' e = absurd h'
encode_key_cancel (k ∷ ks) (u ∷ us) (v ∷ vs) h h' e =
    let (same, rest) = encode_value_cancel k u v _ _ h.0 h'.0 e in
    ap₂ ◌∷◌ same (encode_key_cancel ks us vs h.1 h'.1 rest)

-- The value of a column at a row.
pub data ValueAt : Option ℕ → Column → ℕ → KeyValue → Type 0 where
  text_at :
      {v : _} {i : ℕ} (s : Bytes) → get_string v i ≡ ok s → ValueAt none (strings v) i (text s)
  word_at :
      {t : _} {ws : List ℕ} {i : ℕ} (w x : ℕ)
      → elem_size t ≡ some w
      → at ws i ≡ ok x
      → ValueAt (some w) (fixed t ws) i (word x)

pub key_part-encode_value :
    {k : Option ℕ} {c : Column} {i : ℕ} {v : KeyValue}
    → ValueAt k c i v
    → key_part c i ≡ ok (encode_value k v)
unfolding key_part
key_part-encode_value (text_at s e) = rw e refl
key_part-encode_value (word_at w x e e') = rw (e, key_part, e') refl

pub lt_of_at : {A : Type 0} (xs : List A) (i : ℕ) {a : A} → at xs i ≡ ok a → i < length xs
lt_of_at [] i e = cc
lt_of_at (x ∷ xs) zero e = omega arith
lt_of_at (x ∷ xs) (suc i) e = omega (arith, lt_of_at xs i e)

pub ValueAt-lt :
    {k : Option ℕ} {c : Column} {i : ℕ} {v : KeyValue} → ValueAt k c i v → i < column_size c
unfolding column_size size get_string
ValueAt-lt {i = i} (text_at {v} s e) =
    let (start, e1, e2) = >>=-eq-ok (at v.offsets i) _ e in
    let (end, e3, e4) = >>=-eq-ok (at v.offsets (suc i)) _ e2 in
    omega (arith, lt_of_at v.offsets (suc i) e3)
ValueAt-lt {i = i} (word_at {ws = ws} w x e e') = lt_of_at ws i e'
