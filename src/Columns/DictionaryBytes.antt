-- ===== src/Columns/DictionaryBytes.antt =====
-- The bytes of `CodecDictionary::Encode`, read back. The source has no `Decode` of this class, so the
-- reader here follows the layout.
use mathlib.Core.List.{Permᴰ}
use mathlib.Core.List.Permᴰ
use columnar_engine.Base.{
  ℕ, zero, suc, Option, some, List, [], ◌∷◌, ◌++◌, ◌+◌, ◌^◌, ◌<◌, ◌≡◌, refl, ap, ◌∙◌, length, map,
  take, drop, All, arith, append_assoc, Result, ok, ◌>>=◌, lt_of_get_elem?, All-get_elem?,
}
use columnar_engine.Base.Words.{Bytes, to_bytes, of_bytes, of_bytes-to_bytes}
use columnar_engine.Columns.Bytes.{words_to_bytes, read_words}
use columnar_engine.Columns.RoundTrip.{take-to_bytes, drop-to_bytes, read_words_lem}
use columnar_engine.Columns.Codec.{index_items, write_pairs, dictionary_encode}
use columnar_engine.Columns.Dictionary.{
  item_of, Has, Coded, Coded-index, Has-Permᴰ, Named, Indexed, index_items-Indexed, items-Named,
}

-- As many pairs as the dictionary has, and what is left of the bytes.
unfoldable pub read_pairs : ℕ → ℕ → Bytes → List (ℕ × ℕ) × Bytes
read_pairs w zero b = ([], b)
read_pairs w (suc n) b =
    let rest = read_pairs w n (drop 4 (drop w b)) in
    ((of_bytes (take w b), of_bytes (take 4 (drop w b))) ∷ rest.0, rest.1)

-- The items that encoded data stands for.
unfoldable pub dictionary_items : ℕ → Bytes → Result (List (Option ℕ))
dictionary_items w b =
    let pairs = read_pairs w (of_bytes (take 8 b)) (drop 8 b) in
    read_words 4 pairs.1 >>= λ indices. ok (map (item_of pairs.0) indices)

abbrev Fits : ℕ → ℕ × ℕ → Type 0
Fits w p = (p.0 < 256 ^ w) × (p.1 < 2 ^ 32)

read_pairs-write_pairs :
    (w : ℕ) (l : List (ℕ × ℕ)) (b : Bytes)
    → All (Fits w) l
    → read_pairs w (length l) (write_pairs w l ++ b) ≡ (l, b)
unfolding read_pairs write_pairs of_bytes to_bytes
read_pairs-write_pairs w [] b h = refl
read_pairs-write_pairs w (p ∷ l) b h = rw (
  append_assoc,
  take-to_bytes,
  drop-to_bytes,
  of_bytes-to_bytes w p.0 h.0.0,
  of_bytes-to_bytes 4 p.1 h.0.1,
  read_pairs-write_pairs w l b h.1,
)

All-Has : {P : ℕ × ℕ → Type 0} (l : List (ℕ × ℕ)) → ((p : ℕ × ℕ) → Has l p → P p) → All P l
All-Has [] h = tt
All-Has (p ∷ l) h = (h p (0, refl), All-Has l (λ q e. h q (suc e.0, e.1)))

All-Named :
    (d : List (ℕ × ℕ)) (is xs : List ℕ)
    → Coded 0 d
    → length d < 2 ^ 32
    → Named d is xs
    → All (λ i. i < 2 ^ 32) is
All-Named d [] xs c lt h = tt
All-Named d (i ∷ is) [] c lt h = cc
All-Named d (i ∷ is) (x ∷ xs) c lt h =
    let (j, e) = h.0 in
    let place : i ≡ 0 + j = Coded-index 0 d (x, i) j c e in
    let inside = lt_of_get_elem? d j e in (omega arith, All-Named d is xs c lt h.1)

All-Permᴰ :
    (w : ℕ) (d m : List (ℕ × ℕ))
    → Coded 0 d
    → length d < 2 ^ 32
    → All (λ p. p.0 < 256 ^ w) d
    → Permᴰ d m
    → All (Fits w) m
All-Permᴰ w d m c lt a perm = All-Has m (λ p h.
    let (j, e) = Has-Permᴰ (Permᴰ.symm perm) h in
    let place : p.1 ≡ 0 + j = Coded-index 0 d p j c e in
    let inside = lt_of_get_elem? d j e in (All-get_elem? (λ q. q.0 < 256 ^ w) d j a e, omega arith))

length-Permᴰ : {l m : List (ℕ × ℕ)} → Permᴰ l m → length l ≡ length m
length-Permᴰ Permᴰ.nil = refl
length-Permᴰ (Permᴰ.cons e d) = ap suc (length-Permᴰ d)
length-Permᴰ (Permᴰ.swap e f) = refl
length-Permᴰ (Permᴰ.trans d e) = length-Permᴰ d ∙ length-Permᴰ e

-- For fewer than 2 ^ 32 whole numbers that fit `w` bytes, and whatever order the dictionary is gone
-- through in, the encoded data holds a dictionary and indices that give those numbers back in order.
pub dictionary_items-dictionary_encode :
    (w : ℕ) (iterate : List (ℕ × ℕ) → List (ℕ × ℕ))
    → ((l : List (ℕ × ℕ)) → Permᴰ l (iterate l))
    → (xs : List ℕ) → length xs < 2 ^ 32
    → All (λ x. x < 256 ^ w) xs
    → dictionary_items w (dictionary_encode w iterate xs) ≡ ok (map some xs)
unfolding dictionary_items dictionary_encode
dictionary_items-dictionary_encode w iterate perm xs lt fit =
    let r = index_items [] 0 xs in
    let done : Indexed [] xs r = index_items-Indexed [] 0 xs refl (omega arith) tt in
    let small : length r.0 < 2 ^ 32 = omega (arith, done.bound) in
    let pairs : All (Fits w) (iterate r.0) =
      All-Permᴰ w r.0 (iterate r.0) done.coded small (done.fits (256 ^ w) tt fit) (perm r.0) in
    let read : read_pairs w (length r.0) (write_pairs w (iterate r.0) ++ words_to_bytes 4 r.1)
        ≡ (iterate r.0, words_to_bytes 4 r.1) =
      ap (λ n. read_pairs w n (write_pairs w (iterate r.0) ++ words_to_bytes 4 r.1))
        (length-Permᴰ (perm r.0))
      ∙ read_pairs-write_pairs w (iterate r.0) (words_to_bytes 4 r.1) pairs in
    let indices : read_words 4 (words_to_bytes 4 r.1) ≡ ok r.1 =
      read_words_lem 4 r.1 (omega arith) (All-Named r.0 r.1 xs done.coded small done.named) in
    rw (take-to_bytes, drop-to_bytes, of_bytes-to_bytes 8 (length r.0) (omega arith), read, indices)
      (ap ok (items-Named r.0 (iterate r.0) r.1 xs done.coded (perm r.0) done.named))
