-- ===== src/Columns/RunLengths.antt =====
-- Decoding what `RLECodec` encoded gives the values back.
use native.Mathlib.Nat.{le_refl}
use columnar_engine.Base.{
  ℕ, zero, suc, true, false, List, [], ◌∷◌, ◌++◌, ◌+◌, ◌%◌, ◌^◌, ◌<◌, ◌≤◌, ◌≡◌, refl, sym, ap, ◌∙◌,
  ◌==◌, leb, length, replicate, ok, All, arith, append_assoc, append-nil, subst, length-append,
  ==_iff, Bool-cases, inl, inr,
}
use columnar_engine.Base.Words.{Bytes, to_bytes, length-to_bytes, of_bytes-to_bytes}
use columnar_engine.Columns.RoundTrip.{take-to_bytes, drop-to_bytes}
use columnar_engine.Columns.Codec.{append_encoded, encode_runs, rle_encode, decode_runs, rle_decode}

-- What is encoded so far stays in front.
encode_runs-append :
    (w : ℕ) (result : Bytes) (count current : ℕ) (xs : List ℕ)
    → encode_runs w result count current xs ≡ result ++ encode_runs w [] count current xs
unfolding encode_runs append_encoded
encode_runs-append w result count current [] = refl
encode_runs-append w result count current (x ∷ xs) =
    elim (x == current)
      as (λ same.
        elim same [
          | true ↦ encode_runs w result ((count + 1) % 2 ^ 64) current xs
          | false ↦ encode_runs w (append_encoded w result count current) 1 x xs
        ]
        ≡ result ++ elim same [
          | true ↦ encode_runs w [] ((count + 1) % 2 ^ 64) current xs
          | false ↦ encode_runs w (append_encoded w [] count current) 1 x xs
        ]) [
          | true ↦ encode_runs-append w result ((count + 1) % 2 ^ 64) current xs
          | false ↦
              let run = to_bytes 8 count ++ to_bytes w current in
              encode_runs-append w (result ++ run) 1 x xs
              ∙ append_assoc result run (encode_runs w [] 1 x xs)
              ∙ ap (λ b. result ++ b) (sym (encode_runs-append w run 1 x xs))
        ]

encode_runs_same :
    (w count current x : ℕ) (xs : List ℕ)
    → (x == current) ≡ true
    → encode_runs w [] count current (x ∷ xs) ≡ encode_runs w [] ((count + 1) % 2 ^ 64) current xs
unfolding encode_runs
encode_runs_same w count current x xs h = rw (encode_runs, h)

encode_runs_differ :
    (w count current x : ℕ) (xs : List ℕ)
    → (x == current) ≡ false
    → encode_runs w [] count current (x ∷ xs)
      ≡ to_bytes 8 count ++ (to_bytes w current ++ encode_runs w [] 1 x xs)
unfolding encode_runs append_encoded
encode_runs_differ w count current x xs h =
    let run = to_bytes 8 count ++ to_bytes w current in
    rw (encode_runs, h)
      (encode_runs-append w run 1 x xs
        ∙ append_assoc (to_bytes 8 count) (to_bytes w current) (encode_runs w [] 1 x xs))

-- One round of the decoder on a run.
decode_runs_round :
    (w fuel : ℕ) (result : List ℕ) (count value : ℕ) (rest : Bytes)
    → count < 2 ^ 64
    → value < 256 ^ w
    → decode_runs w (suc fuel) result (to_bytes 8 count ++ (to_bytes w value ++ rest))
      ≡ decode_runs w fuel (result ++ replicate count value) rest
unfolding decode_runs to_bytes
decode_runs_round w fuel result count value rest hc hv =
    let fits : leb (8 + w) (length (to_bytes 8 count ++ (to_bytes w value ++ rest))) ≡ true =
      ground (arith, length-append (to_bytes w value) rest, length-to_bytes w value) in
    rw (fits, of_bytes-to_bytes 8 count hc, take-to_bytes, drop-to_bytes)
      (ap (λ v. decode_runs w fuel (result ++ replicate count v) rest)
        (of_bytes-to_bytes w value hv))

replicate-append : (n a : ℕ) (xs : List ℕ) → replicate n a ++ a ∷ xs ≡ replicate (suc n) a ++ xs
replicate-append zero a xs = refl
replicate-append (suc n) a xs = ap (λ ys. a ∷ ys) (replicate-append n a xs)

length-append_encoded :
    (w count value : ℕ) (rest : Bytes)
    → length (to_bytes 8 count ++ (to_bytes w value ++ rest)) ≡ 8 + w + length rest
length-append_encoded w count value rest = omega (
  arith,
  length-append (to_bytes 8 count) (to_bytes w value ++ rest),
  length-to_bytes 8 count,
  length-append (to_bytes w value) rest,
  length-to_bytes w value,
)

decode_runs-end : (w fuel : ℕ) (result : List ℕ) → decode_runs w fuel result [] ≡ ok result
unfolding decode_runs
decode_runs-end w zero result = refl
decode_runs-end w (suc fuel) result = refl

-- The bytes of a run in front of `rest`, decoded by enough fuel.
decode_run :
    (w fuel : ℕ) (result : List ℕ) (count value : ℕ) (rest : Bytes) (ys : List ℕ)
    → count < 2 ^ 64
    → value < 256 ^ w
    → length (to_bytes 8 count ++ (to_bytes w value ++ rest)) ≤ fuel
    → ((left : ℕ)
        → length rest ≤ left
        → decode_runs w left (result ++ replicate count value) rest ≡ ok ys)
    → decode_runs w fuel result (to_bytes 8 count ++ (to_bytes w value ++ rest)) ≡ ok ys
decode_run w zero result count value rest ys hc hv le h =
    absurd (omega (arith, length-append_encoded w count value rest))
decode_run w (suc fuel) result count value rest ys hc hv le h =
    decode_runs_round w fuel result count value rest hc hv
    ∙ h fuel (omega (arith, length-append_encoded w count value rest))

decode_runs-encode_runs :
    (w fuel : ℕ) (result : List ℕ) (count current : ℕ) (xs : List ℕ)
    → count + length xs < 2 ^ 64
    → current < 256 ^ w
    → All (λ x. x < 256 ^ w) xs
    → length (encode_runs w [] count current xs) ≤ fuel
    → decode_runs w fuel result (encode_runs w [] count current xs)
      ≡ ok (result ++ (replicate count current ++ xs))
unfolding encode_runs append_encoded
decode_runs-encode_runs w fuel result count current [] hn hc hx le =
    let e : to_bytes 8 count ++ to_bytes w current
        ≡ to_bytes 8 count ++ (to_bytes w current ++ []) =
      ap (λ b. to_bytes 8 count ++ b) (sym (append-nil (to_bytes w current))) in
    rw (e, append-nil (replicate count current))
      (decode_run w fuel result count current [] _ (omega arith) hc (rw e at le)
        (λ left _. decode_runs-end w left _))
decode_runs-encode_runs w fuel result count current (x ∷ xs) hn hc hx le =
    elim (Bool-cases (x == current)) [
      | inl same ↦
          let e : encode_runs w [] count current (x ∷ xs)
              ≡ encode_runs w [] (suc count) current xs =
            encode_runs_same w count current x xs same
            ∙ ap (λ n. encode_runs w [] n current xs) (omega arith) in
          let y : x ≡ current = (==_iff x current).0 same in
          subst
            (λ b. decode_runs w fuel result b ≡ ok (result ++ (replicate count current ++ x ∷ xs)))
            (sym e)
            (decode_runs-encode_runs w fuel result (suc count) current xs (omega arith) hc hx.1
                (subst (λ b. length b ≤ fuel) e le)
              ∙ ap (λ b. ok (result ++ b))
                  (sym (
                    ap (λ z. replicate count current ++ z ∷ xs) y
                    ∙ replicate-append count current xs)))
      | inr differ ↦
          let e = encode_runs_differ w count current x xs differ in
          subst
            (λ b. decode_runs w fuel result b ≡ ok (result ++ (replicate count current ++ x ∷ xs)))
            (sym e)
            (decode_run w fuel result count current (encode_runs w [] 1 x xs) _ (omega arith) hc
              (subst (λ b. length b ≤ fuel) e le)
              (λ left h.
                decode_runs-encode_runs w left (result ++ replicate count current) 1 x xs
                  (omega arith) hx.0 hx.1 h
                ∙ ap ok (append_assoc result (replicate count current) (x ∷ xs))))
    ]

-- A vector of fewer than 2 ^ 64 whole numbers that fit `w` bytes is what `RLECodec` decodes, without
-- error, from its encoding of that vector.
pub rle_decode-rle_encode :
    (w : ℕ) (xs : List ℕ)
    → length xs < 2 ^ 64
    → All (λ x. x < 256 ^ w) xs
    → rle_decode w (rle_encode w xs) ≡ ok xs
unfolding rle_decode rle_encode
rle_decode-rle_encode w [] hn hx = decode_runs-end w 0 []
rle_decode-rle_encode w (x ∷ xs) hn hx =
    decode_runs-encode_runs w _ [] 1 x xs (omega arith) hx.0 hx.1 (le_refl _)
