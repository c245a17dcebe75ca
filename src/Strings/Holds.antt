-- ===== src/Strings/Holds.antt =====
-- What a `VectorOfStrings` stands for: a list of strings.
use columnar_engine.Base.{
  get_elem?, drop-append_add, take-append, drop, ℕ, zero, suc, ◌+◌, ◌≤◌, ◌≡◌, refl, sym, ap, ◌∙◌,
  some, List, [], ◌∷◌, ◌++◌, append-nil, append_assoc, arith, length, take, length-append, ok,
}
use columnar_engine.Base.Words.{Bytes}
use columnar_engine.Strings.Flat.{VectorOfStrings, back}

abbrev pub concat : List Bytes → Bytes
concat [] = []
concat (s ∷ ss) = s ++ concat ss

-- The offsets of strings that stand one after another from `n` on, the end included.
abbrev pub offsets_from : ℕ → List Bytes → List ℕ
offsets_from n [] = n ∷ []
offsets_from n (s ∷ ss) = n ∷ offsets_from (n + length s) ss

-- The representation invariant: `v` holds the strings `ss`, in order.
pub record Holds (v : VectorOfStrings) (ss : List Bytes) : Type 0 where
  pub bytes_are : v.bytes ≡ concat ss
  pub offsets_are : v.offsets ≡ offsets_from 0 ss

pub concat-append : (ss : List Bytes) (t : Bytes) → concat (ss ++ t ∷ []) ≡ concat ss ++ t
concat-append [] t = append-nil t
concat-append (s ∷ ss) t = rw (concat-append ss t) (sym (append_assoc s (concat ss) t))

pub offsets_from-append :
    (n : ℕ) (ss : List Bytes) (t : Bytes)
    → offsets_from n (ss ++ t ∷ []) ≡ offsets_from n ss ++ (n + length (concat ss) + length t) ∷ []
offsets_from-append n [] t = ap (λ k. n ∷ k ∷ []) (omega arith)
offsets_from-append n (s ∷ ss) t = ap (◌∷◌ n) (
    offsets_from-append (n + length s) ss t
    ∙ ap (λ k. offsets_from (n + length s) ss ++ k ∷ [])
        (omega (arith, length-append s (concat ss))))

pub length-offsets_from : (n : ℕ) (ss : List Bytes) → length (offsets_from n ss) ≡ suc (length ss)
length-offsets_from n [] = refl
length-offsets_from n (s ∷ ss) = ap suc (length-offsets_from (n + length s) ss)

pub get_elem?-offsets_from :
    (n : ℕ) (ss : List Bytes) (i : ℕ)
    → i ≤ length ss
    → get_elem? (offsets_from n ss) i ≡ some (n + length (concat (take i ss)))
get_elem?-offsets_from n [] zero h = ap some (omega arith)
get_elem?-offsets_from n [] (suc i) h = absurd (omega arith)
get_elem?-offsets_from n (s ∷ ss) zero h = ap some (omega arith)
get_elem?-offsets_from n (s ∷ ss) (suc i) h =
    get_elem?-offsets_from (n + length s) ss i (omega arith)
    ∙ ap some (omega (arith, length-append s (concat (take i ss))))

pub back-offsets_from :
    (n : ℕ) (ss : List Bytes) → back (offsets_from n ss) ≡ ok (n + length (concat ss))
unfolding back
back-offsets_from n [] = ap ok (omega arith)
back-offsets_from n (s ∷ []) = ap ok (omega (arith, length-append s []))
back-offsets_from n (s ∷ t ∷ ss) =
    back-offsets_from (n + length s) (t ∷ ss)
    ∙ ap ok (omega (arith, length-append s (t ++ concat ss)))

-- The part of a buffer between two neighbouring offsets is the string there; what follows the
-- strings in the buffer makes no difference.
pub slice-concat :
    (ss : List Bytes) (i : ℕ) (s rest : Bytes)
    → get_elem? ss i ≡ some s
    → (take (length s) (drop (length (concat (take i ss))) (concat ss ++ rest)) ≡ s)
      × (length (concat (take (suc i) ss)) ≡ length (concat (take i ss)) + length s)
      × (length (concat (take i ss)) + length s ≤ length (concat ss))
slice-concat [] i s rest e = cc
slice-concat (t ∷ ss) zero s rest e =
    let same : t ≡ s = ground arith in
    rw same (
      rw append_assoc (take-append s (concat ss ++ rest)),
      ap length (append-nil s) ∙ omega arith,
      omega (arith, length-append s (concat ss)),
    )
slice-concat (t ∷ ss) (suc i) s rest e =
    let (a, b, c) = slice-concat ss i s rest e in
    (
      rw
          (
            length-append t (concat (take i ss)),
            append_assoc t (concat ss) rest,
            drop-append_add t (concat ss ++ rest) (length (concat (take i ss))),
          )
          a,
      omega (
        arith,
        b,
        length-append t (concat (take i ss)),
        length-append t (concat (take (suc i) ss)),
      ),
      omega (arith, c, length-append t (concat (take i ss)), length-append t (concat ss)),
    )

-- A vector is determined by the strings that it holds.
pub Holds-unique : {v w : VectorOfStrings} {ss : List Bytes} → Holds v ss → Holds w ss → v ≡ w
Holds-unique h k i = record {
  bytes = (h.bytes_are ∙ sym k.bytes_are) i;
  offsets = (h.offsets_are ∙ sym k.offsets_are) i;
}
