-- ===== src/Strings/Reads.antt =====
-- Reads of a `VectorOfStrings` against the list that it holds.
use columnar_engine.Base.{
  length-append_one, get_elem?-append, true, zero-add, bind-out_of_bounds, ℕ, suc, ◌≤◌, ◌≡◌, refl,
  sym, ap, ◌∙◌, inl, inr, some, List, [], ◌∷◌, ◌++◌, append-nil, append_assoc, arith, leb, leb→le,
  Bool-cases, length, get_elem?, length-append, ok, err, out_of_bounds, of_option, get_elem?_ge,
  get_elem?_lt, lt_of_get_elem?,
}
use columnar_engine.Base.Words.{Bytes}
use columnar_engine.Strings.Flat.{
  size, iterate, empty_last_string, VectorOfStrings, empty, push_back, view_lem, get_string,
  push_all,
}
use columnar_engine.Strings.Holds.{
  slice-concat, back-offsets_from, Holds, concat, offsets_from, concat-append, offsets_from-append,
  length-offsets_from, get_elem?-offsets_from,
}

pub empty-Holds : Holds empty []
unfolding empty
empty-Holds = record { bytes_are = refl; offsets_are = refl }

-- `PushBack` appends one string to the list that the vector holds.
pub push_back-Holds :
    {v : VectorOfStrings} {ss : List Bytes} (s : Bytes)
    → Holds v ss
    → Holds (push_back v s) (ss ++ s ∷ [])
unfolding push_back
push_back-Holds {v} {ss} s h = record {
  bytes_are = rw h.bytes_are (sym (concat-append ss s));
  offsets_are =
      rw (h.bytes_are, h.offsets_are)
        (ap (λ k. offsets_from 0 ss ++ k ∷ []) (omega (arith, length-append (concat ss) s))
          ∙ sym (offsets_from-append 0 ss s));
}

pub push_all-Holds :
    (ts : List Bytes) {v : VectorOfStrings} {ss : List Bytes}
    → Holds v ss
    → Holds (push_all v ts) (ss ++ ts)
unfolding push_all
push_all-Holds [] {v} {ss} h = rw append-nil h
push_all-Holds (t ∷ ts) {v} {ss} h =
    rw (append_assoc ss (t ∷ []) ts) at (push_all-Holds ts (push_back-Holds t h))

module _ {v : VectorOfStrings} {ss : List Bytes} (i : ℕ) (h : Holds v ss) where
  get_string_in : (s : Bytes) → get_elem? ss i ≡ some s → get_string v i ≡ ok s
  unfolding get_string
  get_string_in s e =
      let (a, b, c) = slice-concat ss i s [] e in
      let lt = lt_of_get_elem? ss i e in
      rw
        (
          h.offsets_are,
          get_elem?-offsets_from 0 ss i (omega arith),
          get_elem?-offsets_from 0 ss (suc i) lt,
          b,
          h.bytes_are,
        )
        (rw zero-add (
          view_lem (concat ss) _ _ (length s) (omega arith) (omega arith)
          ∙ ap ok (rw append-nil at a)))

  get_string_past : length ss ≤ i → get_string v i ≡ err out_of_bounds
  unfolding get_string
  get_string_past past =
      rw
        (
          h.offsets_are,
          get_elem?_ge (offsets_from 0 ss) (suc i) (omega (arith, length-offsets_from 0 ss)),
        )
        (bind-out_of_bounds (get_elem? (offsets_from 0 ss) i) _ (λ a. refl))

  -- Reading the string at an index in range gives that string of the list, and an index past the
  -- last one reads outside the offsets.
  pub get_string-Holds : get_string v i ≡ of_option (get_elem? ss i)
  get_string-Holds = elim (Bool-cases (leb (length ss) i)) [
    | inl past ↦ let le = leb→le _ _ past in rw (get_elem?_ge ss i le) (get_string_past le)
    | inr before ↦ let (s, e) = get_elem?_lt ss i (ground arith) in rw e (get_string_in s e)
  ]

-- `Size` is the number of strings.
pub size-Holds : {v : VectorOfStrings} {ss : List Bytes} → Holds v ss → size v ≡ length ss
unfolding size
size-Holds {v} {ss} h = rw h.offsets_are (omega (arith, length-offsets_from 0 ss))

-- The last string is called empty by `EmptyLastString` when the vector stands as it was left by a
-- push: the bytes end where the last offset says.
pub empty_last_string-Holds :
    {v : VectorOfStrings} {ss : List Bytes} → Holds v ss → empty_last_string v ≡ ok true
unfolding empty_last_string
empty_last_string-Holds {v} {ss} h =
    rw (h.offsets_are, back-offsets_from 0 ss, h.bytes_are) (ap ok (ground arith))

iterate-Holds :
    {v : VectorOfStrings} (pre ss : List Bytes)
    → Holds v (pre ++ ss)
    → iterate v (length pre) (length ss) ≡ ok ss
unfolding iterate
iterate-Holds pre [] h = refl
iterate-Holds {v} pre (s ∷ ss) h =
    let rest : iterate v (suc (length pre)) (length ss) ≡ ok ss =
      rw (← length-append_one pre s) (iterate-Holds (pre ++ s ∷ []) ss (rw append_assoc h)) in
    rw (get_string-Holds (length pre) h, get_elem?-append pre s ss, rest)

-- Iterating over a vector that was built by pushes gives back the strings, in order.
pub iterate-push_all : (ss : List Bytes) → let v = push_all empty ss in iterate v 0 (size v) ≡ ok ss
iterate-push_all ss =
    let h = push_all-Holds ss empty-Holds in rw (size-Holds h) (iterate-Holds [] ss h)
