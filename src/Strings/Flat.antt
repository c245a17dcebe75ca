-- ===== src/Strings/Flat.antt =====
-- The class `VectorOfStrings` of utils/VectorOfStrings.h. Reserved capacity is not part of the
-- state: it changes no result. Offsets are `size_t` numbers that count bytes in memory, so they
-- do not wrap.
use columnar_engine.Base.{
  true, ◌≡◌, arith, ◌+◌, ◌≤◌, ℕ, zero, suc, ◌-◌, Bool, ◌&&◌, List, [], ◌∷◌, ◌++◌, leb, ◌==◌,
  if◌then◌else◌, length, take, drop, Result, ok, err, out_of_bounds, ◌>>=◌, at,
}
use columnar_engine.Base.Words.{Bytes}

pub record VectorOfStrings : Type 0 where
  pub bytes : Bytes
  pub offsets : List ℕ

-- The constructor. `Clear` brings every vector back to this state.
unfoldable pub empty : VectorOfStrings
empty = record { bytes = []; offsets = 0 ∷ [] }

unfoldable pub push_back : VectorOfStrings → Bytes → VectorOfStrings
push_back v str =
    let bytes' = v.bytes ++ str in
    record { bytes = bytes'; offsets = v.offsets ++ length bytes' ∷ [] }

-- `std::string_view(data() + start, end - start)`, refused where it leaves the buffer.
unfoldable pub view : Bytes → ℕ → ℕ → Result Bytes
view b start end =
    if leb start end && leb end (length b)
    then ok (take (end - start) (drop start b))
    else err out_of_bounds

pub view_lem :
    (b : Bytes) (start end n : ℕ)
    → end ≡ start + n
    → end ≤ length b
    → view b start end ≡ ok (take n (drop start b))
unfolding view
view_lem b start end n e h =
    let d : end - start ≡ n = omega arith in
    let t : leb start end ≡ true = ground arith in
    let u : leb end (length b) ≡ true = ground arith in rw (t, u, d)

unfoldable pub get_string : VectorOfStrings → ℕ → Result Bytes
get_string v index = do
  start ← at v.offsets index
  end ← at v.offsets (suc index)
  view v.bytes start end

-- `offsets_.back()`
unfoldable pub back : List ℕ → Result ℕ
back [] = err out_of_bounds
back (x ∷ []) = ok x
back (x ∷ y ∷ xs) = back (y ∷ xs)

unfoldable pub empty_last_string : VectorOfStrings → Result Bool
empty_last_string v = do last ← back v.offsets; ok (last == length v.bytes)

unfoldable pub size : VectorOfStrings → ℕ
size v = length v.offsets - 1

unfoldable pub clear : VectorOfStrings → VectorOfStrings
unfolding empty
clear v = empty

-- A loop that pushes each string of a list, in order.
unfoldable pub push_all : VectorOfStrings → List Bytes → VectorOfStrings
push_all v [] = v
push_all v (s ∷ ss) = push_all (push_back v s) ss

-- `for (std::string_view s : vec)`: the iterator stands at `index` with `left` strings to go.
unfoldable pub iterate : VectorOfStrings → ℕ → ℕ → Result (List Bytes)
iterate v index zero = ok []
iterate v index (suc left) = do
  s ← get_string v index
  rest ← iterate v (suc index) left
  ok (s ∷ rest)
