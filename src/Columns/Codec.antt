-- ===== src/Columns/Codec.antt =====
-- column/Codec.h for whole numbers of `w` bytes: the values of a vector are their bit patterns, and
-- `size_t` has eight bytes.
use columnar_engine.Base.{
  Option, some, none, ℕ, zero, suc, true, false, List, [], ◌∷◌, ◌++◌, ◌+◌, ◌%◌, ◌^◌, ◌==◌, leb,
  length, take, drop, replicate, Result, ok, ◌>>◌, guard, err, out_of_bounds, out_of_fuel,
}
use columnar_engine.Columns.Bytes.{words_to_bytes}
use columnar_engine.Base.Words.{Bytes, to_bytes, of_bytes}

-- `AppendEncoded`: the count, then the value.
unfoldable pub append_encoded : ℕ → Bytes → ℕ → ℕ → Bytes
append_encoded w result count value = result ++ (to_bytes 8 count ++ to_bytes w value)

-- The loop of `RLECodec::Encode` over the values behind the first, and the run it ends with.
unfoldable pub encode_runs : ℕ → Bytes → ℕ → ℕ → List ℕ → Bytes
encode_runs w result count current [] = append_encoded w result count current
encode_runs w result count current (x ∷ values) = elim (x == current) [
  | true ↦ encode_runs w result ((count + 1) % 2 ^ 64) current values
  | false ↦ encode_runs w (append_encoded w result count current) 1 x values
]

unfoldable pub rle_encode : ℕ → List ℕ → Bytes
rle_encode w [] = []
rle_encode w (x ∷ values) = encode_runs w [] 1 x values

-- The loop of `RLECodec::Decode` on what is left of the data. A `memcpy` past the end of it, which
-- is undefined in the source, is an error. Each round takes eight bytes at least.
unfoldable pub decode_runs : ℕ → ℕ → List ℕ → Bytes → Result (List ℕ)
decode_runs w fuel result [] = ok result
decode_runs w zero result (b ∷ bs) = err out_of_fuel
decode_runs w (suc fuel) result (b ∷ bs) = do
  let encoded_data = b ∷ bs
  guard (leb (8 + w) (length encoded_data)) out_of_bounds
  let count = of_bytes (take 8 encoded_data)
  let rest = drop 8 encoded_data
  decode_runs w fuel (result ++ replicate count (of_bytes (take w rest))) (drop w rest)

unfoldable pub rle_decode : ℕ → Bytes → Result (List ℕ)
rle_decode w encoded_data = decode_runs w (length encoded_data) [] encoded_data

-- The entry of an item in the dictionary of `CodecDictionary::Encode`, in the order of insertion.
unfoldable pub find_index : List (ℕ × ℕ) → ℕ → Option ℕ
find_index [] item = none
find_index (entry ∷ dictionary) item = elim (entry.0 == item) [
  | true ↦ some entry.1
  | false ↦ find_index dictionary item
]

-- The loop over the values: the dictionary at its end, and the indices.
unfoldable pub index_items : List (ℕ × ℕ) → ℕ → List ℕ → List (ℕ × ℕ) × List ℕ
index_items dictionary dict_index [] = (dictionary, [])
index_items dictionary dict_index (item ∷ values) = elim (find_index dictionary item) [
  | some index ↦ (let rest = index_items dictionary dict_index values in (rest.0, index ∷ rest.1))
  | none ↦
      (let rest =
          index_items (dictionary ++ (item, dict_index) ∷ []) ((dict_index + 1) % 2 ^ 32) values in
        (rest.0, dict_index ∷ rest.1))
]

-- The loop over the pairs of the dictionary.
unfoldable pub write_pairs : ℕ → List (ℕ × ℕ) → Bytes
write_pairs w [] = []
write_pairs w (pair ∷ pairs) = to_bytes w pair.0 ++ (to_bytes 4 pair.1 ++ write_pairs w pairs)

-- `CodecDictionary::Encode`. The order in which a `std::unordered_map` gives its pairs, which the
-- standard leaves open, is the parameter `iterate`.
unfoldable pub dictionary_encode : ℕ → (List (ℕ × ℕ) → List (ℕ × ℕ)) → List ℕ → Bytes
dictionary_encode w iterate values =
    let indexed = index_items [] 0 values in
    to_bytes 8 (length indexed.0)
    ++ (write_pairs w (iterate indexed.0) ++ words_to_bytes 4 indexed.1)
