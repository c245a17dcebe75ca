-- ===== src/Execution/HashKeys.antt =====
-- The keys of rows, and the copies of rows, of execution/ExecutionHelper.h.
use columnar_engine.Base.{
  ℕ, zero, suc, Option, none, some, List, [], ◌∷◌, ◌++◌, length, set, ◌==◌, Result, ok, ◌>>=◌, ◌>>◌,
  guard, at, wrong_column_type,
}
use columnar_engine.Base.Words.{Bytes, to_bytes}
use columnar_engine.Strings.Flat.{get_string, push_back}
use columnar_engine.Types.ColumnTypes.{type_code, elem_size}
use columnar_engine.Columns.Column.{
  Column, fixed, strings, get_type, string_data, fixed_data, column_size,
}

-- What `HashKeys` appends to the key of a row: the value at `idx`, behind its length if it is a string.
-- A type without values appends nothing.
unfoldable pub key_part : Column → ℕ → Result Bytes
key_part (strings values) idx = do val ← get_string values idx; ok (to_bytes 8 (length val) ++ val)
key_part (fixed type values) idx = elim (elem_size type) [
  | none ↦ ok []
  | some size ↦ do w ← at values idx; ok (to_bytes size w)
]

-- `selection ? (*selection)[i] : i`.
unfoldable pub selected : Option (List ℕ) → ℕ → Result ℕ
selected none i = ok i
selected (some selection) i = at selection i

-- The loop of `HashKeys` from row `i` on.
unfoldable pub hash_from : Column → Option (List ℕ) → ℕ → ℕ → List Bytes → Result (List Bytes)
hash_from col selection i zero keys = ok keys
hash_from col selection i (suc left) keys = do
  idx ← selected selection i
  part ← key_part col idx
  key ← at keys i
  hash_from col selection (suc i) left (set keys i (key ++ part))

unfoldable pub hash_keys : Column → List Bytes → Option (List ℕ) → Result (List Bytes)
hash_keys col keys none = hash_from col none 0 (column_size col) keys
hash_keys col keys (some selection) = hash_from col (some selection) 0 (length selection) keys

-- `d.AddValue(s[idx])`, where the builder is cast to the class of the column.
unfoldable pub copy_value : Column → Column → ℕ → Result Column
copy_value dest (strings s) idx = do
  d ← string_data dest
  value ← get_string s idx
  ok (strings (push_back d value))
copy_value dest (fixed type s) idx = elim (elem_size type) [
  | none ↦ ok dest
  | some size ↦ do
    guard (type_code type == type_code (get_type dest)) wrong_column_type
    d ← fixed_data dest
    value ← at s idx
    ok (fixed type (d ++ value ∷ []))
]

-- `CopySelection` with indices.
unfoldable pub copy_selection : Column → Column → List ℕ → Result Column
copy_selection dest src [] = ok dest
copy_selection dest src (idx ∷ indices) = do
  next ← copy_value dest src idx
  copy_selection next src indices
