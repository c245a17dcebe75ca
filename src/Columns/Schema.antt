-- ===== src/Columns/Schema.antt =====
-- column/Schema.h. A file is its bytes, and `std::getline` takes them up to a delimiter.
use columnar_engine.Base.{
  ℕ, zero, suc, Bool, true, false, Option, none, some, List, [], ◌∷◌, ◌++◌, ◌==◌, if◌then◌else◌,
  length, Result, ok, err, ◌>>=◌, column_not_found, invalid_field_format, unsupported_column_type,
  out_of_fuel,
}
use columnar_engine.Base.Words.{Bytes, bytes_eq}
use columnar_engine.Types.ColumnTypes.{ColumnType, type_names}

pub record Field : Type 0 where
  pub name : Bytes
  pub type_of : ColumnType

pub record Schema : Type 0 where
  pub fields : List Field

abbrev pub delimiter : ℕ
delimiter = b','

unfoldable pub add_column : Schema → Bytes → ColumnType → Schema
add_column schema name type = record {
  fields = schema.fields ++ record { name = name; type_of = type } ∷ [];
}

unfoldable pub type_of_name : List Field → Bytes → Result ColumnType
type_of_name [] column_name = err column_not_found
type_of_name (f ∷ fs) column_name =
    if bytes_eq f.name column_name then ok f.type_of else type_of_name fs column_name

unfoldable pub schema_type_by_name : Schema → Bytes → Result ColumnType
schema_type_by_name schema column_name = type_of_name schema.fields column_name

-- The loop of `GetColumnIndexByName` from field `i` on.
unfoldable pub index_of_name : List Field → Bytes → ℕ → Result ℕ
index_of_name [] column_name i = err column_not_found
index_of_name (f ∷ fs) column_name i =
    if bytes_eq f.name column_name then ok i else index_of_name fs column_name (suc i)

unfoldable pub schema_index_by_name : Schema → Bytes → Result ℕ
schema_index_by_name schema column_name = index_of_name schema.fields column_name 0

-- `std::getline`: the text up to the delimiter, and what is left behind it.
unfoldable pub until : ℕ → Bytes → Bytes × Bytes
until delim [] = ([], [])
until delim (c ∷ cs) =
    let rest = until delim cs in if c == delim then ([], cs) else (c ∷ rest.0, rest.1)

-- At the end of the stream it fails.
unfoldable pub get_line : ℕ → Bytes → Option (Bytes × Bytes)
get_line delim [] = none
get_line delim (c ∷ cs) = some (until delim (c ∷ cs))

-- `if (!s.empty() && s.back() == '\r') s.pop_back();`
unfoldable pub drop_return : Bytes → Bytes
drop_return [] = []
drop_return (c ∷ []) = if c == b'\r' then [] else c ∷ []
drop_return (c ∷ d ∷ cs) = c ∷ drop_return (d ∷ cs)

-- The type of a name in a table.
unfoldable pub find_type : List (Bytes × ColumnType) → Bytes → Option ColumnType
find_type [] type_str = none
find_type (entry ∷ table) type_str =
    if bytes_eq type_str entry.0 then some entry.1 else find_type table type_str

unfoldable pub deserialize_field : Bytes → Result Field
deserialize_field field_str = elim (get_line delimiter field_str) [
  | none ↦ err invalid_field_format
  | some first ↦ elim (get_line delimiter first.1) [
    | none ↦ err invalid_field_format
    | some second ↦ elim (find_type type_names (drop_return second.0)) [
      | none ↦ err unsupported_column_type
      | some type ↦ ok (record { name = first.0; type_of = type })
    ]
  ]
]

-- `field.empty() || field.front() == '#'`
unfoldable pub is_skipped : Bytes → Bool
is_skipped [] = true
is_skipped (c ∷ cs) = c == b'#'

-- The loop over the lines. Each takes a byte at least, so the length of the file is fuel enough.
unfoldable pub deserialize_lines : ℕ → Bytes → Result (List Field)
deserialize_lines zero file = err out_of_fuel
deserialize_lines (suc fuel) file = elim (get_line b'\n' file) [
  | none ↦ ok []
  | some line ↦ elim (is_skipped line.0) [
    | true ↦ deserialize_lines fuel line.1
    | false ↦ (do
      field ← deserialize_field line.0
      rest ← deserialize_lines fuel line.1
      ok (field ∷ rest))
  ]
]

unfoldable pub deserialize_schema : Bytes → Result Schema
deserialize_schema file = do
  fields ← deserialize_lines (suc (length file)) file
  ok (record { fields = fields })
