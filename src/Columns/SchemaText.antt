-- ===== src/Columns/SchemaText.antt =====
-- A schema written line by line is read back.
use columnar_engine.Base.{
  not, ◌&&◌, ℕ, zero, suc, ◌<◌, ◌≡◌, ◌≢◌, refl, sym, ap, ◌∙◌, Bool, true, false, some, List, [],
  ◌∷◌, ◌++◌, append_assoc, ◌==◌, arith, length, length-append, ok, All,
}
use columnar_engine.Base.Words.{Bytes, bytes_eq, codes}
use columnar_engine.Types.ColumnTypes.{
  ColumnType, unnamed, type_names, int16, int32, int64, int128, float32, float64, long_double, char,
  string, date, timestamp,
}
use columnar_engine.Columns.Schema.{
  Field, delimiter, until, get_line, drop_return, find_type, deserialize_field, is_skipped,
  deserialize_lines, deserialize_schema,
}

abbrev pub name_of_type : ColumnType → Bytes
name_of_type int16 = codes "INT16"
name_of_type int32 = codes "INT32"
name_of_type int64 = codes "INT64"
name_of_type int128 = codes "INT128"
name_of_type float32 = codes "FLOAT"
name_of_type float64 = codes "DOUBLE"
name_of_type long_double = codes "LONGDOUBLE"
name_of_type char = codes "CHAR"
name_of_type date = codes "DATE"
name_of_type timestamp = codes "TIMESTAMP"
name_of_type string = codes "STRING"
name_of_type (unnamed n) = []

abbrev pub print_line : Field → Bytes → Bytes
print_line f rest = f.name ++ delimiter ∷ (name_of_type f.type_of ++ b'\n' ∷ rest)

abbrev pub print_schema : List Field → Bytes
print_schema [] = []
print_schema (f ∷ fs) = print_line f (print_schema fs)

-- A name that a line can start with: not empty, no comma and no line feed, and not a comment.
abbrev pub StartsName : Bytes → Type 0
StartsName [] = ⊥
StartsName (c ∷ cs) = c ≢ b'#'

pub record IsWritten (f : Field) : Type 0 where
  pub starts : StartsName f.name
  pub no_comma : All (λ c. c ≢ delimiter) f.name
  pub no_line : All (λ c. c ≢ b'\n') f.name
  pub named : (n : ℕ) → f.type_of ≢ unnamed n

until-append :
    (delim : ℕ) (xs ys : Bytes)
    → All (λ c. c ≢ delim) xs
    → until delim (xs ++ delim ∷ ys) ≡ (xs, ys)
unfolding until
until-append delim [] ys h = let itself : (delim == delim) ≡ true = ground arith in rw itself
until-append delim (x ∷ xs) ys h =
    let other : (x == delim) ≡ false = ground (arith, h.0) in
    rw (other, until-append delim xs ys h.1)

until-All : (delim : ℕ) (xs : Bytes) → All (λ c. c ≢ delim) xs → until delim xs ≡ (xs, [])
unfolding until
until-All delim [] h = refl
until-All delim (x ∷ xs) h =
    let other : (x == delim) ≡ false = ground (arith, h.0) in rw (other, until-All delim xs h.1)

pub find_type-name_of_type :
    (t : ColumnType)
    → ((n : ℕ) → t ≢ unnamed n)
    → find_type type_names (drop_return (name_of_type t)) ≡ some t
unfolding find_type drop_return bytes_eq
find_type-name_of_type int16 h = refl
find_type-name_of_type (unnamed n) h = absurd (h n refl)
find_type-name_of_type _ h = refl

abbrev lacks : ℕ → Bytes → Bool
lacks delim [] = true
lacks delim (c ∷ cs) = not (c == delim) && lacks delim cs

lacks-All : (delim : ℕ) (xs : Bytes) → lacks delim xs ≡ true → All (λ c. c ≢ delim) xs
lacks-All delim [] h = tt
lacks-All delim (c ∷ cs) h = (ground arith, lacks-All delim cs (ground arith))

record IsTypeName (text : Bytes) : Type 0 where
  no_comma : lacks delimiter text ≡ true
  no_line : lacks b'\n' text ≡ true
  not_empty : (c : ℕ) × (cs : Bytes) × (text ≡ c ∷ cs)

name_of_type-IsTypeName : (t : ColumnType) → ((n : ℕ) → t ≢ unnamed n) → IsTypeName (name_of_type t)
name_of_type-IsTypeName int16 h = record {
  no_comma = refl;
  no_line = refl;
  not_empty = (_, _, refl);
}
name_of_type-IsTypeName (unnamed n) h = absurd (h n refl)
name_of_type-IsTypeName _ h = record { no_comma = refl; no_line = refl; not_empty = (_, _, refl) }

All-append : (P : ℕ → Type 0) (xs ys : Bytes) → All P xs → All P ys → All P (xs ++ ys)
All-append P [] ys h k = k
All-append P (x ∷ xs) ys h k = (h.0, All-append P xs ys h.1 k)

get_line-until :
    (delim : ℕ) (text : Bytes) {c : ℕ} {cs : Bytes}
    → text ≡ c ∷ cs
    → get_line delim text ≡ some (until delim text)
unfolding get_line
get_line-until delim text e = rw e

not_empty-IsWritten :
    (name : Bytes) → StartsName name → (c : ℕ) × (cs : Bytes) × (name ≡ c ∷ cs) × (c ≢ b'#')
not_empty-IsWritten [] h = elim h [ ]
not_empty-IsWritten (c ∷ cs) h = (c, cs, refl, h)

deserialize_field_lem :
    (f : Field)
    → IsWritten f
    → deserialize_field (f.name ++ delimiter ∷ name_of_type f.type_of) ≡ ok f
unfolding deserialize_field
deserialize_field_lem f w =
    let text = name_of_type f.type_of in
    let named = name_of_type-IsTypeName f.type_of w.named in
    let (c, cs, e, _) = not_empty-IsWritten f.name w.starts in
    let (d, ds, e') = named.not_empty in
    let first : get_line delimiter (f.name ++ delimiter ∷ text) ≡ some (f.name, text) =
      get_line-until delimiter (f.name ++ delimiter ∷ text) (ap (λ n. n ++ delimiter ∷ text) e)
      ∙ ap some (until-append delimiter f.name text w.no_comma) in
    let second : get_line delimiter text ≡ some (text, []) =
      get_line-until delimiter text e'
      ∙ ap some (until-All delimiter text (lacks-All delimiter text named.no_comma)) in
    rw (deserialize_field, first, second, find_type-name_of_type f.type_of w.named)

-- One line of the file.
read_line :
    (f : Field) (rest : Bytes)
    → IsWritten f
    → (get_line b'\n' (print_line f rest)
        ≡ some (f.name ++ delimiter ∷ name_of_type f.type_of, rest))
      × (is_skipped (f.name ++ delimiter ∷ name_of_type f.type_of) ≡ false)
unfolding is_skipped
read_line f rest w =
    let text = name_of_type f.type_of in
    let line = f.name ++ delimiter ∷ text in
    let named = name_of_type-IsTypeName f.type_of w.named in
    let (c, cs, e, not_comment) = not_empty-IsWritten f.name w.starts in
    let split : print_line f rest ≡ line ++ b'\n' ∷ rest =
      sym (append_assoc f.name (delimiter ∷ text) (b'\n' ∷ rest)) in
    let no_line : All (λ x. x ≢ b'\n') line =
      All-append (λ x. x ≢ b'\n') f.name (delimiter ∷ text) w.no_line
        (omega arith, lacks-All b'\n' text named.no_line) in
    (
      get_line-until b'\n' (print_line f rest) (ap (λ n. n ++ delimiter ∷ (text ++ b'\n' ∷ rest)) e)
          ∙ ap some (ap (until b'\n') split ∙ until-append b'\n' line rest no_line),
      let other : (c == b'#') ≡ false = ground (arith, not_comment) in
          ap (λ n. is_skipped (n ++ delimiter ∷ text)) e ∙ other,
    )

deserialize_lines-nil : (fuel : ℕ) → deserialize_lines (suc fuel) [] ≡ ok []
unfolding deserialize_lines get_line
deserialize_lines-nil fuel = refl

deserialize_lines_lem :
    (fuel : ℕ) (fs : List Field)
    → length (print_schema fs) < fuel
    → All IsWritten fs
    → deserialize_lines fuel (print_schema fs) ≡ ok fs
unfolding deserialize_lines
deserialize_lines_lem zero fs h w = absurd (omega arith)
deserialize_lines_lem (suc fuel) [] h w = deserialize_lines-nil fuel
deserialize_lines_lem (suc fuel) (f ∷ fs) h w =
    let (line, kept) = read_line f (print_schema fs) w.0 in
    let text = name_of_type f.type_of in
    let shorter : length (print_schema fs) < fuel = omega (
      arith,
      length-append f.name (delimiter ∷ (text ++ b'\n' ∷ print_schema fs)),
      length-append text (b'\n' ∷ print_schema fs),
    ) in
    rw (
      deserialize_lines,
      line,
      kept,
      deserialize_field_lem f w.0,
      deserialize_lines_lem fuel fs shorter w.1,
    )

-- A schema file with a line `name,TYPE` for each field is read back as those fields, in order. The
-- names are not empty, hold no comma and no line feed and do not start with `#`, and the types are
-- those that have a name.
pub deserialize_schema-print_schema :
    (fs : List Field)
    → All IsWritten fs
    → deserialize_schema (print_schema fs) ≡ ok (record { fields = fs })
unfolding deserialize_schema
deserialize_schema-print_schema fs w =
    rw (deserialize_lines_lem (suc (length (print_schema fs))) fs (omega arith) w)
