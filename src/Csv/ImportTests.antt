-- ===== src/Csv/ImportTests.antt =====
-- A schema of a number and a text, a file of two rows, and a file of one row that fills a cache.
use columnar_engine.Base.{
  ℕ, zero, suc, ◌≡◌, ◌≢◌, refl, List, [], ◌∷◌, map, arith, All, Result, ok, err, length,
  length-replicate, replicate, invalid_value, false, ◌-◌, ◌^◌,
}
use columnar_engine.Base.Words.{Bytes, codes}
use columnar_engine.Types.ColumnTypes.{ColumnType, int32, string, unnamed, elem_size}
use columnar_engine.Strings.Flat.{back}
use columnar_engine.Columns.Column.{Column}
use columnar_engine.Columns.Schema.{Field, delimiter}
use columnar_engine.Columns.SchemaText.{IsWritten, print_schema}
use columnar_engine.Columns.Values.{
  from_string, int_from_string, read_number, read_digits, signed_word,
}
use columnar_engine.Columns.Built.{word_text, string_text}
use columnar_engine.Io.Header.{fresh_columns}
use columnar_engine.Io.Writer.{ColumnarWriter, finalize}
use columnar_engine.Csv.Tokenizer.{is_whitespace}
use columnar_engine.Csv.Trim.{IsTrimmed}
use columnar_engine.Csv.Import.{Row, IsRow, fields_of, print_rows}
use columnar_engine.Csv.Convert.{Conversion, convert_with_schema}
use columnar_engine.Csv.Imported.{Imported}
use columnar_engine.Csv.Converted.{FitsSchema, convert_with_schema-Imported}
use columnar_engine.Csv.Lost.{convert_with_schema-lost}

abbrev no_floats : ColumnType → Bytes → Result ℕ
no_floats type text = err invalid_value

abbrev id_field : Field
id_field = record { name = codes "id"; type_of = int32 }

abbrev url_field : Field
url_field = record { name = codes "url"; type_of = string }

int32-named : (n : ℕ) → int32 ≢ unnamed n
int32-named n e = cc

string-named : (n : ℕ) → string ≢ unnamed n
string-named n e = cc

url-IsWritten : IsWritten url_field
url-IsWritten = record {
  starts = omega arith;
  no_comma = omega arith;
  no_line = omega arith;
  named = string-named;
}

id-IsWritten : IsWritten id_field
id-IsWritten = record {
  starts = omega arith;
  no_comma = omega arith;
  no_line = omega arith;
  named = int32-named;
}

abbrev file_rows : List Row
file_rows = (codes "12", codes "a,b" ∷ []) ∷ (codes "7", codes "c" ∷ []) ∷ []

last_char : (s : Bytes) (b : ℕ) → back s ≡ ok b → is_whitespace b ≡ false → IsTrimmed s
last_char s b e w c f = let same : c ≡ b = cc in rw same w

file_rows-IsRow : All (IsRow 2) file_rows
unfolding back is_whitespace
file_rows-IsRow = (
  (
    (
      ((omega arith, (omega arith, tt)), last_char (codes "12") b'2' refl refl),
      (
        ((omega arith, (omega arith, (omega arith, tt))), last_char (codes "a,b") b'b' refl refl),
        tt,
      ),
    ),
    refl,
  ),
  (
    (
      (
        ((omega arith, tt), last_char (codes "7") b'7' refl refl),
        (((omega arith, tt), last_char (codes "c") b'c' refl refl), tt),
      ),
      refl,
    ),
    tt,
  ),
)

file_rows-texts : All (FitsSchema 1 no_floats id_field (url_field ∷ [])) file_rows
unfolding elem_size from_string int_from_string read_number read_digits signed_word
file_rows-texts = (
  (word_text 4 12 refl refl (omega arith), (string_text (omega arith), refl)),
  ((word_text 4 7 refl refl (omega arith), (string_text (omega arith), refl)), tt),
)

convert_with_schema-Imported_example :
    (header : ColumnarWriter) × (state : Conversion) × (done : ColumnarWriter) × (header.metadata
      ≡ fresh_columns (codes "id" ∷ codes "url" ∷ []) (int32 ∷ string ∷ []))
    × Imported no_floats (int32 ∷ string ∷ []) state header [] (map fields_of file_rows)
    × (finalize state.writer ≡ ok done)
    × (convert_with_schema 2 no_floats
          (print_rows delimiter file_rows)
          (print_schema (id_field ∷ url_field ∷ []))
        ≡ ok (record state { writer = done }))
convert_with_schema-Imported_example =
    convert_with_schema-Imported 1 no_floats id_field (url_field ∷ []) file_rows
      (id-IsWritten, (url-IsWritten, tt)) file_rows-IsRow file_rows-texts

-- A text of 2 ^ 20 bytes.
many_letters : ℕ → Bytes
many_letters n = replicate n b'a'

length-many_letters : (n : ℕ) → length (many_letters n) ≡ n
unfolding many_letters
length-many_letters n = length-replicate n b'a'

letters-All : (n : ℕ) → All (λ c. c ≢ b'\r') (many_letters n)
unfolding many_letters
letters-All zero = tt
letters-All (suc n) = (omega arith, letters-All n)

letters-back : (n : ℕ) → back (many_letters (suc n)) ≡ ok b'a'
unfolding many_letters back
letters-back zero = refl
letters-back (suc n) = letters-back n

letters-IsTrimmed : (n : ℕ) → IsTrimmed (many_letters (suc n))
unfolding is_whitespace
letters-IsTrimmed n = last_char (many_letters (suc n)) b'a' (letters-back n) refl

abbrev big_row : Row
big_row = (many_letters (2 ^ 20), [])

big_row-texts : All (FitsSchema 1 no_floats url_field []) (big_row ∷ [])
big_row-texts = ((string_text (omega (arith, length-many_letters (2 ^ 20))), refl), tt)

big_row-IsRow : All (IsRow 1) (big_row ∷ [])
big_row-IsRow = ((((letters-All (2 ^ 20), letters-IsTrimmed (2 ^ 20 - 1)), tt), refl), tt)

convert_with_schema-lost_example :
    (header : ColumnarWriter) × (done : ColumnarWriter) × (builders : List Column)
    × (header.metadata ≡ fresh_columns (codes "url" ∷ []) (string ∷ []))
    × (finalize header ≡ ok done)
    × (convert_with_schema 2 no_floats
          (print_rows delimiter (big_row ∷ []))
          (print_schema (url_field ∷ []))
        ≡ ok (record { writer = done; builders = builders }))
convert_with_schema-lost_example =
    convert_with_schema-lost 1 no_floats url_field [] [] big_row (url-IsWritten, tt) big_row-IsRow
      big_row-texts (omega arith) (omega arith) (omega (arith, length-many_letters (2 ^ 20)))
