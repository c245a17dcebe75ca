-- ===== src/Csv/Tests.antt =====
-- Runs of the tokenizer on one line of text, with a buffer of two bytes.
use columnar_engine.Base.{List, ℕ, ◌≡◌, refl, [], ◌∷◌, ok, arith, All, true, false}
use columnar_engine.Base.Words.{Bytes, codes}
use columnar_engine.Strings.Flat.{back}
use columnar_engine.Strings.Table.{Table, empty_table}
use columnar_engine.Strings.Rows.{HoldsRows, first_line, empty_table-HoldsRows}
use columnar_engine.Csv.Tokenizer.{
  CsvTokenizer, open_tokenizer, get_next_row, is_end_of_line, close_token, is_whitespace,
}
use columnar_engine.Csv.Buffer.{Left}
use columnar_engine.Csv.Trim.{IsTrimmed, Trimmed, close_token-Trimmed}
use columnar_engine.Csv.Reader.{CsvReader, Cache, open_reader, fill_cache}
use columnar_engine.Csv.Import.{Row, print_rows, Filled, fill_cache-Filled}
use columnar_engine.Csv.RoundTrip.{print_row, IsField, any_width, get_next_row-print_row}

abbrev line : Bytes
line = print_row b',' (codes "a,b") (codes "c" ∷ []) (codes "d")

abbrev tokenizer : CsvTokenizer
tokenizer = open_tokenizer line b','

tokenizer-Left : Left tokenizer line
unfolding open_tokenizer
tokenizer-Left = record { text = refl; open_yet = refl }

last_char-IsTrimmed : (s : Bytes) (b : ℕ) → back s ≡ ok b → is_whitespace b ≡ false → IsTrimmed s
last_char-IsTrimmed s b e w c f = let same : c ≡ b = cc in rw same w

fields-IsField : All IsField (codes "a,b" ∷ codes "c" ∷ [])
unfolding back is_whitespace
fields-IsField = (
  (
    (omega arith, (omega arith, (omega arith, tt))),
    last_char-IsTrimmed (codes "a,b") b'b' refl refl,
  ),
  (((omega arith, tt), last_char-IsTrimmed (codes "c") b'c' refl refl), tt),
)

get_next_row-print_row_example :
    (t : CsvTokenizer) × (table : Table) × (get_next_row 2 tokenizer empty_table ≡ ok (t, table))
    × Left t (codes "d")
    × HoldsRows table [] (codes "a,b" ∷ codes "c" ∷ []) []
    × (is_end_of_line t ≡ true)
    × (t.delim ≡ b',')
unfolding open_tokenizer
get_next_row-print_row_example =
    get_next_row-print_row 1 (codes "a,b") (codes "c" ∷ []) (codes "d") tokenizer-Left (omega arith)
      (omega arith) empty_table-HoldsRows fields-IsField any_width

-- A line whose first token has grown to its two characters.
abbrev begun : Table
begun = record empty_table { bytes = codes "ab" }

begun-HoldsRows : HoldsRows begun [] [] (codes "ab")
unfolding empty_table
begun-HoldsRows = record {
  bytes_are = refl;
  offsets_are = refl;
  lines_are = refl;
  columns_are = refl;
  in_line = refl;
  sizes_are = refl;
}

-- Two characters and a blank.
abbrev blank_end : Table
blank_end = record empty_table { bytes = codes "ab " }

blank_end-HoldsRows : HoldsRows blank_end [] [] (codes "ab ")
unfolding empty_table
blank_end-HoldsRows = record {
  bytes_are = refl;
  offsets_are = refl;
  lines_are = refl;
  columns_are = refl;
  in_line = refl;
  sizes_are = refl;
}

close_token-Trimmed_example :
    (t : Table) × (kept : Bytes) × (close_token blank_end ≡ ok t)
    × Trimmed (codes "ab ") kept
    × HoldsRows t [] (kept ∷ []) []
close_token-Trimmed_example = close_token-Trimmed blank_end-HoldsRows first_line

abbrev two_lines : List Row
two_lines = (codes "a,b", codes "c" ∷ []) ∷ (codes "c", codes "a,b" ∷ []) ∷ []

abbrev file_reader : CsvReader
file_reader = open_reader (print_rows b',' two_lines) b','

file_reader-Left : Left file_reader.tokenizer (print_rows b',' two_lines)
unfolding open_reader open_tokenizer
file_reader-Left = record { text = refl; open_yet = refl }

swapped-IsField : All IsField (codes "c" ∷ codes "a,b" ∷ [])
swapped-IsField = (fields-IsField.1.0, (fields-IsField.0, tt))

fill_cache-Filled_example :
    (c : Cache) × (fill_cache 2 8193 file_reader empty_table 0 0 ≡ ok c)
    × Filled c [] 0 0 b',' 0 two_lines
unfolding open_reader open_tokenizer
fill_cache-Filled_example =
    fill_cache-Filled 1 8193 two_lines file_reader empty_table 2 0 0 [] file_reader-Left
      (omega arith) (omega arith) empty_table-HoldsRows
      ((fields-IsField, refl), ((swapped-IsField, refl), tt)) any_width refl (omega arith)
