-- ===== src/Columns/Tests.antt =====
-- A schema of two fields, and a vector with two runs.
use mathlib.Core.List.{reverse}
use mathlib.Core.List.Permᴰ
use columnar_engine.Base.{ℕ, some, map, ◌≡◌, ◌≢◌, List, [], ◌∷◌, arith, ok, All}
use columnar_engine.Base.Words.{codes}
use columnar_engine.Types.ColumnTypes.{int32, string, unnamed}
use columnar_engine.Columns.Schema.{Field, deserialize_schema}
use columnar_engine.Columns.Codec.{rle_encode, rle_decode, dictionary_encode}
use columnar_engine.Columns.DictionaryBytes.{dictionary_items, dictionary_items-dictionary_encode}
use columnar_engine.Columns.RunLengths.{rle_decode-rle_encode}
use columnar_engine.Columns.SchemaText.{IsWritten, print_schema, deserialize_schema-print_schema}

abbrev fields : List Field
fields =
    record { name = codes "id"; type_of = int32 }
    ∷ record { name = codes "url"; type_of = string }
    ∷ []

int32-IsNamed : (n : ℕ) → int32 ≢ unnamed n
int32-IsNamed n e = cc

string-IsNamed : (n : ℕ) → string ≢ unnamed n
string-IsNamed n e = cc

fields-IsWritten : All IsWritten fields
fields-IsWritten = (
  record {
    starts = omega arith;
    no_comma = (omega arith, (omega arith, tt));
    no_line = (omega arith, (omega arith, tt));
    named = int32-IsNamed;
  },
  (
    record {
      starts = omega arith;
      no_comma = (omega arith, (omega arith, (omega arith, tt)));
      no_line = (omega arith, (omega arith, (omega arith, tt)));
      named = string-IsNamed;
    },
    tt,
  ),
)

deserialize_schema-print_schema_example :
    deserialize_schema (print_schema fields) ≡ ok (record { fields = fields })
deserialize_schema-print_schema_example = deserialize_schema-print_schema fields fields-IsWritten

abbrev two_runs : List ℕ
two_runs = 7 ∷ 7 ∷ 300 ∷ []

rle_decode-rle_encode_example : rle_decode 2 (rle_encode 2 two_runs) ≡ ok two_runs
rle_decode-rle_encode_example =
    rle_decode-rle_encode 2 two_runs (omega arith) (omega arith, (omega arith, (omega arith, tt)))

-- A map that gives its pairs from the last to the first.
dictionary_items-dictionary_encode_example :
    dictionary_items 2 (dictionary_encode 2 reverse two_runs) ≡ ok (map some two_runs)
dictionary_items-dictionary_encode_example =
    dictionary_items-dictionary_encode 2 reverse (λ l. Permᴰ.symm (Permᴰ.reverse l)) two_runs
      (omega arith) (omega arith, (omega arith, (omega arith, tt)))
