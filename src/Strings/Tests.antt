-- ===== src/Strings/Tests.antt =====
-- Runs of the two vectors of strings on small inputs.
use columnar_engine.Base.{
  false, ◌≡◌, refl, List, [], ◌∷◌, ◌++◌, ok, err, out_of_bounds, of_option, get_elem?,
}
use columnar_engine.Base.Words.{Bytes, codes}
use columnar_engine.Strings.Flat.{empty, push_back, push_all, size, get_string, iterate}
use columnar_engine.Strings.Holds.{Holds}
use columnar_engine.Strings.Reads.{
  push_all-Holds, empty-Holds, push_back-Holds, get_string-Holds, iterate-push_all,
}
use columnar_engine.Strings.Table.{Table, end_add_string, start_new_line, get_string_2d}
use columnar_engine.Strings.Cells.{get_string_2d-HoldsRows}
use columnar_engine.Strings.Rows.{end_add_string-full, HoldsRows, start_new_line-HoldsRows}

abbrev texts : List Bytes
texts = codes "ab" ∷ [] ∷ codes "c" ∷ []

texts-Holds : Holds (push_all empty texts) texts
texts-Holds = push_all-Holds texts empty-Holds

push_back-Holds_example :
    Holds (push_back (push_all empty texts) (codes "d")) (texts ++ codes "d" ∷ [])
push_back-Holds_example = push_back-Holds (codes "d") texts-Holds

get_string-Holds_example : get_string (push_all empty texts) 2 ≡ of_option (get_elem? texts 2)
get_string-Holds_example = get_string-Holds 2 texts-Holds

iterate-push_all_example : iterate (push_all empty texts) 0 (size (push_all empty texts)) ≡ ok texts
iterate-push_all_example = iterate-push_all texts

-- Two lines of two strings, the second one with its first string only.
abbrev grid : Table
grid = record {
  bytes = codes "abcde";
  offsets = 0 ∷ 2 ∷ 3 ∷ 4 ∷ [];
  column_sizes = 3 ∷ 1 ∷ [];
  lines = 2;
  columns = 2;
  columns_in_line = 1;
  adding_string = false;
}

abbrev first : List Bytes
first = codes "ab" ∷ codes "c" ∷ []

grid-HoldsRows : HoldsRows grid (first ∷ []) (codes "d" ∷ []) (codes "e")
grid-HoldsRows = record {
  bytes_are = refl;
  offsets_are = refl;
  lines_are = refl;
  columns_are = refl;
  in_line = refl;
  sizes_are = refl;
}

get_string_2d-HoldsRows_example : get_string_2d grid 1 0 ≡ ok (codes "d")
get_string_2d-HoldsRows_example =
    get_string_2d-HoldsRows 1 0 (codes "d" ∷ []) (codes "d") grid-HoldsRows (refl, tt) refl refl

-- A second line as long as the first.
abbrev full_grid : Table
full_grid = record grid {
  offsets = 0 ∷ 2 ∷ 3 ∷ 4 ∷ 5 ∷ [];
  column_sizes = 3 ∷ 2 ∷ [];
  columns_in_line = 2;
}

full_grid-HoldsRows : HoldsRows full_grid (first ∷ []) (codes "d" ∷ codes "e" ∷ []) []
full_grid-HoldsRows = record {
  bytes_are = refl;
  offsets_are = refl;
  lines_are = refl;
  columns_are = refl;
  in_line = refl;
  sizes_are = refl;
}

end_add_string-full_example : end_add_string full_grid ≡ err out_of_bounds
end_add_string-full_example = end_add_string-full full_grid-HoldsRows refl

start_new_line-HoldsRows_example :
    HoldsRows (start_new_line full_grid) (first ∷ (codes "d" ∷ codes "e" ∷ []) ∷ []) [] []
start_new_line-HoldsRows_example = start_new_line-HoldsRows full_grid-HoldsRows
