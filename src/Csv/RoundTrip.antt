-- ===== src/Csv/RoundTrip.antt =====
-- Rows that are printed with every field in quotes are read back field by field.
use columnar_engine.Base.{
  zero-add, sym, length-append, subst, length-append_one, ◌+◌, refl, ◌||◌, ◌==◌, ==_iff, append-nil,
  append_assoc, ◌∙◌, true, Bool, Bool-cases, inl, inr, ap, zero, ◌<◌, ℕ, suc, ◌≤◌, ◌≡◌, ◌≢◌, false,
  List, [], ◌∷◌, ◌++◌, arith, if◌then◌else◌, length, Result, ok, All,
}
use columnar_engine.Base.Words.{Bytes}
use columnar_engine.Strings.Table.{continue_add_string, Table, start_add_string}
use columnar_engine.Strings.Rows.{
  continue_add_string-HoldsRows, HoldsRows, HasRoom, first_line, next_line,
}
use columnar_engine.Csv.Tokenizer.{
  is_end_of_line, plain_char, is_whitespace, at_end, get_next_row, read_char, quoted_char,
  append_char, start_token, CsvTokenizer, Scan, scan,
}
use columnar_engine.Csv.Buffer.{at_quote-other, at_quote-quote, Left, scan-Left}
use columnar_engine.Csv.Trim.{IsTrimmed, close_token-HoldsRows}

abbrev pub quote : ℕ
quote = b'"'

-- A field with its quotes doubled.
abbrev pub escape : Bytes → Bytes
escape [] = []
escape (c ∷ cs) = if c == quote then quote ∷ quote ∷ escape cs else c ∷ escape cs

-- A field in quotes, and a row of them, with what follows it.
abbrev pub print_field : Bytes → Bytes → Bytes
print_field f rest = quote ∷ (escape f ++ quote ∷ rest)

abbrev pub print_row : ℕ → Bytes → List Bytes → Bytes → Bytes
print_row delim f [] rest = print_field f (b'\n' ∷ rest)
print_row delim f (g ∷ fs) rest = print_field f (delim ∷ print_row delim g fs rest)

-- The fields that survive: no carriage return, and no white space at the end.
abbrev pub IsField : Bytes → Type 0
IsField f = All (λ c. c ≢ b'\r') f × IsTrimmed f

-- There are columns for `n` strings.
pub data RoomFor : List (List Bytes) → ℕ → Type 0 where
  any_width : {n : ℕ} → RoomFor [] n
  within : {r : List Bytes} {rs : List (List Bytes)} {n : ℕ} → n ≤ length r → RoomFor (r ∷ rs) n

HasRoom-RoomFor :
    {rows : List (List Bytes)} {n : ℕ} (current : List Bytes)
    → RoomFor rows n
    → length current < n
    → HasRoom rows current
HasRoom-RoomFor current any_width h = first_line
HasRoom-RoomFor current (within le) h = next_line (omega arith)

start_add_string-HoldsRows :
    {t : Table} {rows : List (List Bytes)} {current : List Bytes} {pending : Bytes}
    → HoldsRows t rows current pending
    → HoldsRows (start_add_string t) rows current pending
unfolding start_add_string
start_add_string-HoldsRows h = record {
  bytes_are = h.bytes_are;
  offsets_are = h.offsets_are;
  lines_are = h.lines_are;
  columns_are = h.columns_are;
  in_line = h.in_line;
  sizes_are = h.sizes_are;
}

-- The state of the loop.
abbrev state : CsvTokenizer → Table → Bool → Bool → Scan
state t table started quoted = record {
  tokenizer = t;
  rows = table;
  token_started = started;
  in_quotes = quoted;
}

from_suc : (P : ℕ → Type 0) (m n : ℕ) → suc m < n → ((n' : ℕ) → m < n' → P (suc n')) → P n
from_suc P m zero h go = absurd (omega arith)
from_suc P m (suc n) h go = go n (omega arith)

module _ (k : ℕ) (rows : List (List Bytes)) (delim : ℕ) where
  -- The row ends, holding the strings `all`, with `rest` unread.
  pub record Ends (r : Result Scan) (all : List Bytes) (rest : Bytes) : Type 0 where
    pub last : Scan
    pub returns : r ≡ ok last
    pub left : Left last.tokenizer rest
    pub holds : HoldsRows last.rows rows all []
    pub line_ended : last.tokenizer.end_of_line ≡ true
    pub same_delim : last.tokenizer.delim ≡ delim

  -- One round of the loop, for a character at which the body goes on with `next`.
  round :
      (fuel : ℕ) (s : Scan) (c : ℕ) (cs : Bytes) (all : List Bytes) (rest : Bytes)
      → Left s.tokenizer (c ∷ cs)
      → ((t : CsvTokenizer)
          → Left t cs
          → t.delim ≡ s.tokenizer.delim
          → (next : Scan) × (read_char (suc k) (record s { tokenizer = t }) c ≡ ok (next, false))
            × Ends (scan (suc k) fuel next) all rest)
      → Ends (scan (suc k) (suc fuel) s) all rest
  round fuel s c cs all rest l go =
      let (t, l', d, e) = scan-Left k fuel s c cs l in
      let (next, read, ends) = go t l' d in rw (e, read) ends

  quoted_body :
      (f : Bytes) (fuel : ℕ) (t : CsvTokenizer) (table : Table) (c : ℕ) (tail : Bytes)
      (current : List Bytes) (pending : Bytes) (all : List Bytes) (rest : Bytes)
      → Left t (escape f ++ quote ∷ c ∷ tail)
      → HoldsRows table rows current pending
      → c ≢ quote
      → All (λ b. b ≢ b'\r') f
      → length (escape f ++ quote ∷ c ∷ tail) < fuel
      → ((fuel' : ℕ) (t' : CsvTokenizer) (table' : Table)
          → Left t' (c ∷ tail)
          → t'.delim ≡ t.delim
          → HoldsRows table' rows current (pending ++ f)
          → length (c ∷ tail) < fuel'
          → Ends (scan (suc k) fuel' (state t' table' true false)) all rest)
      → Ends (scan (suc k) fuel (state t table true true)) all rest
  unfolding read_char quoted_char append_char start_token
  quoted_body f zero t table c tail current pending all rest l h ne ok_f fit go =
      absurd (omega arith)
  quoted_body [] (suc fuel) t table c tail current pending all rest l h ne ok_f fit go =
      round fuel (state t table true true) quote (c ∷ tail) all rest l (λ t1 l1 d1.
        let (t2, l2, d2, e) = at_quote-other k (state t1 table true true) c tail l1 ne in
        (
          state t2 table true false,
          ap (λ s. ok (s, false)) e,
          go fuel t2 table l2 (d2 ∙ d1) (rw append-nil h) (omega arith),
        ))
  quoted_body (b ∷ f) (suc fuel) t table c tail current pending all rest l h ne ok_f fit go =
      elim (Bool-cases (b == quote)) [
        | inl is_quote ↦
            let same : b ≡ quote = (==_iff b quote).0 is_quote in
            let l' : Left t (quote ∷ quote ∷ (escape f ++ quote ∷ c ∷ tail)) = rw is_quote at l in
            round fuel (state t table true true) quote (quote ∷ (escape f ++ quote ∷ c ∷ tail)) all
              rest l'
              (λ t1 l1 d1.
                let (t2, l2, d2, e) = at_quote-quote k (state t1 table true true) _ l1 in
                (
                  state t2 (continue_add_string table quote) true true,
                  ap (λ s. ok (s, false)) e,
                  quoted_body f fuel t2 (continue_add_string table quote) c tail current
                      (pending ++ quote ∷ []) all rest l2 (continue_add_string-HoldsRows quote h) ne
                      ok_f.1 (ground arith)
                      (λ fuel' t' table' l3 d3 h3 fit3.
                        go fuel' t' table' l3 (d3 ∙ d2 ∙ d1)
                          (rw (same, ← append_assoc pending (quote ∷ []) f) h3) fit3),
                ))
        | inr plain ↦
            let l' : Left t (b ∷ (escape f ++ quote ∷ c ∷ tail)) = rw plain at l in
            let kept : (b == b'\r') ≡ false = ground (arith, ok_f.0) in
            round fuel (state t table true true) b (escape f ++ quote ∷ c ∷ tail) all rest l'
              (λ t1 l1 d1. (
                state t1 (continue_add_string table b) true true,
                rw (plain, kept),
                quoted_body f fuel t1 (continue_add_string table b) c tail current
                    (pending ++ b ∷ []) all rest l1 (continue_add_string-HoldsRows b h) ne ok_f.1
                    (ground arith)
                    (λ fuel' t' table' l3 d3 h3 fit3.
                      go fuel' t' table' l3 (d3 ∙ d1) (rw (← append_assoc pending (b ∷ []) f) h3)
                        fit3),
              ))
      ]

  -- A character that the row's next token starts with a quote is read outside quotes.
  open_quote :
      (fuel : ℕ) (t : CsvTokenizer) (table : Table) (tail : Bytes) (current : List Bytes)
      (all : List Bytes) (rest : Bytes)
      → Left t (quote ∷ tail)
      → ((t' : CsvTokenizer)
          → Left t' tail
          → t'.delim ≡ t.delim
          → Ends (scan (suc k) fuel (state t' (start_add_string table) true true)) all rest)
      → Ends (scan (suc k) (suc fuel) (state t table false false)) all rest
  unfolding read_char plain_char start_token is_whitespace
  open_quote fuel t table tail current all rest l go =
      round fuel (state t table false false) quote tail all rest l
        (λ t1 l1 d1. (state t1 (start_add_string table) true true, refl, go t1 l1 d1))

  -- A delimiter ends the token, and the row goes on.
  end_token :
      (fuel : ℕ) (t : CsvTokenizer) (table : Table) (tail : Bytes) (current : List Bytes)
      (f : Bytes) (all : List Bytes) (rest : Bytes)
      → t.delim ≡ delim
      → Left t (delim ∷ tail)
      → HoldsRows table rows current f
      → HasRoom rows current
      → IsTrimmed f
      → delim ≢ quote
      → delim ≢ b'\n'
      → ((t' : CsvTokenizer) (table' : Table)
          → Left t' tail
          → t'.delim ≡ t.delim
          → HoldsRows table' rows (current ++ f ∷ []) []
          → Ends (scan (suc k) fuel (state t' table' false false)) all rest)
      → Ends (scan (suc k) (suc fuel) (state t table true false)) all rest
  unfolding read_char plain_char start_token at_end
  end_token fuel t table tail current f all rest d l h room trimmed ne_quote ne_line go =
      let (table', closed, h') = close_token-HoldsRows h room trimmed in
      let not_quote : (delim == quote) ≡ false = ground (arith, ne_quote) in
      let not_line : (delim == b'\n') ≡ false = ground (arith, ne_line) in
      let itself : (delim == delim) ≡ true = ground arith in
      round fuel (state t table true false) delim tail all rest l (λ t1 l1 d1. (
        state t1 table' false false,
        rw (not_quote, d1, d, itself, closed, not_line),
        go t1 table' l1 d1 h',
      ))

  -- A line feed ends the token and the row.
  end_row :
      (fuel : ℕ) (t : CsvTokenizer) (table : Table) (rest : Bytes) (current : List Bytes)
      (f : Bytes)
      → t.delim ≡ delim
      → Left t (b'\n' ∷ rest)
      → HoldsRows table rows current f
      → HasRoom rows current
      → IsTrimmed f
      → Ends (scan (suc k) (suc fuel) (state t table true false)) (current ++ f ∷ []) rest
  unfolding read_char plain_char start_token at_end
  end_row fuel t table rest current f d l h room trimmed =
      let (t1, l1, d1, e) = scan-Left k fuel (state t table true false) b'\n' rest l in
      let (table', closed, h') = close_token-HoldsRows h room trimmed in
      let line : (b'\n' == t1.delim || true) ≡ true = ground arith in
      record {
        last = state (record t1 { end_of_line = true }) table' false false;
        returns = rw (e, closed, line);
        left = record { text = l1.text; open_yet = l1.open_yet };
        holds = h';
        line_ended = refl;
        same_delim = d1 ∙ d;
      }

  -- One field, up to the character behind its closing quote.
  field :
      (f : Bytes) (fuel : ℕ) (t : CsvTokenizer) (table : Table) (c : ℕ) (tail : Bytes)
      (current all : List Bytes) (rest : Bytes)
      → Left t (print_field f (c ∷ tail))
      → HoldsRows table rows current []
      → c ≢ quote
      → IsField f
      → length (print_field f (c ∷ tail)) < fuel
      → ((fuel' : ℕ) (t' : CsvTokenizer) (table' : Table)
          → Left t' (c ∷ tail)
          → t'.delim ≡ t.delim
          → HoldsRows table' rows current f
          → length tail < fuel'
          → Ends (scan (suc k) (suc fuel') (state t' table' true false)) all rest)
      → Ends (scan (suc k) fuel (state t table false false)) all rest
  field f zero t table c tail current all rest l h ne ok_f fit go = absurd (omega arith)
  field f (suc fuel) t table c tail current all rest l h ne ok_f fit go =
      open_quote fuel t table _ current all rest l (λ t1 l1 d1.
        quoted_body f fuel t1 (start_add_string table) c tail current [] all rest l1
          (start_add_string-HoldsRows h) ne ok_f.0 (omega arith)
          (λ fuel' t' table' l3 d3 h3 fit3.
            from_suc (λ n. Ends (scan (suc k) n (state t' table' true false)) all rest)
              (length tail) fuel' fit3 (λ n fits. go n t' table' l3 (d3 ∙ d1) h3 fits)))

  row :
      (fs : List Bytes) (f : Bytes) (fuel : ℕ) (t : CsvTokenizer) (table : Table)
      (current : List Bytes) (rest : Bytes)
      → t.delim ≡ delim
      → delim ≢ quote
      → delim ≢ b'\n'
      → Left t (print_row delim f fs rest)
      → HoldsRows table rows current []
      → All IsField (f ∷ fs)
      → RoomFor rows (length current + suc (length fs))
      → length (print_row delim f fs rest) < fuel
      → Ends (scan (suc k) fuel (state t table false false)) (current ++ f ∷ fs) rest
  row [] f fuel t table current rest d ne_quote ne_line l h ok_fs room fit =
      field f fuel t table b'\n' rest current _ rest l h (ground arith) ok_fs.0 fit
        (λ fuel' t' table' l' d' h' fit'.
          end_row fuel' t' table' rest current f (d' ∙ d) l' h'
            (HasRoom-RoomFor current room (omega arith)) ok_fs.0.1)
  row (g ∷ fs) f fuel t table current rest d ne_quote ne_line l h ok_fs room fit =
      field f fuel t table delim (print_row delim g fs rest) current _ rest l h ne_quote ok_fs.0 fit
        (λ fuel' t' table' l' d' h' fit'.
          end_token fuel' t' table' (print_row delim g fs rest) current f _ rest (d' ∙ d) l' h'
            (HasRoom-RoomFor current room (omega arith)) ok_fs.0.1 ne_quote ne_line
            (λ t2 table2 l2 d2 h2. rw (append_assoc current (f ∷ []) (g ∷ fs)) at (
              row fs g fuel' t2 table2 (current ++ f ∷ []) rest (d2 ∙ d' ∙ d) ne_quote ne_line l2 h2
                ok_fs.1 (subst (RoomFor rows) (omega (arith, length-append_one current f)) room)
                fit')))

-- A row that is printed with every field in quotes and its quotes doubled is read back as it is,
-- whatever the capacity of the buffer and however much of the file stands in it: the strings of the
-- fields are added to the row, the rest of the file is left, and the tokenizer stands at the end of
-- a line, with its delimiter as before. The fields hold no carriage return and do not end in white space, the delimiter is
-- neither a quote nor a line feed, and there are columns for the fields.
pub get_next_row-print_row :
    (k : ℕ) (f : Bytes) (fs : List Bytes) (rest : Bytes) {t : CsvTokenizer} {table : Table}
    {rows : List (List Bytes)}
    → Left t (print_row t.delim f fs rest)
    → t.delim ≢ quote
    → t.delim ≢ b'\n'
    → HoldsRows table rows [] []
    → All IsField (f ∷ fs)
    → RoomFor rows (suc (length fs))
    → (t' : CsvTokenizer) × (table' : Table) × (get_next_row (suc k) t table ≡ ok (t', table'))
      × Left t' rest
      × HoldsRows table' rows (f ∷ fs) []
      × (is_end_of_line t' ≡ true)
      × (t'.delim ≡ t.delim)
unfolding get_next_row is_end_of_line
get_next_row-print_row k f fs rest {t} {table} {rows} l ne_quote ne_line h ok_fs room =
    let size : length t.buffer + length t.unread ≡ length (print_row t.delim f fs rest) =
      sym (length-append t.buffer t.unread) ∙ ap length l.text in
    let ends =
      row k rows t.delim fs f (suc (length t.buffer + length t.unread)) t table [] rest refl
        ne_quote ne_line l h ok_fs (subst (RoomFor rows) (sym (zero-add (suc (length fs)))) room)
        (omega arith) in
    (
      ends.last.tokenizer,
      ends.last.rows,
      rw ends.returns,
      ends.left,
      ends.holds,
      ends.line_ended,
      ends.same_delim,
    )
