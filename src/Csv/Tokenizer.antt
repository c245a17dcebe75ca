-- ===== src/Csv/Tokenizer.antt =====
-- The class `CsvTokenizer` of io/CsvTokenizer.cpp. `unread` is what the stream has not delivered
-- yet, and `buffer` is the part of the buffer between `buffer_pos_` and `buffer_end_`. The buffer's
-- capacity is a parameter, `capacity`; the source has 2 ^ 27.
use columnar_engine.Base.{
  ◌||◌, ℕ, zero, suc, ◌+◌, ◌^◌, Bool, true, false, not, ◌&&◌, [], ◌∷◌, ◌==◌, if◌then◌else◌, length,
  take, drop, Result, ok, err, out_of_bounds, ◌>>=◌, out_of_fuel,
}
use columnar_engine.Base.Words.{Bytes, bytes_eq}
use columnar_engine.Strings.Table.{
  Table, start_add_string, continue_add_string, pop_last_char, back_last_string, end_add_string,
  table_empty_last_string,
}

pub record CsvTokenizer : Type 0 where
  pub unread : Bytes
  pub buffer : Bytes
  pub delim : ℕ
  pub end_of_line : Bool
  pub eof_reached : Bool

abbrev pub buffer_size : ℕ
buffer_size = 2 ^ 27

-- The constructor, on the bytes of the file.
unfoldable pub open_tokenizer : Bytes → ℕ → CsvTokenizer
open_tokenizer file delim = record {
  unread = file;
  buffer = [];
  delim = delim;
  end_of_line = false;
  eof_reached = false;
}

unfoldable pub is_whitespace : ℕ → Bool
is_whitespace c = c == b' ' || (c == b'\t' || c == b'\r')

unfoldable pub is_end_of_line : CsvTokenizer → Bool
is_end_of_line t = t.end_of_line

unfoldable pub is_eof : CsvTokenizer → Bool
is_eof t = t.eof_reached

unfoldable pub reset_line_flag : CsvTokenizer → CsvTokenizer
reset_line_flag t = record t { end_of_line = false }

-- The loop that drops white space from the end of the string that grows; the number of bytes is
-- fuel enough.
unfoldable pub trim_end : ℕ → Table → Result Table
trim_end zero rows = err out_of_fuel
trim_end (suc fuel) rows = do
  empty ← table_empty_last_string rows
  elim empty [
    | true ↦ ok rows
    | false ↦ (do
      last ← back_last_string rows
      elim (is_whitespace last) [
        | false ↦ ok rows
        | true ↦ (do rows' ← pop_last_char rows; trim_end fuel rows')
      ])
  ]

-- Trimming and `EndAddString`, as at a delimiter, a line feed and the end of the file.
unfoldable pub close_token : Table → Result Table
close_token rows = do rows' ← trim_end (suc (length rows.bytes)) rows; end_add_string rows'

-- `start_token_if_needed`
unfoldable pub start_token : Bool → Table → Table
start_token started rows = if started then rows else start_add_string rows

-- What `GetNextRow` keeps between two characters.
pub record Scan : Type 0 where
  pub tokenizer : CsvTokenizer
  pub rows : Table
  pub token_started : Bool
  pub in_quotes : Bool

module _ (capacity : ℕ) where
  -- `RefillBuffer`; the character that it takes is put back by both of its callers.
  unfoldable pub refill_buffer : CsvTokenizer → CsvTokenizer × Bool
  refill_buffer t =
      if t.eof_reached
      then (t, false)
      else (let got = take capacity t.unread in
          if length got == 0
          then (
            record t { buffer = []; unread = drop capacity t.unread; eof_reached = true },
            false,
          )
          else (record t { buffer = got; unread = drop capacity t.unread }, true))

  -- Refills an empty buffer, and says whether there is a character.
  unfoldable pub fill : CsvTokenizer → CsvTokenizer × Bool
  fill t = if length t.buffer == 0 then refill_buffer t else (t, true)

  -- A quote character inside quotes: a second one behind it makes a quote in the string, and any
  -- other character, or the end of the file, ends the quotes.
  unfoldable pub at_quote : Scan → Scan
  at_quote s =
      let (t, more) = fill s.tokenizer in
      if more && bytes_eq (take 1 t.buffer) (b'"' ∷ [])
      then record s {
        tokenizer = record t { buffer = drop 1 t.buffer };
        rows = continue_add_string s.rows b'"';
      }
      else record s { tokenizer = t; in_quotes = false }

  -- The body of the loop at a character outside quotes that ends the token.
  unfoldable pub at_end : Scan → Result Scan
  at_end s = do rows' ← close_token s.rows; ok (record s { rows = rows'; token_started = false })

  unfoldable pub append_char : Scan → ℕ → Scan
  append_char s c = if c == b'\r' then s else record s { rows = continue_add_string s.rows c }

  -- What follows the loop: the last token of a file with no line feed at its end.
  unfoldable pub finish : Scan → Result Scan
  finish s = do
    rows' ←
        (if s.token_started || not s.tokenizer.eof_reached
          then close_token (start_token s.token_started s.rows)
          else ok s.rows)
    ok (record s { rows = rows'; tokenizer = record s.tokenizer { end_of_line = true } })

  -- A character inside quotes, and one outside.
  unfoldable pub quoted_char : Scan → ℕ → Scan
  quoted_char s c = if c == b'"' then at_quote s else append_char s c

  -- The flag says that the row has ended.
  unfoldable pub plain_char : Scan → ℕ → Result (Scan × Bool)
  plain_char s c =
      if c == b'"'
      then ok (record s { in_quotes = true }, false)
      else if c == s.tokenizer.delim || c == b'\n'
      then (do
        ended ← at_end s
        ok (
          record ended {
            tokenizer = record ended.tokenizer {
              end_of_line = c == b'\n' || ended.tokenizer.end_of_line;
            };
          },
          c == b'\n',
        ))
      else ok (append_char s c, false)

  -- The body of the loop at the character `c`, which is taken off the buffer of `s`.
  unfoldable pub read_char : Scan → ℕ → Result (Scan × Bool)
  read_char s c =
      if not s.token_started && (not s.in_quotes && is_whitespace c)
      then ok (s, false)
      else (let begun = record s {
        rows = start_token s.token_started s.rows;
        token_started = true;
      } in
          if s.in_quotes then ok (quoted_char begun c, false) else plain_char begun c)

  -- The loop of `GetNextRow`. Each round takes a character off the file, so the number of
  -- characters that are left is fuel enough.
  unfoldable pub scan : ℕ → Scan → Result Scan
  scan zero s = err out_of_fuel
  scan (suc fuel) s =
      let (t, more) = fill s.tokenizer in
      elim more [
        | false ↦ finish (record s { tokenizer = t })
        | true ↦ elim t.buffer [
          | [] ↦ err out_of_bounds
          | c ∷ cs ↦ (do
            r ← read_char (record s { tokenizer = record t { buffer = cs } }) c
            elim r.1 [ true ↦ ok r.0 | false ↦ scan fuel r.0 ])
        ]
      ]

  unfoldable pub get_next_row : CsvTokenizer → Table → Result (CsvTokenizer × Table)
  get_next_row t rows = do
    s ←
        scan (suc (length t.buffer + length t.unread))
          (record { tokenizer = t; rows = rows; token_started = false; in_quotes = false })
    ok (s.tokenizer, s.rows)
