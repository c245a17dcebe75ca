-- ===== src/Csv/Buffer.antt =====
-- The rounds of the loop of io/CsvTokenizer.cpp in terms of the text that is left, of which the buffer
-- holds the front.
use columnar_engine.Base.{
  length, ◌==◌, out_of_bounds, err, Bool, refl, ◌>>=◌, ok, ap, ◌≢◌, true, [], take, drop,
  take-append-drop, ◌∙◌, suc, ℕ, ◌≡◌, false, ◌∷◌, ◌++◌, arith,
}
use columnar_engine.Base.Words.{bytes_eq, Bytes}
use columnar_engine.Strings.Table.{continue_add_string}
use columnar_engine.Csv.Tokenizer.{
  finish, scan, read_char, at_quote, Scan, refill_buffer, CsvTokenizer, fill,
}

-- What the tokenizer has not read yet is `cs`, and it has not met the end of the file.
pub record Left (t : CsvTokenizer) (cs : Bytes) : Type 0 where
  pub text : t.buffer ++ t.unread ≡ cs
  pub open_yet : t.eof_reached ≡ false

-- A buffer of capacity `suc k`, one that can hold a character.
module _ (k : ℕ) where
  not_quote : (c : ℕ) → c ≢ b'"' → bytes_eq (c ∷ []) (b'"' ∷ []) ≡ false
  unfolding bytes_eq
  not_quote c ne = ground arith

  -- A tokenizer with its buffer filled at the character `c`.
  pub record Filled (t : CsvTokenizer) (c : ℕ) (cs : Bytes) : Type 0 where
    pub buffer : Bytes
    pub unread : Bytes
    pub fills : fill (suc k) t ≡ (record t { buffer = c ∷ buffer; unread = unread }, true)
    pub text : buffer ++ unread ≡ cs

  fill_from :
      (b u : Bytes) (d : ℕ) (eol eof : Bool) (c : ℕ) (cs : Bytes)
      → b ++ u ≡ c ∷ cs
      → eof ≡ false
      → Filled
          (record { unread = u; buffer = b; delim = d; end_of_line = eol; eof_reached = eof })
          c
          cs
  unfolding fill refill_buffer
  fill_from b u d eol true c cs e h = cc
  fill_from [] [] d eol false c cs e h = cc
  fill_from [] (x ∷ u) d eol false c cs e h = record {
    buffer = take k u;
    unread = drop k u;
    fills =
        let some_read : (suc (length (take k u)) == 0) ≡ false = ground arith in
        let same : x ≡ c = cc in rw (some_read, same);
    text = take-append-drop k u ∙ cc;
  }
  fill_from (x ∷ b) u d eol false c cs e h = record {
    buffer = b;
    unread = u;
    fills =
        let some_left : (suc (length b) == 0) ≡ false = ground arith in
        let same : x ≡ c = cc in rw (some_left, same);
    text = cc;
  }

  pub fill-Left : (t : CsvTokenizer) (c : ℕ) (cs : Bytes) → Left t (c ∷ cs) → Filled t c cs
  fill-Left t c cs l =
      fill_from t.buffer t.unread t.delim t.end_of_line t.eof_reached c cs l.text l.open_yet

  -- A round of the loop, seen from the text that is left: the character comes off it, whether it
  -- stood in the buffer or had to be read from the file first.
  pub scan-Left :
      (fuel : ℕ) (s : Scan) (c : ℕ) (cs : Bytes)
      → Left s.tokenizer (c ∷ cs)
      → (t : CsvTokenizer) × Left t cs
        × (t.delim ≡ s.tokenizer.delim)
        × (scan (suc k) (suc fuel) s ≡ (do
          r ← read_char (suc k) (record s { tokenizer = t }) c
          elim r.1 [ true ↦ ok r.0 | false ↦ scan (suc k) fuel r.0 ]))
  unfolding scan
  scan-Left fuel s c cs l =
      let f = fill-Left s.tokenizer c cs l in
      (
        record s.tokenizer { buffer = f.buffer; unread = f.unread },
        record { text = f.text; open_yet = l.open_yet },
        refl,
        ap
            (λ (p : CsvTokenizer × Bool). elim p.1 [
              | false ↦ finish (suc k) (record s { tokenizer = p.0 })
              | true ↦ elim p.0.buffer [
                | [] ↦ err out_of_bounds
                | x ∷ xs ↦ (do
                  r ← read_char (suc k) (record s { tokenizer = record p.0 { buffer = xs } }) x
                  elim r.1 [ true ↦ ok r.0 | false ↦ scan (suc k) fuel r.0 ])
              ]
            ])
            f.fills,
      )

  -- Behind a closing quote stands the end of the file or another character than a quote; a quote
  -- there makes the two of them one quote character of the text.
  pub at_quote-other :
      (s : Scan) (c : ℕ) (cs : Bytes)
      → Left s.tokenizer (c ∷ cs)
      → c ≢ b'"'
      → (t : CsvTokenizer) × Left t (c ∷ cs)
        × (t.delim ≡ s.tokenizer.delim)
        × (at_quote (suc k) s ≡ record s { tokenizer = t; in_quotes = false })
  unfolding at_quote
  at_quote-other s c cs l ne =
      let f = fill-Left s.tokenizer c cs l in
      let other : bytes_eq (c ∷ []) (b'"' ∷ []) ≡ false = not_quote c ne in
      (
        record s.tokenizer { buffer = c ∷ f.buffer; unread = f.unread },
        record { text = ap (◌∷◌ c) f.text; open_yet = l.open_yet },
        refl,
        rw (f.fills, other),
      )

  pub at_quote-quote :
      (s : Scan) (cs : Bytes)
      → Left s.tokenizer (b'"' ∷ cs)
      → (t : CsvTokenizer) × Left t cs
        × (t.delim ≡ s.tokenizer.delim)
        × (at_quote (suc k) s ≡ record s { tokenizer = t; rows = continue_add_string s.rows b'"' })
  unfolding at_quote bytes_eq
  at_quote-quote s cs l =
      let f = fill-Left s.tokenizer b'"' cs l in
      (
        record s.tokenizer { buffer = f.buffer; unread = f.unread },
        record { text = f.text; open_yet = l.open_yet },
        refl,
        rw (at_quote, f.fills),
      )
