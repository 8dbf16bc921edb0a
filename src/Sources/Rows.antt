-- ===== src/Sources/Rows.antt =====
-- The loop of the parsers: each row of a file is passed over, kept as a bank, or an error that ends it.
use iban_pizza.Prelude.{ℕ, ◌+◌, List, [], ◌∷◌}
use iban_pizza.Iban.Types.{Result, ok, err}
use iban_pizza.BankData.Types.{Bank}
use iban_pizza.Sources.Table.{ParseError}

pub data Row (E : Type 0) : Type 0 where
  passed_over : Row E
  refused : ParseError E → Row E
  kept : Bank → Row E

module _ {E : Type 0} where
  abbrev pub append_to :
      Row E → Result (ParseError E) (List Bank) → Result (ParseError E) (List Bank)
  append_to passed_over rest = rest
  append_to (refused e) rest = err e
  append_to (kept b) (err e) = err e
  append_to (kept b) (ok banks) = ok (b ∷ banks)

  -- The loop, with what the parser has seen so far and the index of the row.
  unfoldable pub row_loop :
      {Seen Line : Type 0}
      → (Seen → ℕ → Line → Row E)
      → (Row E → Seen → Seen)
      → Seen
      → ℕ
      → List Line
      → Result (ParseError E) (List Bank)
  row_loop judge see seen n [] = ok []
  row_loop judge see seen n (line ∷ lines) =
      append_to (judge seen n line)
        (row_loop judge see (see (judge seen n line) seen) (n + 1) lines)
