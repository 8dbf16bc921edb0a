-- ===== src/Sources/Fixed.antt =====
-- What `Bundesbank.Parse` returns for the lines of a file.
use iban_pizza.Prelude.{
  ℕ, ◌+◌, Bool, true, false, not, ◌&&◌, List, [], ◌∷◌, Option, none, some, if◌then◌else◌, length,
  ltb, ◌≡◌, refl, arith, Bool-cases, inl, inr,
}
use iban_pizza.Prelude.Text.{Bytes, is_empty, bytes_eq, trim_space}
use iban_pizza.Iban.Types.{Result, ok, err}
use iban_pizza.BankData.Types.{Bank}
use iban_pizza.Sources.Encoding.{decode_auto, runes, rune_slice, split_lines}
use iban_pizza.Sources.Table.{ParseError, short_line, empty_file}
use iban_pizza.Sources.Rows.{passed_over, refused, kept, append_to, row_loop}
use iban_pizza.Sources.National.{
  see_nothing, bundesbank_bank, bundesbank_line, bundesbank_lines, bundesbank_parse, record_length,
}

abbrev pub is_blank : Bytes → Bool
is_blank line = is_empty (trim_space line)

abbrev pub is_short : Bytes → Bool
is_short line = not (is_blank line) && ltb (length (runes line)) record_length

-- A line of an institution with its own bank code: not blank, marked by a 1, with a code.
abbrev pub is_head_office : Bytes → Bool
is_head_office line =
    not (is_blank line)
    && bytes_eq (rune_slice (runes line) 8 9) (b'1' ∷ [])
    && not (is_empty (rune_slice (runes line) 0 8))

-- The first line that is too short, with its number from 1 and its length.
unfoldable pub first_short : ℕ → List Bytes → Option (ℕ × ℕ)
first_short n [] = none
first_short n (line ∷ lines) =
    let rest = first_short (n + 1) lines in
    if is_short line then some (n + 1, length (runes line)) else rest

-- The records of the head offices, in the order of the lines.
unfoldable pub head_offices : List Bytes → List Bank
head_offices [] = []
head_offices (line ∷ lines) =
    let rest = head_offices lines in
    if is_head_office line then bundesbank_bank (runes line) ∷ rest else rest

module _ {E : Type 0} where
  abbrev pub of_first_short : List Bytes → Option (ℕ × ℕ) → Result (ParseError E) (List Bank)
  of_first_short lines none = ok (head_offices lines)
  of_first_short lines (some (n, characters)) = err (short_line n characters)

  abbrev pub of_lines : List Bytes → Result (ParseError E) (List Bank)
  of_lines [] = err empty_file
  of_lines (line ∷ lines) = of_first_short (line ∷ lines) (first_short 0 (line ∷ lines))

  short_judged :
      (n : ℕ) (line : Bytes)
      → is_short line ≡ true
      → bundesbank_line {E = E} tt n line ≡ refused (short_line (n + 1) (length (runes line)))
  unfolding bundesbank_line
  short_judged n line h = ground (arith, h)

  office_judged :
      (n : ℕ) (line : Bytes)
      → is_short line ≡ false
      → is_head_office line ≡ true
      → bundesbank_line {E = E} tt n line ≡ kept (bundesbank_bank (runes line))
  unfolding bundesbank_line bundesbank_bank
  office_judged n line h office = ground (arith, h, office)

  branch_judged :
      (n : ℕ) (line : Bytes)
      → is_short line ≡ false
      → is_head_office line ≡ false
      → bundesbank_line {E = E} tt n line ≡ passed_over
  unfolding bundesbank_line bundesbank_bank
  branch_judged n line h branch = ground (arith, h, branch)

  office_added :
      (line : Bytes) (lines : List Bytes) (short : Option (ℕ × ℕ))
      → is_head_office line ≡ true
      → append_to (kept (bundesbank_bank (runes line))) (of_first_short lines short)
        ≡ of_first_short (line ∷ lines) short
  unfolding head_offices
  office_added line lines none office = rw office refl
  office_added line lines (some (n, characters)) office = refl

  branch_added :
      (line : Bytes) (lines : List Bytes) (short : Option (ℕ × ℕ))
      → is_head_office line ≡ false
      → of_first_short lines short ≡ of_first_short (line ∷ lines) short
  unfolding head_offices
  branch_added line lines none branch = rw branch refl
  branch_added line lines (some (n, characters)) branch = refl

  row_loop-of_first_short :
      (lines : List Bytes) (n : ℕ)
      → row_loop {E = E} bundesbank_line see_nothing tt n lines
        ≡ of_first_short lines (first_short n lines)
  unfolding row_loop first_short
  row_loop-of_first_short [] n = unfold head_offices in refl
  row_loop-of_first_short (line ∷ lines) n = elim (Bool-cases (is_short line)) [
    | inl short ↦ rw (short_judged n line short, short) refl
    | inr long ↦ elim (Bool-cases (is_head_office line)) [
      | inl office ↦
          rw (office_judged n line long office, long, row_loop-of_first_short lines (n + 1))
            (office_added line lines (first_short (n + 1) lines) office)
      | inr branch ↦
          rw (branch_judged n line long branch, long, row_loop-of_first_short lines (n + 1))
            (branch_added line lines (first_short (n + 1) lines) branch)
    ]
  ]

  bundesbank_lines-of_lines : (lines : List Bytes) → bundesbank_lines {E = E} lines ≡ of_lines lines
  bundesbank_lines-of_lines [] = refl
  bundesbank_lines-of_lines (line ∷ lines) = row_loop-of_first_short (line ∷ lines) 0

  -- `Bundesbank.Parse` fails for a file without lines, and otherwise exactly if some line that is not blank is shorter
  -- than a record: then the error has the number, from 1, and the length of the first such line. If there is
  -- none, the result is the records, in their order, of the lines that are marked by a 1 and have a bank
  -- code; no other line adds or changes one.
  pub bundesbank_parse-of_lines :
      (file : Bytes) → bundesbank_parse {E = E} file ≡ of_lines (split_lines (decode_auto file))
  unfolding bundesbank_parse
  bundesbank_parse-of_lines file = bundesbank_lines-of_lines (split_lines (decode_auto file))
