-- ===== src/Sources/Kept.antt =====
-- Which country and source the records of the registered parsers carry.
use iban_pizza.Prelude.{ℕ, ◌+◌, Bool, true, not, ◌&&◌, List, [], ◌∷◌, all, ◌≡◌, refl, subst, arith}
use iban_pizza.Prelude.Text.{Bytes, codes, is_empty, bytes_eq}
use iban_pizza.Prelude.Assoc.{bytes_key}
use iban_pizza.Iban.Types.{Result, ok, err, bind_passed, ◌>>=◌}
use iban_pizza.BankData.Types.{Bank}
use iban_pizza.BankData.Store.{is_from}
use iban_pizza.Sources.Encoding.{decode_auto, split_lines}
use iban_pizza.Sources.Table.{ParseError, parse_csv}
use iban_pizza.Sources.Rows.{Row, passed_over, refused, kept, append_to, row_loop}
use iban_pizza.Sources.National.{
  oenb_name, cnb_name, bundesbank_name, OenbColumns, oenb_bank, oenb_row, see_code, oenb_columns,
  oenb_parse, CnbColumns, cnb_bank, cnb_row, cnb_columns, see_nothing, cnb_parse, bundesbank_bank,
  bundesbank_line, bundesbank_lines, bundesbank_parse,
}
use iban_pizza.Sources.Source.{Source, Fetched, oenb, cnb, bundesbank}

-- A record of a country and of a source, with a bank code.
abbrev pub is_record : Bytes → Bytes → Bank → Bool
is_record country name b =
    bytes_eq b.country country && is_from name b && not (is_empty b.bank_code)

module _ {E : Type 0} where
  -- Whether a row is no bank, or a bank that passes a test.
  abbrev pub row_passes : (Bank → Bool) → Row E → Bool
  row_passes p passed_over = true
  row_passes p (refused e) = true
  row_passes p (kept b) = p b

  append_to_passes :
      (p : Bank → Bool) (row : Row E) (rest : Result (ParseError E) (List Bank)) (out : List Bank)
      → row_passes p row ≡ true
      → append_to row rest ≡ ok out
      → ((banks : List Bank) → rest ≡ ok banks → all p banks ≡ true)
      → all p out ≡ true
  append_to_passes p passed_over rest out good h next = next out h
  append_to_passes p (refused e) rest out good h next = absurd (cc)
  append_to_passes p (kept b) (err e) out good h next = absurd (cc)
  append_to_passes p (kept b) (ok banks) out good h next =
      let same : b ∷ banks ≡ out = cc in
      subst (λ out. all p out ≡ true) same (rw (good, next banks refl))

  row_loop_passes :
      {Seen Line : Type 0} (p : Bank → Bool) (judge : Seen → ℕ → Line → Row E)
      (see : Row E → Seen → Seen)
      → ((seen : Seen) (n : ℕ) (line : Line) → row_passes p (judge seen n line) ≡ true)
      → (lines : List Line) (seen : Seen) (n : ℕ) (out : List Bank)
      → row_loop judge see seen n lines ≡ ok out
      → all p out ≡ true
  unfolding row_loop
  row_loop_passes p judge see good [] seen n out h =
      let same : [] ≡ out = cc in subst (λ out. all p out ≡ true) same refl
  row_loop_passes p judge see good (line ∷ lines) seen n out h =
      append_to_passes p (judge seen n line)
        (row_loop judge see (see (judge seen n line) seen) (n + 1) lines) out (good seen n line) h
        (row_loop_passes p judge see good lines (see (judge seen n line) seen) (n + 1))

  -- A source whose parser writes its own name and country on every record.
  abbrev pub IsNamed : Source E → Type 0
  IsNamed s =
      (file : Bytes) (banks : List Bank)
      → s.parse_source file ≡ ok banks
      → all (is_record s.country s.name) banks ≡ true

module _ (E : Type 0) where
  oenb_row_passes :
      (col : OenbColumns) (seen : List Bytes) (n : ℕ) (row : List Bytes)
      → row_passes (is_record (codes "AT") oenb_name) (oenb_row {E = E} col seen n row) ≡ true
  unfolding oenb_row oenb_bank bytes_eq
  oenb_row_passes col seen n row = ground arith

  cnb_row_passes :
      (col : CnbColumns) (seen : Unit {0}) (n : ℕ) (row : List Bytes)
      → row_passes (is_record (codes "CZ") cnb_name) (cnb_row {E = E} col seen n row) ≡ true
  unfolding cnb_row cnb_bank bytes_eq
  cnb_row_passes col seen n row = ground arith

  bundesbank_line_passes :
      (seen : Unit {0}) (n : ℕ) (line : Bytes)
      → row_passes (is_record (codes "DE") bundesbank_name) (bundesbank_line {E = E} seen n line)
        ≡ true
  unfolding bundesbank_line bundesbank_bank bytes_eq
  bundesbank_line_passes seen n line = ground arith

module _ {E : Type 0} where
  bundesbank_lines_passes :
      (lines : List Bytes) (banks : List Bank)
      → bundesbank_lines {E = E} lines ≡ ok banks
      → all (is_record (codes "DE") bundesbank_name) banks ≡ true
  bundesbank_lines_passes [] banks h = absurd (cc)
  bundesbank_lines_passes (line ∷ lines) banks h =
      row_loop_passes (is_record (codes "DE") bundesbank_name) bundesbank_line see_nothing
        (bundesbank_line_passes E) (line ∷ lines) tt 0 banks h

  pub bundesbank-IsNamed : (fetched : Fetched E) → IsNamed (bundesbank fetched)
  unfolding bundesbank_parse
  bundesbank-IsNamed fetched file banks h =
      bundesbank_lines_passes (split_lines (decode_auto file)) banks h

  module _ (csv : ℕ → Bytes → Result E (List (List Bytes))) (fetched : Fetched E) where
    pub oenb-IsNamed : IsNamed (oenb csv fetched)
    unfolding oenb_parse
    oenb-IsNamed file banks h =
        let (table, read, h1) =
          bind_passed
            (parse_csv csv (decode_auto file) b';' (codes "bankleitzahl" ∷ codes "bankenname" ∷ []))
            (λ table.
              oenb_columns table >>= λ col. row_loop (oenb_row col) see_code [] 0 table.rows)
            h in
        let (col, found, h2) =
          bind_passed (oenb_columns table) (λ col. row_loop (oenb_row col) see_code [] 0 table.rows)
            h1 in
        row_loop_passes (is_record (codes "AT") oenb_name) (oenb_row col) see_code
          (oenb_row_passes E col) table.rows [] 0 banks h2

    pub cnb-IsNamed : IsNamed (cnb csv fetched)
    unfolding cnb_parse
    cnb-IsNamed file banks h =
        let (table, read, h1) =
          bind_passed (parse_csv csv (decode_auto file) b';' (codes "bic" ∷ []))
            (λ table. row_loop (cnb_row (cnb_columns table)) see_nothing tt 0 table.rows) h in
        row_loop_passes (is_record (codes "CZ") cnb_name) (cnb_row (cnb_columns table)) see_nothing
          (cnb_row_passes E (cnb_columns table)) table.rows tt 0 banks h1
