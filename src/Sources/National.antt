-- ===== src/Sources/National.antt =====
-- internal/sources/at.go, cz.go and de.go: the parsers of the three national registers.
use iban_pizza.Prelude.{ℕ, ◌+◌, Bool, false, not, ◌||◌, List, [], ◌∷◌, if◌then◌else◌, ltb, length}
use iban_pizza.Prelude.Text.{Bytes, codes, is_empty, bytes_eq, to_upper, trim_space, remove_byte}
use iban_pizza.Iban.Types.{Result, ok, err, ◌>>=◌}
use iban_pizza.BankData.Types.{Bank}
use iban_pizza.Sources.Encoding.{decode_auto, encode_utf8, split_lines, runes, rune_slice}
use iban_pizza.Sources.Table.{
  ParseError, short_line, empty_file, Table, index, position, position_or, field, must_index,
  parse_csv,
}
use iban_pizza.Sources.Rows.{Row, passed_over, refused, kept, row_loop}

-- The names that `Name` returns.
abbrev pub oenb_name : Bytes
oenb_name = codes "Oesterreichische Nationalbank"

abbrev pub cnb_name : Bytes
cnb_name = codes "Ceska narodni banka"

abbrev pub bundesbank_name : Bytes
bundesbank_name = codes "Deutsche Bundesbank"

-- A BIC as it is written in a file: without its spaces, in capitals.
abbrev pub clean_bic : Bytes → Bytes
clean_bic s = to_upper (remove_byte 32 s)

-- `seen[code]`
unfoldable pub has_code : Bytes → List Bytes → Bool
has_code code [] = false
has_code code (c ∷ seen) = bytes_eq c code || has_code code seen

pub record OenbColumns : Type 0 where
  pub code_at : ℕ
  pub name_at : ℕ
  pub bic_at : ℕ
  pub zip_at : ℕ
  pub city_at : ℕ

unfoldable pub oenb_bank : OenbColumns → List Bytes → Bank
oenb_bank col row = record {
  country = codes "AT";
  bank_code = field row col.code_at;
  name = field row col.name_at;
  short_name = [];
  zip = field row col.zip_at;
  city = field row col.city_at;
  bic = clean_bic (field row col.bic_at);
  check_algo = [];
  source = oenb_name;
}

pub record CnbColumns : Type 0 where
  pub code_at : ℕ
  pub name_at : ℕ
  pub bic_at : ℕ

unfoldable pub cnb_bank : CnbColumns → List Bytes → Bank
cnb_bank col row = record {
  country = codes "CZ";
  bank_code = field row col.code_at;
  name = field row col.name_at;
  short_name = [];
  zip = [];
  city = [];
  bic = clean_bic (field row col.bic_at);
  check_algo = [];
  source = cnb_name;
}

-- The Czech column names, with their accents
unfoldable pub cnb_columns : Table → CnbColumns
cnb_columns table = record {
  code_at =
      position_or
        (index table
          (codes "Kod platebniho styku" ∷ encode_utf8 (codes "Kód platebního styku") ∷ []))
        0;
  name_at =
      position_or
        (index table (
          codes "Poskytovatel platebnich sluzeb"
          ∷ encode_utf8 (codes "Poskytovatel platebních služeb")
          ∷ []))
        1;
  bic_at =
      position_or
        (index table
          (codes "BIC kod (SWIFT)" ∷ encode_utf8 (codes "BIC kód (SWIFT)") ∷ codes "BIC" ∷ []))
        2;
}

-- The offsets of the German record, in characters
abbrev feature_at : ℕ
feature_at = 8

abbrev pub record_length : ℕ
record_length = 152

unfoldable pub bundesbank_bank : List ℕ → Bank
bundesbank_bank r = record {
  country = codes "DE";
  bank_code = rune_slice r 0 feature_at;
  name = rune_slice r 9 67;
  short_name = rune_slice r 107 134;
  zip = rune_slice r 67 72;
  city = rune_slice r 72 107;
  bic = remove_byte 32 (rune_slice r 139 150);
  check_algo = rune_slice r 150 record_length;
  source = bundesbank_name;
}

module _ {E : Type 0} where
  -- The loop of `OeNB.Parse`
  unfoldable pub oenb_row : OenbColumns → List Bytes → ℕ → List Bytes → Row E
  oenb_row col seen n row =
      let b = oenb_bank col row in
      if is_empty b.bank_code || has_code b.bank_code seen then passed_over else kept b

  abbrev pub see_code : Row E → List Bytes → List Bytes
  see_code passed_over seen = seen
  see_code (refused e) seen = seen
  see_code (kept b) seen = b.bank_code ∷ seen

  unfoldable pub oenb_columns : Table → Result (ParseError E) OenbColumns
  oenb_columns table = do
    code_at ← must_index table (codes "Bankleitzahl" ∷ [])
    name_at ← must_index table (codes "Bankenname" ∷ [])
    ok (record {
      code_at = code_at;
      name_at = name_at;
      bic_at = position (index table (codes "SWIFT-Code" ∷ codes "SWIFTCode" ∷ codes "BIC" ∷ []));
      zip_at = position (index table (codes "PLZ" ∷ []));
      city_at = position (index table (codes "Ort" ∷ []));
    })

  -- The loop of `CNB.Parse`, which has nothing to remember
  unfoldable pub cnb_row : CnbColumns → Unit {0} → ℕ → List Bytes → Row E
  cnb_row col seen n row =
      let b = cnb_bank col row in if is_empty b.bank_code then passed_over else kept b

  abbrev pub see_nothing : Row E → Unit {0} → Unit {0}
  see_nothing row seen = tt

  -- The loop of `Bundesbank.Parse`
  unfoldable pub bundesbank_line : Unit {0} → ℕ → Bytes → Row E
  bundesbank_line seen n line =
      let r = runes line in
      let b = bundesbank_bank r in
      if is_empty (trim_space line)
      then passed_over
      else if ltb (length r) record_length
      then refused (short_line (n + 1) (length r))
      else if not (bytes_eq (rune_slice r feature_at (feature_at + 1)) (b'1' ∷ []))
      then passed_over
      else if is_empty b.bank_code
      then passed_over
      else kept b

  abbrev pub bundesbank_lines : List Bytes → Result (ParseError E) (List Bank)
  bundesbank_lines [] = err empty_file
  bundesbank_lines (line ∷ lines) = row_loop bundesbank_line see_nothing tt 0 (line ∷ lines)

  -- `Bundesbank.Parse`
  unfoldable pub bundesbank_parse : Bytes → Result (ParseError E) (List Bank)
  bundesbank_parse file = bundesbank_lines (split_lines (decode_auto file))

  module _ (csv : ℕ → Bytes → Result E (List (List Bytes))) where
    -- `OeNB.Parse`
    unfoldable pub oenb_parse : Bytes → Result (ParseError E) (List Bank)
    oenb_parse file = do
      table ← parse_csv csv (decode_auto file) b';' (codes "bankleitzahl" ∷ codes "bankenname" ∷ [])
      col ← oenb_columns table
      row_loop (oenb_row col) see_code [] 0 table.rows

    -- `CNB.Parse`
    unfoldable pub cnb_parse : Bytes → Result (ParseError E) (List Bank)
    cnb_parse file = do
      table ← parse_csv csv (decode_auto file) b';' (codes "bic" ∷ [])
      row_loop (cnb_row (cnb_columns table)) see_nothing tt 0 table.rows
