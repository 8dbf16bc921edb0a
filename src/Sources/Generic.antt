-- ===== src/Sources/Generic.antt =====
-- internal/sources/generic.go: the format for countries that have no parser of their own.
use iban_pizza.Prelude.{
  ℕ, suc, ◌+◌, not, ◌||◌, List, [], ◌∷◌, Option, none, some, if◌then◌else◌, ltb, ◌==◌, length,
}
use iban_pizza.Prelude.Text.{Bytes, codes, is_empty, to_upper, trim_space, remove_byte}
use iban_pizza.Iban.Types.{Result, ok, err, ◌>>=◌}
use iban_pizza.BankData.Types.{Bank, Key, key_of, has_key, normalize_key}
use iban_pizza.Sources.Encoding.{decode_auto}
use iban_pizza.Sources.Table.{
  ParseError, bad_country, no_rows, Table, index, position, field, must_index, parse_csv,
}
use iban_pizza.Sources.Rows.{Row, passed_over, refused, kept, row_loop}

-- `GenericName`
abbrev pub generic_name : Bytes
generic_name = codes "generic import"

-- The part of a text before its first line end.
unfoldable pub header_of : Bytes → Bytes
header_of [] = []
header_of (c ∷ s) = let rest = header_of s in if c == b'\r' || c == b'\n' then [] else c ∷ rest

-- `strings.Count(s, string(b))`
unfoldable pub count_byte : ℕ → Bytes → ℕ
count_byte b [] = 0
count_byte b (c ∷ s) = let rest = count_byte b s in if c == b then suc rest else rest

-- `detectSeparator`
unfoldable pub detect_separator : Bytes → ℕ
detect_separator text =
    if ltb (count_byte b',' (header_of text)) (count_byte b';' (header_of text)) then b';' else b','

-- The columns; those whose position alone is read are at 0 if they are missing.
pub record Columns : Type 0 where
  pub code_at : ℕ
  pub name_at : ℕ
  pub bic_at : ℕ
  pub zip_at : ℕ
  pub city_at : ℕ
  pub short_at : ℕ
  pub algo_at : ℕ
  pub country_at : Option ℕ

unfoldable pub columns_of : {E : Type 0} → Table → Result (ParseError E) Columns
columns_of table = do
  code_at ← must_index table (codes "bankCode" ∷ [])
  name_at ← must_index table (codes "name" ∷ [])
  ok (record {
    code_at = code_at;
    name_at = name_at;
    bic_at = position (index table (codes "bic" ∷ codes "swift" ∷ codes "swiftCode" ∷ []));
    zip_at = position (index table (codes "zip" ∷ codes "postcode" ∷ codes "plz" ∷ []));
    city_at = position (index table (codes "city" ∷ codes "ort" ∷ codes "town" ∷ []));
    short_at = position (index table (codes "shortName" ∷ []));
    algo_at = position (index table (codes "checkAlgo" ∷ codes "checkDigitMethod" ∷ []));
    country_at = index table (codes "country" ∷ []);
  })

-- The country of a row: that of its column, if it has one, or else that of the call.
abbrev own_country : Bytes → Bytes → Bytes
own_country country [] = country
own_country country (c ∷ v) = c ∷ v

unfoldable pub country_for : Bytes → Option ℕ → List Bytes → Bytes
country_for country none row = country
country_for country (some at) row = own_country country (to_upper (field row at))

unfoldable pub bank_of : Bytes → Bytes → Columns → List Bytes → Bank
bank_of country source col row = record {
  country = country_for country col.country_at row;
  bank_code = field row col.code_at;
  name = field row col.name_at;
  short_name = field row col.short_at;
  zip = field row col.zip_at;
  city = field row col.city_at;
  bic = to_upper (remove_byte 32 (field row col.bic_at));
  check_algo = to_upper (field row col.algo_at);
  source = source;
}

-- `if source == "" { source = GenericName }`
abbrev pub source_or_generic : Bytes → Bytes
source_or_generic [] = generic_name
source_or_generic (c ∷ source) = c ∷ source

module _ {E : Type 0} where
  -- One round of the loop over the rows; `n` counts from 0, and the error counts the header too.
  unfoldable pub judge_row : Bytes → Bytes → Columns → List Key → ℕ → List Bytes → Row E
  judge_row country source col seen n row =
      let b = bank_of country source col row in
      if is_empty b.bank_code || is_empty b.name
      then passed_over
      else if not (length b.country == 2)
      then refused (bad_country (n + 2) b.country)
      else if has_key (normalize_key (key_of b)) seen
      then passed_over
      else kept b

  abbrev pub see_key : Row E → List Key → List Key
  see_key passed_over seen = seen
  see_key (refused e) seen = seen
  see_key (kept b) seen = normalize_key (key_of b) ∷ seen

  unfoldable pub generic_rows :
      Bytes → Bytes → Columns → List (List Bytes) → Result (ParseError E) (List Bank)
  generic_rows country source col rows = row_loop (judge_row country source col) see_key [] 0 rows

  abbrev pub some_rows : List Bank → Result (ParseError E) (List Bank)
  some_rows [] = err no_rows
  some_rows (b ∷ banks) = ok (b ∷ banks)

  module _ (csv : ℕ → Bytes → Result E (List (List Bytes))) where
    -- `ParseGeneric`
    unfoldable pub parse_generic : Bytes → Bytes → Bytes → Result (ParseError E) (List Bank)
    parse_generic country source data_bytes = do
      table ←
          parse_csv csv (decode_auto data_bytes) (detect_separator (decode_auto data_bytes))
            (codes "bankcode" ∷ codes "name" ∷ [])
      col ← columns_of table
      banks ← generic_rows (to_upper (trim_space country)) (source_or_generic source) col table.rows
      some_rows banks
