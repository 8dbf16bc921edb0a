-- ===== src/Sources/Tests.antt =====
-- Runs of the parsers on small files, and of the theorems about them.
use iban_pizza.Prelude.{
  some, none, ◌↔◌, all, ℕ, true, false, List, [], ◌∷◌, if◌then◌else◌, ◌==◌, ◌≡◌, refl, ◌⊎◌,
}
use iban_pizza.Prelude.Text.{
  Bytes, codes, bytes_eq, is_space, trim_left, trim_space, to_upper, to_lower, upper, lower,
  remove_byte, has_prefix, contains,
}
use iban_pizza.Prelude.Assoc.{Distinct, get, put}
use iban_pizza.Iban.Types.{err, Result, ok}
use iban_pizza.BankData.Found.{under_keys}
use iban_pizza.BankData.Types.{has_key, bank_key, Key, Bank, normalize_key}
use iban_pizza.Sources.Encoding.{
  encode_rune, encode_utf8, first_byte, decode_from, decode_utf8, valid_utf8, runes, all_ascii,
  decode_latin1, trim_bom, decode_auto, unify_ends, split_at_ends, push_front, drop_last_empty,
  split_lines, rune_slice,
}
use iban_pizza.Sources.Table.{
  normalise_header, contains_all, from_header, join_lines, name_columns, index, field, must_index,
  parse_csv, Table, short_line,
}
use iban_pizza.Sources.Rows.{row_loop}
use iban_pizza.Sources.Generic.{
  header_of, count_byte, detect_separator, columns_of, country_for, bank_of, judge_row,
  generic_rows, parse_generic, generic_name, Columns,
}
use iban_pizza.Sources.National.{
  has_code, oenb_bank, cnb_bank, cnb_columns, bundesbank_bank, oenb_row, oenb_columns, cnb_row,
  bundesbank_line, bundesbank_parse, oenb_parse, cnb_parse,
}
use iban_pizza.Sources.Fetch.{Response, read_limited, get_url, not_reached, max_download_bytes}
use iban_pizza.Sources.Source.{
  after_registered, Source, Fetched, register, set_source, parse_file, update, oenb, cnb,
  bundesbank,
}
use iban_pizza.Sources.Lines.{split_lines-written}
use iban_pizza.BankData.Store.{is_from, new_store, store_code}
use iban_pizza.BankData.Invariant.{new_store-IsStore}
use iban_pizza.Sources.Decoded.{decode_auto-decode_utf8}
use iban_pizza.Sources.Import.{IsTable, is_import, complete_banks, parse_generic-rows}
use iban_pizza.Sources.Named.{program_sources, parse_file-is_from}
use iban_pizza.Sources.Fetched.{IsWhole, get_url_iff}
use iban_pizza.Sources.Fixed.{of_lines, bundesbank_parse-of_lines}
use iban_pizza.Sources.Updated.{
  IsOutcome, update-IsOutcome, replace_in, IsUpdated, update-IsUpdated,
}

-- All that the parsers compute with.
unfoldable source_code : Unit {0}
unfolding get put bytes_eq is_space trim_left trim_space to_upper to_lower upper lower remove_byte
    has_prefix contains normalize_key encode_rune encode_utf8 first_byte decode_from decode_utf8
    valid_utf8 runes all_ascii decode_latin1 trim_bom decode_auto unify_ends split_at_ends
    drop_last_empty split_lines rune_slice normalise_header contains_all from_header join_lines
    name_columns index field must_index parse_csv row_loop header_of count_byte detect_separator
    columns_of country_for bank_of has_key judge_row generic_rows parse_generic has_code oenb_bank
    cnb_bank cnb_columns bundesbank_bank oenb_row oenb_columns cnb_row bundesbank_line
    bundesbank_parse oenb_parse cnb_parse read_limited get_url register set_source parse_file update
source_code = tt

-- A reader of files that quote nothing.
split_on : ℕ → Bytes → List Bytes
split_on sep [] = [] ∷ []
split_on sep (c ∷ s) =
    let rest = split_on sep s in if c == sep then [] ∷ rest else push_front c rest

read_records : ℕ → List Bytes → List (List Bytes)
read_records sep [] = []
read_records sep (line ∷ lines) = split_on sep line ∷ read_records sep lines

plain_csv : ℕ → Bytes → Result ℕ (List (List Bytes))
unfolding split_on read_records
plain_csv sep text = ok (read_records sep (split_at_ends text))

abbrev small_file : Bytes
small_file = codes "Bank Code;name;city\r\n100; First ;Berlin\r\n200;;Bonn\r\n100;Again;Kiel\r\n"

abbrev first_bank : Bank
first_bank = record {
  country = codes "DE";
  bank_code = codes "100";
  name = codes "First";
  short_name = codes "100";
  zip = codes "100";
  city = codes "Berlin";
  bic = codes "100";
  check_algo = codes "100";
  source = generic_name;
}

-- The missing columns read the first one.
small_file_parsed : parse_generic plain_csv (codes "de") [] small_file ≡ ok (first_bank ∷ [])
unfolding source_code plain_csv split_on read_records
small_file_parsed = refl

split_lines-written_example :
    split_lines (codes "one\r\n\ntwo") ≡ codes "one" ∷ [] ∷ codes "two" ∷ []
unfolding source_code
split_lines-written_example =
    split_lines-written ((codes "one", true) ∷ ([], false) ∷ []) (codes "two") refl refl

latin : Bytes
latin = b'K' ∷ 246 ∷ b'l' ∷ b'n' ∷ []

decode_auto-decode_utf8_example :
    ((valid_utf8 (trim_bom latin) ≡ true) × (decode_auto latin ≡ trim_bom latin))
    ⊎ ((valid_utf8 (trim_bom latin) ≡ false)
        × (valid_utf8 (decode_auto latin) ≡ true)
        × (runes (decode_auto latin) ≡ trim_bom latin))
decode_auto-decode_utf8_example = decode_auto-decode_utf8 latin (unfold latin in refl)

parse_generic-rows_example :
    (table : Table) × (col : Columns) × IsTable plain_csv small_file table col
    × (all (is_import generic_name) (first_bank ∷ []) ≡ true)
    × Distinct (under_keys (first_bank ∷ []))
    × ((k : Key)
        → get k (under_keys (first_bank ∷ []))
          ≡ get k (
              under_keys
                (complete_banks (to_upper (trim_space (codes "de"))) generic_name col table.rows)))
parse_generic-rows_example =
    parse_generic-rows plain_csv (codes "de") [] small_file (first_bank ∷ []) small_file_parsed

-- The sources of the program, none of which reaches its server.
unreached : Fetched ℕ
unreached = record { contents = err (not_reached 0); url = [] }

program_registry : List (Bytes × Source ℕ)
program_registry =
    (codes "AT", oenb plain_csv unreached)
    ∷ (codes "CZ", cnb plain_csv unreached)
    ∷ (codes "DE", bundesbank unreached)
    ∷ []

program_registered :
    after_registered (some []) (program_sources plain_csv unreached unreached unreached)
    ≡ some program_registry
unfolding source_code program_registry
program_registered = refl

czech_file : Bytes
czech_file = codes "Kod;Nazev;BIC kod (SWIFT)\n0100;Banka;KOMB CZPP\n"

czech_bank : Bank
czech_bank = record {
  country = codes "CZ";
  bank_code = codes "0100";
  name = codes "Banka";
  short_name = [];
  zip = [];
  city = [];
  bic = codes "KOMBCZPP";
  check_algo = [];
  source = codes "list";
}

czech_file_parsed :
    parse_file plain_csv program_registry (codes " cz") (codes "list") czech_file
    ≡ ok (czech_bank ∷ [], codes "list")
unfolding source_code plain_csv split_on read_records program_registry czech_file czech_bank
czech_file_parsed = refl

parse_file-is_from_example : all (is_from (codes "list")) (czech_bank ∷ []) ≡ true
parse_file-is_from_example =
    parse_file-is_from plain_csv unreached unreached unreached program_registry (codes " cz")
      (codes "list") czech_file (czech_bank ∷ []) (codes "list") program_registered
      czech_file_parsed

answer_of : Response ℕ
answer_of = record { status = 200; body = codes "text"; failure = none }

get_url_iff_example : (get_url (λ url. ok answer_of) (codes "u") ≡ ok (codes "text")) ↔ (
    (resp : Response ℕ) × (◌≡◌ {A = Result ℕ (Response ℕ)} (ok answer_of) (ok resp))
    × IsWhole max_download_bytes resp (codes "text"))
get_url_iff_example = get_url_iff (λ url. ok answer_of) (codes "u") (codes "text")

-- A German line that is too short, behind a blank one.
short_file : Bytes
short_file = codes "\r\n10000000\r\n"

short_file_parsed : bundesbank_parse {E = ℕ} short_file ≡ err (short_line 2 8)
unfolding source_code short_file
short_file_parsed = refl

bundesbank_parse-of_lines_example :
    bundesbank_parse {E = ℕ} short_file ≡ of_lines (split_lines (decode_auto short_file))
bundesbank_parse-of_lines_example = bundesbank_parse-of_lines short_file

czech_source : Source ℕ
czech_source = cnb plain_csv (record { contents = ok czech_file; url = codes "u" })

update-IsOutcome_example :
    IsOutcome
      (replace_in {F = ℕ})
      czech_source
      7
      new_store
      (update replace_in czech_source 7 new_store)
update-IsOutcome_example = update-IsOutcome (replace_in {F = ℕ}) czech_source 7 new_store

update-IsUpdated_example :
    IsUpdated {F = ℕ} czech_source new_store (update replace_in czech_source 7 new_store)
update-IsUpdated_example = update-IsUpdated czech_source new_store 7 new_store-IsStore

-- This update takes place.
czech_updated : (update (replace_in {F = ℕ}) czech_source 7 new_store).1.error ≡ none
unfolding source_code store_code plain_csv split_on read_records czech_source czech_file
czech_updated = refl
