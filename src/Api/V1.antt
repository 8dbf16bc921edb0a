-- ===== src/Api/V1.antt =====
-- internal/api/v1.go: the answer of the first version. A message is the constructor of its text, with what
-- is put into it.
use iban_pizza.Prelude.{
  ℕ, Bool, true, false, ◌||◌, ◌&&◌, List, [], ◌∷◌, ◌++◌, Option, none, some, ltb, length, take,
  drop, if◌then◌else◌,
}
use iban_pizza.Prelude.Text.{Bytes, codes, bytes_eq}
use iban_pizza.Prelude.Assoc.{get, put, bytes_key}
use iban_pizza.Iban.Types.{Result, ok, err, Error, Country, Iban, unknown_country, wrong_length}
use iban_pizza.Iban.Parse.{parse, lookup, country_code_of, bban_of}
use iban_pizza.Iban.Calculate.{calculate}
use iban_pizza.BankData.Types.{Bank, Key}
use iban_pizza.Api.Repo.{Repo, RepoError, max_input}
use iban_pizza.Iban.Checksum as Checksum

pub data ParseText : Type 0 where
  invalid_country_code no_check_digits invalid_bban_length : ParseText
  length_expected : Bytes → ℕ → ParseText

pub data Message : Type 0 where
  cannot_parse : ParseText → Message
  validation_failed no_length_known no_bic_known : Message
  bank_code_impossible : Bytes → ℕ → Message
  invalid_bank_code bank_code_valid no_bic_for_bban no_bic_for_code : Bytes → Message

pub record BankData : Type 0 where
  pub bank_code : Bytes
  pub name : Bytes
  pub zip : Bytes
  pub city : Bytes
  pub bic : Bytes

abbrev no_bank_data : BankData
no_bank_data = record { bank_code = []; name = []; zip = []; city = []; bic = [] }

-- `v1Result`
pub record V1Result : Type 0 where
  pub valid : Bool
  pub messages : List Message
  pub iban : Bytes
  pub bank_data : BankData
  pub check_results : List (Bytes × Bool)

-- `newV1Result`, with its message if that is not empty
abbrev pub new_result : Bool → List Message → Bytes → V1Result
new_result valid messages value = record {
  valid = valid;
  messages = messages;
  iban = value;
  bank_data = no_bank_data;
  check_results = [];
}

abbrev say : Message → V1Result → V1Result
say msg r = record r { messages = r.messages ++ msg ∷ [] }

abbrev check_bank_code : Bool → V1Result → V1Result
check_bank_code b r = record r { check_results = put (codes "bankCode") b r.check_results }

abbrev reject : V1Result → V1Result
reject r = record r { valid = false }

-- `v1BankCodeLength`
unfoldable pub bank_code_lengths : List (Bytes × ℕ)
bank_code_lengths =
    (codes "DE", 8)
    ∷ (codes "BE", 3)
    ∷ (codes "NL", 4)
    ∷ (codes "LU", 3)
    ∷ (codes "CH", 5)
    ∷ (codes "AT", 5)
    ∷ (codes "LI", 5)
    ∷ []

abbrev length_text : Option Country → ParseText
length_text none = invalid_bban_length
length_text (some c) = length_expected c.code c.length

-- `v1ParseMessage`
abbrev v1_parse_message : Error → Bytes → ParseText
v1_parse_message Error.country_code value = invalid_country_code
v1_parse_message (unknown_country cc) value = invalid_country_code
v1_parse_message Error.check_digits value = no_check_digits
v1_parse_message (wrong_length cc expected got) value =
    length_text (lookup (if ltb (length value) 2 then [] else take 2 value))
v1_parse_message e value = invalid_bban_length

abbrev pub v1_key : Iban → ℕ → Key
v1_key i n = record { country = country_code_of i; bank_code = take n (bban_of i) }

abbrev pub bank_code_found : Bytes → Result RepoError Bank → V1Result → V1Result
bank_code_found code (err e) r = say (invalid_bank_code code) (check_bank_code false (reject r))
bank_code_found code (ok bank) r = say (bank_code_valid code) (check_bank_code true r)

-- `v1ValidateBankCode` behind the table of lengths
abbrev pub bank_code_of_length : Repo → Iban → Option ℕ → V1Result → V1Result
bank_code_of_length repo i none r = say no_length_known (check_bank_code false r)
bank_code_of_length repo i (some n) r =
    if ltb (length (bban_of i)) n
    then say (bank_code_impossible (country_code_of i) n) (reject (check_bank_code false r))
    else bank_code_found (take n (bban_of i)) (repo.find_bank (v1_key i n)) r

-- `v1ValidateBankCode`
unfoldable pub validate_bank_code : Repo → Iban → V1Result → V1Result
validate_bank_code repo i r =
    bank_code_of_length repo i (get (country_code_of i) bank_code_lengths) r

-- The BIC of a branch of the Commerzbank, which is known by its bank code, and of any other bank.
unfoldable pub bic_of : Bytes → Bank → Bytes
bic_of cc bank =
    if bytes_eq cc (codes "DE")
      && ltb 6 (length bank.bank_code)
      && bytes_eq (take 3 (drop 3 bank.bank_code)) (codes "400")
    then codes "COBADEFFXXX"
    else bank.bic

abbrev pub bic_found : Bytes → Bytes → Result RepoError Bank → V1Result → V1Result
bic_found cc code (err e) r = say (no_bic_for_code code) r
bic_found cc code (ok bank) r = record r {
  bank_data = record {
    bank_code = bank.bank_code;
    name = bank.name;
    zip = bank.zip;
    city = bank.city;
    bic = bic_of cc bank;
  };
}

-- `v1GetBIC` behind the table of lengths
abbrev pub bic_of_length : Repo → Iban → Option ℕ → V1Result → V1Result
bic_of_length repo i none r = say no_bic_known r
bic_of_length repo i (some n) r =
    if ltb (length (bban_of i)) n
    then say (no_bic_for_bban (bban_of i)) r
    else bic_found (country_code_of i) (take n (bban_of i)) (repo.find_bank (v1_key i n)) r

-- `v1GetBIC`
unfoldable pub get_bic : Repo → Iban → V1Result → V1Result
get_bic repo i r = bic_of_length repo i (get (country_code_of i) bank_code_lengths) r

abbrev pub with_checksum : Result Error (Unit {0}) → V1Result → V1Result
with_checksum (err e) r = say validation_failed (reject r)
with_checksum (ok u) r = r

-- `validateV1` behind `Parse`
abbrev pub answer_for : Repo → Bytes → Bool → Bool → Result Error Iban → V1Result
answer_for repo value want_bank_code want_bic (err e) =
    new_result false (cannot_parse (v1_parse_message e value) ∷ []) value
answer_for repo value want_bank_code want_bic (ok i) =
    let r = with_checksum (Checksum.validate i) (new_result true [] value) in
    let r' = if want_bank_code then validate_bank_code repo i r else r in
    if want_bic then get_bic repo i r' else r'

-- `validateV1`
unfoldable pub validate_v1 : Repo → Bytes → Bool → Bool → V1Result
validate_v1 repo value want_bank_code want_bic =
    answer_for repo value want_bank_code want_bic (parse value)

-- `v1Bool`
abbrev v1_bool : Bytes → Bool
v1_bool value = bytes_eq value (codes "1") || bytes_eq value (codes "true")

pub data CalculateError : Type 0 where
  input_too_long : CalculateError
  not_calculated : Error → CalculateError

abbrev calculated : Result Error Iban → Result CalculateError Iban
calculated (err e) = err (not_calculated e)
calculated (ok i) = ok i

-- `calculateV1`
unfoldable pub calculate_v1 : Bytes → Bytes → Bytes → Result CalculateError Iban
calculate_v1 cc bank account =
    if ltb max_input (length cc) || ltb max_input (length bank) || ltb max_input (length account)
    then err input_too_long
    else calculated (calculate cc bank account)

-- `handleV1CalculateAndValidate`, up to the form of its answer
abbrev validate_calculated : Repo → Result CalculateError Iban → Result CalculateError V1Result
validate_calculated repo (err e) = err e
validate_calculated repo (ok i) = ok (validate_v1 repo i.raw true true)

unfoldable pub calculate_and_validate :
    Repo → Bytes → Bytes → Bytes → Result CalculateError V1Result
calculate_and_validate repo cc bank account =
    validate_calculated repo (calculate_v1 cc bank account)
