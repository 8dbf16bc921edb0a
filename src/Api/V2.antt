-- ===== src/Api/V2.antt =====
-- internal/api/v2.go: how the answer for one IBAN and for a batch is made.
use iban_pizza.Prelude.{
  ℕ, Bool, true, false, ◌||◌, ◌&&◌, not, List, [], ◌∷◌, Option, none, some, ltb, length,
  if◌then◌else◌,
}
use iban_pizza.Prelude.Text.{Bytes, codes, bytes_eq, is_empty}
use iban_pizza.Prelude.Assoc.{put, bytes_key}
use iban_pizza.Iban.Types.{Result, ok, err, Error, Iban, unknown_country}
use iban_pizza.Iban.Parse.{
  parse, formatted, country_code_of, check_digits_of, bank_code_of, branch_code_of,
  account_number_of,
}
use iban_pizza.CheckDigit.Validate.{Verdict, AccountError, valid, invalid, unchecked}
use iban_pizza.BankData.Types.{Bank, Key, SourceInfo, Stats}
use iban_pizza.Sepa.Register.{Scheme, Membership, Registry}
use iban_pizza.Api.Answer.{
  Message, input_too_short, input_too_long, not_a_country, not_check_digits, no_ibans_issued,
  error_text, correct_length, checksum_correct, checksum_wrong, no_bank_code_place, no_directory,
  unknown_bank_code, bank_code_valid, data_unavailable, no_account_check, account_not_checked,
  account_correct, account_wrong, method_not_verified, Check, passed, not_passed, not_checked,
  length_check, checksum_check, bank_code_check, account_check, Checks, IbanParts, SchemeView,
  V2Result,
}
use iban_pizza.Api.Repo.{Repo, RepoError, no_record, failed, max_input}
use iban_pizza.Iban.Checksum as Checksum
use iban_pizza.CheckDigit.Validate as Account
use iban_pizza.Sepa.Register as Register

-- `v2ParseMessage`
abbrev pub v2_parse_message : Error → Message
v2_parse_message Error.too_short = input_too_short
v2_parse_message Error.too_long = input_too_long
v2_parse_message Error.country_code = not_a_country
v2_parse_message Error.check_digits = not_check_digits
v2_parse_message (unknown_country cc) = no_ibans_issued
v2_parse_message e = error_text e

-- The `switch` of `accountCheck`, over what `checkdigit.Validate` returns.
abbrev pub verdict_check : Bytes → Bytes → Verdict × Option AccountError → Check
verdict_check algo account (v, some e) = not_checked account_not_checked
verdict_check algo account (valid, none) = record (passed (account_correct account)) {
  method = algo;
}
verdict_check algo account (invalid, none) = record (not_passed (account_wrong account)) {
  method = algo;
}
verdict_check algo account (unchecked, none) = record (not_checked (method_not_verified algo)) {
  method = algo;
}

-- Whether `accountCheck` has a method to run.
abbrev pub has_method : Bank → Bytes → Bool
has_method bank account =
    not (not (bytes_eq bank.country (codes "DE")) || is_empty bank.check_algo || is_empty account)

-- `accountCheck`
unfoldable pub check_account : Bank → Bytes → Check
check_account bank account =
    if has_method bank account
    then verdict_check bank.check_algo account (Account.validate bank.check_algo account)
    else not_checked no_account_check

unfoldable pub lists_country : Bytes → List SourceInfo → Bool
lists_country country [] = false
lists_country country (src ∷ rest) = bytes_eq src.country country || lists_country country rest

-- `haveCountry`, of what `Stats` returns
abbrev pub have_country : Bytes → Result RepoError Stats → Bool
have_country country (err e) = false
have_country country (ok st) = lists_country country st.sources

-- `lookupBank` behind `Find`: the checks that it adds, and the bank.
abbrev pub found_bank :
    Result RepoError Stats → Bytes → Bytes → Bytes → Result RepoError Bank → Checks × Option Bank
found_bank stats cc code account (err failed) =
    ((bank_code_check, not_checked data_unavailable) ∷ [], none)
found_bank stats cc code account (err no_record) = (
  (
    bank_code_check,
    if have_country cc stats
        then not_passed (unknown_bank_code code)
        else not_checked (no_directory cc),
  )
      ∷ [],
  none,
)
found_bank stats cc code account (ok bank) = (
  (bank_code_check, passed (bank_code_valid code))
      ∷ (account_check, check_account bank account)
      ∷ [],
  some bank,
)

abbrev pub key_for : Iban → Key
key_for i = record { country = country_code_of i; bank_code = bank_code_of i }

-- `lookupBank`
unfoldable pub lookup_bank : Repo → Iban → Checks × Option Bank
lookup_bank repo i =
    if is_empty (bank_code_of i)
    then ((bank_code_check, not_checked (no_bank_code_place (country_code_of i))) ∷ [], none)
    else found_bank repo.read_stats (country_code_of i) (bank_code_of i) (account_number_of i)
        (repo.find_bank (key_for i))

abbrev pub failed_check : Check → Bool
failed_check c = elim c.outcome [ none ↦ false | some passed ↦ not passed ]

-- `allChecksPass`
unfoldable pub all_checks_pass : Checks → Bool
all_checks_pass [] = true
all_checks_pass ((name, c) ∷ checks) =
    let rest = all_checks_pass checks in if failed_check c then false else rest

-- `schemeView`, for the register if one is loaded
abbrev scheme_view : Option Registry → Bytes → Option SchemeView
scheme_view none bic = none
scheme_view (some r) bic =
    if is_empty bic
    then none
    else some (record { schemes = Register.lookup r bic; as_of = r.as_of })

abbrev bank_schemes : Option Registry → Option Bank → Option SchemeView
bank_schemes schemes none = none
bank_schemes schemes (some b) = scheme_view schemes b.bic

unfoldable pub source_times : List SourceInfo → List (Bytes × ℕ) → List (Bytes × ℕ)
source_times [] m = m
source_times (src ∷ rest) m = source_times rest (put src.country src.retrieved_at m)

abbrev with_scheme_time : Option Registry → List (Bytes × ℕ) → List (Bytes × ℕ)
with_scheme_time none m = m
with_scheme_time (some r) m = elim r.as_of [ none ↦ m | some t ↦ put (codes "schemes") t m ]

-- `dataAsOf`, where nil is the empty map
abbrev pub data_as_of : Option Registry → Result RepoError Stats → List (Bytes × ℕ)
data_as_of schemes (err e) = []
data_as_of schemes (ok st) = elim st.sources [
  | [] ↦ []
  | src ∷ rest ↦ with_scheme_time schemes (source_times (src ∷ rest) [])
]

abbrev only_input : Bytes → IbanParts
only_input value = record {
  input = value;
  formatted = [];
  country_code = [];
  check_digits = [];
  bank_code = [];
  branch_code = [];
  account_number = [];
}

abbrev parts_of : Bytes → Iban → IbanParts
parts_of value i = record {
  input = value;
  formatted = formatted i;
  country_code = country_code_of i;
  check_digits = check_digits_of i;
  bank_code = bank_code_of i;
  branch_code = branch_code_of i;
  account_number = account_number_of i;
}

-- A result with one failed check, for an input that is no IBAN.
abbrev pub refused : Bytes → Message → V2Result
refused value msg = record {
  valid = false;
  iban = only_input value;
  checks = (length_check, not_passed msg) ∷ [];
  bank = none;
  schemes = none;
  data_as_of = [];
}

abbrev pub is_ok {ℓ} : {E : Type 0} {A : Type ℓ} → Result E A → Bool
is_ok (err e) = false
is_ok (ok a) = true

-- The checks of a parsed IBAN, in the order in which they are written.
unfoldable pub checks_of : Repo → Iban → Checks
checks_of repo i =
    (length_check, passed (correct_length i.country.code i.country.length))
    ∷ (
      checksum_check,
      if is_ok (Checksum.validate i) then passed checksum_correct else not_passed checksum_wrong,
    )
    ∷ (lookup_bank repo i).0

-- `validateV2` behind `Parse`
abbrev pub answer_for : Repo → Option Registry → Bytes → Result Error Iban → V2Result
answer_for repo schemes value (err e) = refused value (v2_parse_message e)
answer_for repo schemes value (ok i) = record {
  valid = all_checks_pass (checks_of repo i) && is_ok (Checksum.validate i);
  iban = parts_of value i;
  checks = checks_of repo i;
  bank = (lookup_bank repo i).1;
  schemes = bank_schemes schemes (lookup_bank repo i).1;
  data_as_of = data_as_of schemes repo.read_stats;
}

-- `validateV2`
unfoldable pub validate_v2 : Repo → Option Registry → Bytes → V2Result
validate_v2 repo schemes value = answer_for repo schemes value (parse value)

pub data BatchError : Type 0 where
  empty_batch batch_too_large : BatchError

-- `MaxBatchSize`
abbrev max_batch_size : ℕ
max_batch_size = 100

unfoldable pub batch_loop : Repo → Option Registry → List Bytes → List V2Result
batch_loop repo schemes [] = []
batch_loop repo schemes (value ∷ values) =
    (if ltb max_input (length value)
      then refused value input_too_long
      else validate_v2 repo schemes value)
    ∷ batch_loop repo schemes values

-- `handleV2Batch` behind the decoding of its body
unfoldable pub batch : Repo → Option Registry → List Bytes → Result BatchError (List V2Result)
batch repo schemes values =
    if is_empty_list values
    then err empty_batch
    else if ltb max_batch_size (length values)
    then err batch_too_large
    else ok (batch_loop repo schemes values)
  where
    is_empty_list : List Bytes → Bool
    is_empty_list [] = true
    is_empty_list (v ∷ vs) = false
