-- ===== src/Api/Answer.antt =====
-- internal/api/v2.go: the answer for one IBAN. A message is the constructor of its text, with what is put
-- into it; the logo of a bank and the JSON form are left out.
use iban_pizza.Prelude.{ℕ, Bool, true, false, List, [], Option, none, some}
use iban_pizza.Prelude.Text.{Bytes}
use iban_pizza.Iban.Types.{Error}
use iban_pizza.BankData.Types.{Bank}
use iban_pizza.Sepa.Register.{Scheme, Membership}

pub data Message : Type 0 where
  input_too_short input_too_long not_a_country not_check_digits no_ibans_issued : Message
  error_text : Error → Message
  correct_length : Bytes → ℕ → Message
  checksum_correct checksum_wrong : Message
  no_bank_code_place no_directory unknown_bank_code bank_code_valid : Bytes → Message
  data_unavailable no_account_check account_not_checked : Message
  account_correct account_wrong method_not_verified : Bytes → Message

-- `Check`, where `outcome` is none for what is not checked.
pub record Check : Type 0 where
  pub outcome : Option Bool
  pub message : Message
  pub method : Bytes

abbrev pub passed : Message → Check
passed msg = record { outcome = some true; message = msg; method = [] }

abbrev pub not_passed : Message → Check
not_passed msg = record { outcome = some false; message = msg; method = [] }

abbrev pub not_checked : Message → Check
not_checked msg = record { outcome = none; message = msg; method = [] }

-- The names under which a check stands in the answer; each is written once.
pub data CheckName : Type 0 where
  length_check checksum_check bank_code_check account_check : CheckName

abbrev pub Checks : Type 0
Checks = List (CheckName × Check)

pub record IbanParts : Type 0 where
  pub input : Bytes
  pub formatted : Bytes
  pub country_code : Bytes
  pub check_digits : Bytes
  pub bank_code : Bytes
  pub branch_code : Bytes
  pub account_number : Bytes

pub record SchemeView : Type 0 where
  pub schemes : List (Scheme × Membership)
  pub as_of : Option ℕ

pub record V2Result : Type 0 where
  pub valid : Bool
  pub iban : IbanParts
  pub checks : Checks
  pub bank : Option Bank
  pub schemes : Option SchemeView
  pub data_as_of : List (Bytes × ℕ)
