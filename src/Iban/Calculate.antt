-- ===== src/Iban/Calculate.antt =====
-- iban/calculate.go: an IBAN from a country, a bank code and an account number.
use iban_pizza.Prelude.{
  ℕ, ◌+◌, ◌-◌, ◌/◌, ◌%◌, ◌^◌, not, ◌||◌, [], ◌∷◌, ◌++◌, ltb, ◌==◌, if◌then◌else◌, length, replicate,
}
use iban_pizza.Prelude.Text.{Bytes, is_empty, to_upper, trim_space}
use iban_pizza.Iban.Types.{
  Error, Result, ok, err, ◌>>=◌, ◌>>◌, refuse, Field, Country, Iban, bban_length_of, wrong_length,
  parts_required, bank_code_too_long, no_room, account_too_long,
}
use iban_pizza.Iban.Structure.{known}
use iban_pizza.Iban.Parse.{normalize, lookup_country, parse, parse_code}
use iban_pizza.Iban.Checksum.{mod97}

abbrev pub pad : ℕ → Bytes → Bytes
pad width s = replicate (width - length s) b'0' ++ s

-- `padTo`
unfoldable pub pad_to : Bytes → Field → Result Error Bytes
pad_to s f =
    if not (known f)
    then ok s
    else if ltb (f.end - f.start) (length s)
    then err (bank_code_too_long s (length s) (f.end - f.start))
    else ok (pad (f.end - f.start) s)

-- The width of the account number, behind a padded bank code.
abbrev pub account_width : Country → Bytes → ℕ
account_width c bank =
    if known c.account then c.account.end - c.account.start else bban_length_of c - length bank

-- `98 - mod97(…)` is a uint32.
abbrev pub check_number : Bytes → Bytes → ℕ
check_number cc bban = (98 + 2 ^ 32 - mod97 (cc ++ b'0' ∷ b'0' ∷ bban)) % 2 ^ 32

-- `%02d`, for a number below 100
abbrev pub two_digits : ℕ → Bytes
two_digits n = (b'0' + n / 10) ∷ (b'0' + n % 10) ∷ []

abbrev pub candidate : Bytes → Bytes → Bytes
candidate cc bban = cc ++ two_digits (check_number cc bban) ++ bban

-- `Calculate` behind the padding of the bank code.
unfoldable pub place : Bytes → Country → Bytes → Bytes → Result Error Iban
place cc country bank account = do
  refuse (ltb (account_width country bank) 1) (no_room cc)
  refuse (ltb (account_width country bank) (length account))
      (account_too_long (length account) cc (account_width country bank))
  let bban = bank ++ pad (account_width country bank) account
  refuse (not (length bban == bban_length_of country))
      (wrong_length cc (bban_length_of country) (length bban))
  parse (candidate cc bban)

-- `Calculate` behind the lookup and the test for empty parts.
unfoldable pub assemble : Bytes → Country → Bytes → Bytes → Result Error Iban
assemble cc country bank account = do
  bank' ← pad_to bank country.bank_code
  place cc country bank' account

-- `Calculate`
unfoldable pub calculate : Bytes → Bytes → Bytes → Result Error Iban
calculate code bank account = do
  let cc = to_upper (trim_space code)
  country ← lookup_country cc
  refuse (is_empty (normalize bank) || is_empty (normalize account)) parts_required
  assemble cc country (normalize bank) (normalize account)

-- All that `calculate` computes with, for the tests.
unfoldable pub calculate_code : Unit {0}
unfolding calculate assemble place pad_to mod97 trim_space parse_code
calculate_code = tt
