-- ===== src/CheckDigit/Validate.antt =====
-- internal/checkdigit: `toDigits`, `validate13` and `Validate`.
use iban_pizza.Prelude.{
  ℕ, ◌-◌, Bool, not, ◌&&◌, List, [], ◌∷◌, ◌++◌, Option, none, some, ltb, ◌==◌, if◌then◌else◌,
  length, all, map, replicate, get_or,
}
use iban_pizza.Prelude.Text.{Bytes, codes, bytes_eq, is_empty, trim_space, to_upper}
use iban_pizza.Iban.Types.{Result, ok, err}
use iban_pizza.Iban.Structure.{is_digit}
use iban_pizza.CheckDigit.Sums.{
  weighted_sum, weighted_sum_ltr, mod10, mod11_standard, mod11_strict, mod11_minus_one, value,
}
use iban_pizza.CheckDigit.Methods.{
  Derived, Method, m13, find_method, methods, is_listed, verified_ids, normalise_id,
}

-- `Result` of the source.
pub data Verdict : Type 0 where
  unchecked valid invalid : Verdict

pub data AccountError : Type 0 where
  empty_account too_long not_numeric : AccountError

abbrev pub account_length : ℕ
account_length = 10

-- `toDigits` behind `TrimSpace`
unfoldable pub digits_of : Bytes → Result AccountError (List ℕ)
digits_of account =
    if is_empty account
    then err empty_account
    else if ltb account_length (length account)
    then err too_long
    else if not (all is_digit account)
    then err not_numeric
    else ok (replicate (account_length - length account) 0 ++ map (λ c. c - b'0') account)

unfoldable pub to_digits : Bytes → Result AccountError (List ℕ)
to_digits account = digits_of (trim_space account)

abbrev pub matches : Derived → List ℕ → Bool
matches r d = r.usable && get_or d r.position 0 == r.expected

-- `validate13`
unfoldable pub validate13 : List ℕ → Bytes → Verdict
validate13 d account =
    if matches (m13 d) d
    then valid
    else if ltb (account_length - 2) (length account)
    then invalid
    else elim (to_digits (account ++ b'0' ∷ b'0' ∷ [])) [
      | err e ↦ invalid
      | ok shifted ↦ if matches (m13 shifted) shifted then valid else invalid
    ]

-- The end of `Validate`: the method's check digit against the one in its place.
unfoldable pub judge : Method → List ℕ → Verdict
judge m d =
    if not ((m d).usable)
    then unchecked
    else if get_or d (m d).position 0 == (m d).expected
    then valid
    else invalid

unfoldable pub run_method : Bytes → Method → List ℕ → Bytes → Verdict
run_method id m d account =
    if bytes_eq id (codes "13") then validate13 d (trim_space account) else judge m d

-- `Validate` behind `toDigits`
unfoldable pub judge_digits :
    Bytes → Method → Bytes → Result AccountError (List ℕ) → Verdict × Option AccountError
judge_digits id m account (err e) = (invalid, some e)
judge_digits id m account (ok d) = (run_method id m d account, none)

-- `Validate` behind the lookup of the method
unfoldable pub validate_by : Bytes → Bytes → Option Method → Verdict × Option AccountError
validate_by id account none = (unchecked, none)
validate_by id account (some m) =
    if not (is_listed id verified_ids)
    then (unchecked, none)
    else judge_digits id m account (to_digits account)

-- `Validate`: the result, and the error beside it.
unfoldable pub validate : Bytes → Bytes → Verdict × Option AccountError
validate id account = validate_by (normalise_id id) account (find_method (normalise_id id) methods)

-- All that `validate` computes with, for the tests.
unfoldable pub validate_code : Unit {0}
unfolding weighted_sum weighted_sum_ltr mod10 mod11_standard mod11_strict mod11_minus_one value m13
    find_method methods is_listed verified_ids normalise_id bytes_eq trim_space to_upper digits_of
    to_digits validate13 judge run_method judge_digits validate_by validate
validate_code = tt
