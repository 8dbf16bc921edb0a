-- ===== src/CheckDigit/Tests.antt =====
-- Runs of the check digit methods on account numbers, and of the theorems about them.
use iban_pizza.Prelude.{ℕ, true, false, List, [], ◌∷◌, none, some, ◌≡◌, ◌⊎◌, refl}
use iban_pizza.Prelude.Text.{Bytes, codes, trim_space}
use iban_pizza.CheckDigit.Methods.{Method, m00, find_method, methods, normalise_id, verified}
use iban_pizza.CheckDigit.Validate.{AccountError, valid, invalid, judge, validate, validate_code}
use iban_pizza.CheckDigit.Place.{IsNumber}
use iban_pizza.CheckDigit.Digits.{IsAccount, padded}
use iban_pizza.CheckDigit.Outcome.{validate-verified}

abbrev account : Bytes
account = codes "9290701"

abbrev digits : List ℕ
digits = 0 ∷ 0 ∷ 0 ∷ 9 ∷ 2 ∷ 9 ∷ 0 ∷ 7 ∷ 0 ∷ 1 ∷ []

abbrev mistyped : List ℕ
mistyped = 0 ∷ 0 ∷ 0 ∷ 9 ∷ 2 ∷ 9 ∷ 0 ∷ 7 ∷ 0 ∷ 5 ∷ []

valid_account : validate (codes "00") account ≡ (valid, none)
unfolding validate_code m00
valid_account = refl

invalid_account : validate (codes "00") (codes "9290702") ≡ (invalid, none)
unfolding validate_code m00
invalid_account = refl

derived_m00 : m00 mistyped ≡ record { expected = 1; position = 9; usable = true }
unfolding m00 validate_code
derived_m00 = refl

verified_m00 : verified (codes " 00") ≡ true
unfolding verified validate_code
verified_m00 = refl

unverified_m01 : verified (codes "01") ≡ false
unfolding verified validate_code
unverified_m01 = refl

validate-verified_example :
    (m : Method) × (find_method (normalise_id (codes " 00")) methods ≡ some m)
    × ((IsAccount (trim_space account)
          × IsNumber (padded (trim_space account))
          × (validate (codes " 00") account ≡ (judge m (padded (trim_space account)), none)))
        ⊎ (¬ IsAccount (trim_space account)
            × (e : AccountError) × (validate (codes " 00") account ≡ (invalid, some e))))
validate-verified_example = validate-verified (codes " 00") account verified_m00
