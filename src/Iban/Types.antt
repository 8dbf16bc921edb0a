-- ===== src/Iban/Types.antt =====
-- The types of iban/iban.go and iban/registry.go, and the errors that the package returns, each with
-- what its message shows.
use iban_pizza.Prelude.{ℕ, ◌-◌, Bool, ◌≡◌, refl}
use iban_pizza.Prelude.Text.{Bytes}

-- `charClass`: 'n', 'a', 'c'
pub data CharClass : Type 0 where
  digit upper alnum : CharClass

-- What `expandStructure` finds wrong with a pattern.
pub data PatternError : Type 0 where
  expected_length : ℕ → PatternError
  missing_class : PatternError
  unknown_class : ℕ → PatternError
  empty_structure : PatternError
  out_of_fuel : PatternError

pub data Error : Type 0 where
  too_short too_long country_code check_digits : Error
  unknown_country : Bytes → Error
  wrong_length : Bytes → ℕ → ℕ → Error
  not_alnum : ℕ → Error
  bban_length : Bytes → ℕ → ℕ → Error
  wrong_class : ℕ → Bytes → CharClass → Error
  bad_registry : Bytes → PatternError → Error
  checksum : Error
  parts_required : Error
  bank_code_too_long : Bytes → ℕ → ℕ → Error
  no_room : Bytes → Error
  account_too_long : ℕ → Bytes → ℕ → Error

-- What a Go function returns with an error beside its value.
pub data Result {ℓ} (E : Type 0) (A : Type ℓ) : Type ℓ where
  err : E → Result E A
  ok : A → Result E A

infixl 5 ◌>>=◌ ◌>>◌
-- `if err != nil { return err }`, before what comes next
abbrev pub ◌>>=◌ {ℓ κ} :
    {E : Type 0} {Value : Type ℓ} {Next : Type κ}
    → Result E Value
    → (Value → Result E Next)
    → Result E Next
err failure >>= next = err failure
ok value >>= next = next value

abbrev pub ◌>>◌ {ℓ} :
    {E : Type 0} {Next : Type ℓ} → Result E (Unit {0}) → Result E Next → Result E Next
step >> next = step >>= λ _. next

-- `if bad { return e }`
abbrev pub refuse : {E : Type 0} → Bool → E → Result E (Unit {0})
refuse Bool.true e = err e
refuse Bool.false e = ok tt

-- `Field`: a half-open range of the BBAN
pub record Field : Type 0 where
  pub start : ℕ
  pub end : ℕ

pub record Country : Type 0 where
  pub code : Bytes
  pub name : Bytes
  pub length : ℕ
  pub bban : Bytes
  pub bank_code : Field
  pub branch_code : Field
  pub account : Field
  pub example : Bytes

-- `IBAN`: the normalised text and its registry entry
pub record Iban : Type 0 where
  pub raw : Bytes
  pub country : Country

-- `BBANLength`; no registry row is shorter than four.
abbrev pub bban_length_of : Country → ℕ
bban_length_of c = c.length - 4

-- Inversion of a successful bind.
pub bind_passed {ℓ κ} :
    {E : Type 0} {Value : Type ℓ} {Next : Type κ} (step : Result E Value)
    (next : Value → Result E Next) {final : Next}
    → (step >>= next) ≡ ok final
    → (value : Value) × (step ≡ ok value) × (next value ≡ ok final)
bind_passed (err failure) next h = cc
bind_passed (ok value) next h = (value, refl, h)
