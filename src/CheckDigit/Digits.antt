-- ===== src/CheckDigit/Digits.antt =====
-- What `toDigits` accepts, and the ten digits that it returns.
use iban_pizza.Prelude.{
  ℕ, zero, suc, ◌-◌, ◌≤◌, ◌<◌, true, List, [], ◌∷◌, ◌++◌, ◌≡◌, ◌↔◌, refl, arith, length, all, map,
  replicate, ap, &&-both, length-append, length-replicate, all-append, ◌∙◌,
}
use iban_pizza.Prelude.Text.{Bytes, trim_space}
use iban_pizza.Iban.Types.{ok}
use iban_pizza.Iban.Structure.{is_digit}
use iban_pizza.CheckDigit.Validate.{digits_of, to_digits, account_length}
use iban_pizza.CheckDigit.Place.{IsNumber, is_decimal}

-- One to ten decimal digits.
pub record IsAccount (s : Bytes) : Type 0 where
  pub some_digit : 0 < length s
  pub at_most_ten : length s ≤ account_length
  pub numeric : all is_digit s ≡ true

abbrev pub padded : Bytes → List ℕ
padded s = replicate (account_length - length s) 0 ++ map (λ c. c - b'0') s

length-map : (f : ℕ → ℕ) (s : Bytes) → length (map f s) ≡ length s
length-map f [] = refl
length-map f (c ∷ s) = ap suc (length-map f s)

zeros_decimal : (n : ℕ) → all is_decimal (replicate n 0) ≡ true
zeros_decimal zero = refl
zeros_decimal (suc n) = zeros_decimal n

digit_decimal : (c : ℕ) → is_digit c ≡ true → is_decimal (c - b'0') ≡ true
digit_decimal c h = ground arith

digits_decimal : (s : Bytes) → all is_digit s ≡ true → all is_decimal (map (λ c. c - b'0') s) ≡ true
digits_decimal [] h = refl
digits_decimal (c ∷ s) h =
    let (hc, hs) = &&-both _ _ h in rw (digit_decimal c hc, digits_decimal s hs)

padded-IsNumber : (s : Bytes) → IsAccount s → IsNumber (padded s)
padded-IsNumber s h = (
  omega (
    arith,
    length-append (replicate (account_length - length s) 0) (map (λ c. c - b'0') s),
    length-replicate {A = ℕ} (account_length - length s) 0,
    length-map (λ c. c - b'0') s,
    h.at_most_ten,
  ),
  all-append is_decimal (replicate (account_length - length s) 0) (map (λ c. c - b'0') s)
      ∙ rw (zeros_decimal (account_length - length s), digits_decimal s h.numeric),
)

digits_of_iff : (s : Bytes) (d : List ℕ) → (digits_of s ≡ ok d) ↔ (IsAccount s × (d ≡ padded s))
unfolding digits_of
digits_of_iff [] d = (λ h. absurd (cc), λ h. absurd (omega (arith, h.0.some_digit)))
digits_of_iff (c ∷ s) d = (
  λ h. (
    record { some_digit = omega arith; at_most_ten = ground arith; numeric = ground arith },
    ground arith,
  ),
  λ h. ground (arith, h.0.numeric, h.0.at_most_ten, h.1),
)

-- `toDigits` succeeds exactly on a text of one to ten decimal digits, surrounding space aside, and
-- returns these digits behind as many zeros as make ten.
pub to_digits_iff :
    (s : Bytes) (d : List ℕ)
    → (to_digits s ≡ ok d) ↔ (IsAccount (trim_space s) × (d ≡ padded (trim_space s)))
unfolding to_digits
to_digits_iff s d = digits_of_iff (trim_space s) d

pub to_digits-IsNumber : (s : Bytes) (d : List ℕ) → to_digits s ≡ ok d → IsNumber d
to_digits-IsNumber s d h =
    let (good, e) = (to_digits_iff s d).0 h in rw e (padded-IsNumber (trim_space s) good)
