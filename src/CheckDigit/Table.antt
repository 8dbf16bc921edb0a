-- ===== src/CheckDigit/Table.antt =====
-- Every method of the table derives a digit, and puts it inside the number.
use iban_pizza.Prelude.{
  ℕ, ◌≤◌, Bool, true, false, List, [], ◌∷◌, some, if◌then◌else◌, ◌≡◌, ◌⊎◌, inl, inr, refl, arith,
  Bool-cases, subst, some_injective,
}
use iban_pizza.Prelude.Text.{Bytes, bytes_eq}
use iban_pizza.CheckDigit.Sums.{mod10, mod11_standard, mod11_strict, mod11_minus_one}
use iban_pizza.CheckDigit.Methods.{
  Derived, Method, m00, m01, m02, m06, m09, m10, m13, m28, m32, m34, m88, m99, m17, m_c1, m_c1_v2,
  methods, find_method,
}

module _ {ℓ} (P : Method → Type ℓ) where
  -- Of every method of a table.
  abbrev pub AllMethods : List (Bytes × Method) → Type ℓ
  AllMethods [] = Unit
  AllMethods ((k, m) ∷ rows) = P m × AllMethods rows

  find_method-AllMethods :
      (id : Bytes) (rows : List (Bytes × Method)) (m : Method)
      → AllMethods rows
      → find_method id rows ≡ some m
      → P m
  unfolding find_method
  find_method-AllMethods id [] m h e = absurd (cc)
  find_method-AllMethods id ((k, n) ∷ rows) m h e = elim (Bool-cases (bytes_eq k id)) [
    | inl here ↦ subst P (some_injective n m (chosen here)) h.0
    | inr later ↦ find_method-AllMethods id rows m h.1 (passed later)
  ]
    where
      chosen : bytes_eq k id ≡ true → some n ≡ some m
      chosen here = rw here at e

      passed : bytes_eq k id ≡ false → find_method id rows ≡ some m
      passed later = rw later at e

  -- What holds of the fourteen methods holds of each that an identifier names.
  pub method-all :
      AllMethods methods → (id : Bytes) (m : Method) → find_method id methods ≡ some m → P m
  method-all h id m e = find_method-AllMethods id methods m h e

mod10-le : (sum : ℕ) → mod10 sum ≤ 9
unfolding mod10
mod10-le sum = omega arith

mod11_standard-le : (sum : ℕ) → (mod11_standard sum).0 ≤ 9
unfolding mod11_standard
mod11_standard-le sum = ground arith

mod11_strict-le : (sum : ℕ) → (mod11_strict sum).0 ≤ 9
unfolding mod11_strict
mod11_strict-le sum = ground arith

mod11_minus_one-le : (sum : ℕ) → mod11_minus_one sum ≤ 9
unfolding mod11_minus_one
mod11_minus_one-le sum = ground arith

-- A decimal digit, at position 8 or 10 of the number as the specification counts.
abbrev pub InPlace : Derived → Type 0
InPlace r = (r.expected ≤ 9) × ((r.position ≡ 7) ⊎ (r.position ≡ 9))

abbrev pub InRange : Method → Type 0
InRange m = (d : List ℕ) → InPlace (m d)

either-InPlace : (b : Bool) (r q : Derived) → InPlace r → InPlace q → InPlace (if b then r else q)
either-InPlace true r q hr hq = hr
either-InPlace false r q hr hq = hq

pub methods-InRange : AllMethods InRange methods
unfolding methods m00 m01 m02 m06 m09 m10 m13 m28 m32 m34 m17 m88 m99 m_c1 m_c1_v2
methods-InRange = (
  λ d. (mod10-le _, inr refl),
  (
    λ d. (mod10-le _, inr refl),
    (
      λ d. (mod11_strict-le _, inr refl),
      (
        λ d. (mod11_standard-le _, inr refl),
        (
          λ d. (omega arith, inr refl),
          (
            λ d. (mod11_standard-le _, inr refl),
            (
              λ d. (mod10-le _, inl refl),
              (
                λ d. (mod11_standard-le _, inl refl),
                (
                  λ d. (mod11_standard-le _, inr refl),
                  (
                    λ d. (mod11_standard-le _, inl refl),
                    (
                      λ d. (mod11_standard-le _, inr refl),
                      (
                        λ d.
                            either-InPlace _ _ _ (omega arith, inr refl)
                              (mod11_standard-le _, inr refl),
                        (
                          λ d. (mod11_minus_one-le _, inl refl),
                          (
                            λ d.
                                either-InPlace _ _ _ (mod11_minus_one-le _, inr refl)
                                  (mod11_minus_one-le _, inl refl),
                            tt,
                          ),
                        ),
                      ),
                    ),
                  ),
                ),
              ),
            ),
          ),
        ),
      ),
    ),
  ),
)
