-- ===== src/CheckDigit/Place.antt =====
-- No method reads the digit that it checks: changing the check digit leaves what is expected of it.
use iban_pizza.Prelude.{
  sym, subst, inr, inl, Bool-cases, ◌*◌, ℕ, zero, suc, ◌+◌, ◌≤◌, Bool, true, false, List, [], ◌∷◌,
  if◌then◌else◌, ◌==◌, ◌≡◌, refl, arith, length, all, leb, ap, ◌&&◌,
}
use iban_pizza.CheckDigit.Sums.{mod11_standard, weighted_sum, weighted_sum_ltr, value}
use iban_pizza.CheckDigit.Methods.{
  derived_at, Method, derived, m00, m01, m02, m06, m09, m10, m13, m28, m32, m34, m88, m99, m17,
  m_c1, m_c1_v2, methods,
}
use iban_pizza.CheckDigit.Table.{AllMethods}

-- `d[i] = x`, in range.
abbrev pub set : List ℕ → ℕ → ℕ → List ℕ
set [] i x = []
set (a ∷ d) zero x = x ∷ d
set (a ∷ d) (suc i) x = a ∷ set d i x

abbrev pub is_decimal : ℕ → Bool
is_decimal x = leb x 9

-- A number of ten digits.
abbrev pub IsNumber : List ℕ → Type 0
IsNumber d = (length d ≡ 10) × (all is_decimal d ≡ true)

abbrev pub IsBlind : Method → Type 0
IsBlind m = (d : List ℕ) (x : ℕ) → IsNumber d → x ≤ 9 → m (set d (m d).position x) ≡ m d

-- To prove it of ten digits by name.
ten_digits {ℓ} :
    (P : List ℕ → Type ℓ)
    → ((a b c d e f g h i j : ℕ) → P (a ∷ b ∷ c ∷ d ∷ e ∷ f ∷ g ∷ h ∷ i ∷ j ∷ []))
    → (s : List ℕ) → length s ≡ 10
    → P s
ten_digits P ten (a ∷ b ∷ c ∷ d ∷ e ∷ f ∷ g ∷ h ∷ i ∷ j ∷ []) n = ten a b c d e f g h i j
ten_digits P ten s n = absurd (omega arith)

m00-IsBlind : IsBlind m00
unfolding m00 weighted_sum
m00-IsBlind d x n h = ten_digits (λ s. m00 (set s 9 x) ≡ m00 s) (λ a b c d e f g h i j. refl) d n.0

m01-IsBlind : IsBlind m01
unfolding m01 weighted_sum
m01-IsBlind d x n h = ten_digits (λ s. m01 (set s 9 x) ≡ m01 s) (λ a b c d e f g h i j. refl) d n.0

m02-IsBlind : IsBlind m02
unfolding m02 weighted_sum
m02-IsBlind d x n h = ten_digits (λ s. m02 (set s 9 x) ≡ m02 s) (λ a b c d e f g h i j. refl) d n.0

m06-IsBlind : IsBlind m06
unfolding m06 weighted_sum
m06-IsBlind d x n h = ten_digits (λ s. m06 (set s 9 x) ≡ m06 s) (λ a b c d e f g h i j. refl) d n.0

m10-IsBlind : IsBlind m10
unfolding m10 weighted_sum
m10-IsBlind d x n h = ten_digits (λ s. m10 (set s 9 x) ≡ m10 s) (λ a b c d e f g h i j. refl) d n.0

m13-IsBlind : IsBlind m13
unfolding m13 weighted_sum
m13-IsBlind d x n h = ten_digits (λ s. m13 (set s 7 x) ≡ m13 s) (λ a b c d e f g h i j. refl) d n.0

m28-IsBlind : IsBlind m28
unfolding m28 weighted_sum
m28-IsBlind d x n h = ten_digits (λ s. m28 (set s 7 x) ≡ m28 s) (λ a b c d e f g h i j. refl) d n.0

m32-IsBlind : IsBlind m32
unfolding m32 weighted_sum
m32-IsBlind d x n h = ten_digits (λ s. m32 (set s 9 x) ≡ m32 s) (λ a b c d e f g h i j. refl) d n.0

m34-IsBlind : IsBlind m34
unfolding m34 weighted_sum
m34-IsBlind d x n h = ten_digits (λ s. m34 (set s 7 x) ≡ m34 s) (λ a b c d e f g h i j. refl) d n.0

m88-IsBlind : IsBlind m88
unfolding m88 weighted_sum
m88-IsBlind d x n h = ten_digits (λ s. m88 (set s 9 x) ≡ m88 s) (λ a b c d e f g h i j. refl) d n.0

m17-IsBlind : IsBlind m17
unfolding m17 weighted_sum_ltr
m17-IsBlind d x n h = ten_digits (λ s. m17 (set s 7 x) ≡ m17 s) (λ a b c d e f g h i j. refl) d n.0

exempt_digit :
    (n j x : ℕ)
    → j ≤ 9
    → x ≤ 9
    → (leb 396000000 (n * 10 + x) && leb (n * 10 + x) 499999999)
      ≡ (leb 396000000 (n * 10 + j) && leb (n * 10 + j) 499999999)
exempt_digit n j x hj hx = ground arith

m99_position : (d : List ℕ) → (m99 d).position ≡ 9
unfolding m99
m99_position d = ground arith

m99_last_digit :
    (a b c d e f g h i j x : ℕ)
    → j ≤ 9
    → x ≤ 9
    → m99 (a ∷ b ∷ c ∷ d ∷ e ∷ f ∷ g ∷ h ∷ i ∷ x ∷ [])
      ≡ m99 (a ∷ b ∷ c ∷ d ∷ e ∷ f ∷ g ∷ h ∷ i ∷ j ∷ [])
unfolding m99 value weighted_sum
m99_last_digit a b c d e f g h i j x hj hx =
    ap (λ (exempt : Bool). if exempt then derived 0 9 false else derived_at 9 (mod11_standard sum))
      (exempt_digit (value (a ∷ b ∷ c ∷ d ∷ e ∷ f ∷ g ∷ h ∷ i ∷ [])) j x hj hx)
  where
    sum : ℕ
    sum =
        weighted_sum (a ∷ b ∷ c ∷ d ∷ e ∷ f ∷ g ∷ h ∷ i ∷ j ∷ []) 0 8
          (2 ∷ 3 ∷ 4 ∷ 5 ∷ 6 ∷ 7 ∷ 2 ∷ 3 ∷ 4 ∷ []) false

last_decimal :
    (a b c d e f g h i j : ℕ)
    → all is_decimal (a ∷ b ∷ c ∷ d ∷ e ∷ f ∷ g ∷ h ∷ i ∷ j ∷ []) ≡ true
    → j ≤ 9
last_decimal a b c d e f g h i j n = ground arith

m99-IsBlind : IsBlind m99
m99-IsBlind d x n hx =
    subst (λ p. m99 (set d p x) ≡ m99 d) (sym (m99_position d))
      (ten_digits (λ s. all is_decimal s ≡ true → m99 (set s 9 x) ≡ m99 s)
        (λ a b c d' e f g h i j s.
          m99_last_digit a b c d' e f g h i j x (last_decimal a b c d' e f g h i j s) hx)
        d n.0 n.1)

m_c1-IsBlind : IsBlind m_c1
unfolding m_c1 m17 m_c1_v2 weighted_sum_ltr
m_c1-IsBlind d x n h =
    ten_digits (λ s. m_c1 (set s (m_c1 s).position x) ≡ m_c1 s)
      (λ a b c d e f g h' i j. elim (Bool-cases (a == 5)) [
        | inl five ↦ rw (five, five) refl
        | inr other ↦ rw (other, other) refl
      ])
      d n.0

m09-IsBlind : IsBlind m09
unfolding m09
m09-IsBlind d x n hx = refl

pub methods-IsBlind : AllMethods IsBlind methods
unfolding methods
methods-IsBlind = (
  m00-IsBlind,
  (
    m01-IsBlind,
    (
      m02-IsBlind,
      (
        m06-IsBlind,
        (
          m09-IsBlind,
          (
            m10-IsBlind,
            (
              m13-IsBlind,
              (
                m28-IsBlind,
                (
                  m32-IsBlind,
                  (m34-IsBlind, (m88-IsBlind, (m99-IsBlind, (m17-IsBlind, (m_c1-IsBlind, tt))))),
                ),
              ),
            ),
          ),
        ),
      ),
    ),
  ),
)
