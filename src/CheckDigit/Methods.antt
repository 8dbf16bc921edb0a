-- ===== src/CheckDigit/Methods.antt =====
-- internal/checkdigit/methods.go: the methods, and the two tables of checkdigit.go.
use iban_pizza.Prelude.{
  ℕ, Bool, true, false, ◌&&◌, List, [], ◌∷◌, Option, none, some, leb, ◌==◌, if◌then◌else◌, get_or,
}
use iban_pizza.Prelude.Text.{Bytes, codes, bytes_eq, to_upper, trim_space}
use iban_pizza.CheckDigit.Sums.{
  weighted_sum, weighted_sum_ltr, mod10, mod11_standard, mod11_strict, mod11_minus_one, value,
}

-- What a method returns: the check digit, its position, and whether it could be derived at all.
pub record Derived : Type 0 where
  pub expected : ℕ
  pub position : ℕ
  pub usable : Bool

abbrev pub Method : Type 0
Method = List ℕ → Derived

abbrev pub derived : ℕ → ℕ → Bool → Derived
derived e p u = record { expected = e; position = p; usable = u }

-- The result of a modulus 11 rule, at a position.
abbrev pub derived_at : ℕ → ℕ × Bool → Derived
derived_at p r = derived r.0 p r.1

unfoldable pub m00 : Method
m00 d = derived (mod10 (weighted_sum d 0 8 (2 ∷ 1 ∷ []) true)) 9 true

unfoldable pub m01 : Method
m01 d = derived (mod10 (weighted_sum d 0 8 (3 ∷ 7 ∷ 1 ∷ []) false)) 9 true

unfoldable pub m02 : Method
m02 d =
    derived_at 9 (mod11_strict (weighted_sum d 0 8 (2 ∷ 3 ∷ 4 ∷ 5 ∷ 6 ∷ 7 ∷ 8 ∷ 9 ∷ 2 ∷ []) false))

unfoldable pub m06 : Method
m06 d = derived_at 9 (mod11_standard (weighted_sum d 0 8 (2 ∷ 3 ∷ 4 ∷ 5 ∷ 6 ∷ 7 ∷ []) false))

unfoldable pub m09 : Method
m09 d = derived 0 9 false

unfoldable pub m10 : Method
m10 d =
    derived_at 9
      (mod11_standard (weighted_sum d 0 8 (2 ∷ 3 ∷ 4 ∷ 5 ∷ 6 ∷ 7 ∷ 8 ∷ 9 ∷ 10 ∷ []) false))

unfoldable pub m13 : Method
m13 d = derived (mod10 (weighted_sum d 1 6 (2 ∷ 1 ∷ []) true)) 7 true

unfoldable pub m28 : Method
m28 d = derived_at 7 (mod11_standard (weighted_sum d 0 6 (2 ∷ 3 ∷ 4 ∷ 5 ∷ 6 ∷ 7 ∷ 8 ∷ []) false))

unfoldable pub m32 : Method
m32 d = derived_at 9 (mod11_standard (weighted_sum d 3 8 (2 ∷ 3 ∷ 4 ∷ 5 ∷ 6 ∷ 7 ∷ []) false))

unfoldable pub m34 : Method
m34 d = derived_at 7 (mod11_standard (weighted_sum d 0 6 (2 ∷ 4 ∷ 8 ∷ 5 ∷ 10 ∷ 9 ∷ 7 ∷ []) false))

unfoldable pub m88 : Method
m88 d =
    let sum =
      if get_or d 2 0 == 9
      then weighted_sum d 2 8 (2 ∷ 3 ∷ 4 ∷ 5 ∷ 6 ∷ 7 ∷ 8 ∷ []) false
      else weighted_sum d 3 8 (2 ∷ 3 ∷ 4 ∷ 5 ∷ 6 ∷ 7 ∷ []) false in
    derived_at 9 (mod11_standard sum)

unfoldable pub m99 : Method
m99 d =
    if leb 396000000 (value d) && leb (value d) 499999999
    then derived 0 9 false
    else derived_at 9
        (mod11_standard (weighted_sum d 0 8 (2 ∷ 3 ∷ 4 ∷ 5 ∷ 6 ∷ 7 ∷ 2 ∷ 3 ∷ 4 ∷ []) false))

unfoldable pub m17 : Method
m17 d = derived (mod11_minus_one (weighted_sum_ltr d 1 6 (1 ∷ 2 ∷ 1 ∷ 2 ∷ 1 ∷ 2 ∷ []))) 7 true

unfoldable pub m_c1_v2 : Method
m_c1_v2 d =
    derived (mod11_minus_one (weighted_sum_ltr d 0 8 (1 ∷ 2 ∷ 1 ∷ 2 ∷ 1 ∷ 2 ∷ 1 ∷ 2 ∷ 1 ∷ []))) 9
      true

unfoldable pub m_c1 : Method
m_c1 d = if get_or d 0 0 == 5 then m_c1_v2 d else m17 d

-- `methods`
unfoldable pub methods : List (Bytes × Method)
methods =
    (codes "00", m00)
    ∷ (codes "01", m01)
    ∷ (codes "02", m02)
    ∷ (codes "06", m06)
    ∷ (codes "09", m09)
    ∷ (codes "10", m10)
    ∷ (codes "13", m13)
    ∷ (codes "28", m28)
    ∷ (codes "32", m32)
    ∷ (codes "34", m34)
    ∷ (codes "88", m88)
    ∷ (codes "99", m99)
    ∷ (codes "17", m17)
    ∷ (codes "C1", m_c1)
    ∷ []

-- `verified`
unfoldable pub verified_ids : List Bytes
verified_ids =
    codes "00"
    ∷ codes "06"
    ∷ codes "09"
    ∷ codes "10"
    ∷ codes "28"
    ∷ codes "32"
    ∷ codes "34"
    ∷ codes "88"
    ∷ codes "99"
    ∷ codes "17"
    ∷ codes "C1"
    ∷ []

unfoldable pub find_method : Bytes → List (Bytes × Method) → Option Method
find_method id [] = none
find_method id ((k, m) ∷ rows) = if bytes_eq k id then some m else find_method id rows

unfoldable pub is_listed : Bytes → List Bytes → Bool
is_listed id [] = false
is_listed id (k ∷ ids) = if bytes_eq k id then true else is_listed id ids

-- `normaliseID`
unfoldable pub normalise_id : Bytes → Bytes
normalise_id id = to_upper (trim_space id)

-- `Implemented` and `Verified`
unfoldable pub implemented : Bytes → Bool
implemented id = elim (find_method (normalise_id id) methods) [ none ↦ false | some m ↦ true ]

unfoldable pub verified : Bytes → Bool
verified id = is_listed (normalise_id id) verified_ids
