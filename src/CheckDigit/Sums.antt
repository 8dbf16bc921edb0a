-- ===== src/CheckDigit/Sums.antt =====
-- internal/checkdigit: the weighted sums and the rules that turn a sum into a check digit. A number is
-- its list of digits, index 0 first; every index is in range, so the default of `get_or` is not read.
use iban_pizza.Prelude.{
  ℕ, zero, suc, ◌+◌, ◌-◌, ◌*◌, ◌%◌, Bool, true, false, ◌&&◌, List, [], ◌∷◌, ltb, ◌==◌,
  if◌then◌else◌, length, get_or,
}

-- The weight of round `w`, the weights repeating.
abbrev weight_at : List ℕ → ℕ → ℕ
weight_at weights w = get_or weights (w % length weights) 0

-- The loop of `weightedSum`: `i` falls, `w` grows, with so many rounds left.
unfoldable pub sum_loop : List ℕ → List ℕ → Bool → ℕ → ℕ → ℕ → ℕ → ℕ
sum_loop d weights cross_sum zero i w sum = sum
sum_loop d weights cross_sum (suc rounds) i w sum =
    let p = get_or d i 0 * weight_at weights w in
    let p' = if cross_sum && ltb 9 p then p - 9 else p in
    sum_loop d weights cross_sum rounds (i - 1) (w + 1) (sum + p')

unfoldable pub weighted_sum : List ℕ → ℕ → ℕ → List ℕ → Bool → ℕ
unfolding sum_loop
weighted_sum d from to weights cross_sum = sum_loop d weights cross_sum (to + 1 - from) to 0 0

-- The loop of `weightedSumLTR`, where `i` grows.
unfoldable pub ltr_loop : List ℕ → List ℕ → ℕ → ℕ → ℕ → ℕ → ℕ
ltr_loop d weights zero i w sum = sum
ltr_loop d weights (suc rounds) i w sum =
    let weight = weight_at weights w in
    let p = get_or d i 0 * weight in
    let p' = if ltb 1 weight && ltb 9 p then p - 9 else p in
    ltr_loop d weights rounds (i + 1) (w + 1) (sum + p')

unfoldable pub weighted_sum_ltr : List ℕ → ℕ → ℕ → List ℕ → ℕ
unfolding ltr_loop
weighted_sum_ltr d from to weights = ltr_loop d weights (to + 1 - from) from 0 0

unfoldable pub mod10 : ℕ → ℕ
mod10 sum = (10 - sum % 10) % 10

-- The remainder's digit, which is always usable.
unfoldable pub mod11_standard : ℕ → ℕ × Bool
mod11_standard sum =
    if sum % 11 == 0 then (0, true) else if sum % 11 == 1 then (0, true) else (11 - sum % 11, true)

unfoldable pub mod11_strict : ℕ → ℕ × Bool
mod11_strict sum =
    if sum % 11 == 0 then (0, true) else if sum % 11 == 1 then (0, false) else (11 - sum % 11, true)

-- `(sum - 1) % 11` of Go is -1 at 0, and the source adds 11.
abbrev rest_minus_one : ℕ → ℕ
rest_minus_one zero = 11 - 1
rest_minus_one (suc sum) = sum % 11

unfoldable pub mod11_minus_one : ℕ → ℕ
mod11_minus_one sum = if rest_minus_one sum == 0 then 0 else 10 - rest_minus_one sum

-- `value`
unfoldable pub value_from : ℕ → List ℕ → ℕ
value_from n [] = n
value_from n (digit ∷ d) = value_from (n * 10 + digit) d

unfoldable pub value : List ℕ → ℕ
unfolding value_from
value d = value_from 0 d
