-- ===== src/CheckDigit/Outcome.antt =====
-- What `Validate` states of an account number, and what it leaves open.
use iban_pizza.Prelude.{
  ℕ, true, false, List, [], ◌∷◌, none, some, ◌≡◌, ◌⊎◌, inl, inr, refl, sym, ◌∙◌, subst, Bool-cases,
  Option-cases,
}
use iban_pizza.Prelude.Text.{Bytes, codes, bytes_eq, bytes_eq_iff, trim_space}
use iban_pizza.Iban.Types.{Result, ok, err}
use iban_pizza.CheckDigit.Methods.{
  Method, find_method, methods, is_listed, verified_ids, verified, normalise_id, m00, m06, m09, m10,
  m28, m32, m34, m88, m99, m17, m_c1,
}
use iban_pizza.CheckDigit.Validate.{
  AccountError, unchecked, invalid, judge, run_method, to_digits, judge_digits, validate_by,
  validate,
}
use iban_pizza.CheckDigit.Place.{IsNumber}
use iban_pizza.CheckDigit.Digits.{IsAccount, padded, to_digits_iff, to_digits-IsNumber}

-- An identifier that has a method and is not the one with a second attempt.
abbrev IsPlain : Bytes → Type 0
IsPlain id = (m : Method) × (find_method id methods ≡ some m) × (bytes_eq id (codes "13") ≡ false)

abbrev AllIds : List Bytes → Type 0
AllIds [] = Unit
AllIds (id ∷ ids) = IsPlain id × AllIds ids

verified-IsPlain : AllIds verified_ids
unfolding verified_ids methods find_method bytes_eq
verified-IsPlain = (
  (m00, refl, refl),
  (
    (m06, refl, refl),
    (
      (m09, refl, refl),
      (
        (m10, refl, refl),
        (
          (m28, refl, refl),
          (
            (m32, refl, refl),
            (
              (m34, refl, refl),
              (
                (m88, refl, refl),
                ((m99, refl, refl), ((m17, refl, refl), ((m_c1, refl, refl), tt))),
              ),
            ),
          ),
        ),
      ),
    ),
  ),
)

listed-IsPlain : (id : Bytes) (ids : List Bytes) → AllIds ids → is_listed id ids ≡ true → IsPlain id
unfolding is_listed
listed-IsPlain id [] h e = absurd (cc)
listed-IsPlain id (k ∷ ids) h e = elim (Bool-cases (bytes_eq k id)) [
  | inl here ↦ subst IsPlain ((bytes_eq_iff k id).0 here) h.0
  | inr later ↦ listed-IsPlain id ids h.1 (rest later)
]
  where
    rest : bytes_eq k id ≡ false → is_listed id ids ≡ true
    rest later = rw later at e

-- An identifier whose method is not confirmed by test numbers, or that is not known, makes no
-- statement at all: neither a verdict nor an error.
validate-unverified :
    (id account : Bytes) → verified id ≡ false → validate id account ≡ (unchecked, none)
unfolding verified validate validate_by
validate-unverified id account h = elim (Option-cases (find_method (normalise_id id) methods)) [
  | inl missing ↦ rw missing
  | inr (m, found) ↦ rw (found, h)
]

-- What `Validate` makes of an account number behind its method: the method's verdict, or an error.
abbrev Judged : Bytes → Bytes → Type 0
Judged id account =
    (m : Method) × (find_method (normalise_id id) methods ≡ some m)
    × ((IsAccount (trim_space account)
          × IsNumber (padded (trim_space account))
          × (validate id account ≡ (judge m (padded (trim_space account)), none)))
        ⊎ (¬ IsAccount (trim_space account)
            × (e : AccountError) × (validate id account ≡ (invalid, some e))))

validate_run :
    (id account : Bytes) (m : Method) (r : Result AccountError (List ℕ))
    → find_method (normalise_id id) methods ≡ some m
    → bytes_eq (normalise_id id) (codes "13") ≡ false
    → is_listed (normalise_id id) verified_ids ≡ true
    → to_digits account ≡ r
    → Judged id account
unfolding validate validate_by judge_digits run_method
validate_run id account m (ok d) found plain listed e =
    let (good, same) = (to_digits_iff account d).0 e in
    (
      m,
      found,
      inl (
        good,
        rw (← same) (to_digits-IsNumber account d e),
        rw (found, listed, e, plain, same) refl,
      ),
    )
validate_run id account m (err f) found plain listed e = (
  m,
  found,
  inr (
    λ one. apart (sym e ∙ (to_digits_iff account (padded (trim_space account))).1 (one, refl)),
    f,
    rw (found, listed, e) refl,
  ),
)
  where
    apart : {d : List ℕ} → ◌≡◌ {A = Result AccountError (List ℕ)} (err f) (ok d) → ⊥
    apart h = cc

-- An identifier whose method is confirmed has a method. An account number of one to ten decimal digits,
-- surrounding space aside, gets the method's verdict on these digits behind as many zeros as make ten, with
-- no error; any other text is reported invalid with an error.
pub validate-verified :
    (id account : Bytes)
    → verified id ≡ true
    → (m : Method) × (find_method (normalise_id id) methods ≡ some m)
      × ((IsAccount (trim_space account)
            × IsNumber (padded (trim_space account))
            × (validate id account ≡ (judge m (padded (trim_space account)), none)))
          ⊎ (¬ IsAccount (trim_space account)
              × (e : AccountError) × (validate id account ≡ (invalid, some e))))
unfolding verified
validate-verified id account h =
    let (m, found, plain) = listed-IsPlain (normalise_id id) verified_ids verified-IsPlain h in
    validate_run id account m (to_digits account) found plain h refl
