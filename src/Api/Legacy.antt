-- ===== src/Api/Legacy.antt =====
-- When the first version calls an IBAN valid.
use iban_pizza.Prelude.{
  [], take, some_injective, ℕ, ◌≤◌, Bool, true, false, Option, none, some, ltb, length,
  if◌then◌else◌, ◌≡◌, ◌↔◌, refl, sym, subst, arith, Bool-cases, inl, inr, ◌∙◌,
}
use iban_pizza.Prelude.Text.{Bytes}
use iban_pizza.Prelude.Assoc.{get, bytes_key}
use iban_pizza.Iban.Types.{Result, ok, err, Error, Iban}
use iban_pizza.Iban.Parse.{parse, bban_of, country_code_of}
use iban_pizza.BankData.Types.{Bank}
use iban_pizza.Api.Repo.{Repo, RepoError}
use iban_pizza.Api.V1.{
  V1Result, new_result, bank_code_lengths, v1_key, bank_code_found, bank_code_of_length,
  validate_bank_code, bic_found, bic_of_length, get_bic, with_checksum, answer_for, validate_v1,
}
use iban_pizza.Iban.Checksum as Checksum

-- A bank code that the repository has, where the table has its length.
abbrev pub IsKnownBank : Repo → Iban → Option ℕ → Type 0
IsKnownBank repo i o =
    (n : ℕ)
    → o ≡ some n
    → (n ≤ length (bban_of i)) × ((bank : Bank) × (repo.find_bank (v1_key i n) ≡ ok bank))

get_bic-valid : (repo : Repo) (i : Iban) (r : V1Result) → (get_bic repo i r).valid ≡ r.valid
unfolding get_bic
get_bic-valid repo i r = by_length (get (country_code_of i) bank_code_lengths)
  where
    by_bank :
        (cc code : Bytes) (f : Result RepoError Bank) → (bic_found cc code f r).valid ≡ r.valid
    by_bank cc code (err e) = refl
    by_bank cc code (ok bank) = refl

    by_length : (o : Option ℕ) → (bic_of_length repo i o r).valid ≡ r.valid
    by_length none = refl
    by_length (some n) = elim (Bool-cases (ltb (length (bban_of i)) n)) [
      | inl short ↦ rw short refl
      | inr long ↦ rw long (by_bank _ _ (repo.find_bank (v1_key i n)))
    ]

found-valid :
    (code : Bytes) (f : Result RepoError Bank) (r : V1Result)
    → ((bank_code_found code f r).valid ≡ true)
      ↔ ((r.valid ≡ true) × ((bank : Bank) × (f ≡ ok bank)))
found-valid code (err e) r = (λ h. absurd (cc), λ h. absurd (lost h.1.1))
  where
    lost : {b : Bank} → ◌≡◌ {A = Result RepoError Bank} (err e) (ok b) → ⊥
    lost h = cc
found-valid code (ok bank) r = (λ h. (h, (bank, refl)), λ h. h.0)

of_length-valid :
    (repo : Repo) (i : Iban) (o : Option ℕ) (r : V1Result)
    → ((bank_code_of_length repo i o r).valid ≡ true) ↔ ((r.valid ≡ true) × IsKnownBank repo i o)
of_length-valid repo i none r = (λ h. (h, λ n e. ground arith), λ h. h.0)
of_length-valid repo i (some n) r = elim (Bool-cases (ltb (length (bban_of i)) n)) [
  | inl short ↦ rw short (λ h. absurd (cc), λ h. absurd (too_short short (h.1 n refl).0))
  | inr long ↦
      let (to, back) = found-valid (take n (bban_of i)) (repo.find_bank (v1_key i n)) r in
      rw long (
        λ h.
            let (kept, bank) = to h in
            (
              kept,
              λ m e.
                  subst
                    (λ k.
                      (k ≤ length (bban_of i))
                      × ((b : Bank) × (repo.find_bank (v1_key i k) ≡ ok b)))
                    (some_injective n m e) (fits long, bank),
            ),
        λ h. back (h.0, (h.1 n refl).1),
      )
]
  where
    too_short : ltb (length (bban_of i)) n ≡ true → n ≤ length (bban_of i) → ⊥
    too_short short fit = ground (arith, short, fit)

    fits : ltb (length (bban_of i)) n ≡ false → n ≤ length (bban_of i)
    fits long = ground (arith, long)

with_checksum-valid :
    (v : Result Error (Unit {0})) (value : Bytes)
    → ((with_checksum v (new_result true [] value)).valid ≡ true) ↔ (v ≡ ok tt)
with_checksum-valid (err e) value = ground arith
with_checksum-valid (ok tt) value = ground arith

validate_bank_code-valid :
    (repo : Repo) (i : Iban) (r : V1Result)
    → ((validate_bank_code repo i r).valid ≡ true)
      ↔ ((r.valid ≡ true) × IsKnownBank repo i (get (country_code_of i) bank_code_lengths))
unfolding validate_bank_code
validate_bank_code-valid repo i r =
    of_length-valid repo i (get (country_code_of i) bank_code_lengths) r

-- What the first version asks of a parsed IBAN.
abbrev IsAccepted : Repo → Iban → Bool → Type 0
IsAccepted repo i want =
    (Checksum.validate i ≡ ok tt)
    × (want ≡ true → IsKnownBank repo i (get (country_code_of i) bank_code_lengths))

bank_code_step :
    (repo : Repo) (i : Iban) (value : Bytes) (want : Bool)
    → ((if want
          then validate_bank_code repo i
              (with_checksum (Checksum.validate i) (new_result true [] value))
          else with_checksum (Checksum.validate i) (new_result true [] value)).valid
        ≡ true)
      ↔ IsAccepted repo i want
bank_code_step repo i value true =
    let (to, back) =
      validate_bank_code-valid repo i
        (with_checksum (Checksum.validate i) (new_result true [] value)) in
    let (sum, held) = with_checksum-valid (Checksum.validate i) value in
    (λ h. let (kept, known) = to h in (sum kept, λ w. known), λ h. back (held h.0, h.1 refl))
bank_code_step repo i value false =
    let (sum, held) = with_checksum-valid (Checksum.validate i) value in
    (λ h. (sum h, λ w. absurd (cc)), λ h. held h.0)

bic_step :
    (repo : Repo) (i : Iban) (r : V1Result) (want : Bool)
    → (if want then get_bic repo i r else r).valid ≡ r.valid
bic_step repo i r true = get_bic-valid repo i r
bic_step repo i r false = refl

answer_for-valid :
    (repo : Repo) (value : Bytes) (want_bank_code want_bic : Bool) (p : Result Error Iban)
    → ((answer_for repo value want_bank_code want_bic p).valid ≡ true)
      ↔ ((i : Iban) × (p ≡ ok i) × IsAccepted repo i want_bank_code)
answer_for-valid repo value want_bank_code want_bic (err e) =
    (λ h. absurd (cc), λ h. absurd (unread h.1))
  where
    unread : {i : Iban} → ◌≡◌ {A = Result Error Iban} (err e) (ok i) → ⊥
    unread h = cc
answer_for-valid repo value want_bank_code want_bic (ok i) =
    let (to, back) = bank_code_step repo i value want_bank_code in
    let r : V1Result =
      if want_bank_code
      then validate_bank_code repo i
          (with_checksum (Checksum.validate i) (new_result true [] value))
      else with_checksum (Checksum.validate i) (new_result true [] value) in
    let kept = bic_step repo i r want_bic in
    (
      λ h. (i, refl, to (sym kept ∙ h)),
      λ h. kept ∙ back (subst (λ j. IsAccepted repo j want_bank_code) (same h.1) h.2),
    )
  where
    same : {j : Iban} → ◌≡◌ {A = Result Error Iban} (ok i) (ok j) → j ≡ i
    same h = cc

-- The first version calls an input valid exactly if it parses, its checksum holds and, where the check of
-- the bank code is asked for and the table has the length of the country's bank codes, the BBAN is that
-- long and the repository has its bank code; whether the BIC is asked for or not.
pub validate_v1-valid :
    (repo : Repo) (value : Bytes) (want_bank_code want_bic : Bool)
    → ((validate_v1 repo value want_bank_code want_bic).valid ≡ true) ↔ (
        (i : Iban) × (parse value ≡ ok i)
        × (Checksum.validate i ≡ ok tt)
        × (want_bank_code ≡ true → IsKnownBank repo i (get (country_code_of i) bank_code_lengths)))
unfolding validate_v1
validate_v1-valid repo value want_bank_code want_bic =
    let (to, back) = answer_for-valid repo value want_bank_code want_bic (parse value) in
    (
      λ h. let (i, read, (sum, known)) = to h in (i, read, sum, known),
      λ (i, read, sum, known). back (i, read, (sum, known)),
    )
