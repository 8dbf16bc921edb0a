-- ===== src/Api/Verdicts.antt =====
-- When the two versions call an IBAN valid.
use iban_pizza.Prelude.{
  Bool, true, false, ◌&&◌, Option, none, some, ◌≡◌, ◌↔◌, ◌⊎◌, refl, subst, arith, Bool-cases, inl,
  inr,
}
use iban_pizza.Sepa.Register.{Registry}
use iban_pizza.Iban.Types.{Error}
use iban_pizza.Api.V2.{answer_for, checks_of, is_ok, validate_v2}
use iban_pizza.Prelude.Text.{Bytes, is_empty}
use iban_pizza.Iban.Types.{Result, ok, err, Iban}
use iban_pizza.Iban.Parse.{parse, bank_code_of, account_number_of, country_code_of}
use iban_pizza.CheckDigit.Validate.{Verdict, AccountError, valid, invalid, unchecked}
use iban_pizza.BankData.Types.{Bank}
use iban_pizza.Api.Repo.{no_record, failed, RepoError, Repo, no_record}
use iban_pizza.Api.V2.{
  found_bank, validate_v2, all_checks_pass, lookup_bank, verdict_check, has_method, check_account,
  have_country, key_for, failed_check,
}
use iban_pizza.Iban.Checksum as Checksum
use iban_pizza.CheckDigit.Validate as Account

-- A bank code that a covered country's directory does not have.
pub record IsUnknownBank (repo : Repo) (i : Iban) : Type 0 where
  pub placed : is_empty (bank_code_of i) ≡ false
  pub missing : repo.find_bank (key_for i) ≡ err no_record
  pub covered : have_country (country_code_of i) repo.read_stats ≡ true

-- An account number that the confirmed method of its bank refutes.
pub record IsWrongAccount (repo : Repo) (i : Iban) : Type 0 where
  pub placed : is_empty (bank_code_of i) ≡ false
  pub bank : Bank
  pub found : repo.find_bank (key_for i) ≡ ok bank
  pub methodical : has_method bank (account_number_of i) ≡ true
  pub refuted : Account.validate bank.check_algo (account_number_of i) ≡ (invalid, none)

verdict_check-failed :
    (algo account : Bytes) (r : Verdict × Option AccountError)
    → (failed_check (verdict_check algo account r) ≡ true) ↔ (r ≡ (invalid, none))
verdict_check-failed algo account (v, some e) = ground arith
verdict_check-failed algo account (valid, none) = ground arith
verdict_check-failed algo account (invalid, none) = ground arith
verdict_check-failed algo account (unchecked, none) = ground arith

check_account-failed :
    (bank : Bank) (account : Bytes)
    → (failed_check (check_account bank account) ≡ true) ↔ (
        (has_method bank account ≡ true)
        × (Account.validate bank.check_algo account ≡ (invalid, none)))
unfolding check_account
check_account-failed bank account =
    ground (
      arith,
      verdict_check-failed bank.check_algo account (Account.validate bank.check_algo account),
    )

unknown-fails :
    (repo : Repo) (i : Iban) → IsUnknownBank repo i → all_checks_pass (lookup_bank repo i).0 ≡ false
unfolding lookup_bank all_checks_pass
unknown-fails repo i u = rw (u.placed, u.missing, u.covered)

wrong-fails :
    (repo : Repo) (i : Iban)
    → IsWrongAccount repo i
    → all_checks_pass (lookup_bank repo i).0 ≡ false
unfolding lookup_bank all_checks_pass
wrong-fails repo i w = rw (
  w.placed,
  w.found,
  (check_account-failed w.bank (account_number_of i)).1 (w.methodical, w.refuted),
)

found_bank-refused :
    (repo : Repo) (i : Iban) (f : Result RepoError Bank)
    → is_empty (bank_code_of i) ≡ false
    → repo.find_bank (key_for i) ≡ f
    → all_checks_pass
        (found_bank repo.read_stats (country_code_of i) (bank_code_of i) (account_number_of i) f).0
      ≡ false
    → IsUnknownBank repo i ⊎ IsWrongAccount repo i
unfolding all_checks_pass
found_bank-refused repo i (err failed) placed e h = absurd (cc)
found_bank-refused repo i (err no_record) placed e h =
    elim (Bool-cases (have_country (country_code_of i) repo.read_stats)) [
      | inl covered ↦ inl (record { placed = placed; missing = e; covered = covered })
      | inr bare ↦ absurd (open_country bare)
    ]
  where
    open_country : have_country (country_code_of i) repo.read_stats ≡ false → ⊥
    open_country bare = ground (arith, h, bare)
found_bank-refused repo i (ok bank) placed e h =
    elim (Bool-cases (failed_check (check_account bank (account_number_of i)))) [
      | inl wrong ↦
          let (methodical, refuted) = (check_account-failed bank (account_number_of i)).0 wrong in
          inr (record {
            placed = placed;
            bank = bank;
            found = e;
            methodical = methodical;
            refuted = refuted;
          })
      | inr fine ↦ absurd (no_fault fine)
    ]
  where
    no_fault : failed_check (check_account bank (account_number_of i)) ≡ false → ⊥
    no_fault fine = ground (arith, h, fine)

lookup_bank-refused :
    (repo : Repo) (i : Iban)
    → all_checks_pass (lookup_bank repo i).0 ≡ false
    → IsUnknownBank repo i ⊎ IsWrongAccount repo i
unfolding lookup_bank all_checks_pass
lookup_bank-refused repo i h = elim (Bool-cases (is_empty (bank_code_of i))) [
  | inl nowhere ↦ absurd (unplaced nowhere)
  | inr placed ↦ found_bank-refused repo i (repo.find_bank (key_for i)) placed refl (rw placed at h)
]
  where
    unplaced : is_empty (bank_code_of i) ≡ true → ⊥
    unplaced nowhere = ground (arith, h, nowhere)

lookup_bank-passes :
    (repo : Repo) (i : Iban)
    → (all_checks_pass (lookup_bank repo i).0 ≡ true)
      ↔ ((IsUnknownBank repo i → ⊥) × (IsWrongAccount repo i → ⊥))
lookup_bank-passes repo i = (
  λ h. (λ u. contrary h (unknown-fails repo i u), λ w. contrary h (wrong-fails repo i w)),
  λ clear. elim (Bool-cases (all_checks_pass (lookup_bank repo i).0)) [
    | inl passes ↦ passes
    | inr fails ↦
        absurd (elim (lookup_bank-refused repo i fails) [ inl u ↦ clear.0 u | inr w ↦ clear.1 w ])
  ],
)
  where
    contrary : {b : Bool} → b ≡ true → b ≡ false → ⊥
    contrary held missed = ground (arith, held, missed)

is_ok_iff : (v : Result Error (Unit {0})) → (is_ok v ≡ true) ↔ (v ≡ ok tt)
is_ok_iff (err e) = ground arith
is_ok_iff (ok tt) = ground arith

checks_of-passes :
    (repo : Repo) (i : Iban)
    → ((all_checks_pass (checks_of repo i) && is_ok (Checksum.validate i)) ≡ true)
      ↔ ((Checksum.validate i ≡ ok tt) × (all_checks_pass (lookup_bank repo i).0 ≡ true))
unfolding checks_of all_checks_pass
checks_of-passes repo i = ground (arith, is_ok_iff (Checksum.validate i))

abbrev IsClear : Repo → Iban → Type 0
IsClear repo i =
    (Checksum.validate i ≡ ok tt) × (IsUnknownBank repo i → ⊥) × (IsWrongAccount repo i → ⊥)

parsed-IsClear :
    (repo : Repo) (i : Iban)
    → ((all_checks_pass (checks_of repo i) && is_ok (Checksum.validate i)) ≡ true) ↔ IsClear repo i
parsed-IsClear repo i =
    let (sums, back) = checks_of-passes repo i in
    let (clear, passes) = lookup_bank-passes repo i in
    (
      λ h. let (sum, bank) = sums h in let (known, right) = clear bank in (sum, known, right),
      λ c. back (c.0, passes (c.1, c.2)),
    )

answer_for-valid :
    (repo : Repo) (schemes : Option Registry) (value : Bytes) (p : Result Error Iban)
    → ((answer_for repo schemes value p).valid ≡ true) ↔ ((i : Iban) × (p ≡ ok i) × IsClear repo i)
answer_for-valid repo schemes value (err e) = (λ h. absurd (cc), λ h. absurd (unread h.1))
  where
    unread : {i : Iban} → ◌≡◌ {A = Result Error Iban} (err e) (ok i) → ⊥
    unread h = cc
answer_for-valid repo schemes value (ok i) =
    let (to, back) = parsed-IsClear repo i in
    (λ h. (i, refl, to h), λ h. back (subst (IsClear repo) (same h.1) h.2))
  where
    same : {j : Iban} → ◌≡◌ {A = Result Error Iban} (ok i) (ok j) → j ≡ i
    same h = cc

-- The second version calls an input valid exactly if it parses, its checksum holds, its bank code is not
-- one that the directory of a covered country lacks, and its account number is not one that the confirmed
-- method of its bank refutes.
pub validate_v2-valid :
    (repo : Repo) (schemes : Option Registry) (value : Bytes)
    → ((validate_v2 repo schemes value).valid ≡ true) ↔ (
        (i : Iban) × (parse value ≡ ok i)
        × (Checksum.validate i ≡ ok tt)
        × (IsUnknownBank repo i → ⊥)
        × (IsWrongAccount repo i → ⊥))
unfolding validate_v2
validate_v2-valid repo schemes value =
    let (to, back) = answer_for-valid repo schemes value (parse value) in
    (
      λ h. let (i, read, (sum, known, right)) = to h in (i, read, sum, known, right),
      λ (i, read, sum, known, right). back (i, read, (sum, known, right)),
    )
