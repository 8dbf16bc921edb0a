-- ===== src/BankData/Reads.antt =====
-- What `Search` and `FindByBIC` return.
use iban_pizza.Prelude.{
  ℕ, zero, suc, ◌≤◌, Bool, true, false, ◌&&◌, List, [], ◌∷◌, ◌≡◌, refl, sym, ap, ◌∙◌, arith,
  Bool-cases, inl, inr, all, take, length, &&-both, length-take, subst,
}
use mathlib.Core.List.{Perm}
use iban_pizza.Prelude.Text.{Bytes, bytes_eq_iff, bytes_lt}
use iban_pizza.Prelude.Sort.{sort, insert, Sorted, sort-Sorted, sort-perm}
use iban_pizza.BankData.Types.{Bank, Query, clamp_limit, max_limit, bank_before}
use iban_pizza.BankData.Store.{Store, values, keep, matches_query, search_banks}

bytes_lt_asym : (s t : Bytes) → bytes_lt s t ≡ true → bytes_lt t s ≡ false
unfolding bytes_lt
bytes_lt_asym [] [] h = refl
bytes_lt_asym [] (b ∷ t) h = refl
bytes_lt_asym (a ∷ s) [] h = absurd (cc)
bytes_lt_asym (a ∷ s) (b ∷ t) h = ground (arith, bytes_lt_asym s t)

bank_before_asym : (a b : Bank) → bank_before a b ≡ true → bank_before b a ≡ false
unfolding bank_before
bank_before_asym a b h = ground (
  arith,
  bytes_eq_iff a.country b.country,
  bytes_eq_iff b.country a.country,
  bytes_lt_asym a.country b.country,
  bytes_lt_asym a.bank_code b.bank_code,
)

keep-all {ℓ} : {A : Type ℓ} (p : A → Bool) (l : List A) → all p (keep p l) ≡ true
unfolding keep
keep-all p [] = refl
keep-all p (a ∷ l) = elim (Bool-cases (p a)) [
  | inl good ↦ rw (good, good, keep-all p l)
  | inr bad ↦ rw bad (keep-all p l)
]

take-all {ℓ} :
    {A : Type ℓ} (p : A → Bool) (n : ℕ) (l : List A) → all p l ≡ true → all p (take n l) ≡ true
take-all p zero l h = refl
take-all p (suc n) [] h = refl
take-all p (suc n) (a ∷ l) h =
    let (ha, hl) = &&-both (p a) (all p l) h in rw (ha, take-all p n l hl)

insert-all {ℓ} :
    {A : Type ℓ} (less : A → A → Bool) (p : A → Bool) (a : A) (l : List A)
    → all p (insert less a l) ≡ (p a && all p l)
unfolding insert
insert-all less p a [] = refl
insert-all less p a (b ∷ l) = ground (arith, insert-all less p a l)

sort-all {ℓ} :
    {A : Type ℓ} (less : A → A → Bool) (p : A → Bool) (l : List A) → all p (sort less l) ≡ all p l
unfolding sort
sort-all less p [] = refl
sort-all less p (a ∷ l) = insert-all less p a (sort less l) ∙ rw (sort-all less p l)

take-Sorted {ℓ} :
    {A : Type ℓ} (less : A → A → Bool) (n : ℕ) (l : List A) → Sorted less l → Sorted less (take n l)
take-Sorted less zero l s = tt
take-Sorted less (suc n) [] s = tt
take-Sorted less (suc zero) (a ∷ l) s = tt
take-Sorted less (suc (suc n)) (a ∷ []) s = tt
take-Sorted less (suc (suc n)) (a ∷ b ∷ l) s = (s.0, take-Sorted less (suc n) (b ∷ l) s.1)

take_of_length-le {ℓ} : {A : Type ℓ} (n : ℕ) (l : List A) → length l ≤ n → take n l ≡ l
take_of_length-le zero [] h = refl
take_of_length-le zero (a ∷ l) h = absurd (omega arith)
take_of_length-le (suc n) [] h = refl
take_of_length-le (suc n) (a ∷ l) h = ap (◌∷◌ a) (take_of_length-le n l (omega arith))

length-insert {ℓ} :
    {A : Type ℓ} (less : A → A → Bool) (a : A) (l : List A)
    → length (insert less a l) ≡ suc (length l)
unfolding insert
length-insert less a [] = refl
length-insert less a (b ∷ l) = ground (arith, length-insert less a l)

length-sort {ℓ} : {A : Type ℓ} (less : A → A → Bool) (l : List A) → length (sort less l) ≡ length l
unfolding sort
length-sort less [] = refl
length-sort less (a ∷ l) = length-insert less a (sort less l) ∙ ap suc (length-sort less l)

clamp_limit-le : (q : Query) → clamp_limit q ≤ max_limit
unfolding clamp_limit
clamp_limit-le q = ground arith

-- However the lower case of letters is defined, `Search` returns at most the clamped limit of banks, never more than a thousand; each matches the
-- query, and they stand in order.
pub search_banks_sound :
    (to_lower : Bytes → Bytes) (s : Store) (q : Query)
    → (length (search_banks to_lower s q) ≤ clamp_limit q)
      × (length (search_banks to_lower s q) ≤ max_limit)
      × (all (matches_query to_lower q) (search_banks to_lower s q) ≡ true)
      × Sorted bank_before (search_banks to_lower s q)
unfolding search_banks
search_banks_sound to_lower s q =
    let found = sort bank_before (keep (matches_query to_lower q) (values s.by_key)) in
    (
      omega (arith, length-take (clamp_limit q) found),
      omega (arith, length-take (clamp_limit q) found, clamp_limit-le q),
      take-all (matches_query to_lower q) (clamp_limit q) found (
          sort-all bank_before (matches_query to_lower q)
            (keep (matches_query to_lower q) (values s.by_key))
          ∙ keep-all (matches_query to_lower q) (values s.by_key)),
      take-Sorted bank_before (clamp_limit q) found (
          sort-Sorted bank_before bank_before_asym
            (keep (matches_query to_lower q) (values s.by_key))),
    )

-- Where no more banks match than the limit allows, `Search` returns every one of them, as often as it
-- is stored.
pub search_banks_complete :
    (to_lower : Bytes → Bytes) (s : Store) (q : Query)
    → length (keep (matches_query to_lower q) (values s.by_key)) ≤ clamp_limit q
    → Perm (search_banks to_lower s q) (keep (matches_query to_lower q) (values s.by_key))
unfolding search_banks
search_banks_complete to_lower s q few =
    let matching = keep (matches_query to_lower q) (values s.by_key) in
    subst (λ l. Perm l matching)
      (sym (
        take_of_length-le (clamp_limit q) (sort bank_before matching)
          (subst (λ n. n ≤ clamp_limit q) (sym (length-sort bank_before matching)) few)))
      (sort-perm bank_before matching)
