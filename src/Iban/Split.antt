-- ===== src/Iban/Split.antt =====
-- The parts of a built IBAN are read back by the accessors.
use iban_pizza.Prelude.{
  ℕ, zero, suc, ◌≤◌, ◌<◌, [], ◌∷◌, ◌++◌, length, take, drop, ◌≡◌, sym, ap, ◌∙◌, arith,
  length-append, append-nil,
}
use iban_pizza.Prelude.Text.{Bytes}
use iban_pizza.Iban.Types.{ok, Field, Iban}
use iban_pizza.Iban.Structure.{extract}
use iban_pizza.Iban.Parse.{normalize, bank_code_of, account_number_of}
use iban_pizza.Iban.Rows.{lookup-IsConsistent, width}
use iban_pizza.Iban.Calculate.{calculate, pad}
use iban_pizza.Iban.Built.{calculate-validate, length-pad, calculate_widths}

take_front : (s t : Bytes) (n : ℕ) → n ≡ length s → take n (s ++ t) ≡ s
take_front [] t n h = ap (λ k. take k t) h
take_front (c ∷ s) t zero h = absurd (omega arith)
take_front (c ∷ s) t (suc n) h = ap (◌∷◌ c) (take_front s t n (omega arith))

drop_front : (s t : Bytes) (n : ℕ) → n ≡ length s → drop n (s ++ t) ≡ t
drop_front [] t n h = ap (λ k. drop k t) h
drop_front (c ∷ s) t zero h = absurd (omega arith)
drop_front (c ∷ s) t (suc n) h = drop_front s t n (omega arith)

take_all : (s : Bytes) (n : ℕ) → n ≡ length s → take n s ≡ s
take_all s n h = ap (take n) (sym (append-nil s)) ∙ take_front s [] n h

extract_in_range :
    (f : Field) (s : Bytes)
    → f.start < f.end
    → f.end ≤ length s
    → extract f s ≡ take (width f) (drop f.start s)
unfolding extract
extract_in_range f s h k = ground arith

-- A field that starts a text, and one that ends it.
extract_front :
    (f : Field) (s t : Bytes)
    → f.start ≡ 0
    → f.start < f.end
    → width f ≡ length s
    → extract f (s ++ t) ≡ s
extract_front f s t zero_start h w =
    extract_in_range f (s ++ t) h (omega (arith, length-append s t))
    ∙ ap (λ k. take (width f) (drop k (s ++ t))) zero_start
    ∙ take_front s t (width f) w

extract_back :
    (f : Field) (s t : Bytes)
    → f.start ≡ length s
    → f.start < f.end
    → width f ≡ length t
    → extract f (s ++ t) ≡ t
extract_back f s t start h w =
    extract_in_range f (s ++ t) h (omega (arith, length-append s t))
    ∙ ap (take (width f)) (drop_front s t f.start start)
    ∙ take_all t (width f) w

-- The bank code and the account number of an IBAN that `Calculate` returns are the ones it was given,
-- normalised and padded with zeros on the left.
pub calculate-parts :
    (code bank account : Bytes) (i : Iban)
    → calculate code bank account ≡ ok i
    → (bank_code_of i ≡ pad (width i.country.bank_code) (normalize bank))
      × (account_number_of i ≡ pad (width i.country.account) (normalize account))
unfolding bank_code_of account_number_of
calculate-parts code bank account i h =
    let c = i.country in
    let (_, _, found, bban) = calculate-validate code bank account i h in
    let good = (lookup-IsConsistent (take 2 i.raw) found).1 in
    let (short, fits, fill) = calculate_widths code bank account i h in
    let b = pad (width c.bank_code) (normalize bank) in
    let a = pad (width c.account) (normalize account) in
    let nb = length-pad (width c.bank_code) (normalize bank) short in
    let na = length-pad (width c.account) (normalize account) fits in
    let (zero_start, next) = good.tiles fill in
    (
      ap (extract c.bank_code) bban
          ∙ extract_front c.bank_code b a zero_start good.bank_code_known (sym nb),
      ap (extract c.account) bban
          ∙ extract_back c.account b a (omega (arith, nb)) good.account_known (sym na),
    )
