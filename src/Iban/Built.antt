-- ===== src/Iban/Built.antt =====
-- What `calculate` builds: an IBAN with the right check digits, made of the parts it was given.
use iban_pizza.Prelude.{
  some_injective, ℕ, ◌+◌, ◌-◌, ◌/◌, ◌%◌, ◌≤◌, ◌<◌, true, [], ◌∷◌, ◌++◌, length, take, drop, all,
  replicate, ◌≡◌, refl, sym, ap, ◌∙◌, arith, length-append, all-append, subst, some,
  length-replicate,
}
use mathlib.Core.Path.{ap₂}
use iban_pizza.Prelude.Text.{Bytes, to_upper, upper, trim_space}
use iban_pizza.Iban.Types.{bind_passed, ok, Field, Country, Iban, bban_length_of}
use iban_pizza.Iban.Structure.{is_upper}
use iban_pizza.Iban.Checksum.{mod97, validate}
use iban_pizza.Iban.Parse.{parse, normalize, lookup, lookup_country}
use iban_pizza.Iban.Normal.{is_normal, normalize-all, normalize_of_all, normal_replicate}
use iban_pizza.Iban.Accept.{parse_iff, parse_bounds}
use iban_pizza.Iban.Rows.{IsConsistent, lookup-IsConsistent, width}
use iban_pizza.Iban.Remainder.{is_alnum, validate_holds}
use iban_pizza.Iban.Calculate.{place, pad, pad_to, check_number, candidate, assemble, calculate}
use iban_pizza.Iban.Complement.{check_digits_right, mod97-lt}

pub length-pad : (n : ℕ) (s : Bytes) → length s ≤ n → length (pad n s) ≡ n
length-pad n s h = omega (
  arith,
  length-append (replicate (n - length s) b'0') s,
  length-replicate {A = ℕ} (n - length s) b'0',
)

-- What a successful `padTo` did, where the width is known.
pad_to_passed :
    (s : Bytes) (f : Field) (t : Bytes)
    → f.start < f.end
    → pad_to s f ≡ ok t
    → (t ≡ pad (width f) s) × (length s ≤ width f)
unfolding pad_to
pad_to_passed s f t h e = ground arith

-- What the tests of `Calculate` leave behind.
place_passed :
    (cc : Bytes) (c : Country) (bank account : Bytes) (i : Iban)
    → c.account.start < c.account.end
    → place cc c bank account ≡ ok i
    → (length account ≤ width c.account)
      × (length (bank ++ pad (width c.account) account) ≡ bban_length_of c)
      × (parse (candidate cc (bank ++ pad (width c.account) account)) ≡ ok i)
unfolding place
place_passed cc c bank account i known_account h = ground arith

abbrev parts : Country → Bytes → Bytes → Bytes
parts c bank account = pad (width c.bank_code) bank ++ pad (width c.account) account

assemble_passed :
    (cc : Bytes) (c : Country) (bank account : Bytes) (i : Iban)
    → IsConsistent c
    → assemble cc c bank account ≡ ok i
    → (length bank ≤ width c.bank_code)
      × (length account ≤ width c.account)
      × (width c.bank_code + width c.account ≡ bban_length_of c)
      × (parse (candidate cc (parts c bank account)) ≡ ok i)
unfolding assemble
assemble_passed cc c bank account i good h =
    let (bank', padded, placed) =
      bind_passed (pad_to bank c.bank_code) (λ b. place cc c b account) h in
    let (exact, short) = pad_to_passed bank c.bank_code bank' good.bank_code_known padded in
    let (fits, total, read) = place_passed cc c bank' account i good.account_known placed in
    let same = length-append bank' (pad (width c.account) account) in
    let front = length-pad (width c.bank_code) bank short in
    let back = length-pad (width c.account) account fits in
    (
      short,
      fits,
      omega (arith, same, front, back, total, ap length exact),
      subst (λ b. parse (candidate cc (b ++ pad (width c.account) account)) ≡ ok i) exact read,
    )

calculate_passed :
    (code bank account : Bytes) (i : Iban)
    → calculate code bank account ≡ ok i
    → (c : Country) × (lookup (to_upper (trim_space code)) ≡ some c)
      × (assemble (to_upper (trim_space code)) c (normalize bank) (normalize account) ≡ ok i)
unfolding calculate lookup_country
calculate_passed code bank account i h = ground arith

upper-upper : (c : ℕ) → upper (upper c) ≡ upper c
unfolding upper
upper-upper c = ground arith

to_upper_idem : (s : Bytes) → to_upper (to_upper s) ≡ to_upper s
unfolding to_upper
to_upper_idem [] = refl
to_upper_idem (c ∷ s) = ap₂ ◌∷◌ (upper-upper c) (to_upper_idem s)

pad-normal : (n : ℕ) (s : Bytes) → all is_normal (pad n (normalize s)) ≡ true
pad-normal n s =
    all-append is_normal (replicate (n - length (normalize s)) b'0') (normalize s)
    ∙ rw (normal_replicate (n - length (normalize s)), normalize-all s)

parts-normal :
    (c : Country) (bank account : Bytes)
    → all is_normal (parts c (normalize bank) (normalize account)) ≡ true
parts-normal c bank account =
    all-append is_normal (pad (width c.bank_code) (normalize bank))
      (pad (width c.account) (normalize account))
    ∙ rw (pad-normal (width c.bank_code) bank, pad-normal (width c.account) account)

head_normal :
    (a b n : ℕ)
    → is_upper a ≡ true
    → is_upper b ≡ true
    → n < 100
    → (is_normal a ≡ true)
      × (is_normal b ≡ true)
      × (is_normal (b'0' + n / 10) ≡ true)
      × (is_normal (b'0' + n % 10) ≡ true)
unfolding is_normal
head_normal a b n ha hb small = ground arith

-- Of a candidate that `Parse` accepts: the text is the candidate, and its checksum holds.
candidate_right :
    (a b : ℕ) (bban : Bytes) (i : Iban)
    → is_upper a ≡ true
    → is_upper b ≡ true
    → all is_normal bban ≡ true
    → parse (candidate (a ∷ b ∷ []) bban) ≡ ok i
    → (i.raw ≡ candidate (a ∷ b ∷ []) bban) × (mod97 i.raw ≡ 1)
candidate_right a b bban i ha hb hn read =
    let n = check_number (a ∷ b ∷ []) bban in
    let small : n < 100 = omega (arith, mod97-lt (a ∷ b ∷ b'0' ∷ b'0' ∷ bban)) in
    let (na, nb, nx, ny) = head_normal a b n ha hb small in
    let raw : i.raw ≡ candidate (a ∷ b ∷ []) bban =
      ((parse_iff (candidate (a ∷ b ∷ []) bban) i).0 read).0
      ∙ normalize_of_all (candidate (a ∷ b ∷ []) bban) (rw (na, nb, nx, ny) hn) in
    let alnum = (parse_bounds (candidate (a ∷ b ∷ []) bban) i read).2 in
    (
      raw,
      ap mod97 raw
          ∙ check_digits_right a b bban n refl small (subst (λ t. all is_alnum t ≡ true) raw alnum),
    )

two_of_length :
    (s : Bytes)
    → length s ≡ 2
    → all is_upper s ≡ true
    → (a : ℕ) × (b : ℕ) × (s ≡ a ∷ b ∷ []) × (is_upper a ≡ true) × (is_upper b ≡ true)
two_of_length (a ∷ b ∷ []) h u = (a, b, refl, ground arith, ground arith)
two_of_length s h u = absurd (omega arith)

-- What a successful `Calculate` went through: the country it found, the widths that its parts fit and
-- fill, the text that it gave to `Parse`, and the country of the result.
calculate_trace :
    (code bank account : Bytes) (i : Iban)
    → calculate code bank account ≡ ok i
    → (lookup (to_upper (trim_space code)) ≡ some i.country)
      × (take 2 i.raw ≡ to_upper (trim_space code))
      × (drop 4 i.raw ≡ parts i.country (normalize bank) (normalize account))
      × (mod97 i.raw ≡ 1)
      × (length (normalize bank) ≤ width i.country.bank_code)
      × (length (normalize account) ≤ width i.country.account)
      × (width i.country.bank_code + width i.country.account ≡ bban_length_of i.country)
calculate_trace code bank account i h =
    let (c, found, assembled) = calculate_passed code bank account i h in
    let cc = to_upper (trim_space code) in
    let (code_eq, good) = lookup-IsConsistent cc found in
    let cc_eq : c.code ≡ cc = code_eq ∙ to_upper_idem (trim_space code) in
    let (a, b, spelt, ha, hb) = two_of_length c.code good.letters.0 good.letters.1 in
    let (short, fits, fill, read) =
      assemble_passed cc c (normalize bank) (normalize account) i good assembled in
    let bban = parts c (normalize bank) (normalize account) in
    let cc_two : cc ≡ a ∷ b ∷ [] = sym cc_eq ∙ spelt in
    let (raw, right) =
      candidate_right a b bban i ha hb (parts-normal c bank account)
        (subst (λ t. parse (candidate t bban) ≡ ok i) cc_two read) in
    let front : take 2 i.raw ≡ cc = ap (take 2) raw ∙ sym cc_two in
    let issued = (parse_iff (candidate cc bban) i).0 read in
    let found' : lookup (take 2 i.raw) ≡ some i.country =
      ap (λ t. lookup (take 2 t)) issued.0 ∙ issued.1.issued in
    let same : c ≡ i.country =
      some_injective c i.country (sym found ∙ ap lookup (sym front) ∙ found') in
    (
      ap lookup (sym front) ∙ found',
      front,
      ap (drop 4) raw ∙ ap (λ (k : Country). parts k (normalize bank) (normalize account)) same,
      right,
      subst (λ (k : Country). length (normalize bank) ≤ width k.bank_code) same short,
      subst (λ (k : Country). length (normalize account) ≤ width k.account) same fits,
      subst (λ (k : Country). width k.bank_code + width k.account ≡ bban_length_of k) same fill,
    )

pub calculate_widths :
    (code bank account : Bytes) (i : Iban)
    → calculate code bank account ≡ ok i
    → (length (normalize bank) ≤ width i.country.bank_code)
      × (length (normalize account) ≤ width i.country.account)
      × (width i.country.bank_code + width i.country.account ≡ bban_length_of i.country)
calculate_widths code bank account i h =
    let (_, _, _, _, short, fits, fill) = calculate_trace code bank account i h in
    (short, fits, fill)

-- An IBAN that `Calculate` returns passes the checksum; it is of the country that was asked for, and
-- its BBAN is the bank code followed by the account number, both normalised and padded with zeros to
-- the widths of the table, which fill the BBAN.
pub calculate-validate :
    (code bank account : Bytes) (i : Iban)
    → calculate code bank account ≡ ok i
    → (validate i ≡ ok tt)
      × (take 2 i.raw ≡ to_upper (trim_space code))
      × (lookup (take 2 i.raw) ≡ some i.country)
      × (drop 4 i.raw
          ≡ pad (width i.country.bank_code) (normalize bank)
            ++ pad (width i.country.account) (normalize account))
calculate-validate code bank account i h =
    let (found, front, back, right, _, _, _) = calculate_trace code bank account i h in
    (validate_holds i right, front, ap lookup front ∙ found, back)
