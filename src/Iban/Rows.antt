-- ===== src/Iban/Rows.antt =====
-- The table of countries is consistent: what the Go test TestRegistryConsistency checks of each row,
-- and what the proofs about parsing and building need of it.
use iban_pizza.Prelude.{
  ◌-◌, ◌+◌, if◌then◌else◌, ℕ, ◌≤◌, ◌<◌, Bool, true, false, ◌&&◌, List, [], ◌∷◌, some, leb, ◌==◌,
  length, all, ◌≡◌, refl, sym, ap, ◌∙◌, arith, &&-both, Bool-cases, inl, inr, ==_iff,
}
use mathlib.Core.Path.{subst}
use iban_pizza.Prelude.Text.{Bytes, bytes_eq, bytes_eq_iff, to_upper}
use iban_pizza.Iban.Types.{
  Field, CharClass, PatternError, Error, Result, ok, err, Country, Iban, bban_length_of,
}
use iban_pizza.Iban.Structure.{is_upper, expand_structure, known}
use iban_pizza.Iban.RegistryData.{registry}
use iban_pizza.Iban.Parse.{min_length, max_length, parse_code, find_row, lookup, parse}
use iban_pizza.Iban.Checksum.{mod97}

-- A pattern of so many characters.
has_size : ℕ → Result PatternError (List CharClass) → Bool
has_size n (err e) = false
has_size n (ok classes) = length classes == n

-- A reading of a row's example: it is of that country, and its checksum holds.
read_matches : Country → Result Error Iban → Bool
unfolding bytes_eq mod97
read_matches c (err e) = false
read_matches c (ok i) = bytes_eq i.country.code c.code && mod97 i.raw == 1

is_sample : Country → Bytes → Bool
is_sample c s = read_matches c (parse s)

two_letters : Bytes → Bool
two_letters code = length code == 2 && all is_upper code

abbrev pub width : Field → ℕ
width f = f.end - f.start

fields_fit : Country → Bool
fields_fit c =
    known c.bank_code
    && leb c.bank_code.end (bban_length_of c)
    && leb c.branch_code.end (bban_length_of c)
    && leb c.account.end (bban_length_of c)
    && known c.account

-- Where the bank code and the account number fill the BBAN, they stand in it one behind the other.
parts_tile : Country → Bool
parts_tile c =
    if width c.bank_code + width c.account == bban_length_of c
    then c.bank_code.start == 0 && c.account.start == c.bank_code.end
    else true

row_ok : Bytes → Country → Bool
row_ok key c =
    bytes_eq key c.code
    && two_letters c.code
    && leb min_length c.length
    && leb c.length max_length
    && has_size (bban_length_of c) (expand_structure c.bban)
    && fields_fit c
    && parts_tile c
    && is_sample c c.example

rows_ok : List (Bytes × Country) → Bool
rows_ok [] = true
rows_ok ((key, c) ∷ rows) = row_ok key c && rows_ok rows

registry_ok : rows_ok registry ≡ true
unfolding rows_ok row_ok two_letters has_size is_sample read_matches parse_code bytes_eq fields_fit
    parts_tile
registry_ok = refl

-- What `row_ok` tests, as a statement about a country.
pub record IsConsistent (c : Country) : Type 0 where
  pub letters : (length c.code ≡ 2) × (all is_upper c.code ≡ true)
  pub bounds : (min_length ≤ c.length) × (c.length ≤ max_length)
  pub pattern :
      (classes : List CharClass) × (expand_structure c.bban ≡ ok classes)
      × (length classes ≡ bban_length_of c)
  pub bank_code_known : c.bank_code.start < c.bank_code.end
  pub bank_code_fits : c.bank_code.end ≤ bban_length_of c
  pub branch_code_fits : c.branch_code.end ≤ bban_length_of c
  pub account_fits : c.account.end ≤ bban_length_of c
  pub account_known : c.account.start < c.account.end
  pub tiles :
      width c.bank_code + width c.account ≡ bban_length_of c
      → (c.bank_code.start ≡ 0) × (c.account.start ≡ c.bank_code.end)
  pub example_reads :
      (i : Iban) × (parse c.example ≡ ok i) × (i.country.code ≡ c.code) × (mod97 i.raw ≡ 1)

has_size_sound :
    (n : ℕ) (r : Result PatternError (List CharClass))
    → has_size n r ≡ true
    → (classes : List CharClass) × (r ≡ ok classes) × (length classes ≡ n)
unfolding has_size
has_size_sound n (err e) h = absurd (cc)
has_size_sound n (ok classes) h = (classes, refl, (==_iff _ n).0 h)

read_sound :
    (c : Country) (r : Result Error Iban)
    → read_matches c r ≡ true
    → (i : Iban) × (r ≡ ok i) × (i.country.code ≡ c.code) × (mod97 i.raw ≡ 1)
unfolding read_matches
read_sound c (err e) h = absurd (cc)
read_sound c (ok i) h =
    let (same, one) = &&-both _ _ h in
    (i, refl, (bytes_eq_iff i.country.code c.code).0 same, (==_iff (mod97 i.raw) 1).0 one)

is_sample_sound :
    (c : Country) (s : Bytes)
    → is_sample c s ≡ true
    → (i : Iban) × (parse s ≡ ok i) × (i.country.code ≡ c.code) × (mod97 i.raw ≡ 1)
unfolding is_sample
is_sample_sound c s h = read_sound c (parse s) h

fields_fit_sound :
    (c : Country)
    → fields_fit c ≡ true
    → (c.bank_code.start < c.bank_code.end)
      × (c.bank_code.end ≤ bban_length_of c)
      × (c.branch_code.end ≤ bban_length_of c)
      × (c.account.end ≤ bban_length_of c)
      × (c.account.start < c.account.end)
unfolding fields_fit
fields_fit_sound c h = ground arith

parts_tile_sound :
    (c : Country)
    → parts_tile c ≡ true
    → width c.bank_code + width c.account ≡ bban_length_of c
    → (c.bank_code.start ≡ 0) × (c.account.start ≡ c.bank_code.end)
unfolding parts_tile
parts_tile_sound c h e = ground arith

row_ok_parts :
    (key : Bytes) (c : Country)
    → row_ok key c ≡ true
    → (bytes_eq key c.code ≡ true)
      × (two_letters c.code ≡ true)
      × (min_length ≤ c.length)
      × (c.length ≤ max_length)
      × (has_size (bban_length_of c) (expand_structure c.bban) ≡ true)
      × (fields_fit c ≡ true)
      × (parts_tile c ≡ true)
      × (is_sample c c.example ≡ true)
unfolding row_ok
row_ok_parts key c h = ground arith

row_ok_sound : (key : Bytes) (c : Country) → row_ok key c ≡ true → (key ≡ c.code) × IsConsistent c
unfolding two_letters
row_ok_sound key c h =
    let (same, letters, low, high, sized, fits, tile, sample) = row_ok_parts key c h in
    let (two, capital) = &&-both (length c.code == 2) (all is_upper c.code) letters in
    let (known_bank, bank, branch, account, known_account) = fields_fit_sound c fits in
    (
      (bytes_eq_iff key c.code).0 same,
      record {
        letters = ((==_iff _ 2).0 two, capital);
        bounds = (low, high);
        pattern = has_size_sound _ _ sized;
        bank_code_known = known_bank;
        bank_code_fits = bank;
        branch_code_fits = branch;
        account_fits = account;
        account_known = known_account;
        tiles = parts_tile_sound c tile;
        example_reads = is_sample_sound c c.example sample;
      },
    )

find_row_here :
    (key k : Bytes) (d c : Country) (rows : List (Bytes × Country))
    → bytes_eq k key ≡ true
    → find_row key ((k, d) ∷ rows) ≡ some c
    → d ≡ c
unfolding find_row
find_row_here key k d c rows here h = ground arith

find_row_sound :
    (key : Bytes) (rows : List (Bytes × Country)) {c : Country}
    → rows_ok rows ≡ true
    → find_row key rows ≡ some c
    → (c.code ≡ key) × IsConsistent c
unfolding find_row rows_ok
find_row_sound key [] r h = cc
find_row_sound key ((k, d) ∷ rows) {c} r h =
    let (row, rest) = &&-both _ _ r in
    elim (Bool-cases (bytes_eq k key)) [
      | inl here ↦
          let (code, fine) = row_ok_sound k d row in
          let same : d ≡ c = find_row_here key k d c rows here h in
          (
            ap (λ (e : Country). e.code) (sym same) ∙ sym code ∙ (bytes_eq_iff k key).0 here,
            subst IsConsistent same fine,
          )
      | inr later ↦ find_row_sound key rows rest (rw later at h)
    ]

-- Every country that `Lookup` returns has the code that was asked for, in capitals, and a consistent
-- row: two letters, a length of 15 to 34, a pattern of the length of the BBAN, known bank code and
-- account fields inside it, that start at 0 and follow each other where they fill the BBAN, and an
-- example that parses as of that country with remainder 1.
pub lookup-IsConsistent :
    (code : Bytes) {c : Country} → lookup code ≡ some c → (c.code ≡ to_upper code) × IsConsistent c
unfolding lookup
lookup-IsConsistent code h = find_row_sound (to_upper code) registry registry_ok h
