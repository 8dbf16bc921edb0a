-- ===== src/Iban/Parse.antt =====
-- iban/iban.go: `Normalize`, `Lookup`, `Parse`, `checkStructure` and the accessors of an IBAN.
use iban_pizza.Prelude.{
  ℕ, ◌+◌, Bool, not, ◌||◌, List, [], ◌∷◌, ◌++◌, Option, none, some, ltb, ◌==◌, if◌then◌else◌,
  length, take, drop, get_or, ◌≡◌, refl,
}
use iban_pizza.Prelude.Text.{Bytes, codes, bytes_eq, is_empty, upper, to_upper}
use iban_pizza.Iban.Types.{
  CharClass, Error, Result, ok, err, ◌>>=◌, ◌>>◌, refuse, Country, Iban, too_short, too_long,
  country_code, check_digits, unknown_country, wrong_length, not_alnum, bban_length, wrong_class,
  bad_registry,
}
use iban_pizza.Iban.Structure.{is_digit, is_upper, accepts, expand_structure, extract}
use iban_pizza.Iban.RegistryData.{registry}

abbrev pub max_length : ℕ
max_length = 34

abbrev pub min_length : ℕ
min_length = 15

-- A separator that `Normalize` drops: space, tab, hyphen.
unfoldable pub is_separator : ℕ → Bool
is_separator c = c == 32 || c == 9 || c == b'-'

unfoldable pub normalize : Bytes → Bytes
unfolding is_separator upper
normalize [] = []
normalize (c ∷ s) = let rest = normalize s in if is_separator c then rest else upper c ∷ rest

-- The row of a map literal under a key.
unfoldable pub find_row : Bytes → List (Bytes × Country) → Option Country
unfolding bytes_eq
find_row key [] = none
find_row key ((k, c) ∷ rows) = if bytes_eq k key then some c else find_row key rows

-- `Lookup`
unfoldable pub lookup : Bytes → Option Country
lookup code = find_row (to_upper code) registry

-- The loop over a BBAN of which only the length is known; `i` counts from zero.
unfoldable pub check_alnum : ℕ → Bytes → Result Error (Unit {0})
check_alnum i [] = ok tt
check_alnum i (ch ∷ s) =
    let rest = check_alnum (i + 1) s in
    if accepts CharClass.alnum ch then rest else err (not_alnum (i + 5))

-- The loop over a BBAN and its classes, which are of one length.
unfoldable pub check_classes : Bytes → ℕ → List CharClass → Bytes → Result Error (Unit {0})
check_classes code i (cl ∷ classes) (ch ∷ s) =
    let rest = check_classes code (i + 1) classes s in
    if accepts cl ch then rest else err (wrong_class (i + 5) code cl)
check_classes code i _ _ = ok tt

unfoldable pub check_expanded : Country → List CharClass → Bytes → Result Error (Unit {0})
check_expanded c classes bban =
    if not (length classes == length bban)
    then err (bban_length c.code (length classes) (length bban))
    else check_classes c.code 0 classes bban

-- `checkStructure`
unfoldable pub check_structure : Country → Bytes → Result Error (Unit {0})
check_structure c bban =
    if is_empty c.bban then check_alnum 0 bban else elim (expand_structure c.bban) [
      | err e ↦ err (bad_registry c.code e)
      | ok classes ↦ check_expanded c classes bban
    ]

unfoldable pub lookup_country : Bytes → Result Error Country
lookup_country cc = elim (lookup cc) [ none ↦ err (unknown_country cc) | some c ↦ ok c ]

-- `Parse` behind its first line: the text is normalised.
unfoldable pub parse_normal : Bytes → Result Error Iban
parse_normal s = do
  refuse (ltb (length s) 4) too_short
  refuse (ltb max_length (length s)) too_long
  let cc = take 2 s
  refuse (not (is_upper (get_or cc 0 0)) || not (is_upper (get_or cc 1 0))) country_code
  refuse (not (is_digit (get_or s 2 0)) || not (is_digit (get_or s 3 0))) check_digits
  country ← lookup_country cc
  refuse (not (length s == country.length)) (wrong_length cc country.length (length s))
  check_structure country (drop 4 s)
  ok (record { raw = s; country = country })

-- `Parse`
unfoldable pub parse : Bytes → Result Error Iban
parse s = parse_normal (normalize s)

-- All that `parse` computes with, for the tests.
unfoldable pub parse_code : Unit {0}
unfolding normalize find_row to_upper registry lookup lookup_country check_alnum check_classes
    check_expanded expand_structure check_structure parse_normal parse
parse_code = tt

-- The accessors.
abbrev pub bban_of : Iban → Bytes
bban_of i = drop 4 i.raw

abbrev pub country_code_of : Iban → Bytes
country_code_of i = take 2 i.raw

abbrev pub check_digits_of : Iban → Bytes
check_digits_of i = take 2 (drop 2 i.raw)

unfoldable pub bank_code_of : Iban → Bytes
unfolding extract
bank_code_of i = extract i.country.bank_code (bban_of i)

unfoldable pub branch_code_of : Iban → Bytes
unfolding extract
branch_code_of i = extract i.country.branch_code (bban_of i)

unfoldable pub account_number_of : Iban → Bytes
unfolding extract
account_number_of i = extract i.country.account (bban_of i)

-- The loop of `Formatted`: groups of four, a space before each but the first. A round takes a byte
-- at least, so the length of the text is fuel enough.
unfoldable pub groups : ℕ → Bytes → Bytes
groups ℕ.zero s = []
groups (ℕ.suc fuel) [] = []
groups (ℕ.suc fuel) (c ∷ s) = 32 ∷ take 4 (c ∷ s) ++ groups fuel (drop 4 (c ∷ s))

unfoldable pub formatted : Iban → Bytes
unfolding groups
formatted i = take 4 i.raw ++ groups (length i.raw) (drop 4 i.raw)

messy : normalize (codes "de89 3704-0044") ≡ codes "DE8937040044"
unfolding normalize
messy = refl

no_country : parse (codes "XX89 3704 0044 0532 0130 00") ≡ err (unknown_country (codes "XX"))
unfolding parse_code
no_country = refl
