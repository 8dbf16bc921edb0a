-- ===== src/Iban/Tests.antt =====
-- Runs of the definitions of package `iban` on concrete texts, and of its theorems.
use iban_pizza.Prelude.{
  ℕ, ◌≢◌, ◌%◌, [], ◌∷◌, ◌++◌, some, ◌≡◌, ◌↔◌, inl, inr, refl, arith, take, drop,
}
use iban_pizza.Prelude.Text.{Bytes, codes, to_upper, trim_space}
use iban_pizza.Iban.Structure.{expand_loop, expand_structure}
use iban_pizza.Iban.Fuel.{expand_loop-fuel}
use iban_pizza.Iban.Types.{ok, err, Country, Iban, checksum, out_of_fuel}
use iban_pizza.Iban.Parse.{
  normalize, lookup, parse, parse_code, formatted, bank_code_of, account_number_of,
}
use iban_pizza.Iban.Checksum.{mod97, validate}
use iban_pizza.Iban.Calculate.{calculate, calculate_code, pad}
use iban_pizza.Iban.Remainder.{mod97-value, rotate, value}
use iban_pizza.Iban.Rows.{lookup-IsConsistent, IsConsistent}
use iban_pizza.Iban.Accept.{parse_iff, Spells}
use iban_pizza.Iban.Printed.{parse-formatted}
use iban_pizza.Iban.Built.{calculate-validate}
use iban_pizza.Iban.Split.{calculate-parts}
use iban_pizza.Iban.Detection.{OneOff, Exchanged, validate-OneOff, validate-Exchanged}

abbrev germany : Country
germany = record {
  code = codes "DE";
  name = codes "Germany";
  length = 22;
  bban = codes "8!n10!n";
  bank_code = record { start = 0; end = 8 };
  branch_code = record { start = 0; end = 0 };
  account = record { start = 8; end = 18 };
  example = codes "DE89370400440532013000";
}

abbrev good : Bytes
good = codes "DE89370400440532013000"

abbrev grouped : Bytes
grouped = codes "de89 3704 0044 0532 0130 00"

-- One digit of `good` replaced, and two of its digits exchanged.
abbrev mistyped : Bytes
mistyped = codes "DE89370400440532013001"

abbrev swapped : Bytes
swapped = codes "DE89374000440532013000"

abbrev german : Bytes → Iban
german s = record { raw = s; country = germany }

read_good : parse good ≡ ok (german good)
unfolding parse_code
read_good = refl

read_grouped : parse grouped ≡ ok (german good)
unfolding parse_code
read_grouped = refl

read_mistyped : parse mistyped ≡ ok (german mistyped)
unfolding parse_code
read_mistyped = refl

read_swapped : parse swapped ≡ ok (german swapped)
unfolding parse_code
read_swapped = refl

valid_good : validate (german good) ≡ ok tt
unfolding validate mod97
valid_good = refl

built_good : calculate (codes " de") (codes "3704 0044") (codes "532013000") ≡ ok (german good)
unfolding calculate_code
built_good = refl

found_germany : lookup (codes "de") ≡ some germany
unfolding parse_code
found_germany = refl

after_same : (u s t : Bytes) → OneOff s t → OneOff (u ++ s) (u ++ t)
after_same [] s t o = o
after_same (c ∷ u) s t o = inr (refl, after_same u s t o)

mistyped-OneOff : OneOff good mistyped
mistyped-OneOff =
    after_same (codes "DE8937040044053201300") (b'0' ∷ []) (b'1' ∷ []) (inl (refl, one_two, refl))
  where
    one_two : ◌≢◌ {A = ℕ} b'0' b'1'
    one_two h = ground (arith, h)

swapped-Exchanged : Exchanged (drop 4 good) (drop 4 swapped)
swapped-Exchanged = inr (refl, inr (refl, inl (refl, refl, zero_four, refl, refl, refl)))
  where
    zero_four : ◌≢◌ {A = ℕ} b'0' b'4'
    zero_four h = ground (arith, h)

calculate-validate_example :
    (validate (german good) ≡ ok tt)
    × (take 2 good ≡ to_upper (trim_space (codes " de")))
    × (lookup (take 2 good) ≡ some germany)
    × (drop 4 good
        ≡ pad 8 (normalize (codes "3704 0044")) ++ pad 10 (normalize (codes "532013000")))
calculate-validate_example =
    calculate-validate (codes " de") (codes "3704 0044") (codes "532013000") (german good)
      built_good

parse_iff_example :
    (parse grouped ≡ ok (german good))
    ↔ ((good ≡ normalize grouped) × Spells (normalize grouped) germany)
parse_iff_example = parse_iff grouped (german good)

validate-OneOff_example : validate (german mistyped) ≡ err checksum
validate-OneOff_example =
    validate-OneOff good mistyped (german good) (german mistyped) read_good read_mistyped
      mistyped-OneOff valid_good

validate-Exchanged_example : validate (german swapped) ≡ err checksum
validate-Exchanged_example =
    validate-Exchanged good swapped (german good) (german swapped) read_good read_swapped refl
      swapped-Exchanged valid_good

mod97-value_example : mod97 good ≡ value (rotate good) 0 % 97
mod97-value_example = mod97-value good (omega arith) refl

calculate-parts_example :
    (bank_code_of (german good) ≡ pad 8 (normalize (codes "3704 0044")))
    × (account_number_of (german good) ≡ pad 10 (normalize (codes "532013000")))
calculate-parts_example =
    calculate-parts (codes " de") (codes "3704 0044") (codes "532013000") (german good) built_good

parse-formatted_example :
    (parse good ≡ ok (german good)) × (parse (formatted (german good)) ≡ ok (german good))
parse-formatted_example = parse-formatted grouped (german good) read_grouped

lookup-IsConsistent_example : (germany.code ≡ to_upper (codes "de")) × IsConsistent germany
lookup-IsConsistent_example = lookup-IsConsistent (codes "de") found_germany

expand_loop-fuel_example :
    (expand_loop 6 6 (codes "2!n1!a") [] ≡ expand_loop 40 6 (codes "2!n1!a") [])
    × ¬ (expand_loop 6 6 (codes "2!n1!a") [] ≡ err out_of_fuel)
    × ¬ (expand_structure (codes "2!n1!a") ≡ err out_of_fuel)
expand_loop-fuel_example = expand_loop-fuel 6 40 6 (codes "2!n1!a") [] (omega arith) (omega arith)
