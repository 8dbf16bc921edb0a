-- ===== src/Iban/Structure.antt =====
-- iban/registry.go: character classes, fields and the expansion of a SWIFT pattern.
use iban_pizza.Prelude.{
  ℕ, zero, suc, ◌+◌, ◌-◌, ◌*◌, Bool, ◌&&◌, ◌||◌, List, [], ◌∷◌, ◌++◌, Option, none, some, ltb, leb,
  ◌==◌, if◌then◌else◌, length, take, drop, replicate, ◌≡◌, refl,
}
use iban_pizza.Prelude.Text.{Bytes, codes}
use iban_pizza.Iban.Types.{
  CharClass, PatternError, Result, ok, err, ◌>>=◌, Field, expected_length, missing_class,
  unknown_class, empty_structure, out_of_fuel,
}

abbrev pub is_digit : ℕ → Bool
is_digit c = leb b'0' c && leb c b'9'

abbrev pub is_upper : ℕ → Bool
is_upper c = leb b'A' c && leb c b'Z'

-- `charClass.accepts`
abbrev pub accepts : CharClass → ℕ → Bool
accepts CharClass.digit ch = is_digit ch
accepts CharClass.upper ch = is_upper ch
accepts CharClass.alnum ch = is_digit ch || is_upper ch

-- `charClass.describe`
pub describe : CharClass → Bytes
describe CharClass.digit = codes "a digit"
describe CharClass.upper = codes "an upper case letter"
describe CharClass.alnum = codes "an alphanumeric character"

-- `Field.known` and `Field.extract`
abbrev pub known : Field → Bool
known f = ltb f.start f.end

unfoldable pub extract : Field → Bytes → Bytes
extract f bban =
    if known f && leb f.end (length bban) then take (f.end - f.start) (drop f.start bban) else []

-- The class that a byte of a pattern names.
unfoldable pub class_of : ℕ → Option CharClass
class_of c =
    if c == b'n'
    then some CharClass.digit
    else if c == b'a'
    then some CharClass.upper
    else if c == b'c'
    then some CharClass.alnum
    else none

-- The number that a run of digits spells, and what follows the run.
unfoldable pub read_number : ℕ → Bytes → ℕ × Bytes
read_number n [] = (n, [])
read_number n (c ∷ s) =
    let rest = read_number (n * 10 + (c - b'0')) s in if is_digit c then rest else (n, c ∷ s)

unfoldable pub skip_mark : Bytes → Bytes
skip_mark [] = []
skip_mark (c ∷ s) = if c == b'!' then s else c ∷ s

-- One round of the loop behind the digits: the classes that it appends, and the rest.
unfoldable pub read_class : ℕ → Bytes → Result PatternError (List CharClass × Bytes)
unfolding class_of
read_class n [] = err missing_class
read_class n (c ∷ s) = elim (class_of c) [
  | none ↦ err (unknown_class c)
  | some cl ↦ ok (replicate n cl, s)
]

unfoldable pub read_group : ℕ → Bytes → Result PatternError (List CharClass × Bytes)
unfolding read_number skip_mark read_class
read_group offset [] = err (expected_length offset)
read_group offset (c ∷ s) =
    if is_digit c
    then (let (n, rest) = read_number 0 (c ∷ s) in read_class n (skip_mark rest))
    else err (expected_length offset)

-- The loop. A round takes at least two bytes, so the length of the pattern is fuel enough; a
-- pattern that outlives its fuel gives an error of its own, which the source does not have.
unfoldable pub expand_loop : ℕ → ℕ → Bytes → List CharClass → Result PatternError (List CharClass)
unfolding read_group
expand_loop fuel total [] out = ok out
expand_loop zero total (c ∷ s) out = err out_of_fuel
expand_loop (suc fuel) total (c ∷ s) out = elim (read_group (total - length (c ∷ s)) (c ∷ s)) [
  | err e ↦ err e
  | ok (classes, rest) ↦ expand_loop fuel total rest (out ++ classes)
]

-- `expandStructure`
unfoldable pub expand_structure : Bytes → Result PatternError (List CharClass)
unfolding expand_loop
expand_structure pattern = do
  out ← expand_loop (length pattern) (length pattern) pattern []
  elim out [ [] ↦ err empty_structure | cl ∷ rest ↦ ok (cl ∷ rest) ]

two_groups :
    expand_structure (codes "2!n1!a")
    ≡ ok (CharClass.digit ∷ CharClass.digit ∷ CharClass.upper ∷ [])
unfolding expand_structure
two_groups = refl

bad_class : expand_structure (codes "2!n1!x") ≡ err (unknown_class b'x')
unfolding expand_structure
bad_class = refl

no_length : expand_structure (codes "2!n!n") ≡ err (expected_length 3)
unfolding expand_structure
no_length = refl
