-- ===== src/Iban/Fuel.antt =====
-- That the loop of `expandStructure` comes to its end.
use iban_pizza.Prelude.{
  ℕ, zero, suc, ◌+◌, ◌-◌, ◌*◌, ◌≤◌, List, [], ◌∷◌, ◌++◌, length, ◌≡◌, refl, arith, Bool-cases,
  Option-cases, inl, inr, Bool, true, false, if◌then◌else◌, ap, sym, ◌∙◌,
}
use iban_pizza.Prelude.Text.{Bytes}
use iban_pizza.Iban.Types.{
  CharClass, PatternError, expected_length, missing_class, unknown_class, empty_structure,
  out_of_fuel, Result, ok, err, ◌>>=◌,
}
use iban_pizza.Iban.Structure.{
  is_digit, class_of, read_number, skip_mark, read_class, read_group, expand_loop, expand_structure,
}

length-read_number : (n : ℕ) (s : Bytes) → length (read_number n s).1 ≤ length s
unfolding read_number
length-read_number n [] = omega arith
length-read_number n (c ∷ s) = ground (arith, length-read_number (n * 10 + (c - b'0')) s)

length-skip_mark : (s : Bytes) → length (skip_mark s) ≤ length s
unfolding skip_mark
length-skip_mark [] = omega arith
length-skip_mark (c ∷ s) = ground arith

-- What is left of a result.
abbrev left_of : Result PatternError (List CharClass × Bytes) → ℕ
left_of (err e) = 0
left_of (ok (classes, rest)) = length rest

left-read_class : (n : ℕ) (s : Bytes) → left_of (read_class n s) ≤ length s
unfolding read_class
left-read_class n [] = omega arith
left-read_class n (c ∷ s) = elim (Option-cases (class_of c)) [
  | inl unknown ↦ rw (unknown, left_of) (omega arith)
  | inr (cl, known) ↦ rw (known, left_of) (omega arith)
]

left-read_group : (offset c : ℕ) (s : Bytes) → left_of (read_group offset (c ∷ s)) ≤ length s
unfolding read_group read_number
left-read_group offset c s = elim (Bool-cases (is_digit c)) [
  | inr other ↦ rw other (omega arith)
  | inl digit ↦ rw digit (
      let (n, rest) = read_number (0 + (c - b'0')) s in
      omega (
        arith,
        left-read_class n (skip_mark rest),
        length-skip_mark rest,
        length-read_number (0 + (c - b'0')) s,
      ))
]

-- Whether a result is the end of the fuel.
abbrev is_out_of_fuel {ℓ} : {A : Type ℓ} → Result PatternError A → Bool
is_out_of_fuel (ok a) = false
is_out_of_fuel (err (expected_length n)) = false
is_out_of_fuel (err missing_class) = false
is_out_of_fuel (err (unknown_class c)) = false
is_out_of_fuel (err empty_structure) = false
is_out_of_fuel (err out_of_fuel) = true

fueled-read_class : (n : ℕ) (s : Bytes) → is_out_of_fuel (read_class n s) ≡ false
unfolding read_class
fueled-read_class n [] = refl
fueled-read_class n (c ∷ s) = elim (Option-cases (class_of c)) [
  | inl unknown ↦ rw (unknown, is_out_of_fuel) refl
  | inr (cl, known) ↦ rw (known, is_out_of_fuel) refl
]

fueled_test :
    (offset n : ℕ) (s : Bytes) (b : Bool)
    → is_out_of_fuel (if b then read_class n s else err (expected_length offset)) ≡ false
fueled_test offset n s true = fueled-read_class n s
fueled_test offset n s false = refl

fueled-read_group : (offset : ℕ) (s : Bytes) → is_out_of_fuel (read_group offset s) ≡ false
unfolding read_group
fueled-read_group offset [] = refl
fueled-read_group offset (c ∷ s) =
    let (n, rest) = read_number 0 (c ∷ s) in fueled_test offset n (skip_mark rest) (is_digit c)

-- A round goes on as the rest of the loop does, and has not spent the fuel if the rest has not.
round_alike :
    (fuel more total bound : ℕ) (out : List CharClass)
    (r : Result PatternError (List CharClass × Bytes))
    → left_of r ≤ bound
    → is_out_of_fuel r ≡ false
    → ((s : Bytes) (out : List CharClass)
        → length s ≤ bound
        → (expand_loop fuel total s out ≡ expand_loop more total s out)
          × (is_out_of_fuel (expand_loop fuel total s out) ≡ false))
    → ((elim r [
      | err e ↦ err e
      | ok (classes, rest) ↦ expand_loop fuel total rest (out ++ classes)
    ])
        ≡ (elim r [
          | err e ↦ err e
          | ok (classes, rest) ↦ expand_loop more total rest (out ++ classes)
        ]))
      × (is_out_of_fuel (elim r [
        | err e ↦ err e
        | ok (classes, rest) ↦ expand_loop fuel total rest (out ++ classes)
      ])
          ≡ false)
round_alike fuel more total bound out (err (expected_length n)) h f next = (refl, refl)
round_alike fuel more total bound out (err missing_class) h f next = (refl, refl)
round_alike fuel more total bound out (err (unknown_class c)) h f next = (refl, refl)
round_alike fuel more total bound out (err empty_structure) h f next = (refl, refl)
round_alike fuel more total bound out (err out_of_fuel) h f next = absurd (cc)
round_alike fuel more total bound out (ok (classes, rest)) h f next = next rest (out ++ classes) h

loop_alike :
    (fuel more total : ℕ) (s : Bytes) (out : List CharClass)
    → length s ≤ fuel
    → length s ≤ more
    → (expand_loop fuel total s out ≡ expand_loop more total s out)
      × (is_out_of_fuel (expand_loop fuel total s out) ≡ false)
unfolding expand_loop read_group
loop_alike fuel more total [] out h k = (refl, refl)
loop_alike zero more total (c ∷ s) out h k = absurd (omega arith)
loop_alike (suc fuel) zero total (c ∷ s) out h k = absurd (omega arith)
loop_alike (suc fuel) (suc more) total (c ∷ s) out h k =
    round_alike fuel more total (length s) out (read_group (total - length (c ∷ s)) (c ∷ s))
      (left-read_group (total - length (c ∷ s)) c s)
      (fueled-read_group (total - length (c ∷ s)) (c ∷ s))
      (λ rest out' le.
        loop_alike fuel more total rest out' (omega (arith, h, le)) (omega (arith, k, le)))

not_out :
    {A : Type 0} (r : Result PatternError A) → is_out_of_fuel r ≡ false → ¬ (r ≡ err out_of_fuel)
not_out r h same = let held : true ≡ false = ap is_out_of_fuel (sym same) ∙ h in cc

-- With any fuel that is at least the length of the pattern left, the loop ends before the fuel does, and it
-- computes the same on any two such amounts; so `expandStructure` never runs out of it.
pub expand_loop-fuel :
    (fuel more total : ℕ) (s : Bytes) (out : List CharClass)
    → length s ≤ fuel
    → length s ≤ more
    → (expand_loop fuel total s out ≡ expand_loop more total s out)
      × ¬ (expand_loop fuel total s out ≡ err out_of_fuel)
      × ¬ (expand_structure s ≡ err out_of_fuel)
unfolding expand_structure
expand_loop-fuel fuel more total s out h k =
    let (same, ended) = loop_alike fuel more total s out h k in
    let (whole, over) =
      loop_alike (length s) (length s) (length s) s [] (omega arith) (omega arith) in
    (
      same,
      not_out (expand_loop fuel total s out) ended,
      not_out (expand_structure s) (never_empty (expand_loop (length s) (length s) s []) over),
    )
  where
    never_empty :
        (r : Result PatternError (List CharClass))
        → is_out_of_fuel r ≡ false
        → is_out_of_fuel
            (r >>= λ out. elim out [ [] ↦ err empty_structure | cl ∷ rest ↦ ok (cl ∷ rest) ])
          ≡ false
    never_empty (ok []) h = refl
    never_empty (ok (cl ∷ out)) h = refl
    never_empty (err (expected_length n)) h = refl
    never_empty (err missing_class) h = refl
    never_empty (err (unknown_class c)) h = refl
    never_empty (err empty_structure) h = refl
    never_empty (err out_of_fuel) h = absurd (cc)
