-- ===== src/Iban/Accept.antt =====
-- What `parse` accepts, as a description that does not follow its order of tests.
use iban_pizza.Prelude.{
  ℕ, ◌+◌, ◌≤◌, true, ◌&&◌, List, [], ◌∷◌, some, length, take, drop, all, ◌≡◌, ◌↔◌, ◌≢◌, refl, sym,
  ap, ◌∙◌, arith, Bool-cases, inl, inr, subst, all-append, take-append-drop,
}
use iban_pizza.Prelude.Text.{Bytes, is_empty}
use iban_pizza.Iban.Types.{CharClass, Error, Result, ok, Country, Iban}
use iban_pizza.Iban.Structure.{is_upper, is_digit, accepts, expand_structure}
use iban_pizza.Iban.Parse.{
  min_length, max_length, lookup, lookup_country, parse, parse_normal, normalize, check_structure,
  check_expanded, check_classes,
}
use iban_pizza.Iban.Rows.{IsConsistent, lookup-IsConsistent}

-- Character by character of the class that the pattern asks for, and of the same length.
abbrev Fits : List CharClass → Bytes → Type 0
Fits [] [] = Unit
Fits (cl ∷ classes) (ch ∷ s) = (accepts cl ch ≡ true) × Fits classes s
Fits _ _ = ⊥

-- A text that spells an IBAN of a country.
pub record Spells (s : Bytes) (c : Country) : Type 0 where
  pub letters : all is_upper (take 2 s) ≡ true
  pub digits : all is_digit (take 2 (drop 2 s)) ≡ true
  pub size : length s ≡ c.length
  pub issued : lookup (take 2 s) ≡ some c
  pub structure :
      (classes : List CharClass) × (expand_structure c.bban ≡ ok classes) × Fits classes (drop 4 s)

Fits-length : (classes : List CharClass) (s : Bytes) → Fits classes s → length classes ≡ length s
Fits-length [] [] f = refl
Fits-length (cl ∷ classes) (ch ∷ s) f = omega (arith, Fits-length classes s f.1)
Fits-length [] (ch ∷ s) f = absurd f
Fits-length (cl ∷ classes) [] f = absurd f

check_classes-Fits :
    (code : Bytes) (i : ℕ) (classes : List CharClass) (s : Bytes)
    → Fits classes s
    → check_classes code i classes s ≡ ok tt
unfolding check_classes
check_classes-Fits code i [] [] f = refl
check_classes-Fits code i (cl ∷ classes) (ch ∷ s) f =
    rw (f.0) (check_classes-Fits code (i + 1) classes s f.1)
check_classes-Fits code i [] (ch ∷ s) f = absurd f
check_classes-Fits code i (cl ∷ classes) [] f = absurd f

Fits-check_classes :
    (code : Bytes) (i : ℕ) (classes : List CharClass) (s : Bytes)
    → length classes ≡ length s
    → check_classes code i classes s ≡ ok tt
    → Fits classes s
unfolding check_classes
Fits-check_classes code i [] [] n h = tt
Fits-check_classes code i (cl ∷ classes) (ch ∷ s) n h = elim (Bool-cases (accepts cl ch)) [
  | inl good ↦ (good, Fits-check_classes code (i + 1) classes s (omega arith) (ground arith))
  | inr bad ↦ absurd (ground arith)
]
Fits-check_classes code i [] (ch ∷ s) n h = absurd (omega arith)
Fits-check_classes code i (cl ∷ classes) [] n h = absurd (omega arith)

-- The loop over the expanded classes passes exactly the texts that fit them.
check_expanded-Fits :
    (c : Country) (classes : List CharClass) (s : Bytes)
    → (check_expanded c classes s ≡ ok tt) ↔ Fits classes s
unfolding check_expanded
check_expanded-Fits c classes s = (
  λ h. Fits-check_classes c.code 0 classes s (ground arith) (ground arith),
  λ f. ground (arith, Fits-length classes s f, check_classes-Fits c.code 0 classes s f),
)

empty_pattern :
    (p : Bytes) (classes : List CharClass) → is_empty p ≡ true → expand_structure p ≢ ok classes
unfolding expand_structure
empty_pattern [] classes h = λ e. cc
empty_pattern (c ∷ p) classes h = absurd (cc)

-- The pattern of a row of the table is read, and the loop over its classes decides.
check_structure_row :
    (c : Country) (classes : List CharClass) (s : Bytes)
    → expand_structure c.bban ≡ ok classes
    → check_structure c s ≡ check_expanded c classes s
unfolding check_structure
check_structure_row c classes s e = elim (Bool-cases (is_empty c.bban)) [
  | inl blank ↦ absurd (empty_pattern c.bban classes blank e)
  | inr filled ↦ rw (filled, e)
]

-- The structure test passes exactly the texts that fit the pattern of the row.
check_structure-Fits :
    (c : Country) (s : Bytes)
    → IsConsistent c
    → (check_structure c s ≡ ok tt)
      ↔ ((classes : List CharClass) × (expand_structure c.bban ≡ ok classes) × Fits classes s)
check_structure-Fits c s good =
    let (classes, e, _) = good.pattern in
    let step = check_structure_row c classes s e in
    (
      λ h. (classes, e, (check_expanded-Fits c classes s).0 (sym step ∙ h)),
      λ t. check_structure_row c t.0 s t.1 ∙ (check_expanded-Fits c t.0 s).1 t.2,
    )

-- What each test of `Parse` leaves behind when it lets a text through.
parse_normal_passed :
    (a b c d : ℕ) (s : Bytes) (i : Iban)
    → parse_normal (a ∷ b ∷ c ∷ d ∷ s) ≡ ok i
    → (i.raw ≡ a ∷ b ∷ c ∷ d ∷ s)
      × (is_upper a && (is_upper b && true) ≡ true)
      × (is_digit c && (is_digit d && true) ≡ true)
      × (lookup (a ∷ b ∷ []) ≡ some i.country)
      × (4 + length s ≡ i.country.length)
      × (check_structure i.country s ≡ ok tt)
unfolding parse_normal lookup_country
parse_normal_passed a b c d s i h = ground arith

parse_normal-Spells :
    (s : Bytes) (i : Iban) → parse_normal s ≡ ok i → (i.raw ≡ s) × Spells s i.country
parse_normal-Spells (a ∷ b ∷ c ∷ d ∷ s) i h =
    let (raw, up, dig, found, size, fit) = parse_normal_passed a b c d s i h in
    let good = (lookup-IsConsistent (a ∷ b ∷ []) found).1 in
    (
      raw,
      record {
        letters = up;
        digits = dig;
        size = omega arith;
        issued = found;
        structure = (check_structure-Fits i.country s good).0 fit;
      },
    )
parse_normal-Spells s i h = unfold parse_normal in absurd (cc)

Spells-parse_normal :
    (s : Bytes) (c : Country) → Spells s c → parse_normal s ≡ ok (record { raw = s; country = c })
unfolding parse_normal lookup_country
Spells-parse_normal (a ∷ b ∷ c ∷ d ∷ s) k h =
    let good = (lookup-IsConsistent (a ∷ b ∷ []) h.issued).1 in
    let fit : check_structure k s ≡ ok tt = (check_structure-Fits k s good).1 h.structure in
    let low = good.bounds.0 in let high = good.bounds.1 in ground (arith, fit)
Spells-parse_normal s k h =
    let good = (lookup-IsConsistent (take 2 s) h.issued).1 in
    absurd (omega (arith, good.bounds.0, h.size))

-- `Parse` returns an IBAN exactly when the normalised text spells one of a country in the table:
-- two capital letters that name it, two digits, the country's length, and behind them a BBAN of the
-- country's pattern. The IBAN is that text and that country.
pub parse_iff :
    (s : Bytes) (i : Iban)
    → (parse s ≡ ok i) ↔ ((i.raw ≡ normalize s) × Spells (normalize s) i.country)
unfolding parse
parse_iff s i = (
  parse_normal-Spells (normalize s) i,
  λ h. Spells-parse_normal (normalize s) i.country h.1 ∙ same h.0,
)
  where
    with_raw : Bytes → Result Error Iban
    with_raw r = ok (record { raw = r; country = i.country })

    same : i.raw ≡ normalize s → with_raw (normalize s) ≡ with_raw i.raw
    same e = ap with_raw (sym e)

accepts_alnum : (cl : CharClass) (ch : ℕ) → accepts cl ch ≡ true → accepts CharClass.alnum ch ≡ true
accepts_alnum CharClass.digit ch h = ground arith
accepts_alnum CharClass.upper ch h = ground arith
accepts_alnum CharClass.alnum ch h = h

Fits-alnum :
    (classes : List CharClass) (s : Bytes) → Fits classes s → all (accepts CharClass.alnum) s ≡ true
Fits-alnum [] [] f = refl
Fits-alnum (cl ∷ classes) (ch ∷ s) f = rw (accepts_alnum cl ch f.0, Fits-alnum classes s f.1)
Fits-alnum [] (ch ∷ s) f = absurd f
Fits-alnum (cl ∷ classes) [] f = absurd f

Spells-alnum : (s : Bytes) (c : Country) → Spells s c → all (accepts CharClass.alnum) s ≡ true
Spells-alnum s c h =
    let (classes, _, fit) = h.structure in
    let front : all (accepts CharClass.alnum) (take 4 s) ≡ true =
      front_alnum s h.letters h.digits in
    ap (all (accepts CharClass.alnum)) (sym (take-append-drop 4 s))
    ∙ all-append (accepts CharClass.alnum) (take 4 s) (drop 4 s)
    ∙ rw (front, Fits-alnum classes (drop 4 s) fit)
  where
    front_alnum :
        (t : Bytes)
        → all is_upper (take 2 t) ≡ true
        → all is_digit (take 2 (drop 2 t)) ≡ true
        → all (accepts CharClass.alnum) (take 4 t) ≡ true
    front_alnum [] u d = refl
    front_alnum (a ∷ []) u d = ground arith
    front_alnum (a ∷ b ∷ []) u d = ground arith
    front_alnum (a ∷ b ∷ c ∷ []) u d = ground arith
    front_alnum (a ∷ b ∷ c ∷ d' ∷ t) u d = ground arith

Spells-length :
    (s : Bytes) (c : Country) → Spells s c → (min_length ≤ length s) × (length s ≤ max_length)
Spells-length s c h =
    let good = (lookup-IsConsistent (take 2 s) h.issued).1 in
    (omega (arith, good.bounds.0, h.size), omega (arith, good.bounds.1, h.size))

-- A parsed IBAN is of 15 to 34 characters, all of them digits or capital letters.
pub parse_bounds :
    (s : Bytes) (i : Iban)
    → parse s ≡ ok i
    → (min_length ≤ length i.raw)
      × (length i.raw ≤ max_length)
      × (all (accepts CharClass.alnum) i.raw ≡ true)
parse_bounds s i h =
    let (raw, spelt) = (parse_iff s i).0 h in
    let spelt' : Spells i.raw i.country = subst (λ t. Spells t i.country) (sym raw) spelt in
    let (low, high) = Spells-length i.raw i.country spelt' in
    (low, high, Spells-alnum i.raw i.country spelt')
