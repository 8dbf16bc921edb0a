-- ===== src/Iban/Detection.antt =====
-- Which mistypings the checksum catches.
use iban_pizza.Prelude.{
  ℕ, zero, suc, ◌%◌, Bool, true, ◌||◌, ◌&&◌, [], ◌∷◌, ◌++◌, take, drop, ◌≡◌, ◌≢◌, ◌⊎◌, inl, inr,
  refl, sym, ap, ◌∙◌, arith, subst,
}
use mathlib.Core.Path.{ap₂}
use iban_pizza.Prelude.Text.{Bytes}
use iban_pizza.Iban.Types.{ok, err, Iban, checksum}
use iban_pizza.Iban.Structure.{is_digit, is_upper}
use iban_pizza.Iban.Checksum.{validate}
use iban_pizza.Iban.Parse.{parse}
use iban_pizza.Iban.Accept.{parse_bounds}
use iban_pizza.Iban.Remainder.{shift, value, rotate, mod97-value, validate_one, validate_fails}

-- Both digits, or both capital letters.
abbrev same_kind : ℕ → ℕ → Bool
same_kind c d = (is_digit c && is_digit d) || (is_upper c && is_upper d)

-- Equal but for one character, which is replaced by another of its kind.
abbrev pub OneOff : Bytes → Bytes → Type 0
OneOff (c ∷ s) (d ∷ t) = ((same_kind c d ≡ true) × (c ≢ d) × (s ≡ t)) ⊎ ((c ≡ d) × OneOff s t)
OneOff _ _ = ⊥

-- Equal but for two neighbouring digits that are exchanged.
abbrev pub Exchanged : Bytes → Bytes → Type 0
Exchanged (a ∷ b ∷ s) (c ∷ d ∷ t) =
    ((is_digit a ≡ true) × (is_digit b ≡ true) × (a ≢ b) × (c ≡ b) × (d ≡ a) × (s ≡ t))
    ⊎ ((a ≡ c) × Exchanged (b ∷ s) (d ∷ t))
Exchanged _ _ = ⊥

shift_injective : (n m c : ℕ) → shift n c % 97 ≡ shift m c % 97 → n % 97 ≡ m % 97
shift_injective n m c h = ground arith

value_injective : (s : Bytes) (n m : ℕ) → value s n % 97 ≡ value s m % 97 → n % 97 ≡ m % 97
unfolding value
value_injective [] n m h = h
value_injective (c ∷ s) n m h = shift_injective n m c (value_injective s (shift n c) (shift m c) h)

shift_character : (n c d : ℕ) → same_kind c d ≡ true → shift n c % 97 ≡ shift n d % 97 → c ≡ d
shift_character n c d k h = ground arith

shift_exchange :
    (n a b : ℕ)
    → is_digit a ≡ true
    → is_digit b ≡ true
    → shift (shift n a) b % 97 ≡ shift (shift n b) a % 97
    → a ≡ b
shift_exchange n a b ha hb h = ground arith

OneOff-value : (s t : Bytes) (n : ℕ) → OneOff s t → value s n % 97 ≢ value t n % 97
unfolding value
OneOff-value (c ∷ s) (d ∷ t) n (inl (kind, differ, rest)) = λ e. differ (
    shift_character n c d kind (
      value_injective s (shift n c) (shift n d)
        (e ∙ ap (λ u. value u (shift n d) % 97) (sym rest))))
OneOff-value (c ∷ s) (d ∷ t) n (inr (same, off)) =
    λ e. OneOff-value s t (shift n c) off (e ∙ ap (λ k. value t (shift n k) % 97) (sym same))
OneOff-value [] t n off = absurd off
OneOff-value (c ∷ s) [] n off = absurd off

Exchanged-value : (s t : Bytes) (n : ℕ) → Exchanged s t → value s n % 97 ≢ value t n % 97
unfolding value
Exchanged-value (a ∷ b ∷ s) (c ∷ d ∷ t) n (inl (ha, hb, differ, cb, da, rest)) = λ e. differ (
    shift_exchange n a b ha hb
      (value_injective s (shift (shift n a) b) (shift (shift n b) a) (e ∙ cc (cb, da, rest))))
Exchanged-value (a ∷ b ∷ s) (c ∷ d ∷ t) n (inr (same, off)) = λ e.
    Exchanged-value (b ∷ s) (d ∷ t) (shift n a) off
      (e ∙ ap (λ k. value (d ∷ t) (shift n k) % 97) (sym same))
Exchanged-value [] t n off = absurd off
Exchanged-value (a ∷ []) t n off = absurd off
Exchanged-value (a ∷ b ∷ s) [] n off = absurd off
Exchanged-value (a ∷ b ∷ s) (c ∷ []) n off = absurd off

OneOff-append_left : (s t u : Bytes) → OneOff s t → OneOff (s ++ u) (t ++ u)
OneOff-append_left (c ∷ s) (d ∷ t) u (inl (kind, differ, rest)) =
    inl (kind, differ, ap (λ r. r ++ u) rest)
OneOff-append_left (c ∷ s) (d ∷ t) u (inr (same, off)) = inr (same, OneOff-append_left s t u off)
OneOff-append_left [] t u off = absurd off
OneOff-append_left (c ∷ s) [] u off = absurd off

OneOff-append_right : (u s t : Bytes) → OneOff s t → OneOff (u ++ s) (u ++ t)
OneOff-append_right [] s t off = off
OneOff-append_right (c ∷ u) s t off = inr (refl, OneOff-append_right u s t off)

Exchanged-append_left : (s t u : Bytes) → Exchanged s t → Exchanged (s ++ u) (t ++ u)
Exchanged-append_left (a ∷ b ∷ s) (c ∷ d ∷ t) u (inl (ha, hb, differ, cb, da, rest)) =
    inl (ha, hb, differ, cb, da, ap (λ r. r ++ u) rest)
Exchanged-append_left (a ∷ b ∷ s) (c ∷ d ∷ t) u (inr (same, off)) =
    inr (same, Exchanged-append_left (b ∷ s) (d ∷ t) u off)
Exchanged-append_left [] t u off = absurd off
Exchanged-append_left (a ∷ []) t u off = absurd off
Exchanged-append_left (a ∷ b ∷ s) [] u off = absurd off
Exchanged-append_left (a ∷ b ∷ s) (c ∷ []) u off = absurd off

-- The replaced character stands on one side of any cut.
OneOff-cut :
    (n : ℕ) (s t : Bytes)
    → OneOff s t
    → (OneOff (take n s) (take n t) × (drop n s ≡ drop n t))
      ⊎ ((take n s ≡ take n t) × OneOff (drop n s) (drop n t))
OneOff-cut zero s t off = inr (refl, off)
OneOff-cut (suc n) (c ∷ s) (d ∷ t) (inl (kind, differ, rest)) =
    inl (inl (kind, differ, ap (take n) rest), ap (drop n) rest)
OneOff-cut (suc n) (c ∷ s) (d ∷ t) (inr (same, off)) = elim (OneOff-cut n s t off) [
  | inl (front, back) ↦ inl (inr (same, front), back)
  | inr (front, back) ↦ inr (ap₂ ◌∷◌ same front, back)
]
OneOff-cut (suc n) [] t off = absurd off
OneOff-cut (suc n) (c ∷ s) [] off = absurd off

OneOff-rotate : (s t : Bytes) → OneOff s t → OneOff (rotate s) (rotate t)
OneOff-rotate s t off = elim (OneOff-cut 4 s t off) [
  | inl (front, back) ↦
      subst (λ u. OneOff (drop 4 s ++ take 4 s) (u ++ take 4 t)) back
        (OneOff-append_right (drop 4 s) (take 4 s) (take 4 t) front)
  | inr (front, back) ↦
      subst (λ u. OneOff (drop 4 s ++ take 4 s) (drop 4 t ++ u)) front
        (OneOff-append_left (drop 4 s) (drop 4 t) (take 4 s) back)
]

-- The two checks of a pair of parsed texts, told by the rotated numbers.
validate_differ :
    (s t : Bytes) (i j : Iban)
    → parse s ≡ ok i
    → parse t ≡ ok j
    → value (rotate i.raw) 0 % 97 ≢ value (rotate j.raw) 0 % 97
    → validate i ≡ ok tt
    → validate j ≡ err checksum
validate_differ s t i j hi hj differ good =
    let (low, _, alnum) = parse_bounds s i hi in
    let (low', _, alnum') = parse_bounds t j hj in
    let one = mod97-value i.raw (omega arith) alnum in
    let other = mod97-value j.raw (omega arith) alnum' in
    validate_fails j λ e. differ (sym one ∙ validate_one i good ∙ sym e ∙ other)

-- If two texts parse, the checksum of the first IBAN holds, and the second differs from it in one
-- character, a digit for a digit or a letter for a letter, then the checksum of the second one
-- fails.
pub validate-OneOff :
    (s t : Bytes) (i j : Iban)
    → parse s ≡ ok i
    → parse t ≡ ok j
    → OneOff i.raw j.raw
    → validate i ≡ ok tt
    → validate j ≡ err checksum
validate-OneOff s t i j hi hj off =
    validate_differ s t i j hi hj
      (OneOff-value (rotate i.raw) (rotate j.raw) 0 (OneOff-rotate i.raw j.raw off))

-- If two texts parse, the checksum of the first IBAN holds, and the second has the same first four
-- characters and two neighbouring, different digits behind them exchanged, then the checksum of the
-- second one fails.
pub validate-Exchanged :
    (s t : Bytes) (i j : Iban)
    → parse s ≡ ok i
    → parse t ≡ ok j
    → take 4 i.raw ≡ take 4 j.raw
    → Exchanged (drop 4 i.raw) (drop 4 j.raw)
    → validate i ≡ ok tt
    → validate j ≡ err checksum
validate-Exchanged s t i j hi hj front off = validate_differ s t i j hi hj (
    Exchanged-value (rotate i.raw) (rotate j.raw) 0 (
      subst (λ u. Exchanged (rotate i.raw) (drop 4 j.raw ++ u)) front
        (Exchanged-append_left (drop 4 i.raw) (drop 4 j.raw) (take 4 i.raw) off)))
