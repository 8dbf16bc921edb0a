-- ===== src/Iban/Remainder.antt =====
-- The rotating loop of `mod97` computes the remainder of the whole number.
use iban_pizza.Prelude.{
  ℕ, zero, suc, ◌+◌, ◌-◌, ◌*◌, ◌%◌, ◌^◌, ◌≤◌, ◌<◌, Bool, true, false, ◌&&◌, [], ◌∷◌, ◌++◌, Option,
  none, some, if◌then◌else◌, length, get_or, take, drop, all, ◌≡◌, ◌≢◌, refl, sym, ap, ◌∙◌, arith,
  length-append, length-take, length-drop, get_or-append_left, get_or-append_right, &&-both,
  all-append, take-append-drop,
}
use native.Mathlib.Decide.{dec_lt}
use iban_pizza.Prelude.Text.{Bytes}
use iban_pizza.Iban.Types.{CharClass, ok, err, Iban, checksum}
use iban_pizza.Iban.Structure.{is_digit, accepts}
use iban_pizza.Iban.Checksum.{mod97_step, mod97_loop, mod97, validate}

-- The first four characters behind the others.
abbrev pub rotate : Bytes → Bytes
rotate s = drop 4 s ++ take 4 s

-- The remainder after the characters of a text, from a first remainder.
unfoldable pub fold97 : Bytes → ℕ → ℕ
unfolding mod97_step
fold97 [] r = r
fold97 (c ∷ s) r = elim (mod97_step r c) [ none ↦ 0 | some r' ↦ fold97 s r' ]

-- The number that a text spells behind the number `n`: a letter is two digits, A = 10 to Z = 35.
abbrev pub shift : ℕ → ℕ → ℕ
shift n c = if is_digit c then n * 10 + (c - b'0') else n * 100 + (c - b'A' + 10)

unfoldable pub value : Bytes → ℕ → ℕ
value [] n = n
value (c ∷ s) n = value s (shift n c)

abbrev pub is_alnum : ℕ → Bool
is_alnum c = accepts CharClass.alnum c

-- One round of the loop reads the character that stands in the rotated text.
loop-fold97 :
    (s u : Bytes) (n r : ℕ)
    → ((j : ℕ) → j < length u → get_or s ((n + j + 4) % length s) 0 ≡ get_or u j 0)
    → mod97_loop s (length u) n r ≡ fold97 u r
unfolding mod97_loop fold97
loop-fold97 s [] n r h = refl
loop-fold97 s (c ∷ u) n r h =
    let first : get_or s ((n + 4) % length s) 0 ≡ c =
      ap (λ k. get_or s (k % length s) 0) (omega arith) ∙ h 0 (omega arith) in
    let later : (j : ℕ) → j < length u → get_or s ((n + 1 + j + 4) % length s) 0 ≡ get_or u j 0 =
      λ j lt. ap (λ k. get_or s (k % length s) 0) (omega arith) ∙ h (suc j) (omega arith) in
    rw (first, mod97_loop) (next_round (mod97_step r c) (λ r'. loop-fold97 s u (n + 1) r' later))
  where
    next_round :
        (o : Option ℕ)
        → ((r' : ℕ) → mod97_loop s (length u) (n + 1) r' ≡ fold97 u r')
        → ◌≡◌ {A = ℕ}
            (elim o [ none ↦ 0 | some r' ↦ mod97_loop s (length u) (n + 1) r' ])
            (elim o [ none ↦ 0 | some r' ↦ fold97 u r' ])
    next_round none ih = refl
    next_round (some r') ih = ih r'

suc_add : (n i : ℕ) → suc (n + i) ≡ suc n + i
suc_add n i = omega arith

get_or-drop : (s : Bytes) (n i : ℕ) → get_or (drop n s) i 0 ≡ get_or s (n + i) 0
get_or-drop s zero i = ap (λ k. get_or s k 0) (omega arith)
get_or-drop [] (suc n) i = refl
get_or-drop (c ∷ s) (suc n) i = get_or-drop s n i ∙ ap (λ k. get_or (c ∷ s) k 0) (suc_add n i)

get_or-take : (s : Bytes) (n i : ℕ) → i < n → get_or (take n s) i 0 ≡ get_or s i 0
get_or-take s zero i h = absurd (omega arith)
get_or-take [] (suc n) i h = refl
get_or-take (c ∷ s) (suc n) zero h = refl
get_or-take (c ∷ s) (suc n) (suc i) h = get_or-take s n i (omega arith)

-- One step on an alphanumeric character; nothing wraps around in 32 bits.
step_alnum : (n c : ℕ) → is_alnum c ≡ true → mod97_step (n % 97) c ≡ some (shift n c % 97)
unfolding mod97_step
step_alnum n c h = ground arith

fold-value : (s : Bytes) (n : ℕ) → all is_alnum s ≡ true → fold97 s (n % 97) ≡ value s n % 97
unfolding fold97 value
fold-value [] n h = refl
fold-value (c ∷ s) n h =
    let (hc, hs) = &&-both _ _ h in rw (step_alnum n c hc, fold97) (fold-value s (shift n c) hs)

-- Position `j` of the rotated text.
get_or-rotate :
    (s : Bytes) (j : ℕ)
    → 4 ≤ length s
    → j < length s
    → get_or s ((0 + j + 4) % length s) 0 ≡ get_or (rotate s) j 0
get_or-rotate s j four h = elim (dec_lt (j + 4) (length s)) [
  | yes low ↦
      ap (λ k. get_or s k 0) (wrap_low low)
      ∙ sym (get_or-drop s 4 j)
      ∙ sym (get_or-append_left (drop 4 s) (take 4 s) j 0 (omega (arith, length-drop 4 s)))
  | no high ↦
      ap (λ k. get_or s k 0) (wrap_high high)
      ∙ sym (get_or-take s 4 (j + 4 - length s) (omega arith))
      ∙ sym (
          get_or-append_right (drop 4 s) (take 4 s) j (j + 4 - length s) 0
            (omega (arith, length-drop 4 s)))
]
  where
    wrap_low : j + 4 < length s → (0 + j + 4) % length s ≡ 4 + j
    wrap_low low = grind arith

    wrap_high : ¬ (j + 4 < length s) → (0 + j + 4) % length s ≡ j + 4 - length s
    wrap_high high = grind arith

length-rotate : (s : Bytes) → length (rotate s) ≡ length s
length-rotate s =
    omega (arith, length-append (drop 4 s) (take 4 s), length-take 4 s, length-drop 4 s)

mod97-fold97 : (s : Bytes) → 4 ≤ length s → mod97 s ≡ fold97 (rotate s) 0
unfolding mod97
mod97-fold97 s four =
    ap (λ k. mod97_loop s k 0 0) (sym (length-rotate s))
    ∙ loop-fold97 s (rotate s) 0 0 (λ j h. get_or-rotate s j four (omega (arith, length-rotate s)))

rotate-all : (s : Bytes) → all is_alnum s ≡ true → all is_alnum (rotate s) ≡ true
rotate-all s h =
    let split : (all is_alnum (take 4 s) && all is_alnum (drop 4 s)) ≡ true =
      sym (all-append is_alnum (take 4 s) (drop 4 s))
      ∙ ap (all is_alnum) (take-append-drop 4 s)
      ∙ h in
    all-append is_alnum (drop 4 s) (take 4 s) ∙ ground (arith, split)

-- The loop computes, without ever holding it, the remainder modulo 97 of the number that the
-- rotated text spells, for every text of digits and capital letters with four characters or more.
pub mod97-value :
    (s : Bytes) → 4 ≤ length s → all is_alnum s ≡ true → mod97 s ≡ value (rotate s) 0 % 97
mod97-value s four h = mod97-fold97 s four ∙ fold-value (rotate s) 0 (rotate-all s h)

pub value-append : (s t : Bytes) (n : ℕ) → value (s ++ t) n ≡ value t (value s n)
unfolding value
value-append [] t n = refl
value-append (c ∷ s) t n = value-append s t (shift n c)

-- A text with a character that is neither a digit nor a capital letter has remainder 0, so its
-- checksum never holds.
fold97_stuck : (s : Bytes) (r : ℕ) → all is_alnum s ≡ false → fold97 s r ≡ 0
unfolding fold97 mod97_step
fold97_stuck [] r h = absurd (cc)
fold97_stuck (c ∷ s) r h = ground (
  arith,
  fold97_stuck s ((r * 10 + (c - b'0')) % 2 ^ 32 % 97),
  fold97_stuck s ((r * 100 + (c - b'A') + 10) % 2 ^ 32 % 97),
)

pub validate_one : (i : Iban) → validate i ≡ ok tt → mod97 i.raw ≡ 1
unfolding validate
validate_one i h = ground arith

pub validate_holds : (i : Iban) → mod97 i.raw ≡ 1 → validate i ≡ ok tt
unfolding validate
validate_holds i h = ground arith

pub validate_fails : (i : Iban) → mod97 i.raw ≢ 1 → validate i ≡ err checksum
unfolding validate
validate_fails i h = ground arith
