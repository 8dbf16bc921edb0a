-- ===== src/Iban/Complement.antt =====
-- Ninety-eight less the remainder with "00" in their place are the check digits that make the
-- remainder one.
use iban_pizza.Prelude.{
  ℕ, zero, suc, ◌+◌, ◌-◌, ◌*◌, ◌/◌, ◌%◌, ◌^◌, ◌<◌, true, [], ◌∷◌, length, all, ◌≡◌, inl, inr, refl,
  ap, ◌∙◌, arith, some, Option-cases, get_or,
}
use iban_pizza.Prelude.Text.{Bytes}
use iban_pizza.Iban.Structure.{is_digit}
use iban_pizza.Iban.Checksum.{mod97_step, mod97_loop, mod97}
use iban_pizza.Iban.Remainder.{is_alnum, shift, value, rotate, mod97-value, value-append}

shift_two :
    (w x y : ℕ)
    → is_digit x ≡ true
    → is_digit y ≡ true
    → shift (shift w x) y ≡ w * 100 + (x - b'0') * 10 + (y - b'0')
shift_two w x y hx hy = ground arith

digits_right :
    (w n : ℕ)
    → n ≡ (98 + 2 ^ 32 - (w * 100 + (b'0' - b'0') * 10 + (b'0' - b'0')) % 97) % 2 ^ 32
    → (w * 100 + (b'0' + n / 10 - b'0') * 10 + (b'0' + n % 10 - b'0')) % 97 ≡ 1
digits_right w n e = omega arith

-- The texts of a two letter country and a BBAN, by their check digits.
module _ (a b : ℕ) (bban : Bytes) where
  abbrev numbered : ℕ → ℕ → Bytes
  numbered x y = a ∷ b ∷ x ∷ y ∷ bban

  -- Only the last two digits of the rotated number change with the check digits.
  value-numbered :
      (x y : ℕ)
      → is_digit x ≡ true
      → is_digit y ≡ true
      → value (rotate (numbered x y)) 0
        ≡ shift (shift (value bban 0) a) b * 100 + (x - b'0') * 10 + (y - b'0')
  unfolding value
  value-numbered x y hx hy =
      value-append bban (a ∷ b ∷ x ∷ y ∷ []) 0
      ∙ shift_two (shift (shift (value bban 0) a) b) x y hx hy

  remainder_numbered :
      (x y : ℕ)
      → is_digit x ≡ true
      → is_digit y ≡ true
      → all is_alnum (numbered x y) ≡ true
      → mod97 (numbered x y)
        ≡ (shift (shift (value bban 0) a) b * 100 + (x - b'0') * 10 + (y - b'0')) % 97
  remainder_numbered x y hx hy h =
      mod97-value (numbered x y) (omega arith) h ∙ ap (λ k. k % 97) (value-numbered x y hx hy)

  same_letters :
      (x y : ℕ)
      → is_digit x ≡ true
      → is_digit y ≡ true
      → all is_alnum (numbered x y) ≡ true
      → all is_alnum (numbered b'0' b'0') ≡ true
  same_letters x y hx hy h = ground arith

  -- 98 less the remainder with "00" is two digits that make the remainder 1.
  pub check_digits_right :
      (n : ℕ)
      → n ≡ (98 + 2 ^ 32 - mod97 (numbered b'0' b'0')) % 2 ^ 32
      → n < 100
      → all is_alnum (numbered (b'0' + n / 10) (b'0' + n % 10)) ≡ true
      → mod97 (numbered (b'0' + n / 10) (b'0' + n % 10)) ≡ 1
  check_digits_right n e small h =
      let x = b'0' + n / 10 in
      let y = b'0' + n % 10 in
      let hx : is_digit x ≡ true = ground arith in
      let hy : is_digit y ≡ true = ground arith in
      let zeros = remainder_numbered b'0' b'0' refl refl (same_letters x y hx hy h) in
      let right = remainder_numbered x y hx hy h in
      right
      ∙ digits_right (shift (shift (value bban 0) a) b) n
          (e ∙ ap (λ k. (98 + 2 ^ 32 - k) % 2 ^ 32) zeros)

step-lt : (r c r' : ℕ) → mod97_step r c ≡ some r' → r' < 97
unfolding mod97_step
step-lt r c r' h = ground arith

mod97_loop-lt : (s : Bytes) (rounds n r : ℕ) → r < 97 → mod97_loop s rounds n r < 97
unfolding mod97_loop
mod97_loop-lt s zero n r h = h
mod97_loop-lt s (suc rounds) n r h =
    elim (Option-cases (mod97_step r (get_or s ((n + 4) % length s) 0))) [
      | inl stop ↦ rw (stop, mod97_loop) (omega arith)
      | inr (r', go) ↦
          rw (go, mod97_loop)
            (mod97_loop-lt s rounds (n + 1) r' (step-lt r (get_or s ((n + 4) % length s) 0) r' go))
    ]

-- `mod97` is a remainder, or the 0 of the early return.
pub mod97-lt : (s : Bytes) → mod97 s < 97
unfolding mod97
mod97-lt s = mod97_loop-lt s (length s) 0 0 (omega arith)
