-- ===== src/Iban/Checksum.antt =====
-- iban/iban.go: `mod97` and `Validate`. The remainder is a uint32; the wrap-around is written out.
use iban_pizza.Prelude.{
  ℕ, zero, suc, ◌+◌, ◌-◌, ◌*◌, ◌%◌, ◌^◌, not, Option, none, some, ◌==◌, if◌then◌else◌, length,
  get_or,
}
use iban_pizza.Prelude.Text.{Bytes}
use iban_pizza.Iban.Types.{Error, Result, refuse, Iban, checksum}
use iban_pizza.Iban.Structure.{is_digit, is_upper}

-- One character: `none` is the early `return 0`.
unfoldable pub mod97_step : ℕ → ℕ → Option ℕ
mod97_step r c =
    if is_digit c
    then some ((r * 10 + (c - b'0')) % 2 ^ 32 % 97)
    else if is_upper c
    then some ((r * 100 + (c - b'A') + 10) % 2 ^ 32 % 97)
    else none

-- The loop from round `n`, with so many rounds left. The index is below the length, so the default
-- of `get_or` is never read.
unfoldable pub mod97_loop : Bytes → ℕ → ℕ → ℕ → ℕ
unfolding mod97_step
mod97_loop s zero n r = r
mod97_loop s (suc rounds) n r = elim (mod97_step r (get_or s ((n + 4) % length s) 0)) [
  | none ↦ 0
  | some r' ↦ mod97_loop s rounds (n + 1) r'
]

unfoldable pub mod97 : Bytes → ℕ
unfolding mod97_loop
mod97 s = mod97_loop s (length s) 0 0

-- `Validate`
unfoldable pub validate : Iban → Result Error (Unit {0})
unfolding mod97
validate i = refuse (not (mod97 i.raw == 1)) checksum
