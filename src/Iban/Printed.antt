-- ===== src/Iban/Printed.antt =====
-- Parsing is insensitive to how the text was set, and reads the printed forms back.
use iban_pizza.Prelude.{true, all, ◌≡◌, ap, ◌∙◌, refl, &&-both, [], ◌∷◌}
use iban_pizza.Prelude.Text.{Bytes}
use iban_pizza.Iban.Types.{CharClass, ok, Iban}
use iban_pizza.Iban.Structure.{accepts}
use iban_pizza.Iban.Parse.{normalize, parse, parse_normal, formatted}
use iban_pizza.Iban.Normal.{
  is_normal, alnum_normal, normalize_idem, normalize_of_all, normalize-formatted,
}
use iban_pizza.Iban.Accept.{parse_iff, parse_bounds}

alnum-normal : (s : Bytes) → all (accepts CharClass.alnum) s ≡ true → all is_normal s ≡ true
alnum-normal [] h = refl
alnum-normal (c ∷ s) h = let (hc, hs) = &&-both _ _ h in rw (alnum_normal c hc, alnum-normal s hs)

parse_of_normalize : (s t : Bytes) → normalize s ≡ normalize t → parse s ≡ parse t
unfolding parse
parse_of_normalize s t e = ap parse_normal e

-- A text is read as its normal form is, errors included.
parse-normalize : (s : Bytes) → parse (normalize s) ≡ parse s
parse-normalize s = parse_of_normalize (normalize s) s (normalize_idem s)

-- Both printed forms of a parsed IBAN, the compact one and the one in groups of four, are read back
-- as that IBAN.
pub parse-formatted :
    (s : Bytes) (i : Iban) → parse s ≡ ok i → (parse i.raw ≡ ok i) × (parse (formatted i) ≡ ok i)
parse-formatted s i h =
    let raw = ((parse_iff s i).0 h).0 in
    let normal = alnum-normal i.raw (parse_bounds s i h).2 in
    (
      parse_of_normalize i.raw s (normalize_of_all i.raw normal ∙ raw) ∙ h,
      parse_of_normalize (formatted i) s (normalize-formatted i normal ∙ raw) ∙ h,
    )
