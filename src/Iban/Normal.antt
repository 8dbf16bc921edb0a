-- ===== src/Iban/Normal.antt =====
-- What `normalize` leaves behind, and the texts that it leaves alone.
use iban_pizza.Prelude.{
  ℕ, zero, suc, ◌≤◌, Bool, true, false, not, ◌&&◌, [], ◌∷◌, ◌++◌, leb, length, take, drop, all,
  all-append, ◌≡◌, refl, ap, arith, Bool-cases, inl, inr, &&-both, replicate, sym, ◌∙◌,
  take-append-drop, length-drop,
}
use mathlib.Core.Path.{ap₂}
use iban_pizza.Prelude.Text.{Bytes, upper}
use iban_pizza.Iban.Parse.{is_separator, normalize, groups, formatted}
use iban_pizza.Iban.Structure.{accepts}
use iban_pizza.Iban.Types.{Iban, CharClass}

-- Neither a separator nor a lower case letter.
unfoldable pub is_normal : ℕ → Bool
unfolding is_separator
is_normal c = not (is_separator c) && not (leb b'a' c && leb c b'z')

upper_normal : (c : ℕ) → is_separator c ≡ false → is_normal (upper c) ≡ true
unfolding is_normal upper
upper_normal c h = ground arith

pub normalize-all : (s : Bytes) → all is_normal (normalize s) ≡ true
unfolding normalize
normalize-all [] = refl
normalize-all (c ∷ s) = elim (Bool-cases (is_separator c)) [
  | inl e ↦ rw e (normalize-all s)
  | inr e ↦ rw (e, upper_normal c e, normalize-all s)
]

normalize-cons : (c : ℕ) (s : Bytes) → is_normal c ≡ true → normalize (c ∷ s) ≡ c ∷ normalize s
unfolding normalize is_normal
normalize-cons c s h = ground arith

pub normalize_of_all : (s : Bytes) → all is_normal s ≡ true → normalize s ≡ s
normalize_of_all [] h = unfold normalize in refl
normalize_of_all (c ∷ s) h =
    let (hc, hs) = &&-both _ _ h in rw (normalize-cons c s hc) (ap (◌∷◌ c) (normalize_of_all s hs))

-- Normalising a second time changes nothing.
pub normalize_idem : (s : Bytes) → normalize (normalize s) ≡ normalize s
normalize_idem s = normalize_of_all (normalize s) (normalize-all s)

normalize-append : (s t : Bytes) → normalize (s ++ t) ≡ normalize s ++ normalize t
unfolding normalize
normalize-append [] t = refl
normalize-append (c ∷ s) t = ground (arith, normalize-append s t)

pub alnum_normal : (c : ℕ) → accepts CharClass.alnum c ≡ true → is_normal c ≡ true
unfolding is_normal
alnum_normal c h = ground arith

pub normal_replicate : (n : ℕ) → all is_normal (replicate n b'0') ≡ true
unfolding is_normal
normal_replicate zero = refl
normal_replicate (suc n) = normal_replicate n

all-take :
    (n : ℕ) (s : Bytes)
    → all is_normal s ≡ true
    → (all is_normal (take n s) ≡ true) × (all is_normal (drop n s) ≡ true)
all-take n s h = &&-both _ _ (
    sym (all-append is_normal (take n s) (drop n s))
    ∙ ap (all is_normal) (take-append-drop n s)
    ∙ h)

normalize_space : (s : Bytes) → normalize (32 ∷ s) ≡ normalize s
unfolding normalize
normalize_space s = refl

-- The groups of four, with their spaces dropped again.
normalize-groups :
    (fuel : ℕ) (s : Bytes)
    → length s ≤ fuel
    → all is_normal s ≡ true
    → normalize (groups fuel s) ≡ s
unfolding groups
normalize-groups zero [] h n = unfold normalize in refl
normalize-groups zero (c ∷ s) h n = absurd (omega arith)
normalize-groups (suc fuel) [] h n = unfold normalize in refl
normalize-groups (suc fuel) (c ∷ s) h n =
    let (front, back) = all-take 4 (c ∷ s) n in
    normalize_space (take 4 (c ∷ s) ++ groups fuel (drop 4 (c ∷ s)))
    ∙ normalize-append (take 4 (c ∷ s)) (groups fuel (drop 4 (c ∷ s)))
    ∙ ap₂ ◌++◌ (normalize_of_all (take 4 (c ∷ s)) front)
        (normalize-groups fuel (drop 4 (c ∷ s)) (omega (arith, length-drop 4 (c ∷ s))) back)
    ∙ take-append-drop 4 (c ∷ s)

-- The printed form of a normalised text is read back as that text.
pub normalize-formatted : (i : Iban) → all is_normal i.raw ≡ true → normalize (formatted i) ≡ i.raw
unfolding formatted
normalize-formatted i n =
    let (front, back) = all-take 4 i.raw n in
    normalize-append (take 4 i.raw) _
    ∙ ap₂ ◌++◌ (normalize_of_all (take 4 i.raw) front)
        (normalize-groups (length i.raw) (drop 4 i.raw) (omega (arith, length-drop 4 i.raw)) back)
    ∙ take-append-drop 4 i.raw
