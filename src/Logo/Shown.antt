-- ===== src/Logo/Shown.antt =====
-- What a logo shows.
use iban_pizza.Prelude.{
  ℕ, Bool, true, false, not, ◌&&◌, List, [], ◌∷◌, Option, none, some, ◌==◌, all, all-append, ◌≡◌,
  ◌⊎◌, refl, sym, ◌∙◌, arith, Bool-cases, inl, inr,
}
use iban_pizza.Prelude.Text.{Bytes}
use iban_pizza.Prelude.Assoc.{get, bytes_key}
use iban_pizza.Logo.Brand.{
  institution_prefix, is_shared_space, Service, brand_by, brand_of, monogram_kind, brand_kind, Logo,
  resolved, logo_with, monogram_url, logo_for,
}
use iban_pizza.Logo.Monogram.{escape_char, escape_xml}

-- What a logo may be: it has no brand, and is the monogram; or it has the brand of the prefix, which is no shared space, and is the
-- monogram or what the resolver has for the brand.
abbrev pub IsLogo : Service → Bytes → Bytes → Bytes → Logo → Type 0
IsLogo s country bank_code bic l =
    ((l.brand ≡ none)
      × (l.kind ≡ monogram_kind)
      × (l.url ≡ monogram_url s.base_url country bank_code))
    ⊎ ((brand : Bytes) × (l.brand ≡ some brand)
        × (is_shared_space (institution_prefix bic) ≡ false)
        × (get (institution_prefix bic) s.brands ≡ some brand)
        × (((l.kind ≡ monogram_kind) × (l.url ≡ monogram_url s.base_url country bank_code))
            ⊎ ((l.kind ≡ brand_kind) × (resolved s.resolver bic (some brand) ≡ some l.url))))

brand_by_passed :
    (brands : List (Bytes × Bytes)) (prefix brand : Bytes)
    → brand_by brands prefix ≡ some brand
    → (is_shared_space prefix ≡ false) × (get prefix brands ≡ some brand)
brand_by_passed brands [] brand h = absurd (cc)
brand_by_passed brands (c ∷ prefix) brand h = elim (Bool-cases (is_shared_space (c ∷ prefix))) [
  | inl shared ↦ absurd (ground (arith, rw shared at h))
  | inr own ↦ (own, rw own at h)
]

unbranded : (r : Option (Bytes → Bytes → Option Bytes)) (bic : Bytes) → resolved r bic none ≡ none
unbranded none bic = refl
unbranded (some f) bic = refl

logo_with-IsLogo :
    (s : Service) (country bank_code bic : Bytes) (brand url : Option Bytes)
    → brand_of s bic ≡ brand
    → resolved s.resolver bic brand ≡ url
    → IsLogo s country bank_code bic
        (logo_with brand (monogram_url s.base_url country bank_code) url)
unfolding brand_of
logo_with-IsLogo s country bank_code bic none none h r = inl (refl, refl, refl)
logo_with-IsLogo s country bank_code bic none (some url) h r =
    let clash : none ≡ some url = sym (unbranded s.resolver bic) ∙ r in absurd (cc)
logo_with-IsLogo s country bank_code bic (some brand) none h r =
    let (own, known) = brand_by_passed s.brands (institution_prefix bic) brand h in
    inr (brand, refl, own, known, inl (refl, refl))
logo_with-IsLogo s country bank_code bic (some brand) (some url) h r =
    let (own, known) = brand_by_passed s.brands (institution_prefix bic) brand h in
    inr (brand, refl, own, known, inr (refl, r))

-- For any mapping of brands and any resolver, a bank gets the brand of its BIC prefix only if the prefix is no space that many
-- banks share, and artwork only if the resolver has it for that brand; every other bank gets the URL of
-- its own monogram.
pub logo_for-IsLogo :
    (s : Service) (country bank_code bic : Bytes)
    → IsLogo s country bank_code bic (logo_for s country bank_code bic)
unfolding logo_for
logo_for-IsLogo s country bank_code bic =
    logo_with-IsLogo s country bank_code bic (brand_of s bic)
      (resolved s.resolver bic (brand_of s bic)) refl refl

-- A character that has no meaning in SVG, or begins an entity.
abbrev pub is_inert : ℕ → Bool
is_inert c = not (c == b'<') && not (c == b'>') && not (c == 34) && not (c == 39)

escape_char-all : (c : ℕ) → all is_inert (escape_char c) ≡ true
escape_char-all c = ground arith

-- An escaped text has no angle bracket and no quote.
escape_xml-all : (s : Bytes) → all is_inert (escape_xml s) ≡ true
unfolding escape_xml
escape_xml-all [] = refl
escape_xml-all (c ∷ s) =
    all-append is_inert (escape_char c) (escape_xml s)
    ∙ rw (escape_char-all c, escape_xml-all s) refl
