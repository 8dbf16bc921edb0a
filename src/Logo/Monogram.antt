-- ===== src/Logo/Monogram.antt =====
-- internal/logo/monogram.go: the initials of a name, the colour of a bank, and the escaping of a text for SVG. What package
-- `unicode` tells of a character is a parameter.
use Prim.Native.Nat.{bit_xor}
use iban_pizza.Prelude.{
  ℕ, ◌*◌, ◌%◌, ◌^◌, Bool, false, not, ◌||◌, List, [], ◌∷◌, ◌++◌, if◌then◌else◌, ◌==◌, leb, length,
  take, map, get_or,
}
use iban_pizza.Prelude.Text.{Bytes, codes, bytes_eq, to_upper, is_empty}
use iban_pizza.BankData.Store.{keep}
use iban_pizza.Sources.Encoding.{runes, encode_utf8, push_front}

-- `palette`
abbrev pub palette : List Bytes
palette =
    codes "#1f4e79"
    ∷ codes "#2e6b4f"
    ∷ codes "#7a3b2e"
    ∷ codes "#4a3b73"
    ∷ codes "#8a5a1a"
    ∷ codes "#1f5f6b"
    ∷ codes "#6b2f4a"
    ∷ codes "#3d5a1f"
    ∷ codes "#54407a"
    ∷ codes "#7a2f2f"
    ∷ codes "#25566b"
    ∷ codes "#5a4a1f"
    ∷ []

-- The words that are skipped.
abbrev pub skipped_words : List Bytes
skipped_words =
    codes "ag"
    ∷ codes "eg"
    ∷ codes "gmbh"
    ∷ codes "kg"
    ∷ codes "kgaa"
    ∷ codes "mbh"
    ∷ codes "co"
    ∷ codes "se"
    ∷ codes "sa"
    ∷ codes "nv"
    ∷ codes "as"
    ∷ codes "plc"
    ∷ codes "ltd"
    ∷ codes "und"
    ∷ codes "der"
    ∷ codes "die"
    ∷ codes "das"
    ∷ codes "van"
    ∷ codes "de"
    ∷ []

unfoldable pub is_among : Bytes → List Bytes → Bool
is_among s [] = false
is_among s (t ∷ words) = bytes_eq t s || is_among s words

-- `unicode.IsLetter`, `IsDigit`, `ToUpper` and `ToLower`
pub record Unicode : Type 0 where
  pub is_letter : ℕ → Bool
  pub is_digit : ℕ → Bool
  pub upper : ℕ → ℕ
  pub lower : ℕ → ℕ

-- `strings.FieldsFunc` with what is neither letter nor digit between the fields
unfoldable pub parts : (ℕ → Bool) → List ℕ → List (List ℕ)
parts inside [] = [] ∷ []
parts inside (r ∷ rs) =
    let rest = parts inside rs in if inside r then push_front r rest else [] ∷ rest

unfoldable pub fields : Unicode → List ℕ → List (List ℕ)
fields u rs = keep (λ f. not (is_empty f)) (parts (λ r. u.is_letter r || u.is_digit r) rs)

-- The fields that are not skipped.
unfoldable pub telling_fields : Unicode → List ℕ → List (List ℕ)
telling_fields u rs =
    keep (λ f. not (is_among (encode_utf8 (map u.lower f)) skipped_words)) (fields u rs)

abbrev pub first_upper : Unicode → List ℕ → ℕ
first_upper u f = u.upper (get_or f 0 0)

-- The first telling field of two characters or more, or the one that there is.
abbrev pub two_letters : Unicode → List ℕ → List (List ℕ) → List ℕ
two_letters u picked [] = picked
two_letters u picked (f ∷ rest) =
    if leb 2 (length f)
    then u.upper (get_or f 0 0) ∷ u.lower (get_or f 1 0) ∷ []
    else two_letters u picked rest

abbrev pub initials_of : Unicode → List (List ℕ) → List ℕ → List ℕ
initials_of u telling [] = b'?' ∷ []
initials_of u telling (r ∷ []) = two_letters u (r ∷ []) telling
initials_of u telling (r ∷ q ∷ picked) = r ∷ q ∷ picked

-- `initials`; the loop ends at two
unfoldable pub initials : Unicode → Bytes → Bytes
initials u name =
    let telling = telling_fields u (runes name) in
    encode_utf8 (initials_of u telling (take 2 (map (first_upper u) telling)))

-- `fnv.New32a`: the hash of 32 bits, from its offset
unfoldable pub fnv_from : ℕ → Bytes → ℕ
fnv_from h [] = h
fnv_from h (c ∷ s) = fnv_from (bit_xor h c * 16777619 % 2 ^ 32) s

-- `pickColour`
unfoldable pub pick_colour : Bytes → Bytes
pick_colour seed = get_or palette (fnv_from 2166136261 (to_upper seed) % length palette) []

-- `Monogram` and `NewMonogram`
pub record Monogram : Type 0 where
  pub initials_shown : Bytes
  pub background : Bytes
  pub foreground : Bytes

unfoldable pub new_monogram : Unicode → Bytes → Bytes → Monogram
new_monogram u name bic = record {
  initials_shown = initials u name;
  background = pick_colour (bic ++ name);
  foreground = codes "#ffffff";
}

-- `escapeXML`
abbrev pub escape_char : ℕ → Bytes
escape_char c =
    if c == b'&'
    then codes "&amp;"
    else if c == b'<'
    then codes "&lt;"
    else if c == b'>'
    then codes "&gt;"
    else if c == 34
    then codes "&quot;"
    else if c == 39
    then codes "&apos;"
    else c ∷ []

unfoldable pub escape_xml : Bytes → Bytes
escape_xml [] = []
escape_xml (c ∷ s) = escape_char c ++ escape_xml s
