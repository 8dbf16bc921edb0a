-- ===== src/Sources/Decoded.antt =====
-- What the decoding of a file gives: valid text, and of a Latin-1 file the characters of its bytes.
use iban_pizza.Prelude.{
  ℕ, zero, suc, drop, true, false, inl, inr, ◌⊎◌, ◌+◌, ◌*◌, ◌/◌, ◌%◌, ◌<◌, Bool, [], ◌∷◌, ◌++◌,
  none, some, ltb, ◌≡◌, refl, ap, ◌∙◌, arith, all, Bool-cases, &&-both,
}
use iban_pizza.Prelude.Text.{has_prefix, Bytes}
use iban_pizza.Sources.Encoding.{
  complete, more, encode_rune, encode_utf8, Lead, first_byte, and_rune, step, decode_from,
  decode_utf8, valid_utf8, runes, all_ascii, decode_latin1, trim_bom, decode_auto,
}

abbrev pub is_byte : ℕ → Bool
is_byte c = ltb c 256

high_first :
    (q : ℕ)
    → (q ≡ 2) ⊎ (q ≡ 3)
    → first_byte (192 + q) ≡ some (record { left = 1; low = 128; high = 191; bits = q })
unfolding first_byte
high_first q (inl e) = rw e
high_first q (inr e) = rw e

abbrev two_byte : ℕ → Lead
two_byte q = record { left = 1; low = 128; high = 191; bits = q }

step_first : (q : ℕ) → (q ≡ 2) ⊎ (q ≡ 3) → step none (192 + q) ≡ more (two_byte q)
step_first q h = let e = high_first q h in ground (arith, h, e)

step_second : (q x : ℕ) → x < 64 → step (some (two_byte q)) (128 + x) ≡ complete (q * 64 + x)
step_second q x h = ground (arith, h)

encode_high :
    (r : ℕ)
    → is_byte r ≡ true
    → ltb r 128 ≡ false
    → encode_rune r ≡ (192 + r / 64) ∷ (128 + r % 64) ∷ []
unfolding encode_rune
encode_high r h high = ground (arith, h, high)

half : (r : ℕ) → is_byte r ≡ true → ltb r 128 ≡ false → (r / 64 ≡ 2) ⊎ (r / 64 ≡ 3)
half r h high = ground (arith, h, high)

decode_two :
    (q x : ℕ) (rest : Bytes)
    → (q ≡ 2) ⊎ (q ≡ 3)
    → x < 64
    → decode_from none ((192 + q) ∷ (128 + x) ∷ rest)
      ≡ and_rune (q * 64 + x) (decode_from none rest)
unfolding decode_from
decode_two q x rest h small = rw (step_first q h, step_second q x small)

decode-encode_rune :
    (r : ℕ) (rest : Bytes)
    → is_byte r ≡ true
    → decode_from none (encode_rune r ++ rest) ≡ and_rune r (decode_from none rest)
unfolding decode_from encode_rune
decode-encode_rune r rest h = elim (Bool-cases (ltb r 128)) [
  | inl low ↦ rw (low, low)
  | inr high ↦
      let value : r / 64 * 64 + r % 64 ≡ r = omega arith in
      rw (encode_high r h high) (
        decode_two (r / 64) (r % 64) rest (half r h high) (omega arith)
        ∙ ap (λ n. and_rune n (decode_from none rest)) value)
]

-- A file of bytes that are characters of Latin-1 becomes a text with exactly these characters.
decode-encode_utf8 : (b : Bytes) → all is_byte b ≡ true → decode_utf8 (encode_utf8 b) ≡ some b
unfolding decode_utf8 encode_utf8
decode-encode_utf8 [] h = unfold decode_from in refl
decode-encode_utf8 (r ∷ b) h =
    let (hr, hb) = &&-both _ _ h in
    decode-encode_rune r (encode_utf8 b) hr ∙ rw (decode-encode_utf8 b hb)

decode_ascii : (b : Bytes) → all_ascii b ≡ true → decode_utf8 b ≡ some b
unfolding decode_utf8 decode_from all_ascii
decode_ascii [] h = refl
decode_ascii (c ∷ b) h =
    let (low, rest) = &&-both (ltb c 128) (all_ascii b) h in rw (low, decode_ascii b rest)

-- The text that `DecodeLatin1` makes of a file has, as its characters, exactly the bytes of the file.
decode-decode_latin1 : (b : Bytes) → all is_byte b ≡ true → decode_utf8 (decode_latin1 b) ≡ some b
unfolding decode_latin1
decode-decode_latin1 b h = elim (Bool-cases (all_ascii b)) [
  | inl low ↦ rw low (decode_ascii b low)
  | inr high ↦ rw high (decode-encode_utf8 b h)
]

drop-all : (n : ℕ) (b : Bytes) → all is_byte b ≡ true → all is_byte (drop n b) ≡ true
drop-all zero b h = h
drop-all (suc n) [] h = refl
drop-all (suc n) (c ∷ b) h = drop-all n b (&&-both (is_byte c) (all is_byte b) h).1

trim_bom-all : (b : Bytes) → all is_byte b ≡ true → all is_byte (trim_bom b) ≡ true
unfolding trim_bom
trim_bom-all b h = elim (Bool-cases (has_prefix b (239 ∷ 187 ∷ 191 ∷ []))) [
  | inl marked ↦ rw marked (drop-all 3 b h)
  | inr bare ↦ rw bare h
]

-- `DecodeAuto` keeps a file, less its byte order mark, that is valid UTF-8 as it is; of any other file of
-- bytes it makes a valid text whose characters are exactly the bytes of the file, less its mark.
pub decode_auto-decode_utf8 :
    (b : Bytes)
    → all is_byte b ≡ true
    → ((valid_utf8 (trim_bom b) ≡ true) × (decode_auto b ≡ trim_bom b))
      ⊎ ((valid_utf8 (trim_bom b) ≡ false)
          × (valid_utf8 (decode_auto b) ≡ true)
          × (runes (decode_auto b) ≡ trim_bom b))
unfolding decode_auto
decode_auto-decode_utf8 b h = elim (Bool-cases (valid_utf8 (trim_bom b))) [
  | inl good ↦ inl (good, rw good)
  | inr broken ↦
      let read = decode-decode_latin1 (trim_bom b) (trim_bom-all b h) in
      inr (broken, rw broken (unfold valid_utf8 in rw read), rw broken (unfold runes in rw read))
]
