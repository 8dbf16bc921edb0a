-- ===== src/Sources/Encoding.antt =====
-- internal/sources/encoding.go: the text of a registry file. A text is its UTF-8 bytes; `decode_utf8` is the
-- list of its code points, as `[]rune` gives it, and none where the bytes are not valid UTF-8.
use iban_pizza.Prelude.{
  ℕ, ◌+◌, ◌-◌, ◌*◌, ◌/◌, ◌%◌, Bool, true, false, not, ◌&&◌, List, [], ◌∷◌, ◌++◌, Option, none, some,
  leb, ltb, ◌==◌, if◌then◌else◌, length, take, drop,
}
use iban_pizza.Prelude.Text.{Bytes, trim_space, has_prefix}

-- `utf8.AppendRune`, for a code point that is not a surrogate
unfoldable pub encode_rune : ℕ → Bytes
encode_rune r =
    if ltb r 128
    then r ∷ []
    else if ltb r 2048
    then (192 + r / 64) ∷ (128 + r % 64) ∷ []
    else if ltb r 65536
    then (224 + r / 4096) ∷ (128 + r / 64 % 64) ∷ (128 + r % 64) ∷ []
    else (240 + r / 262144) ∷ (128 + r / 4096 % 64) ∷ (128 + r / 64 % 64) ∷ (128 + r % 64) ∷ []

-- `string(runes)`
unfoldable pub encode_utf8 : List ℕ → Bytes
encode_utf8 [] = []
encode_utf8 (r ∷ rs) = encode_rune r ++ encode_utf8 rs

-- What a first byte asks for: how many bytes are to follow, the range of the next one, and the bits of
-- the code point so far.
pub record Lead : Type 0 where
  pub left : ℕ
  pub low : ℕ
  pub high : ℕ
  pub bits : ℕ

abbrev pub lead : ℕ → ℕ → ℕ → ℕ → Option Lead
lead left low high bits = some (record { left = left; low = low; high = high; bits = bits })

abbrev pub within : ℕ → ℕ → ℕ → Bool
within low high c = leb low c && leb c high

unfoldable pub first_byte : ℕ → Option Lead
first_byte c =
    if within 194 223 c
    then lead 1 128 191 (c - 192)
    else if c == 224
    then lead 2 160 191 0
    else if c == 237
    then lead 2 128 159 13
    else if within 225 239 c
    then lead 2 128 191 (c - 224)
    else if c == 240
    then lead 3 144 191 0
    else if within 241 243 c
    then lead 3 128 191 (c - 240)
    else if c == 244
    then lead 3 128 143 4
    else none

abbrev pub and_rune {ℓ} : {A : Type ℓ} → A → Option (List A) → Option (List A)
and_rune a none = none
and_rune a (some l) = some (a ∷ l)

-- What a byte does, at the start of a code point or inside one.
pub data Step : Type 0 where
  bad : Step
  complete : ℕ → Step
  more : Lead → Step

abbrev pub begin : Option Lead → Step
begin none = bad
begin (some l) = more l

abbrev pub step : Option Lead → ℕ → Step
step none c = if ltb c 128 then complete c else begin (first_byte c)
step (some l) c =
    if not (within l.low l.high c)
    then bad
    else if leb l.left 1
    then complete (l.bits * 64 + (c - 128))
    else more (record { left = l.left - 1; low = 128; high = 191; bits = l.bits * 64 + (c - 128) })

abbrev pub state_of : Step → Option Lead
state_of bad = none
state_of (complete r) = none
state_of (more l) = some l

abbrev pub with_step : Step → Option (List ℕ) → Option (List ℕ)
with_step bad rest = none
with_step (complete r) rest = and_rune r rest
with_step (more l) rest = rest

unfoldable pub decode_from : Option Lead → Bytes → Option (List ℕ)
decode_from none [] = some []
decode_from (some l) [] = none
decode_from state (c ∷ s) = with_step (step state c) (decode_from (state_of (step state c)) s)

unfoldable pub decode_utf8 : Bytes → Option (List ℕ)
decode_utf8 = decode_from none

-- `utf8.Valid`
abbrev pub is_decoded : Option (List ℕ) → Bool
is_decoded none = false
is_decoded (some rs) = true

unfoldable pub valid_utf8 : Bytes → Bool
valid_utf8 s = is_decoded (decode_utf8 s)

abbrev pub or_nil : Option (List ℕ) → List ℕ
or_nil none = []
or_nil (some rs) = rs

-- `[]rune(s)`, of a text that is valid UTF-8
unfoldable pub runes : Bytes → List ℕ
runes s = or_nil (decode_utf8 s)

unfoldable pub all_ascii : Bytes → Bool
all_ascii [] = true
all_ascii (c ∷ b) = ltb c 128 && all_ascii b

-- `DecodeLatin1`
unfoldable pub decode_latin1 : Bytes → Bytes
decode_latin1 b = if all_ascii b then b else encode_utf8 b

-- `bytes.TrimPrefix` of the byte order mark
unfoldable pub trim_bom : Bytes → Bytes
trim_bom b = if has_prefix b (239 ∷ 187 ∷ 191 ∷ []) then drop 3 b else b

-- `DecodeAuto`
unfoldable pub decode_auto : Bytes → Bytes
decode_auto b = let t = trim_bom b in if valid_utf8 t then t else decode_latin1 t

-- The two replacements of `SplitLines`: a carriage return before a line feed is dropped, any other
-- becomes a line feed.
abbrev pub starts_line_feed : Bytes → Bool
starts_line_feed [] = false
starts_line_feed (c ∷ s) = c == b'\n'

unfoldable pub unify_ends : Bytes → Bytes
unify_ends [] = []
unify_ends (c ∷ s) =
    let rest = unify_ends s in
    if not (c == b'\r') then c ∷ rest else if starts_line_feed s then rest else b'\n' ∷ rest

abbrev pub push_front : ℕ → List Bytes → List Bytes
push_front c [] = (c ∷ []) ∷ []
push_front c (line ∷ lines) = (c ∷ line) ∷ lines

-- `strings.Split(s, "\n")`
unfoldable pub split_at_ends : Bytes → List Bytes
split_at_ends [] = [] ∷ []
split_at_ends (c ∷ s) =
    let rest = split_at_ends s in if c == b'\n' then [] ∷ rest else push_front c rest

-- The last line is dropped if it is empty.
unfoldable pub drop_last_empty : List Bytes → List Bytes
drop_last_empty [] = []
drop_last_empty ([] ∷ []) = []
drop_last_empty (line ∷ lines) = line ∷ drop_last_empty lines

-- `SplitLines`
unfoldable pub split_lines : Bytes → List Bytes
split_lines s = drop_last_empty (split_at_ends (unify_ends s))

-- `runeSlice`
unfoldable pub rune_slice : List ℕ → ℕ → ℕ → Bytes
rune_slice r start end =
    if leb (length r) start then [] else trim_space (encode_utf8 (drop start (take end r)))
