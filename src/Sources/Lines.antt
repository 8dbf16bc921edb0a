-- ===== src/Sources/Lines.antt =====
-- What `SplitLines` returns for a text of lines that end in a line feed, or in a carriage return and one.
use iban_pizza.Prelude.{
  append_assoc, ℕ, Bool, true, false, not, ◌&&◌, List, [], ◌∷◌, ◌++◌, ◌==◌, if◌then◌else◌, ◌≡◌,
  refl, ap, ◌∙◌, arith, all, &&-both,
}
use iban_pizza.Prelude.Text.{Bytes, is_empty}
use iban_pizza.Sources.Encoding.{unify_ends, split_at_ends, drop_last_empty, split_lines}

abbrev pub is_plain : ℕ → Bool
is_plain c = not (c == b'\n') && not (c == b'\r')

-- The lines of a text, each with whether a carriage return stands before its line feed.
abbrev pub line_end : Bool → Bytes
line_end true = b'\r' ∷ b'\n' ∷ []
line_end false = b'\n' ∷ []

abbrev pub written : List (Bytes × Bool) → Bytes → Bytes
written [] last = last
written ((line, e) ∷ lines) last = line ++ line_end e ++ written lines last

abbrev pub with_feeds : List (Bytes × Bool) → Bytes → Bytes
with_feeds [] last = last
with_feeds ((line, e) ∷ lines) last = line ++ b'\n' ∷ with_feeds lines last

abbrev pub lines_of : List (Bytes × Bool) → List Bytes
lines_of [] = []
lines_of ((line, e) ∷ lines) = line ∷ lines_of lines

abbrev pub all_plain : List (Bytes × Bool) → Bool
all_plain [] = true
all_plain ((line, e) ∷ lines) = all is_plain line && all_plain lines

-- A last line that no line feed ends, if it is not empty.
abbrev pub last_line : Bytes → List Bytes
last_line last = if is_empty last then [] else last ∷ []

unify_ends-append :
    (line rest : Bytes)
    → all is_plain line ≡ true
    → unify_ends (line ++ rest) ≡ line ++ unify_ends rest
unfolding unify_ends
unify_ends-append [] rest h = refl
unify_ends-append (c ∷ line) rest h =
    let (hc, hl) = &&-both (is_plain c) (all is_plain line) h in
    let (n, r) = &&-both (not (c == b'\n')) (not (c == b'\r')) hc in
    rw (r, unify_ends-append line rest hl)

unify_ends-plain : (line : Bytes) → all is_plain line ≡ true → unify_ends line ≡ line
unfolding unify_ends
unify_ends-plain [] h = refl
unify_ends-plain (c ∷ line) h =
    let (hc, hl) = &&-both (is_plain c) (all is_plain line) h in
    let (n, r) = &&-both (not (c == b'\n')) (not (c == b'\r')) hc in
    rw (r, unify_ends-plain line hl)

unify_ends-line_end :
    (e : Bool) (rest : Bytes) → unify_ends (line_end e ++ rest) ≡ b'\n' ∷ unify_ends rest
unfolding unify_ends
unify_ends-line_end true rest = refl
unify_ends-line_end false rest = refl

unify_ends-written :
    (lines : List (Bytes × Bool)) (last : Bytes)
    → all_plain lines ≡ true
    → all is_plain last ≡ true
    → unify_ends (written lines last) ≡ with_feeds lines last
unify_ends-written [] last h hl = unify_ends-plain last hl
unify_ends-written ((line, e) ∷ lines) last h hl =
    let (hc, hr) = &&-both (all is_plain line) (all_plain lines) h in
    let parts : written ((line, e) ∷ lines) last ≡ line ++ (line_end e ++ written lines last) =
      append_assoc line (line_end e) (written lines last) in
    ap unify_ends parts
    ∙ unify_ends-append line (line_end e ++ written lines last) hc
    ∙ ap (λ t. line ++ t)
        (unify_ends-line_end e (written lines last)
          ∙ ap (λ t. b'\n' ∷ t) (unify_ends-written lines last hr hl))

split_at_ends-append :
    (line rest : Bytes)
    → all is_plain line ≡ true
    → split_at_ends (line ++ b'\n' ∷ rest) ≡ line ∷ split_at_ends rest
unfolding split_at_ends
split_at_ends-append [] rest h = refl
split_at_ends-append (c ∷ line) rest h =
    let (hc, hl) = &&-both (is_plain c) (all is_plain line) h in
    let feed : (c == b'\n') ≡ false = ground (arith, hc) in
    rw (feed, split_at_ends-append line rest hl)

split_at_ends_plain : (line : Bytes) → all is_plain line ≡ true → split_at_ends line ≡ line ∷ []
unfolding split_at_ends
split_at_ends_plain [] h = refl
split_at_ends_plain (c ∷ line) h =
    let (hc, hl) = &&-both (is_plain c) (all is_plain line) h in
    let feed : (c == b'\n') ≡ false = ground (arith, hc) in rw (feed, split_at_ends_plain line hl)

split_at_ends-with_feeds :
    (lines : List (Bytes × Bool)) (last : Bytes)
    → all_plain lines ≡ true
    → all is_plain last ≡ true
    → split_at_ends (with_feeds lines last) ≡ lines_of lines ++ last ∷ []
split_at_ends-with_feeds [] last h hl = split_at_ends_plain last hl
split_at_ends-with_feeds ((line, e) ∷ lines) last h hl =
    let (hc, hr) = &&-both (all is_plain line) (all_plain lines) h in
    split_at_ends-append line (with_feeds lines last) hc
    ∙ ap (λ t. line ∷ t) (split_at_ends-with_feeds lines last hr hl)

drop_last_empty-last_line :
    (lines : List Bytes) (last : Bytes)
    → drop_last_empty (lines ++ last ∷ []) ≡ lines ++ last_line last
unfolding drop_last_empty
drop_last_empty-last_line [] [] = refl
drop_last_empty-last_line [] (c ∷ last) = refl
drop_last_empty-last_line ([] ∷ []) last = ap (λ t. [] ∷ t) (drop_last_empty-last_line [] last)
drop_last_empty-last_line ([] ∷ line ∷ lines) last =
    ap (λ t. [] ∷ t) (drop_last_empty-last_line (line ∷ lines) last)
drop_last_empty-last_line ((c ∷ line) ∷ lines) last =
    ap (λ t. (c ∷ line) ∷ t) (drop_last_empty-last_line lines last)

-- A text of lines that each end in a line feed, or in a carriage return and a line feed, and of a last
-- line that nothing ends: if no line has one of the two in it, `SplitLines` returns the lines in their
-- order without their ends, and the last line only if it is not empty.
pub split_lines-written :
    (lines : List (Bytes × Bool)) (last : Bytes)
    → all_plain lines ≡ true
    → all is_plain last ≡ true
    → split_lines (written lines last) ≡ lines_of lines ++ last_line last
unfolding split_lines
split_lines-written lines last h hl =
    ap (λ t. drop_last_empty (split_at_ends t)) (unify_ends-written lines last h hl)
    ∙ ap drop_last_empty (split_at_ends-with_feeds lines last h hl)
    ∙ drop_last_empty-last_line (lines_of lines) last
