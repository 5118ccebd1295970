-- ===== src/Text/Unquote.antt =====
-- `strconv.Unquote` at a double-quoted text.
use persona.Base.{
  ℕ, zero, suc, ◌+◌, ◌-◌, ◌*◌, Bool, ◌&&◌, ◌||◌, [], ◌∷◌, ◌++◌, Option, none, some, leb, ◌==◌,
  if◌then◌else◌, length,
}
use persona.Text.Compare.{Bytes}
use persona.Text.Utf8.{take_rune, valid_rune, encode_rune}

-- `unhex`
hex_value : ℕ → Option ℕ
hex_value c =
    if leb b'0' c && leb c b'9'
    then some (c - b'0')
    else if leb b'a' c && leb c b'f'
    then some (c - b'a' + 10)
    else if leb b'A' c && leb c b'F'
    then some (c - b'A' + 10)
    else none

-- the value of the next `n` hexadecimal digits, and the rest
hex_digits : ℕ → ℕ → Bytes → Option (ℕ × Bytes)
unfolding hex_value
hex_digits zero v s = some (v, s)
hex_digits (suc n) v [] = none
hex_digits (suc n) v (c ∷ s) = elim (hex_value c) [
  | none ↦ none
  | some x ↦ hex_digits n (v * 16 + x) s
]

abbrev is_octal : ℕ → Bool
is_octal c = leb b'0' c && leb c b'7'

-- `\ooo`: exactly three digits, and a byte
octal_escape : ℕ → Bytes → Option (Bytes × Bytes)
octal_escape c (d ∷ e ∷ s) =
    let v = ((c - b'0') * 8 + (d - b'0')) * 8 + (e - b'0') in
    if is_octal d && is_octal e && leb v 255 then some (v ∷ [], s) else none
octal_escape c _ = none

hex_byte : Option (ℕ × Bytes) → Option (Bytes × Bytes)
hex_byte none = none
hex_byte (some (v, s)) = some (v ∷ [], s)

hex_rune : Option (ℕ × Bytes) → Option (Bytes × Bytes)
hex_rune none = none
hex_rune (some (v, s)) = if valid_rune v then some (encode_rune v, s) else none

-- what stands behind a backslash, as `strconv.UnquoteChar` reads it
unfoldable pub escape_char : Bytes → Option (Bytes × Bytes)
unfolding hex_digits octal_escape hex_byte hex_rune
escape_char [] = none
escape_char (c ∷ s) =
    if c == b'a'
    then some (7 ∷ [], s)
    else if c == b'b'
    then some (8 ∷ [], s)
    else if c == b'f'
    then some (12 ∷ [], s)
    else if c == b'n'
    then some (10 ∷ [], s)
    else if c == b'r'
    then some (13 ∷ [], s)
    else if c == b't'
    then some (9 ∷ [], s)
    else if c == b'v'
    then some (11 ∷ [], s)
    else if c == b'x'
    then hex_byte (hex_digits 2 0 s)
    else if c == b'u'
    then hex_rune (hex_digits 4 0 s)
    else if c == b'U'
    then hex_rune (hex_digits 8 0 s)
    else if is_octal c
    then octal_escape c s
    else if c == b'\\' || c == b'"'
    then some (c ∷ [], s)
    else none

-- `strconv.UnquoteChar` at the quote `"`; a raw newline is refused as well
unfoldable pub unquote_char : ℕ → Bytes → Option (Bytes × Bytes)
unquote_char c s =
    if leb 128 c
    then some (take_rune c s)
    else if c == b'\\'
    then escape_char s
    else if c == 10
    then none
    else some (c ∷ [], s)

closed : Bytes → Option Bytes
closed [] = some []
closed (c ∷ s) = none

prepend : Bytes → Option Bytes → Option Bytes
prepend p none = none
prepend p (some q) = some (p ++ q)

follow : (Bytes → Option Bytes) → Option (Bytes × Bytes) → Option Bytes
unfolding prepend
follow k none = none
follow k (some (p, s)) = prepend p (k s)

-- The loop up to the closing quote, which must be the last byte. Each round takes a byte at least,
-- so the length of the text is fuel enough.
unfoldable pub unquote_body : ℕ → Bytes → Option Bytes
unfolding closed follow
unquote_body zero s = none
unquote_body (suc f) [] = none
unquote_body (suc f) (c ∷ s) =
    if c == b'"' then closed s else follow (unquote_body f) (unquote_char c s)

-- `strconv.Unquote`; `none` is its error
unfoldable pub unquote : Bytes → Option Bytes
unfolding unquote_body
unquote [] = none
unquote (c ∷ s) = if c == b'"' then unquote_body (length s) s else none
