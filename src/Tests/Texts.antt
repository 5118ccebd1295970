-- ===== src/Tests/Texts.antt =====
-- Runs of the functions that stand for Go's bytes, strings and strconv.
use persona.Base.{◌≡◌, refl, [], ◌∷◌, none, some}
use persona.Text.Compare.{codes}
use persona.Text.Number.{parse_uint}
use persona.Text.Utf8.{take_rune, encode_rune, valid_rune}
use persona.Text.Unquote.{unquote, unquote_char, escape_char}

test_euro : encode_rune 0x20ac ≡ 0xe2 ∷ 0x82 ∷ 0xac ∷ []
unfolding encode_rune
test_euro = refl

test_rune : take_rune 0xe2 (0x82 ∷ 0xac ∷ 0x41 ∷ []) ≡ (0xe2 ∷ 0x82 ∷ 0xac ∷ [], 0x41 ∷ [])
unfolding take_rune
test_rune = refl

test_unquote :
    unquote (codes "\"a\\tb\\303\\251 \\x41\\u20ac\"")
    ≡ some (b'a' ∷ 9 ∷ b'b' ∷ 0xc3 ∷ 0xa9 ∷ b' ' ∷ b'A' ∷ 0xe2 ∷ 0x82 ∷ 0xac ∷ [])
unfolding unquote unquote_char escape_char encode_rune valid_rune
test_unquote = refl

test_unquote_open : (unquote (codes "\"ab") ≡ none) × (unquote (codes "\"a\\\"") ≡ none)
unfolding unquote unquote_char escape_char
test_unquote_open = (refl, refl)

test_uint : parse_uint 10 63 (codes "9223372036854775807") ≡ some 9223372036854775807
unfolding parse_uint
test_uint = refl

test_overflow : parse_uint 10 63 (codes "9223372036854775808") ≡ none
unfolding parse_uint
test_overflow = refl
