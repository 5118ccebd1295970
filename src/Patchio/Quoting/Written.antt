-- ===== src/Patchio/Quoting/Written.antt =====
-- How git writes a name in a patch (`core.quotePath` on): as it is, or in quotes with its special
-- bytes escaped.
use persona.Base.{ℕ, ◌+◌, ◌/◌, ◌%◌, Bool, false, ◌||◌, [], ◌∷◌, ◌++◌, ltb, leb, ◌==◌, if◌then◌else◌}
use persona.Text.Compare.{Bytes, contains_byte}

abbrev pub backslashed : ℕ → Bytes
backslashed c = b'\\' ∷ c ∷ []

unfoldable pub escape_byte : ℕ → Bytes
escape_byte c =
    if c == 7
    then backslashed b'a'
    else if c == 8
    then backslashed b'b'
    else if c == 9
    then backslashed b't'
    else if c == 10
    then backslashed b'n'
    else if c == 11
    then backslashed b'v'
    else if c == 12
    then backslashed b'f'
    else if c == 13
    then backslashed b'r'
    else if c == b'"'
    then backslashed b'"'
    else if c == b'\\'
    then backslashed b'\\'
    else if ltb c 32 || leb 127 c
    then b'\\' ∷ (b'0' + c / 64) ∷ (b'0' + c / 8 % 8) ∷ (b'0' + c % 8) ∷ []
    else c ∷ []

unfoldable pub escape : Bytes → Bytes → Bytes
escape [] rest = rest
escape (c ∷ s) rest = escape_byte c ++ escape s rest

-- the bytes for which git quotes a name
unfoldable pub is_special : ℕ → Bool
is_special c = c == b'"' || c == b'\\' || ltb c 32 || leb 127 c

unfoldable pub has_special : Bytes → Bool
has_special [] = false
has_special (c ∷ s) = is_special c || has_special s

unfoldable pub quoted : Bytes → Bytes → Bytes
quoted name rest = b'"' ∷ escape name (b'"' ∷ rest)

unfoldable pub git_name : Bytes → Bytes
unfolding has_special quoted
git_name name = if has_special name then quoted name [] else name

-- behind `--- ` and `+++ ` a name with a space in it is followed by a tab
unfoldable pub git_header : Bytes → Bytes
git_header name = git_name name ++ (if contains_byte name b' ' then 9 ∷ 10 ∷ [] else 10 ∷ [])
