-- ===== src/Text/Hex.antt =====
-- `hex.DecodeString` and `strings.ToLower`, as far as the sources ask whether they succeed.
use persona.Base.{ℕ, ◌%◌, Bool, true, ◌&&◌, ◌||◌, [], ◌∷◌, leb, ◌==◌, length, map}
use persona.Text.Compare.{Bytes, equal, lower}

abbrev pub is_hex_digit : ℕ → Bool
is_hex_digit c =
    leb b'0' c && leb c b'9' || (leb b'a' c && leb c b'f') || (leb b'A' c && leb c b'F')

unfoldable pub all_hex : Bytes → Bool
all_hex [] = true
all_hex (c ∷ s) = is_hex_digit c && all_hex s

-- `_, err := hex.DecodeString(s); err == nil`
unfoldable pub is_hex : Bytes → Bool
unfolding all_hex
is_hex s = all_hex s && length s % 2 == 0

-- `strings.ToLower(s) == s`, for a text of hexadecimal digits
unfoldable pub is_lower : Bytes → Bool
is_lower s = equal (map lower s) s
