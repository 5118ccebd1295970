-- ===== src/Text/Utf8.antt =====
-- UTF-8 as Go's unicode/utf8 decodes and encodes it.
use persona.Base.{ℕ, ◌+◌, ◌/◌, ◌%◌, Bool, ◌&&◌, ◌||◌, [], ◌∷◌, ltb, leb, ◌==◌, if◌then◌else◌}
use persona.Text.Compare.{Bytes}

abbrev within : ℕ → ℕ → ℕ → Bool
within lo hi c = leb lo c && leb c hi

-- The range of the second byte behind the first byte of a sequence of two, three or four bytes.
second : ℕ → ℕ → Bool
second c d =
    if c == 0xe0
    then within 0xa0 0xbf d
    else if c == 0xed
    then within 0x80 0x9f d
    else if c == 0xf0
    then within 0x90 0xbf d
    else if c == 0xf4
    then within 0x80 0x8f d
    else within 0x80 0xbf d

-- What `utf8.DecodeRuneInString` reads and `utf8.AppendRune` writes back at a first byte from 0x80
-- up: the sequence itself, or the encoding of U+FFFD for one byte that begins none. With the rest.
unfoldable pub take_rune : ℕ → Bytes → Bytes × Bytes
unfolding second
take_rune c [] = (0xef ∷ 0xbf ∷ 0xbd ∷ [], [])
take_rune c (d ∷ []) =
    if within 0xc2 0xdf c && within 0x80 0xbf d
    then (c ∷ d ∷ [], [])
    else (0xef ∷ 0xbf ∷ 0xbd ∷ [], d ∷ [])
take_rune c (d ∷ e ∷ []) =
    if within 0xc2 0xdf c && within 0x80 0xbf d
    then (c ∷ d ∷ [], e ∷ [])
    else if within 0xe0 0xef c && second c d && within 0x80 0xbf e
    then (c ∷ d ∷ e ∷ [], [])
    else (0xef ∷ 0xbf ∷ 0xbd ∷ [], d ∷ e ∷ [])
take_rune c (d ∷ e ∷ f ∷ s) =
    if within 0xc2 0xdf c && within 0x80 0xbf d
    then (c ∷ d ∷ [], e ∷ f ∷ s)
    else if within 0xe0 0xef c && second c d && within 0x80 0xbf e
    then (c ∷ d ∷ e ∷ [], f ∷ s)
    else if within 0xf0 0xf4 c && second c d && within 0x80 0xbf e && within 0x80 0xbf f
    then (c ∷ d ∷ e ∷ f ∷ [], s)
    else (0xef ∷ 0xbf ∷ 0xbd ∷ [], d ∷ e ∷ f ∷ s)

-- `utf8.ValidRune`
unfoldable pub valid_rune : ℕ → Bool
valid_rune r = ltb r 0xd800 || (ltb 0xdfff r && leb r 0x10ffff)

-- `utf8.AppendRune`, at a valid rune
unfoldable pub encode_rune : ℕ → Bytes
encode_rune r =
    if ltb r 0x80
    then r ∷ []
    else if ltb r 0x800
    then (0xc0 + r / 64) ∷ (0x80 + r % 64) ∷ []
    else if ltb r 0x1_0000
    then (0xe0 + r / 4096) ∷ (0x80 + r / 64 % 64) ∷ (0x80 + r % 64) ∷ []
    else (0xf0 + r / 262144) ∷ (0x80 + r / 4096 % 64) ∷ (0x80 + r / 64 % 64) ∷ (0x80 + r % 64) ∷ []
