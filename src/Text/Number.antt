-- ===== src/Text/Number.antt =====
-- `strconv.Atoi`, and `strconv.ParseUint` for the bases 8 and 10: digits only, and the value fits the size.
use persona.Base.{
  ℕ, ◌+◌, ◌-◌, ◌*◌, ◌^◌, Bool, ◌&&◌, [], ◌∷◌, Option, none, some, ltb, leb, zero, suc, true, false,
  ◌==◌, ℤ, pos, negsuc, if◌then◌else◌,
}
use persona.Text.Compare.{Bytes}

-- a digit below the base, which is at most ten here
abbrev pub is_digit : ℕ → ℕ → Bool
is_digit base c = leb b'0' c && ltb c (b'0' + base)

scan : ℕ → ℕ → Bytes → ℕ → Option ℕ
scan base bound [] n = some n
scan base bound (c ∷ s) n =
    let m = n * base + (c - b'0') in
    let rest = scan base bound s m in if is_digit base c && ltb m bound then rest else none

-- `ParseUint(s, base, bits)`; `none` is its error
unfoldable pub parse_uint : ℕ → ℕ → Bytes → Option ℕ
unfolding scan
parse_uint base bits [] = none
parse_uint base bits (c ∷ s) = scan base (2 ^ bits) (c ∷ s) 0

-- a magnitude with its sign, which fits an int of 64 bits
signed : Bool → Option ℕ → Option ℤ
signed negative none = none
signed false (some n) = if ltb n (2 ^ 63) then some (pos n) else none
signed true (some zero) = some (pos 0)
signed true (some (suc n)) = if ltb n (2 ^ 63) then some (negsuc n) else none

-- `strconv.Atoi`
unfoldable pub atoi : Bytes → Option ℤ
unfolding signed
atoi [] = none
atoi (c ∷ s) =
    if c == b'-'
    then signed true (parse_uint 10 64 s)
    else if c == b'+'
    then signed false (parse_uint 10 64 s)
    else signed false (parse_uint 10 64 (c ∷ s))
