-- ===== src/Text/Compare.antt =====
-- Equality, prefixes and trimming of byte strings (packages bytes and strings of Go).
use Prim.Native.Char.{code}
use Prim.Native.String.{String}
use persona.Base.{
  ℕ, ◌+◌, ◌≡◌, refl, ◌↔◌, Bool, true, false, ◌&&◌, ◌||◌, List, [], ◌∷◌, ◌++◌, arith, length, drop,
  leb, ◌==◌, if◌then◌else◌, ==_refl,
}

abbrev pub Bytes : Type 0
Bytes = List ℕ

-- the code points of a literal; these are its bytes, as every literal here is ASCII
abbrev pub codes : String → Bytes
codes String.[] = []
codes (String.◌∷◌ c s) = code c ∷ codes s

-- `bytes.Equal`, and `==` on strings
unfoldable pub equal : Bytes → Bytes → Bool
equal [] [] = true
equal [] (d ∷ t) = false
equal (c ∷ s) [] = false
equal (c ∷ s) (d ∷ t) = c == d && equal s t

pub equal_iff : (s t : Bytes) → (equal s t ≡ true) ↔ (s ≡ t)
unfolding equal
equal_iff [] [] = ground arith
equal_iff [] (d ∷ t) = ground arith
equal_iff (c ∷ s) [] = ground arith
equal_iff (c ∷ s) (d ∷ t) = ground (arith, equal_iff s t)

pub equal_refl : (a : Bytes) → equal a a ≡ true
equal_refl a = (equal_iff a a).1 refl

-- `HasPrefix(s, prefix)`
unfoldable pub has_prefix : Bytes → Bytes → Bool
has_prefix s [] = true
has_prefix [] (p ∷ ps) = false
has_prefix (c ∷ s) (p ∷ ps) = c == p && has_prefix s ps

pub has_prefix-drop : (s p : Bytes) → has_prefix s p ≡ true → s ≡ p ++ drop (length p) s
unfolding has_prefix
has_prefix-drop s [] h = refl
has_prefix-drop [] (p ∷ ps) h = cc
has_prefix-drop (c ∷ s) (p ∷ ps) h = ground (arith, has_prefix-drop s ps)

pub has_prefix-append : (p s : Bytes) → has_prefix (p ++ s) p ≡ true
unfolding has_prefix
has_prefix-append [] s = refl
has_prefix-append (c ∷ p) s = rw (==_refl c) (has_prefix-append p s)

-- `strings.Contains(s, string(b))` for one byte
unfoldable pub contains_byte : Bytes → ℕ → Bool
contains_byte [] b = false
contains_byte (c ∷ s) b = c == b || contains_byte s b

-- `TrimLeft(s, string(b))`
unfoldable pub trim_left : Bytes → ℕ → Bytes
trim_left [] b = []
trim_left (c ∷ s) b = if c == b then trim_left s b else c ∷ s

unfoldable pub keep_last : (ℕ → Bool) → ℕ → Bytes → Bytes
keep_last p c [] = if p c then [] else c ∷ []
keep_last p c (d ∷ r) = c ∷ d ∷ r

-- `TrimRightFunc(s, p)`
unfoldable pub trim_right : (ℕ → Bool) → Bytes → Bytes
trim_right p [] = []
trim_right p (c ∷ s) = keep_last p c (trim_right p s)

-- `TrimLeftFunc(s, p)`
unfoldable pub trim_left_func : (ℕ → Bool) → Bytes → Bytes
trim_left_func p [] = []
trim_left_func p (c ∷ s) = if p c then trim_left_func p s else c ∷ s

-- `TrimFunc(s, p)`
unfoldable pub trim_func : (ℕ → Bool) → Bytes → Bytes
trim_func p s = trim_right p (trim_left_func p s)

-- `unicode.IsSpace` on ASCII
unfoldable pub is_space : ℕ → Bool
is_space c = c == b' ' || (leb 9 c && leb c 13)

-- `TrimSpace(s)`, on ASCII white space
unfoldable pub trim_space : Bytes → Bytes
trim_space s = trim_func is_space s

-- `ToLower` of an ASCII byte
unfoldable pub lower : ℕ → ℕ
lower c = if leb b'A' c && leb c b'Z' then c + 32 else c

-- A text begins with one of two prefixes at most, unless one of them begins with the other.
pub has_prefix_exclusive :
    (s p q : Bytes)
    → has_prefix p q ≡ false
    → has_prefix q p ≡ false
    → has_prefix s p ≡ true
    → has_prefix s q ≡ false
unfolding has_prefix
has_prefix_exclusive s [] [] h k e = absurd (ground arith)
has_prefix_exclusive s [] (d ∷ q) h k e = absurd (ground arith)
has_prefix_exclusive s (c ∷ p) [] h k e = absurd (ground arith)
has_prefix_exclusive [] (c ∷ p) (d ∷ q) h k e = refl
has_prefix_exclusive (b ∷ s) (c ∷ p) (d ∷ q) h k e = ground (arith, has_prefix_exclusive s p q)
