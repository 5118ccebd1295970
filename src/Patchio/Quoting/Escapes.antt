-- ===== src/Patchio/Quoting/Escapes.antt =====
-- `unescapeGitPath` undoes the backslashes that it knows.
use persona.Base.{
  ℕ, ◌+◌, ◌/◌, ◌%◌, ◌≢◌, ◌≡◌, refl, ap, ◌∙◌, false, ◌||◌, [], ◌∷◌, ◌++◌, arith, ◌==◌, Bool-cases,
  inl, inr, All,
}
use persona.Text.Compare.{Bytes, contains_byte}
use persona.Patchio.Quoting.{plain, unescape, unescape_git_path}
use persona.Patchio.Quoting.Names.{IsByte}
use persona.Patchio.Quoting.Written.{escape_byte, escape}

-- A byte that git does not write as `\a`, `\b`, `\v` or `\f`, which this function does not know.
abbrev pub IsCommon : ℕ → Type 0
IsCommon c = IsByte c × (c ≢ 7) × (c ≢ 8) × (c ≢ 11) × (c ≢ 12)

unescape-octal :
    (c : ℕ) (s : Bytes)
    → IsByte c
    → unescape plain (b'\\' ∷ (b'0' + c / 64) ∷ (b'0' + c / 8 % 8) ∷ (b'0' + c % 8) ∷ s)
      ≡ c ∷ unescape plain s
unfolding unescape
unescape-octal c [] h = ground arith
unescape-octal c (d ∷ s) h = ground arith

unescape_pairs :
    (s : Bytes)
    → (unescape plain (b'\\' ∷ b't' ∷ s) ≡ 9 ∷ unescape plain s)
      × (unescape plain (b'\\' ∷ b'n' ∷ s) ≡ 10 ∷ unescape plain s)
      × (unescape plain (b'\\' ∷ b'r' ∷ s) ≡ 13 ∷ unescape plain s)
      × (unescape plain (b'\\' ∷ b'"' ∷ s) ≡ b'"' ∷ unescape plain s)
      × (unescape plain (b'\\' ∷ b'\\' ∷ s) ≡ b'\\' ∷ unescape plain s)
unfolding unescape
unescape_pairs s = (refl, refl, refl, refl, refl)

unescape_other :
    (c : ℕ) (s : Bytes) → (c == b'\\') ≡ false → unescape plain (c ∷ s) ≡ c ∷ unescape plain s
unfolding unescape
unescape_other c s h = rw h

unescape-escape_byte :
    (c : ℕ) (s : Bytes) → IsCommon c → unescape plain (escape_byte c ++ s) ≡ c ∷ unescape plain s
unfolding escape_byte
unescape-escape_byte c s h =
    ground (arith, unescape_pairs s, unescape_other c s, unescape-octal c s h.0)

unescape-escape : (name : Bytes) → All IsCommon name → unescape plain (escape name []) ≡ name
unfolding escape
unescape-escape [] h = unfold unescape in refl
unescape-escape (c ∷ name) (hc, h) =
    unescape-escape_byte c (escape name []) hc ∙ ap (◌∷◌ c) (unescape-escape name h)

contains_byte-append :
    (s t : Bytes) (b : ℕ) → contains_byte (s ++ t) b ≡ (contains_byte s b || contains_byte t b)
unfolding contains_byte
contains_byte-append [] t b = refl
contains_byte-append (c ∷ s) t b = ground (arith, contains_byte-append s t b)

-- Without a backslash nothing was escaped.
escape-same : (name : Bytes) → contains_byte (escape name []) b'\\' ≡ false → escape name [] ≡ name
unfolding escape
escape-same [] h = refl
escape-same (c ∷ name) h =
    let h' = contains_byte-append (escape_byte c) (escape name []) b'\\' in
    ground (arith, h', unfold_byte c, escape-same name)
  where
    unfold_byte : (c : ℕ) → contains_byte (escape_byte c) b'\\' ≡ false → escape_byte c ≡ c ∷ []
    unfold_byte c h = unfold escape_byte contains_byte in ground arith

-- A name of bytes without BEL, BS, VT and FF, escaped as git does, is the name again.
pub unescape_git_path-escape :
    (name : Bytes) → All IsCommon name → unescape_git_path (escape name []) ≡ name
unfolding unescape_git_path
unescape_git_path-escape name h = elim (Bool-cases (contains_byte (escape name []) b'\\')) [
  | inl some_ ↦ rw some_ (unescape-escape name h)
  | inr none_ ↦ rw none_ (escape-same name none_)
]
