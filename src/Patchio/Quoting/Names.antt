-- ===== src/Patchio/Quoting/Names.antt =====
-- Quoted names are read back.
use persona.Base.{
  zero, ℕ, suc, ◌+◌, ◌/◌, ◌%◌, ◌<◌, ◌≤◌, ◌≡◌, refl, ap, ◌∙◌, false, [], ◌∷◌, ◌++◌, some, arith,
  ◌==◌, Bool-cases, inl, inr, All, length, append_assoc,
}
use persona.Text.Compare.{Bytes, contains_byte, trim_left}
use persona.Text.Unquote.{unquote, unquote_body, unquote_char, escape_char}
use persona.Patchio.Quoting.{
  read_token, read_quoted_token, unescape_git_path, parse_maybe_quoted_path,
}
use persona.Patchio.Quoting.Written.{
  backslashed, escape_byte, escape, quoted, is_special, has_special, git_name,
}

abbrev pub IsByte : ℕ → Type 0
IsByte c = c < 256

unquote_body-escape_byte :
    (f c : ℕ) (s t : Bytes)
    → IsByte c
    → unquote_body f s ≡ some t
    → unquote_body (suc f) (escape_byte c ++ s) ≡ some (c ∷ t)
unfolding unquote_body unquote_char escape_char escape_byte
unquote_body-escape_byte f c s t h e = ground arith

unquote_body-escape :
    (name : Bytes) (f : ℕ)
    → All IsByte name
    → length name < f
    → unquote_body f (escape name (b'"' ∷ [])) ≡ some name
unfolding escape
unquote_body-escape [] zero h lt = absurd (omega arith)
unquote_body-escape [] (suc f) h lt = unfold unquote_body in refl
unquote_body-escape (c ∷ name) zero h lt = absurd (omega arith)
unquote_body-escape (c ∷ name) (suc f) (hc, h) lt =
    unquote_body-escape_byte f c (escape name (b'"' ∷ [])) name hc
      (unquote_body-escape name f h (omega arith))

length-escape_byte : (c : ℕ) (s : Bytes) → length s < length (escape_byte c ++ s)
unfolding escape_byte
length-escape_byte c s = ground arith

length-escape : (name rest : Bytes) → length name + length rest ≤ length (escape name rest)
unfolding escape
length-escape [] rest = omega arith
length-escape (c ∷ name) rest =
    omega (arith, length-escape name rest, length-escape_byte c (escape name rest))

pub unquote-quoted : (name : Bytes) → All IsByte name → unquote (quoted name []) ≡ some name
unfolding unquote quoted
unquote-quoted name h =
    unquote_body-escape name (length (escape name (b'"' ∷ []))) h
      (omega (arith, length-escape name (b'"' ∷ [])))

-- a byte that is neither a quote nor a backslash
abbrev IsInert : ℕ → Type 0
IsInert c = (c == b'"' ≡ false) × (c == b'\\' ≡ false)

read_token-inert :
    (c : ℕ) (token s : Bytes)
    → IsInert c
    → read_token false token (c ∷ s) ≡ read_token false (token ++ c ∷ []) s
unfolding read_token
read_token-inert c token s (q, b) = rw (q, b)

read_token_pair :
    (d : ℕ) (token s : Bytes)
    → read_token false token (b'\\' ∷ d ∷ s) ≡ read_token false (token ++ backslashed d) s
unfolding read_token
read_token_pair d token s =
    ap (λ t. read_token false t s) (append_assoc token (b'\\' ∷ []) (d ∷ []))

read_token_octal :
    (d e f : ℕ) (token s : Bytes)
    → IsInert e
    → IsInert f
    → read_token false token (b'\\' ∷ d ∷ e ∷ f ∷ s)
      ≡ read_token false (token ++ (b'\\' ∷ d ∷ e ∷ f ∷ [])) s
read_token_octal d e f token s he hf =
    read_token_pair d token (e ∷ f ∷ s)
    ∙ read_token-inert e (token ++ backslashed d) (f ∷ s) he
    ∙ read_token-inert f ((token ++ backslashed d) ++ e ∷ []) s hf
    ∙ ap (λ t. read_token false t s) (simp append_assoc)

read_token-escape_byte :
    (c : ℕ) (token s : Bytes)
    → read_token false token (escape_byte c ++ s) ≡ read_token false (token ++ escape_byte c) s
unfolding escape_byte
read_token-escape_byte c token s = ground (
  arith,
  read_token_pair b'a' token s,
  read_token_pair b'b' token s,
  read_token_pair b't' token s,
  read_token_pair b'n' token s,
  read_token_pair b'v' token s,
  read_token_pair b'f' token s,
  read_token_pair b'r' token s,
  read_token_pair b'"' token s,
  read_token_pair b'\\' token s,
  read_token_octal (b'0' + c / 64) (b'0' + c / 8 % 8) (b'0' + c % 8) token s,
  read_token-inert c token s,
)

read_token-escape :
    (name token rest : Bytes)
    → read_token false token (escape name (b'"' ∷ rest))
      ≡ some (token ++ escape name (b'"' ∷ []), trim_left rest b' ')
unfolding escape
read_token-escape [] token rest = unfold read_token in refl
read_token-escape (c ∷ name) token rest =
    read_token-escape_byte c token (escape name (b'"' ∷ rest))
    ∙ read_token-escape name (token ++ escape_byte c) rest
    ∙ rw append_assoc

pub read_quoted_token-quoted :
    (name rest : Bytes)
    → read_quoted_token (quoted name rest) ≡ some (quoted name [], trim_left rest b' ')
unfolding read_quoted_token quoted
read_quoted_token-quoted name rest = read_token-escape name (b'"' ∷ []) rest

parse_maybe_quoted_path-quoted :
    (name rest : Bytes) → All IsByte name → parse_maybe_quoted_path (quoted name rest) ≡ name
unfolding parse_maybe_quoted_path quoted
parse_maybe_quoted_path-quoted name rest h =
    ground (arith, read_quoted_token-quoted name rest, unquote-quoted name h)

-- Without a backslash nothing is unescaped.
contains_byte-has_special :
    (name : Bytes) → has_special name ≡ false → contains_byte name b'\\' ≡ false
unfolding contains_byte has_special is_special
contains_byte-has_special [] h = refl
contains_byte-has_special (c ∷ name) h = ground (arith, contains_byte-has_special name)

parse_maybe_quoted_path_plain :
    (name : Bytes) → has_special name ≡ false → parse_maybe_quoted_path name ≡ name
unfolding parse_maybe_quoted_path unescape_git_path has_special is_special
parse_maybe_quoted_path_plain [] h = refl
parse_maybe_quoted_path_plain (c ∷ name) h = ground (arith, contains_byte-has_special (c ∷ name) h)

-- A name of bytes is read back as git writes it, quoted or not.
pub parse_maybe_quoted_path-git_name :
    (name : Bytes) → All IsByte name → parse_maybe_quoted_path (git_name name) ≡ name
unfolding git_name
parse_maybe_quoted_path-git_name name h = elim (Bool-cases (has_special name)) [
  | inl special ↦ rw special (parse_maybe_quoted_path-quoted name [] h)
  | inr none_ ↦ rw none_ (parse_maybe_quoted_path_plain name none_)
]
