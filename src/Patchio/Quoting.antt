-- ===== src/Patchio/Quoting.antt =====
-- The names in patch lines: `trimLineBytes`, `readQuotedTokenBytes`, `unescapeGitPath`,
-- `parseMaybeQuotedPathBytes` and `parsePatchHeaderPath`.
pub mod Written
pub mod Names
pub mod Headers
pub mod Escapes
use persona.Base.{
  ℕ, zero, suc, ◌+◌, ◌-◌, ◌*◌, ◌%◌, Bool, true, false, ◌&&◌, ◌||◌, not, List, [], ◌∷◌, ◌++◌, Option,
  none, some, leb, ◌==◌, if◌then◌else◌, ◌≡◌, refl,
}
use persona.Text.Compare.{Bytes, codes, equal, has_prefix, contains_byte, trim_left, trim_func}
use persona.Text.Split.{cut}
use persona.Text.Unquote.{unquote, unquote_char, escape_char}
use persona.Patchio.Paths.{sanitize_patch_path}

-- `line` without a final byte `b`
unfoldable pub drop_last : ℕ → Bytes → Bytes
drop_last b [] = []
drop_last b (c ∷ []) = if c == b then [] else c ∷ []
drop_last b (c ∷ d ∷ s) = c ∷ drop_last b (d ∷ s)

unfoldable pub trim_line : Bytes → Bytes
unfolding drop_last
trim_line line = drop_last b'\r' (drop_last b'\n' line)

-- The loop of `readQuotedTokenBytes`, behind the opening quote. `token` is what was passed.
unfoldable pub read_token : Bool → Bytes → Bytes → Option (Bytes × Bytes)
read_token escaped token [] = none
read_token true token (ch ∷ s) = read_token false (token ++ ch ∷ []) s
read_token false token (ch ∷ s) =
    let onward = read_token (ch == b'\\') (token ++ ch ∷ []) s in
    if ch == b'"' then some (token ++ ch ∷ [], trim_left s b' ') else onward

-- the token with its quotes, and the rest behind the spaces
unfoldable pub read_quoted_token : Bytes → Option (Bytes × Bytes)
unfolding read_token
read_quoted_token [] = none
read_quoted_token (c ∷ s) = if c == b'"' then read_token false (b'"' ∷ []) s else none

-- Where the loop of `unescapeGitPath` stands: at a plain byte, behind a backslash, or behind the
-- digits of `\ooo` read so far, with their value and how many more may follow.
pub data Place : Type 0 where
  plain : Place
  escaped : Place
  octal : ℕ → ℕ → Place

abbrev is_octal : ℕ → Bool
is_octal c = leb b'0' c && leb c b'7'

-- the byte that a backslash and `next` stand for, where `next` is no octal digit
unescaped : ℕ → ℕ
unescaped next =
    if next == b't' then 9 else if next == b'n' then 10 else if next == b'r' then 13 else next

-- one round of the loop: the bytes written, and where it stands then
step : Place → ℕ → Bytes × Place
unfolding unescaped
step plain ch = if ch == b'\\' then ([], escaped) else (ch ∷ [], plain)
step escaped next =
    if is_octal next then ([], octal (next - b'0') 2) else (unescaped next ∷ [], plain)
step (octal val k) c =
    if not (k == 0) && is_octal c
    then ([], octal (val * 8 + (c - b'0')) (k - 1))
    else if c == b'\\'
    then (val % 256 ∷ [], escaped)
    else (val % 256 ∷ c ∷ [], plain)

-- what is written at the end of the path
finish : Place → Bytes
finish plain = []
finish escaped = b'\\' ∷ []
finish (octal val k) = val % 256 ∷ []

unfoldable pub unescape : Place → Bytes → Bytes
unfolding finish step
unescape p [] = finish p
unescape p (c ∷ path) = let (written, q) = step p c in written ++ unescape q path

unfoldable pub unescape_git_path : Bytes → Bytes
unfolding unescape
unescape_git_path path = if contains_byte path b'\\' then unescape plain path else path

-- `strings.Trim(text, "\"")`
abbrev trim_quotes : Bytes → Bytes
trim_quotes = trim_func (λ c. c == b'"')

unquoted_or : Bytes → Option Bytes → Bytes
unquoted_or token none = trim_quotes token
unquoted_or token (some text) = text

quoted_path : Bytes → Option (Bytes × Bytes) → Bytes
unfolding unquoted_or
quoted_path path none = unescape_git_path path
quoted_path path (some (token, rest)) = unquoted_or token (unquote token)

unfoldable pub parse_maybe_quoted_path : Bytes → Bytes
unfolding quoted_path
parse_maybe_quoted_path [] = []
parse_maybe_quoted_path (c ∷ path) =
    if c == b'"'
    then quoted_path (c ∷ path) (read_quoted_token (c ∷ path))
    else unescape_git_path (c ∷ path)

before_tab : Bytes → Option (Bytes × Bytes) → Bytes
before_tab path none = path
before_tab path (some (name, rest)) = name

unfoldable pub parse_patch_header_path : Bytes → Bytes
unfolding before_tab
parse_patch_header_path line =
    let path = trim_line line in
    if equal path (codes "/dev/null")
    then []
    else sanitize_patch_path (parse_maybe_quoted_path (before_tab path (cut 9 path)))
