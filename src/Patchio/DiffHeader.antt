-- ===== src/Patchio/DiffHeader.antt =====
-- `diffHeaderPaths`: the pairs of paths that a `diff --git` line may name.
pub mod Candidates
use persona.Base.{
  ℕ, zero, suc, ◌+◌, ◌-◌, ◌/◌, ◌%◌, ◌≡◌, refl, Bool, true, false, ◌&&◌, ◌||◌, List, [], ◌∷◌, ◌++◌,
  Option, none, some, Result, ok, err, ◌>>=◌, length, take, drop, ◌==◌, if◌then◌else◌,
}
use persona.Text.Compare.{Bytes, codes, equal, has_prefix, trim_left, contains_byte}
use persona.Text.Split.{cut}
use persona.Text.Unquote.{unquote, unquote_char, escape_char}
use persona.Patchio.Errors.{PatchError, ambiguous_header}
use persona.Patchio.Quoting.{read_quoted_token, parse_maybe_quoted_path, unescape_git_path}

abbrev pub PathPair : Type 0
PathPair = Bytes × Bytes

abbrev pub diff_git : Bytes
diff_git = codes "diff --git "

-- the closure `decode`
unfoldable pub decode : Bytes → Bytes
decode path =
    if has_prefix path (codes "\"") then parse_maybe_quoted_path path else unescape_git_path path

-- text[i] == b
byte_is : ℕ → Bytes → Bool
byte_is b [] = false
byte_is b (c ∷ s) = c == b

-- the test for `a/P b/P`
unfoldable pub is_symmetric : Bytes → Bool
unfolding byte_is
is_symmetric text =
    let mid = length text / 2 in
    length text % 2 == 1
    && byte_is b' ' (drop mid text)
    && has_prefix text (codes "a/")
    && has_prefix (drop (mid + 1) text) (codes "b/")
    && equal (drop 2 (take mid text)) (drop (mid + 3) text)

-- the test on what stands behind a space
abbrev pub starts_right : Bytes → Bool
starts_right right = has_prefix right (codes "b/") || has_prefix right (codes "\"b/")

-- The loop over `text`: `left` stands before the byte looked at, `paths` is what was found.
-- A space is one byte, and no byte of another character.
unfoldable pub scan_splits : List PathPair → Bytes → Bytes → Result PatchError (List PathPair)
scan_splits paths left [] = ok paths
scan_splits paths left (c ∷ right) =
    let onward = scan_splits paths (left ++ c ∷ []) right in
    let found = scan_splits (paths ++ (decode left, decode right) ∷ []) (left ++ c ∷ []) right in
    if c == b' ' && starts_right right
    then if length paths == 64 then err ambiguous_header else found
    else onward

first_cut : Option (Bytes × Bytes) → List PathPair
first_cut none = []
first_cut (some (left, right)) = (decode left, decode right) ∷ []

-- the fallback, if the loop found nothing
or_first_space : Bytes → List PathPair → List PathPair
unfolding first_cut
or_first_space text [] = first_cut (cut b' ' text)
or_first_space text (p ∷ ps) = p ∷ ps

quoted_pair : Option (Bytes × Bytes) → List PathPair
quoted_pair none = []
quoted_pair (some (left, [])) = []
quoted_pair (some (left, c ∷ right)) =
    (parse_maybe_quoted_path left, parse_maybe_quoted_path (c ∷ right)) ∷ []

unquoted_pairs : Bytes → Result PatchError (List PathPair)
unfolding or_first_space
unquoted_pairs text =
    let mid = length text / 2 in
    if is_symmetric text
    then ok ((unescape_git_path (take mid text), unescape_git_path (drop (mid + 1) text)) ∷ [])
    else scan_splits [] [] text >>= λ paths. ok (or_first_space text paths)

unfoldable pub header_pairs : Bytes → Result PatchError (List PathPair)
unfolding quoted_pair unquoted_pairs
header_pairs [] = ok []
header_pairs (c ∷ rest) =
    if c == b'"' then ok (quoted_pair (read_quoted_token (c ∷ rest))) else unquoted_pairs (c ∷ rest)

unfoldable pub diff_header_paths : Bytes → Result PatchError (List PathPair)
unfolding header_pairs
diff_header_paths line =
    if has_prefix line diff_git then header_pairs (trim_left (drop 11 line) b' ') else ok []
