-- ===== src/Patchio/Validate.antt =====
-- `ValidatePatchReader`: the state machine over the lines of a patch.
pub mod Names
pub mod Grammar
use persona.Base.{
  ℕ, zero, suc, ◌+◌, ◌-◌, ◌≡◌, refl, Bool, true, false, ◌&&◌, ◌||◌, List, [], ◌∷◌, Option, none,
  some, Result, ok, err, ◌>>=◌, ◌>>◌, drop, length, ltb, ◌==◌, if◌then◌else◌,
}
use persona.Text.Compare.{Bytes, codes, equal, has_prefix}
use persona.Patchio.Errors.{PatchError, empty_hunk_line, incomplete_hunk, hunk_exceeds}
use persona.Patchio.Paths.{check_path, sanitize_patch_path}
use persona.Patchio.Quoting.{trim_line, parse_maybe_quoted_path, parse_patch_header_path}
use persona.Patchio.Hunk.{Hunk, no_hunk, parse_hunk_header}
use persona.Patchio.Walk.{Reader, walk_patch_lines}
use persona.Patchio.DiffHeader.{PathPair, diff_git, diff_header_paths}

abbrev pub no_newline : Bytes
no_newline = codes "\\ No newline at end of file"

-- The counts are signed in the source, and an error as soon as one is negative.
spend : Hunk → ℕ → ℕ → Result PatchError Hunk
spend h old new =
    if ltb h.old old || ltb h.new new
    then err hunk_exceeds
    else ok (record { old = h.old - old; new = h.new - new })

-- a line inside a hunk
unfoldable pub hunk_line : Hunk → Bytes → Result PatchError Hunk
unfolding spend
hunk_line h [] = err empty_hunk_line
hunk_line h (c ∷ line) =
    if equal (c ∷ line) no_newline
    then ok h
    else if c == b' '
    then spend h 1 1
    else if c == b'-'
    then spend h 1 0
    else if c == b'+'
    then spend h 0 1
    else err incomplete_hunk

check_pairs : List PathPair → Result PatchError (Unit {0})
check_pairs [] = ok tt
check_pairs ((left, right) ∷ pairs) =
    check_path (sanitize_patch_path left)
    >> (check_path (sanitize_patch_path right) >> check_pairs pairs)

unfoldable pub check_diff_header : Bytes → Result PatchError (Unit {0})
unfolding check_pairs
check_diff_header line = diff_header_paths line >>= check_pairs

-- A path that is empty is not checked, and `checkPath` accepts the empty path.
unfoldable pub check_file_header : Bytes → Result PatchError (Unit {0})
check_file_header line =
    let parsed = parse_patch_header_path (drop 4 line) in
    if equal parsed [] then ok tt else check_path parsed

abbrev pub rename_prefixes : List Bytes
rename_prefixes =
    codes "rename from " ∷ codes "rename to " ∷ codes "copy from " ∷ codes "copy to " ∷ []

-- the loop over the prefixes, up to the first that fits
unfoldable pub check_rename : List Bytes → Bytes → Result PatchError (Unit {0})
check_rename [] line = ok tt
check_rename (prefix ∷ prefixes) line =
    let rest = check_rename prefixes line in
    if has_prefix line prefix
    then check_path (parse_maybe_quoted_path (trim_line (drop (length prefix) line)))
    else rest

-- a line outside the hunks that opens none
unfoldable pub check_header : Bytes → Result PatchError (Unit {0})
check_header line =
    if has_prefix line diff_git
    then check_diff_header line
    else if has_prefix line (codes "+++ ") || has_prefix line (codes "--- ")
    then check_file_header line
    else check_rename rename_prefixes line

abbrev pub is_open : Hunk → Bool
is_open h = ltb 0 h.old || ltb 0 h.new

-- the callback
unfoldable pub validate_line : Hunk → Bytes → Result PatchError Hunk
validate_line h raw =
    let line = trim_line raw in
    if is_open h
    then hunk_line h line
    else if has_prefix line (codes "@@ ")
    then parse_hunk_header line
    else check_header line >> ok h

unfoldable pub validate_patch : Reader → Result PatchError (Unit {0})
validate_patch r = walk_patch_lines validate_line no_hunk r >>= λ h.
    if is_open h then err incomplete_hunk else ok tt
