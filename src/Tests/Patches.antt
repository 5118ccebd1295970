-- ===== src/Tests/Patches.antt =====
-- Runs of internal/patchio, and its theorems at concrete patches.
use persona.Base.{arith, ◌≤◌, ◌≡◌, refl, ◌↔◌, false, List, [], ◌∷◌, ◌++◌, ok, length, Has}
use persona.Text.Compare.{Bytes, codes, equal, has_prefix, contains_byte, trim_left}
use persona.Patchio.Paths.{check_path}
use persona.Patchio.Paths.Safe.{IsSafe, check_path_iff}
use persona.Patchio.Quoting.{parse_maybe_quoted_path, unescape_git_path}
use persona.Patchio.Quoting.Written.{git_name, escape}
use persona.Patchio.Quoting.Names.{parse_maybe_quoted_path-git_name}
use persona.Patchio.Quoting.Escapes.{unescape_git_path-escape}
use persona.Patchio.Hunk.{no_hunk}
use persona.Patchio.Walk.{Reader, lines, max_patch_bytes, walk_patch_lines}
use persona.Patchio.Walk.Lines.{fold_lines, walk_patch_lines_iff}
use persona.Patchio.DiffHeader.{PathPair, decode, diff_header_paths, is_symmetric, scan_splits}
use persona.Patchio.DiffHeader.Candidates.{diff_header_paths_complete}
use persona.Patchio.Validate.{validate_line, validate_patch}
use persona.Patchio.Validate.Grammar.{IsPatch, validate_patch_iff}

abbrev reader : Bytes → Reader
reader s = record { content = s; fails = false }

abbrev small_patch : Reader
small_patch = reader (
    codes
      "diff --git a/x b/x\n--- a/x\n+++ b/x\n@@ -1 +1,2 @@\n-old\n+--- /etc\n+new\n\\ No newline at end of file\n")

check_path_iff_example : (check_path (codes "a/.Git/b") ≡ ok tt) ↔ IsSafe (codes "a/.Git/b")
check_path_iff_example = check_path_iff (codes "a/.Git/b")

abbrev odd_name : Bytes
odd_name = codes "caf\" \t" ++ (0xc3 ∷ 0xa9 ∷ [])

test_parse_maybe_quoted_path-git_name : parse_maybe_quoted_path (git_name odd_name) ≡ odd_name
test_parse_maybe_quoted_path-git_name = parse_maybe_quoted_path-git_name odd_name (omega arith)

test_unescape_git_path-escape : unescape_git_path (escape odd_name []) ≡ odd_name
test_unescape_git_path-escape = unescape_git_path-escape odd_name (omega arith)

abbrev two_ways : List PathPair
two_ways = (codes "a/o", codes "b/n b/m") ∷ (codes "a/o b/n", codes "b/m") ∷ []

diff_header_paths_complete_example : Has (decode (codes "a/o b/n"), decode (codes "b/m")) two_ways
unfolding diff_header_paths is_symmetric has_prefix equal contains_byte scan_splits decode trim_left
    unescape_git_path
diff_header_paths_complete_example =
    diff_header_paths_complete (codes "a/o b/n") (codes "b/m") two_ways (refl, refl) refl refl refl

test_walk_patch_lines_iff : (walk_patch_lines validate_line no_hunk small_patch ≡ ok no_hunk) ↔ (
    (length small_patch.content ≤ max_patch_bytes)
    × (small_patch.fails ≡ false)
    × (fold_lines validate_line no_hunk (lines small_patch.content) ≡ ok no_hunk))
test_walk_patch_lines_iff = walk_patch_lines_iff validate_line no_hunk no_hunk small_patch

validate_patch_iff_example : (validate_patch small_patch ≡ ok tt) ↔ (
    (length small_patch.content ≤ max_patch_bytes)
    × (small_patch.fails ≡ false)
    × IsPatch no_hunk (lines small_patch.content))
validate_patch_iff_example = validate_patch_iff small_patch
