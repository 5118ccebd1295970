-- ===== src/Tests/Headers.antt =====
-- Runs of the functions that read header lines.
use persona.Base.{◌≡◌, refl, [], ◌∷◌, ◌++◌, ok, err}
use persona.Text.Compare.{codes, equal, has_prefix, contains_byte, trim_left}
use persona.Text.Split.{cut, split_n}
use persona.Text.Number.{parse_uint}
use persona.Text.Unquote.{unquote, unquote_char, escape_char}
use persona.Patchio.Errors.{bad_hunk_header, bad_hunk_range, bad_hunk_position}
use persona.Patchio.Paths.{sanitize_patch_path}
use persona.Patchio.Quoting.{
  trim_line, read_quoted_token, unescape_git_path, parse_maybe_quoted_path, parse_patch_header_path,
}
use persona.Patchio.Hunk.{parse_hunk_header}
use persona.Patchio.DiffHeader.{diff_header_paths, decode, is_symmetric, scan_splits}

test_header :
    (parse_patch_header_path (codes "\"b/caf\\303\\251\\t.txt\"\n")
      ≡ codes "caf" ++ (0xc3 ∷ 0xa9 ∷ 9 ∷ codes ".txt"))
    × (parse_patch_header_path (codes "a/x y\t2024\r\n") ≡ codes "x y")
    × (parse_patch_header_path (codes "/dev/null\n") ≡ [])
    × (parse_patch_header_path (codes "a/\\1018\\") ≡ codes "A8\\")
unfolding parse_patch_header_path trim_line cut equal parse_maybe_quoted_path read_quoted_token
    unquote sanitize_patch_path unescape_git_path trim_left unquote_char escape_char has_prefix
    contains_byte
test_header = (refl, refl, refl, refl)

test_hunk :
    (parse_hunk_header (codes "@@ -3,2 +4 @@ func f() {") ≡ ok (record { old = 2; new = 1 }))
    × (parse_hunk_header (codes "@@ -3,2,1 +4 @@") ≡ err bad_hunk_range)
    × (parse_hunk_header (codes "@@ -3 +4@@") ≡ err bad_hunk_header)
    × (parse_hunk_header (codes "@@ -x +4 @@") ≡ err bad_hunk_position)
unfolding parse_hunk_header split_n equal parse_uint
test_hunk = (refl, refl, refl, refl)

test_diff :
    (diff_header_paths (codes "diff --git a/x y b/x y") ≡ ok ((codes "a/x y", codes "b/x y") ∷ []))
    × (diff_header_paths (codes "diff --git a/o b/n b/m")
        ≡ ok ((codes "a/o", codes "b/n b/m") ∷ (codes "a/o b/n", codes "b/m") ∷ []))
    × (diff_header_paths (codes "diff --git \"a/\\t\" b/z") ≡ ok ((codes "a/\t", codes "b/z") ∷ []))
    × (diff_header_paths (codes "diff --git x z") ≡ ok ((codes "x", codes "z") ∷ []))
unfolding diff_header_paths trim_left has_prefix equal scan_splits decode is_symmetric cut
    unescape_git_path parse_maybe_quoted_path read_quoted_token unquote unquote_char escape_char
    contains_byte
test_diff = (refl, refl, refl, refl)
