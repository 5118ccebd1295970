-- ===== src/Patchio/Block.antt =====
-- `patchBlock`, `beginPatchBlock`, `appendPatchBlockLine` and `shouldSkipNewFileBlock`: one file of
-- a patch, and whether the work tree already has it.
pub mod Skip
use persona.Base.{
  ℕ, zero, suc, ◌+◌, ◌-◌, ◌/◌, ◌%◌, ◌≡◌, refl, Bool, true, false, ◌&&◌, ◌||◌, not, List, [], ◌∷◌,
  ◌++◌, Option, none, some, Result, ok, err, ◌>>=◌, length, drop, ◌==◌, if◌then◌else◌,
}
use persona.Text.Compare.{Bytes, codes, equal, has_prefix, trim_space}
use persona.Text.Number.{parse_uint}
use persona.Patchio.Errors.{PatchError}
use persona.Patchio.Paths.{check_path, sanitize_patch_path}
use persona.Patchio.Quoting.{drop_last, trim_line, parse_patch_header_path}
use persona.Patchio.Hunk.{Hunk, parse_hunk_header}
use persona.Patchio.DiffHeader.{PathPair, diff_header_paths}
use persona.Patchio.Validate.{no_newline}

pub record Block : Type 0 where
  pub lines : List Bytes
  pub path : Bytes
  pub is_new : Bool
  pub is_binary : Bool
  pub mode : Bytes
  pub in_body : Bool

abbrev pub empty_block : Block
empty_block = record {
  lines = [];
  path = [];
  is_new = false;
  is_binary = false;
  mode = [];
  in_body = false;
}

-- the path of the first pair with the same path on both sides
unfoldable pub same_path : List PathPair → Bytes
same_path [] = []
same_path ((left, right) ∷ pairs) =
    let rest = same_path pairs in
    if equal (sanitize_patch_path left) (sanitize_patch_path right)
    then sanitize_patch_path right
    else rest

header_path : Result PatchError (List PathPair) → Bytes
header_path (err e) = []
header_path (ok pairs) = same_path pairs

unfoldable pub begin_patch_block : Bytes → Block
unfolding header_path
begin_patch_block line = record empty_block {
  lines = line ∷ [];
  path = header_path (diff_header_paths (trim_line line));
}

-- The four tests that follow `@@ `, each of which may change the block.
note_mode : Bytes → Block → Block
note_mode raw b =
    if has_prefix raw (codes "new file mode ")
    then record b { is_new = true; mode = trim_space (drop 14 raw) }
    else b

note_null : Bytes → Block → Block
note_null raw b = if has_prefix raw (codes "--- /dev/null") then record b { is_new = true } else b

note_binary : Bytes → Block → Block
note_binary raw b =
    if has_prefix raw (codes "GIT binary patch") || has_prefix raw (codes "Binary files ")
    then record b { is_binary = true; in_body = true }
    else b

note_path : Bytes → Block → Block
note_path raw b =
    if has_prefix raw (codes "+++ ") && equal b.path []
    then record b { path = parse_patch_header_path (drop 4 raw) }
    else b

unfoldable pub append_patch_block_line : Block → Bytes → Bytes → Block
unfolding note_mode note_null note_binary note_path
append_patch_block_line block line raw =
    let b = record block { lines = block.lines ++ line ∷ [] } in
    if block.in_body
    then b
    else if has_prefix raw (codes "@@ ")
    then record b { in_body = true }
    else note_path raw (note_binary raw (note_null raw (note_mode raw b)))

-- `os.FileInfo` of a path in the work tree, as `Lstat` gives it
pub record FileInfo : Type 0 where
  pub is_dir : Bool
  pub is_regular : Bool
  pub perm : ℕ
  pub size : ℕ

-- a file that was opened without following links: whether it is regular, and what it holds
pub record OpenFile : Type 0 where
  pub is_regular : Bool
  pub content : Bytes

-- The work tree, by the path below its root; `none` is an error of the call.
pub record WorkTree : Type 0 where
  pub lstat : Bytes → Option FileInfo
  pub open_file : Bytes → Option OpenFile

-- the mode's permission bits
unfoldable pub parse_file_mode : Bytes → Option ℕ
parse_file_mode mode = elim (parse_uint 8 32 (trim_space mode)) [
  | none ↦ none
  | some v ↦ if v == 0o100644 || v == 0o100755 then some (v % 512) else none
]

-- `perm & 0o100`
abbrev pub owner_executes : ℕ → Bool
owner_executes perm = perm / 64 % 2 == 1

-- whether the mode, if the block has one, has the file's executable bit
unfoldable pub mode_fits : Bytes → FileInfo → Bool
mode_fits [] info = true
mode_fits (c ∷ mode) info = elim (parse_file_mode (c ∷ mode)) [
  | none ↦ false
  | some perm ↦ if owner_executes info.perm then owner_executes perm else not (owner_executes perm)
]

-- is the next line the marker of a missing newline?
abbrev pub marker_next : List Bytes → Bool
marker_next [] = false
marker_next (l ∷ ls) = equal (trim_line l) no_newline

-- What an added line brings: its bytes behind the `+`, without the newline if a marker follows.
unfoldable pub added_content : Bytes → List Bytes → Bytes
added_content [] rest = []
added_content (c ∷ content) rest = if marker_next rest then drop_last b'\n' content else content

unfoldable pub starts_added : Bytes → Bool
starts_added [] = false
starts_added (c ∷ s) = c == b'+'

-- the loop variables of the first pass
pub record Measure : Type 0 where
  pub expected_size : ℕ
  pub remaining : ℕ
  pub in_hunk : Bool

-- a hunk's header in the first pass
open_hunk : Measure → Result PatchError Hunk → Option Measure
open_hunk m (err e) = none
open_hunk m (ok h) =
    if h.old == 0 then some (record m { remaining = h.new; in_hunk = true }) else none

-- one line of the first pass, with the lines behind it; `none` is `return false`
unfoldable pub measure_line : Measure → Bytes → List Bytes → Option Measure
unfolding open_hunk starts_added
measure_line m line rest =
    let raw = trim_line line in
    if has_prefix raw (codes "@@ ")
    then if m.remaining == 0 then open_hunk m (parse_hunk_header raw) else none
    else if not m.in_hunk || equal raw no_newline
    then some m
    else if m.remaining == 0
    then if equal raw [] then some m else none
    else if starts_added line
    then some (record m {
      expected_size = m.expected_size + length (added_content line rest);
      remaining = m.remaining - 1;
    })
    else none

unfoldable pub measure : Measure → List Bytes → Option Measure
measure m [] = some m
measure m (line ∷ rest) = elim (measure_line m line rest) [
  | none ↦ none
  | some m' ↦ measure m' rest
]

-- The second pass: `unread` is what the file still has. At the end it must have nothing.
unfoldable pub compare_lines : Bool → Bytes → List Bytes → Bool
unfolding starts_added
compare_lines in_hunk unread [] = equal unread []
compare_lines in_hunk unread (line ∷ rest) =
    let content = added_content line rest in
    let opened = compare_lines true unread rest in
    let skipped = compare_lines in_hunk unread rest in
    let matched = compare_lines in_hunk (drop (length content) unread) rest in
    if has_prefix line (codes "@@ ")
    then opened
    else if not in_hunk || not (starts_added line)
    then skipped
    else has_prefix unread content && matched

abbrev pub start_measure : Measure
start_measure = record { expected_size = 0; remaining = 0; in_hunk = false }

unfoldable pub size_fits : FileInfo → Option Measure → Bool
size_fits info none = false
size_fits info (some m) = m.remaining == 0 && info.size == m.expected_size

unfoldable pub is_ok : Result PatchError (Unit {0}) → Bool
is_ok (ok _) = true
is_ok (err e) = false

unfoldable pub file_matches : Option OpenFile → List Bytes → Bool
file_matches none lines = false
file_matches (some f) lines = f.is_regular && compare_lines false f.content lines

unfoldable pub skip_present : WorkTree → Block → Option FileInfo → Bool
skip_present tree block none = false
skip_present tree block (some info) =
    not info.is_dir
    && info.is_regular
    && mode_fits block.mode info
    && is_ok (check_path block.path)
    && size_fits info (measure start_measure block.lines)
    && file_matches (tree.open_file block.path) block.lines

unfoldable pub should_skip_new_file_block : WorkTree → Block → Bool
should_skip_new_file_block tree block =
    block.is_new
    && not block.is_binary
    && not (equal block.path [])
    && skip_present tree block (tree.lstat block.path)
