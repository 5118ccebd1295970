-- ===== src/Patchio/Block/Skip.antt =====
-- A block is skipped only if the work tree has just the file that it brings.
use persona.Base.{
  ◌≡◌, ◌≢◌, refl, ap, ◌∙◌, inl, inr, Bool, true, false, ◌&&◌, ◌||◌, not, List, [], ◌∷◌, ◌++◌,
  Option, none, some, arith, Result, ok, err, Result-cases, All, length, drop, if◌then◌else◌,
  Bool-cases, Option-cases, &&_iff,
}
use persona.Text.Compare.{Bytes, codes, equal, equal_iff, has_prefix, has_prefix-drop}
use persona.Patchio.Errors.{PatchError}
use persona.Patchio.Paths.{check_path}
use persona.Patchio.Paths.Safe.{IsSafe, check_path_iff}
use persona.Patchio.Quoting.{trim_line}
use persona.Patchio.Hunk.{Hunk, parse_hunk_header}
use persona.Patchio.Block

-- The bytes that the hunks among the lines add: `in_hunk` once a hunk header was passed.
abbrev pub added : Bool → List Bytes → Bytes
added in_hunk [] = []
added in_hunk (line ∷ rest) =
    let opened = added true rest in
    let kept = added in_hunk rest in
    if has_prefix line (codes "@@ ")
    then opened
    else if not in_hunk || not (Block.starts_added line)
    then kept
    else Block.added_content line rest ++ kept

compare_lines_sound :
    (lines : List Bytes) (h : Bool) (unread : Bytes)
    → Block.compare_lines h unread lines ≡ true
    → unread ≡ added h lines
unfolding Block.compare_lines
compare_lines_sound [] h unread e = (equal_iff unread []).0 e
compare_lines_sound (line ∷ rest) h unread e = elim (Bool-cases (has_prefix line (codes "@@ "))) [
  | inl o ↦ rw o (compare_lines_sound rest true unread (rw o at e))
  | inr no_ ↦ elim (Bool-cases (not h || not (Block.starts_added line))) [
    | inl s ↦ rw (no_, s) (compare_lines_sound rest h unread (rw (no_, s) at e))
    | inr ns ↦
        let content = Block.added_content line rest in
        let (here, later) = (&&_iff _ _).0 (rw (no_, ns) at e) in
        rw (no_, ns)
          (has_prefix-drop unread content here
            ∙ ap (◌++◌ content) (compare_lines_sound rest h (drop (length content) unread) later))
  ]
]

-- A hunk that takes no line of an old file.
abbrev pub AddsOnly : Bytes → Type 0
AddsOnly line =
    has_prefix (trim_line line) (codes "@@ ") ≡ true
    → (h : Hunk) × (parse_hunk_header (trim_line line) ≡ ok h) × (h.old ≡ 0)

measure_line-AddsOnly :
    (m : Block.Measure) (line : Bytes) (rest : List Bytes) {m' : Block.Measure}
    → Block.measure_line m line rest ≡ some m'
    → AddsOnly line
unfolding Block.measure_line
measure_line-AddsOnly m line rest e hunk =
    elim (Result-cases (parse_hunk_header (trim_line line))) [
      | inl (h, parsed) ↦ (h, parsed, ground arith)
      | inr (why, failed) ↦ absurd (ground arith)
    ]

measure-AddsOnly :
    (lines : List Bytes) (m : Block.Measure) {m' : Block.Measure}
    → Block.measure m lines ≡ some m'
    → All AddsOnly lines
unfolding Block.measure
measure-AddsOnly [] m e = tt
measure-AddsOnly (line ∷ rest) m {m'} e = elim (Option-cases (Block.measure_line m line rest)) [
  | inl none_ ↦ absurd (cc (rw (none_, Block.measure) at e))
  | inr (t, some_) ↦ (
    measure_line-AddsOnly m line rest some_,
    measure-AddsOnly rest t {m' = m'} (rw (some_, Block.measure) at e),
  )
]

size_fits-some :
    (info : Block.FileInfo) (o : Option Block.Measure)
    → Block.size_fits info o ≡ true
    → (m : Block.Measure) × (o ≡ some m)
unfolding Block.size_fits
size_fits-some info none e = absurd (cc e)
size_fits-some info (some m) e = (m, refl)

file_matches-some :
    (o : Option Block.OpenFile) (lines : List Bytes)
    → Block.file_matches o lines ≡ true
    → (f : Block.OpenFile) × (o ≡ some f) × (f.is_regular ≡ true) × (f.content ≡ added false lines)
unfolding Block.file_matches
file_matches-some none lines e = absurd (cc e)
file_matches-some (some f) lines e =
    let (regular, same) = (&&_iff _ _).0 e in
    (f, refl, regular, compare_lines_sound lines false f.content same)

is_ok-eq : (r : Result PatchError (Unit {0})) → Block.is_ok r ≡ true → r ≡ ok tt
unfolding Block.is_ok
is_ok-eq (ok tt) e = refl
is_ok-eq (err why) e = cc

-- The work tree has the new file of the block already.
pub record IsPresent (tree : Block.WorkTree) (b : Block.Block) : Type 0 where
  pub is_new : b.is_new ≡ true
  pub is_text : b.is_binary ≡ false
  pub named : b.path ≢ []
  pub safe : IsSafe b.path
  pub adds_only : All AddsOnly b.lines
  pub info : Block.FileInfo
  pub found : tree.lstat b.path ≡ some info
  pub regular : (info.is_dir ≡ false) × (info.is_regular ≡ true)
  pub mode_fits : Block.mode_fits b.mode info ≡ true
  pub file : Block.OpenFile
  pub opened : tree.open_file b.path ≡ some file
  pub opened_regular : file.is_regular ≡ true
  pub same_content : file.content ≡ added false b.lines

new_text_named :
    (b : Block.Block) (present : Bool)
    → (b.is_new && not b.is_binary && not (equal b.path []) && present) ≡ true
    → (b.is_new ≡ true) × (b.is_binary ≡ false) × (b.path ≢ []) × (present ≡ true)
new_text_named b present e =
    (ground arith, ground arith, ground (arith, equal_iff b.path []), ground arith)

skip_present-some :
    (tree : Block.WorkTree) (b : Block.Block) (o : Option Block.FileInfo)
    → Block.skip_present tree b o ≡ true
    → (info : Block.FileInfo) × (o ≡ some info)
      × ((info.is_dir ≡ false) × (info.is_regular ≡ true))
      × (Block.mode_fits b.mode info ≡ true)
      × (Block.is_ok (check_path b.path) ≡ true)
      × (Block.size_fits info (Block.measure Block.start_measure b.lines) ≡ true)
      × (Block.file_matches (tree.open_file b.path) b.lines ≡ true)
unfolding Block.skip_present
skip_present-some tree b none e = absurd (cc e)
skip_present-some tree b (some info) e = (
  info,
  refl,
  (ground arith, ground arith),
  ground arith,
  ground arith,
  ground arith,
  ground arith,
)

-- A new file is left out of the patch only if the work tree has a regular file at its path, which is
-- safe, with the executable bit of its mode and with exactly the bytes that its hunks add, and no
-- hunk takes lines of an old file.
pub should_skip_sound :
    (tree : Block.WorkTree) (b : Block.Block)
    → Block.should_skip_new_file_block tree b ≡ true
    → IsPresent tree b
unfolding Block.should_skip_new_file_block
should_skip_sound tree b e =
    let (new, text, named, present) =
      new_text_named b (Block.skip_present tree b (tree.lstat b.path)) e in
    let (info, found, (dir, reg), fits, safe, sized, matched) =
      skip_present-some tree b (tree.lstat b.path) present in
    let (file, opened, opened_regular, same) =
      file_matches-some (tree.open_file b.path) b.lines matched in
    let (m, measured) = size_fits-some info (Block.measure Block.start_measure b.lines) sized in
    record {
      is_new = new;
      is_text = text;
      named = named;
      safe = (check_path_iff b.path).0 (is_ok-eq (check_path b.path) safe);
      adds_only = measure-AddsOnly b.lines Block.start_measure {m' = m} measured;
      info = info;
      found = found;
      regular = (dir, reg);
      mode_fits = fits;
      file = file;
      opened = opened;
      opened_regular = opened_regular;
      same_content = same;
    }
