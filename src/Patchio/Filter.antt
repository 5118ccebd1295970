-- ===== src/Patchio/Filter.antt =====
-- `FilterExistingNewFilesReader`: a patch without the new files that the work tree already has.
pub mod Blocks
use persona.Base.{
  ℕ, ◌≡◌, refl, Bool, true, false, ◌&&◌, ◌||◌, not, List, [], ◌∷◌, ◌++◌, Result, ok, err, ◌>>=◌,
  if◌then◌else◌,
}
use persona.Text.Compare.{Bytes, codes, equal, has_prefix}
use persona.Patchio.Errors.{PatchError, write_failed}
use persona.Patchio.Quoting.{trim_line}
use persona.Patchio.Walk.{Reader, walk_patch_lines}
use persona.Patchio.DiffHeader.{diff_git}
use persona.Patchio.Block.{Block, empty_block, begin_patch_block, append_patch_block_line}

-- the variables that the closures write, and what was written out
pub record State : Type 0 where
  pub seen_diff : Bool
  pub current : Block
  pub skipped : List Bytes
  pub out : List Bytes

abbrev pub start : State
start = record { seen_diff = false; current = empty_block; skipped = []; out = [] }

abbrev pub is_diff_line : Bytes → Bool
is_diff_line raw = has_prefix raw diff_git || equal raw (codes "diff --git")

has_lines : List Bytes → Bool
has_lines [] = false
has_lines (l ∷ ls) = true

-- `accepts written line`: does the writer take the line behind what it has?
unfoldable pub write_lines :
    (List Bytes → Bytes → Bool) → List Bytes → List Bytes → Result PatchError (List Bytes)
write_lines accepts out [] = ok out
write_lines accepts out (line ∷ rest) =
    let onward = write_lines accepts (out ++ line ∷ []) rest in
    if accepts out line then onward else err write_failed

module _ (accepts : List Bytes → Bytes → Bool) (skip : Block → Bool) where
  -- `flushCurrent`
  unfoldable pub flush_current : State → Result PatchError State
  unfolding has_lines
  flush_current s =
      if not s.seen_diff || not (has_lines s.current.lines)
      then ok s
      else if skip s.current
      then ok (record s { skipped = s.skipped ++ s.current.path ∷ [] })
      else (do out ← write_lines accepts s.out s.current.lines; ok (record s { out = out }))

  -- the callback
  unfoldable pub filter_line : State → Bytes → Result PatchError State
  filter_line s line =
      let raw = trim_line line in
      if is_diff_line raw
      then (do
        t ← if s.seen_diff then flush_current s else ok s
        ok (record t { seen_diff = true; current = begin_patch_block line }))
      else if s.seen_diff
      then ok (record s { current = append_patch_block_line s.current line raw })
      else ok s

  finish_filter : State → Result PatchError State
  finish_filter s = if not s.seen_diff then ok s else flush_current s

  -- The final state has the paths that were skipped and the lines that were written.
  unfoldable pub filter_existing_new_files : Reader → Result PatchError State
  unfolding finish_filter
  filter_existing_new_files r = walk_patch_lines filter_line start r >>= finish_filter
