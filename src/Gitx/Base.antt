-- ===== src/Gitx/Base.antt =====
-- `ResolveBase` with `resolveBaseOID`, `emptyTreeOID` and `isObjectID`: the object that a base
-- reference stands for.
pub mod Resolved
use persona.Base.{
  ℕ, Bool, true, false, ◌&&◌, ◌||◌, not, List, [], ◌∷◌, ◌++◌, Result, ok, err, ◌>>=◌, ◌==◌, leb,
  length, if◌then◌else◌,
}
use persona.Text.Compare.{Bytes, codes, equal, trim_space}
use persona.Gitx.Program.{
  Program, Exit, exited, succeeded, not_run, Failed, failed, with_dir_args, git_output_bytes,
}

abbrev pub is_oid_digit : ℕ → Bool
is_oid_digit ch = leb b'0' ch && leb ch b'9' || (leb b'a' ch && leb ch b'f')

unfoldable pub all_oid_digits : Bytes → Bool
all_oid_digits [] = true
all_oid_digits (ch ∷ value) = is_oid_digit ch && all_oid_digits value

unfoldable pub is_object_id : Bytes → Bool
is_object_id value = (length value == 40 || length value == 64) && all_oid_digits value

-- the arguments of the four runs of git
module _ (work_tree git_dir : Bytes) where
  abbrev pub rev_parse_args : Bytes → List Bytes
  rev_parse_args ref = with_dir_args work_tree git_dir (
      codes "rev-parse"
      ∷ codes "--verify"
      ∷ codes "--quiet"
      ∷ codes "--end-of-options"
      ∷ (ref ++ codes "^{commit}")
      ∷ [])

  abbrev pub empty_tree_args : List Bytes
  empty_tree_args =
      with_dir_args work_tree git_dir
        (codes "hash-object" ∷ codes "-t" ∷ codes "tree" ∷ codes "--stdin" ∷ [])

  abbrev pub symbolic_ref_args : List Bytes
  symbolic_ref_args =
      with_dir_args work_tree git_dir (codes "symbolic-ref" ∷ codes "--quiet" ∷ codes "HEAD" ∷ [])

  abbrev pub show_ref_args : Bytes → List Bytes
  show_ref_args branch =
      with_dir_args work_tree git_dir
        (codes "show-ref" ∷ codes "--verify" ∷ codes "--quiet" ∷ trim_space branch ∷ [])

  abbrev pub trimmed_output : Result Failed Bytes → Result Failed Bytes
  trimmed_output (err why) = err why
  trimmed_output (ok data_) = ok (trim_space data_)

  unfoldable pub empty_tree_oid : Program → Result Failed Bytes
  empty_tree_oid git = trimmed_output (git_output_bytes git empty_tree_args)

  -- `show-ref` says that the branch does not exist
  abbrev pub is_unborn : Exit → Bool
  is_unborn succeeded = false
  is_unborn (exited code) = code == 1
  is_unborn not_run = false

  abbrev pub on_branch : Program → Failed → Result Failed Bytes → Result Failed Bytes
  on_branch git why (err _) = err why
  on_branch git why (ok branch) =
      let empty = empty_tree_oid git in
      if is_unborn (git (show_ref_args branch)).exit then empty else err why

  -- HEAD, of which git has not found a commit; `cancelled` is what `ctx.Err()` says
  unfoldable pub resolve_unborn : Program → Bool → Bytes → Failed → Result Failed Bytes
  resolve_unborn git cancelled ref why =
      if not (equal ref (codes "HEAD")) || cancelled
      then err why
      else on_branch git why (git_output_bytes git symbolic_ref_args)

  abbrev pub same_as_empty :
      Program → Bool → Bytes → Failed → Result Failed Bytes → Result Failed Bytes
  same_as_empty git cancelled ref why (err reason) = err reason
  same_as_empty git cancelled ref why (ok empty_oid) =
      if equal ref empty_oid then ok empty_oid else resolve_unborn git cancelled ref why

  -- `first` and `second` are what `ctx.Err()` says the two times
  abbrev pub resolve_found :
      Program → (first second : Bool) → Bytes → Result Failed Bytes → Result Failed Bytes
  resolve_found git first second ref (ok data_) = ok (trim_space data_)
  resolve_found git first second ref (err why) =
      if is_object_id ref && not first
      then same_as_empty git second ref why (empty_tree_oid git)
      else resolve_unborn git second ref why

  unfoldable pub resolve_base_oid : Program → (first second : Bool) → Bytes → Result Failed Bytes
  resolve_base_oid git first second ref =
      resolve_found git first second ref (git_output_bytes git (rev_parse_args ref))
