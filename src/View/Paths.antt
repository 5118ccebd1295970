-- ===== src/View/Paths.antt =====
-- `isSubpath`, `patchStatePathsForRepo`, `planGitDirMount` and `resolveGitCommonDir`.
pub mod Mirrored
use persona.Base.{
  Bool, true, false, ◌||◌, List, [], ◌∷◌, Option, none, some, Result, ok, err, ◌>>=◌, if◌then◌else◌,
}
use persona.Text.Compare.{Bytes, codes, equal, has_prefix, trim_space}
use persona.Text.Filepath.{clean, join_path, rel, is_abs, dot, dots}
use persona.View.Export.{patch_state_rel_paths}

-- a relative path that leads out
abbrev pub leads_out : Bytes → Bool
leads_out path = equal path dots || has_prefix path (codes "../")

abbrev pub sub_of : Bytes → Bool × Bytes
sub_of path =
    if equal path dot then (true, path) else if leads_out path then (false, []) else (true, path)

abbrev pub subpath : Option Bytes → Bool × Bytes
subpath none = (false, [])
subpath (some path) = sub_of (clean path)

unfoldable pub is_subpath : Bytes → Bytes → Bool × Bytes
is_subpath root path = subpath (rel root path)

abbrev pub places : Bytes → List Bytes → List Bytes
places root [] = []
places root (path ∷ paths) = join_path (root ∷ path ∷ []) ∷ places root paths

-- the paths of the patch and its lock file, in the repository and absolute
unfoldable pub patch_state_paths_for_repo : Bytes → Bool → Bytes → List Bytes × List Bytes
patch_state_paths_for_repo root patch_in_repo patch_rel =
    let paths = patch_state_rel_paths patch_in_repo patch_rel in (paths, places root paths)

-- the content of the file commondir, if it is there
abbrev pub common_of : Bytes → Option Bytes → Result Bytes Bytes
common_of git_dir none = ok (clean git_dir)
common_of git_dir (some content) =
    let named = trim_space content in
    if equal named []
    then err (codes "empty commondir")
    else ok (clean (if is_abs named then named else join_path (git_dir ∷ named ∷ [])))

unfoldable pub resolve_git_common_dir : Bytes → Result Bytes (Option Bytes) → Result Bytes Bytes
resolve_git_common_dir git_dir read = read >>= common_of git_dir

abbrev pub planned : Bytes → Bytes → Option Bytes → Result Bytes (Bytes × Bytes)
planned common mount_root none = err (codes "no relative path")
planned common mount_root (some path) =
    if leads_out path
    then err (codes "git dir escapes common dir")
    else ok (common, if equal path dot then mount_root else join_path (mount_root ∷ path ∷ []))

-- what is mounted, and where the operations find the directory of git
unfoldable pub plan_git_dir_mount :
    Bytes → Bytes → Result Bytes (Option Bytes) → Result Bytes (Bytes × Bytes)
plan_git_dir_mount git_dir mount_root read =
    resolve_git_common_dir git_dir read >>= λ common. planned common mount_root (rel common git_dir)
