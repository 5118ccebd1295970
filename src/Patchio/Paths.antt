-- ===== src/Patchio/Paths.antt =====
-- `checkPath` and `sanitizePatchPath`: which paths a patch may name.
pub mod Safe
use persona.Base.{
  ℕ, ◌≡◌, refl, Bool, true, false, ◌||◌, List, [], ◌∷◌, ◌++◌, map, Result, ok, err, ◌>>◌, drop,
  ◌==◌, if◌then◌else◌, not,
}
use persona.Text.Compare.{Bytes, codes, equal, has_prefix, lower}
use persona.Patchio.Errors.{PatchError, absolute_path, current_path, parent_path, git_path}

-- `strings.EqualFold(part, ".git")`: of the letters in ".git" only the ASCII ones fold together.
unfoldable pub is_git : Bytes → Bool
is_git part = equal (map lower part) (codes ".git")

-- the three tests on one part
unfoldable pub check_part : Bytes → Result PatchError (Unit {0})
unfolding is_git
check_part part =
    if equal part (codes ".")
    then err current_path
    else if equal part (codes "..")
    then err parent_path
    else if is_git part
    then err git_path
    else ok tt

-- The loop over `start`: `part` holds the bytes from `start` to the byte looked at.
unfoldable pub check_parts : Bytes → Bytes → Result PatchError (Unit {0})
check_parts part [] = check_part part
check_parts part (c ∷ path) =
    let at_slash = check_part part >> check_parts [] path in
    let inside = check_parts (part ++ c ∷ []) path in if c == b'/' then at_slash else inside

unfoldable pub check_path : Bytes → Result PatchError (Unit {0})
unfolding check_parts
check_path path =
    if equal path [] || equal path (codes "/dev/null")
    then ok tt
    else if has_prefix path (codes "/")
    then err absolute_path
    else check_parts [] path

unfoldable pub sanitize_patch_path : Bytes → Bytes
sanitize_patch_path path =
    if has_prefix path (codes "a/") || has_prefix path (codes "b/") then drop 2 path else path
