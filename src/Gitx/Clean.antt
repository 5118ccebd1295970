-- ===== src/Gitx/Clean.antt =====
-- `IsCleanExceptUntracked` and `IsCleanExceptPaths` with `hasUntrackedExcept`.
pub mod Only
use persona.Base.{Bool, true, false, List, [], ◌∷◌, Result, ok, err, ◌>>=◌, ◌||◌, if◌then◌else◌}
use persona.Text.Compare.{Bytes, codes, equal}
use persona.Gitx.Program.{
  Program, Failed, run_quiet, with_exclude_pathspecs, git_output_bytes, split_null_list, trimmed,
}

unfoldable pub has : List Bytes → Bytes → Bool
has [] path = false
has (other ∷ paths) path = equal other path || has paths path

-- whether a path stands outside of the set
unfoldable pub any_outside : List Bytes → List Bytes → Bool
any_outside set [] = false
any_outside set (path ∷ paths) =
    let rest = any_outside set paths in if has set path then rest else true

abbrev pub ls_args : List Bytes
ls_args = codes "ls-files" ∷ codes "-o" ∷ codes "--exclude-standard" ∷ codes "-z" ∷ []

unfoldable pub has_untracked_except : Program → List Bytes → Result Failed Bool
has_untracked_except git ignore_untracked = do
  out ← git_output_bytes git ls_args
  ok (any_outside (trimmed ignore_untracked) (split_null_list out))

-- the three questions, in their order; the first answer that is no or an error ends them
unfoldable pub all_clean :
    Result Failed Bool → Result Failed Bool → Result Failed Bool → Result Failed Bool
all_clean (err why) cached untracked = err why
all_clean (ok false) cached untracked = ok false
all_clean (ok true) (err why) untracked = err why
all_clean (ok true) (ok false) untracked = ok false
all_clean (ok true) (ok true) (err why) = err why
all_clean (ok true) (ok true) (ok true) = ok false
all_clean (ok true) (ok true) (ok false) = ok true

abbrev pub diff_args : List Bytes
diff_args = codes "diff" ∷ codes "--quiet" ∷ []

abbrev pub diff_cached_args : List Bytes
diff_cached_args = codes "diff" ∷ codes "--cached" ∷ codes "--quiet" ∷ []

unfoldable pub is_clean_except_untracked : Program → List Bytes → Result Failed Bool
is_clean_except_untracked git ignore_untracked =
    all_clean (run_quiet git diff_args) (run_quiet git diff_cached_args)
      (has_untracked_except git ignore_untracked)

unfoldable pub is_clean_except_paths : Program → List Bytes → Result Failed Bool
is_clean_except_paths git exclude_paths =
    all_clean (run_quiet git (with_exclude_pathspecs diff_args exclude_paths))
      (run_quiet git (with_exclude_pathspecs diff_cached_args exclude_paths))
      (has_untracked_except git exclude_paths)
