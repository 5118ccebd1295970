-- ===== src/Gitx/Program.antt =====
-- The git program as the functions of internal/gitx/git.go call it, their arguments, and the lists
-- that git answers with: `withDirArgs`, `withExcludePathspecs`, `gitOutputBytes`, `runQuiet` and
-- `splitNullList`.
pub mod Lists
use persona.Base.{ℕ, Bool, true, false, List, [], ◌∷◌, ◌++◌, Result, ok, err, ◌==◌, if◌then◌else◌}
use persona.Text.Compare.{Bytes, codes, equal, trim_space}
use persona.Text.Split.{split}

-- how a run of the program ends
pub data Exit : Type 0 where
  succeeded : Exit
  exited : (code : ℕ) → Exit
  not_run : Exit

pub record Reply : Type 0 where
  pub stdout : Bytes
  pub exit : Exit

-- The program: what it answers to its arguments, in the environment of the call.
abbrev pub Program : Type 0
Program = List Bytes → Reply

pub data Failed : Type 0 where
  failed : Exit → Failed

unfoldable pub with_dir_args : Bytes → Bytes → List Bytes → List Bytes
with_dir_args work_tree git_dir args =
    (if equal git_dir [] then [] else codes "--git-dir" ∷ git_dir ∷ [])
    ++ (if equal work_tree [] then [] else codes "--work-tree" ∷ work_tree ∷ [])
    ++ args

-- the names of a list of paths, without those of white space
unfoldable pub trimmed : List Bytes → List Bytes
trimmed [] = []
trimmed (path ∷ paths) =
    let rest = trimmed paths in if equal (trim_space path) [] then rest else trim_space path ∷ rest

abbrev pub excluding : List Bytes → List Bytes
excluding [] = []
excluding (path ∷ paths) = (codes ":(exclude,literal)" ++ path) ∷ excluding paths

unfoldable pub with_exclude_pathspecs : List Bytes → List Bytes → List Bytes
with_exclude_pathspecs args [] = args
with_exclude_pathspecs args (path ∷ paths) =
    args ++ (codes "--" ∷ codes "." ∷ excluding (trimmed (path ∷ paths)))

abbrev pub output_of : Bytes → Exit → Result Failed Bytes
output_of stdout succeeded = ok stdout
output_of stdout (exited code) = err (failed (exited code))
output_of stdout not_run = err (failed not_run)

-- `gitOutputBytes`
unfoldable pub git_output_bytes : Program → List Bytes → Result Failed Bytes
git_output_bytes git args = output_of (git args).stdout (git args).exit

abbrev pub quiet_of : Exit → Result Failed Bool
quiet_of succeeded = ok true
quiet_of (exited code) = if code == 1 then ok false else err (failed (exited code))
quiet_of not_run = err (failed not_run)

-- `runQuiet`: whether git says that there is no difference
unfoldable pub run_quiet : Program → List Bytes → Result Failed Bool
run_quiet git args = quiet_of (git args).exit

abbrev pub nonempty : List Bytes → List Bytes
nonempty [] = []
nonempty ([] ∷ parts) = nonempty parts
nonempty ((c ∷ part) ∷ parts) = (c ∷ part) ∷ nonempty parts

unfoldable pub split_null_list : Bytes → List Bytes
split_null_list [] = []
split_null_list (c ∷ s) = nonempty (split 0 (c ∷ s))
