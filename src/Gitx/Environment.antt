-- ===== src/Gitx/Environment.antt =====
-- `FilterGitEnv` and `envWith`: the environment of git.
pub mod Own
use persona.Base.{
  Bool, false, ◌&&◌, ◌||◌, not, List, [], ◌∷◌, ◌++◌, Option, none, some, if◌then◌else◌,
}
use persona.Text.Compare.{Bytes, codes, equal, has_prefix}
use persona.Text.Split.{cut}

-- a test of the name of an entry; one without a name passes
abbrev pub name_is : (Bytes → Bool) → Option (Bytes × Bytes) → Bool
name_is test none = false
name_is test (some (name, value)) = not (equal name []) && test name

-- the entries without those whose names a test holds of
unfoldable pub without : (Bytes → Bool) → List Bytes → List Bytes
without test [] = []
without test (item ∷ env) =
    let rest = without test env in if name_is test (cut b'=' item) then rest else item ∷ rest

abbrev pub is_git_name : Bytes → Bool
is_git_name name = has_prefix name (codes "GIT_")

abbrev pub is_locale_name : Bytes → Bool
is_locale_name name =
    equal name (codes "LANG") || equal name (codes "LC_ALL") || equal name (codes "LC_MESSAGES")

unfoldable pub filter_git_env : List Bytes → List Bytes
filter_git_env env = without is_git_name env

abbrev pub given : Bytes → Bytes → List Bytes
given name value = if equal value [] then [] else (name ++ value) ∷ []

abbrev pub own_entries : Bytes → Bytes → List Bytes
own_entries work_tree git_dir =
    (codes "LANG=C"
      ∷ codes "LC_ALL=C"
      ∷ codes "GIT_CONFIG_COUNT=1"
      ∷ codes "GIT_CONFIG_KEY_0=core.ignorecase"
      ∷ codes "GIT_CONFIG_VALUE_0=false"
      ∷ [])
    ++ given (codes "GIT_WORK_TREE=") work_tree
    ++ given (codes "GIT_DIR=") git_dir

-- behind `os.Environ`
unfoldable pub env_with : List Bytes → Bytes → Bytes → List Bytes
env_with environ work_tree git_dir =
    without is_locale_name (filter_git_env environ) ++ own_entries work_tree git_dir
