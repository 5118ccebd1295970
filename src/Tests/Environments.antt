-- ===== src/Tests/Environments.antt =====
-- The environment of git, for one that names another directory and another language.
use persona.Base.{◌≡◌, refl, [], ◌∷◌, List}
use persona.Text.Compare.{Bytes, codes, equal, has_prefix}
use persona.Text.Split.{cut}
use persona.Gitx.Environment

abbrev inherited : List Bytes
inherited = codes "GIT_DIR=/other" ∷ codes "LANG=de" ∷ codes "HOME=/r" ∷ codes "GITHUB=1" ∷ []

test_env_with :
    Environment.env_with inherited [] (codes "/repo/.git")
    ≡ codes "HOME=/r"
      ∷ codes "GITHUB=1"
      ∷ codes "LANG=C"
      ∷ codes "LC_ALL=C"
      ∷ codes "GIT_CONFIG_COUNT=1"
      ∷ codes "GIT_CONFIG_KEY_0=core.ignorecase"
      ∷ codes "GIT_CONFIG_VALUE_0=false"
      ∷ codes "GIT_DIR=/repo/.git"
      ∷ []
unfolding Environment.env_with Environment.filter_git_env Environment.without cut equal has_prefix
test_env_with = refl
