-- ===== src/Daemon/Config.antt =====
-- The options of a session: `daemonSessionConfig`, `parseEnum` and `buildDaemonSessionConfig`.
pub mod Canonical
use persona.Base.{
  Bool, true, false, ◌&&◌, not, List, [], ◌∷◌, Result, ok, err, ◌>>=◌, ◌>>◌, ℤ, is_negative, same_ℤ,
  if◌then◌else◌,
}
use persona.Text.Compare.{Bytes, codes, equal, trim_space}

-- internal/model: a mode is the text by which it is written.
abbrev pub base_repo : Bytes
base_repo = codes "repo"

abbrev pub base_worktree : Bytes
base_worktree = codes "worktree"

abbrev pub ignored_transparent : Bytes
ignored_transparent = codes "transparent"

abbrev pub ignored_readonly : Bytes
ignored_readonly = codes "readonly"

abbrev pub ignored_masked : Bytes
ignored_masked = codes "masked"

abbrev pub apply_strict : Bytes
apply_strict = codes "strict"

abbrev pub apply_reject : Bytes
apply_reject = codes "reject"

-- The flags as they are given.
pub record FlagValues : Type 0 where
  pub base_mode : Bytes
  pub base_ref : Bytes
  pub allow_dirty : Bool
  pub ignored_mode : Bytes
  pub ignored_max : ℤ
  pub apply_mode : Bytes

pub record Config : Type 0 where
  pub base_mode : Bytes
  pub base_ref : Bytes
  pub allow_dirty : Bool
  pub ignored_mode : Bytes
  pub ignored_max : ℤ
  pub apply_mode : Bytes

pub data ConfigError : Type 0 where
  invalid_base_mode invalid_ignored_mode invalid_apply_mode : ConfigError
  base_ref_in_repo_mode negative_ignored_max : ConfigError

-- `parseEnum`: the first of the valid items that is the trimmed input
unfoldable pub parse_enum : ConfigError → List Bytes → Bytes → Result ConfigError Bytes
parse_enum e [] input = err e
parse_enum e (item ∷ items) input =
    let rest = parse_enum e items input in if equal (trim_space input) item then ok item else rest

unfoldable pub or_head : Bytes → Bytes
or_head [] = codes "HEAD"
or_head (c ∷ s) = c ∷ s

unfoldable pub build_daemon_session_config : FlagValues → Result ConfigError Config
build_daemon_session_config values = do
  mode ← parse_enum invalid_base_mode (base_repo ∷ base_worktree ∷ []) values.base_mode
  let ref = or_head (trim_space values.base_ref)
  if equal mode base_repo && not (equal ref (codes "HEAD"))
      then err base_ref_in_repo_mode
      else ok tt
  ignored ←
      parse_enum invalid_ignored_mode (ignored_transparent ∷ ignored_readonly ∷ ignored_masked ∷ [])
        values.ignored_mode
  if is_negative values.ignored_max then err negative_ignored_max else ok tt
  apply ← parse_enum invalid_apply_mode (apply_strict ∷ apply_reject ∷ []) values.apply_mode
  ok (record {
    base_mode = mode;
    base_ref = ref;
    allow_dirty = values.allow_dirty;
    ignored_mode = ignored;
    ignored_max = values.ignored_max;
    apply_mode = apply;
  })

-- the flags that `validateDaemonSessionMeta` makes of saved options
abbrev pub config_values : Config → FlagValues
config_values c = record {
  base_mode = c.base_mode;
  base_ref = c.base_ref;
  allow_dirty = c.allow_dirty;
  ignored_mode = c.ignored_mode;
  ignored_max = c.ignored_max;
  apply_mode = c.apply_mode;
}

abbrev pub same_bool : Bool → Bool → Bool
same_bool true b = b
same_bool false b = not b

-- `cfg == other`
unfoldable pub same_config : Config → Config → Bool
same_config c d =
    equal c.base_mode d.base_mode
    && equal c.base_ref d.base_ref
    && same_bool c.allow_dirty d.allow_dirty
    && equal c.ignored_mode d.ignored_mode
    && same_ℤ c.ignored_max d.ignored_max
    && equal c.apply_mode d.apply_mode
