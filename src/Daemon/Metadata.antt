-- ===== src/Daemon/Metadata.antt =====
-- `daemonSessionMeta`, `validateDaemonSessionMeta`, `checkpoint.validate`: what is saved of a session.
use persona.Base.{
  ℕ, Bool, true, false, ◌&&◌, ◌||◌, not, [], List, Option, none, some, Result, ok, err, ◌>>◌, ◌==◌,
  ltb, ℤ, pos, is_negative, is_positive, same_ℤ, length, if◌then◌else◌,
}
use persona.Text.Compare.{Bytes, equal, trim_space}
use persona.Text.Number.{parse_uint}
use persona.Text.Hex.{is_hex}
use persona.Daemon.Config.{
  Config, ConfigError, build_daemon_session_config, config_values, same_bool, same_config,
}

pub record Meta : Type 0 where
  pub schema_version : ℤ
  pub session_key : Bytes
  pub config : Config
  pub session_root : Bytes
  pub created_unix : ℕ
  pub last_used_unix : ℕ
  pub last_flushed_unix : ℕ
  pub flush_count : ℕ
  pub flush_skipped : ℕ
  pub recovered_count : ℕ
  pub dirty : Bool
  pub base_oid : Bytes
  pub generation : ℕ
  pub last_durable_generation : ℕ
  pub view_generation : ℕ
  pub last_error : Bytes
  pub busy_owner_pid : ℤ
  pub busy_owner_start : Bytes
  pub busy_exec_pgid : ℤ
  pub busy_exec_start : Bytes
  pub initial_ignored : List Bytes
  pub external_root : Bytes
  pub patch_checksum : Bytes

pub data MetaError : Type 0 where
  unsupported_schema invalid_key noncanonical_options : MetaError
  invalid_options : ConfigError → MetaError
  durable_ahead unsaved_generation incomplete_group invalid_group : MetaError
  missing_checksum invalid_base_oid invalid_checksum : MetaError

-- `daemonMetadataSchema`
abbrev pub metadata_schema : ℤ
metadata_schema = pos 1

-- `if test { return err }`
abbrev pub refuse : {E : Type 0} → Bool → E → Result E (Unit {0})
refuse test e = if test then err e else ok tt

abbrev pub is_supported : ℤ → Bool
is_supported version = same_ℤ version (pos 0) || same_ℤ version metadata_schema

unfoldable pub check_options : Config → Result ConfigError Config → Result MetaError (Unit {0})
check_options config (err e) = err (invalid_options e)
check_options config (ok c) = refuse (not (same_config c config)) noncanonical_options

abbrev pub parses : Option ℕ → Bool
parses none = false
parses (some n) = true

-- an execution group with its start, which only a dirty session has
unfoldable pub check_group : ℤ → Bytes → Bool → Result MetaError (Unit {0})
check_group group start dirty =
    refuse (is_negative group || not (same_bool (same_ℤ group (pos 0)) (equal start [])))
      incomplete_group
    >> refuse (is_positive group && (not (parses (parse_uint 10 64 start)) || not dirty))
        invalid_group

-- a digest in hexadecimal form
unfoldable pub is_base_oid : Bytes → Bool
is_base_oid oid = is_hex oid && (length oid == 40 || length oid == 64)

unfoldable pub is_checksum : Bytes → Bool
is_checksum sum = is_hex sum && length sum == 64

unfoldable pub check_generations : ℕ → ℕ → Bool → Result MetaError (Unit {0})
check_generations generation durable dirty =
    refuse (ltb generation durable) durable_ahead
    >> refuse (not dirty && not (generation == durable)) unsaved_generation

unfoldable pub check_digests : Meta → Result MetaError (Unit {0})
check_digests meta =
    refuse
      (same_ℤ meta.schema_version metadata_schema
        && not (equal meta.session_root [])
        && equal meta.patch_checksum [])
      missing_checksum
    >> refuse (not (equal meta.base_oid []) && not (is_base_oid meta.base_oid)) invalid_base_oid
    >> refuse (not (equal meta.patch_checksum []) && not (is_checksum meta.patch_checksum))
        invalid_checksum

unfoldable pub is_key : Bytes → Bool
is_key key = not (equal key []) && equal key (trim_space key) && not (ltb 4096 (length key))

unfoldable pub validate_meta : Meta → Result MetaError (Unit {0})
validate_meta meta =
    refuse (not (is_supported meta.schema_version)) unsupported_schema
    >> refuse (not (is_key meta.session_key)) invalid_key
    >> check_options meta.config (build_daemon_session_config (config_values meta.config))
    >> check_generations meta.generation meta.last_durable_generation meta.dirty
    >> check_group meta.busy_exec_pgid meta.busy_exec_start meta.dirty
    >> check_digests meta

-- `checkpoint.validate` with the checksum of the patch that was read
unfoldable pub checkpoint_valid : Bytes → Meta → Bool
checkpoint_valid checksum meta =
    meta.dirty || equal meta.patch_checksum [] || equal meta.patch_checksum checksum
