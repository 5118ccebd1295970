-- ===== src/Tests/Files.antt =====
-- The theorems on replacing the patch file and the metadata file, at concrete inputs.
use persona.Base.{◌≡◌, refl, ◌≤◌, true, false, [], none, some, ok, pos, arith, length}
use persona.Text.Compare.{Bytes, codes}
use persona.Replacing
use persona.Replacing.Atomic.{IsAtomic}
use persona.Patchio.Walk.{Reader, max_patch_bytes}
use persona.Patchio.Store
use persona.Patchio.Store.Atomic.{IsSmooth, write_file_at-completes}
use persona.Text.Compare
use persona.Text.Hex
use persona.Text.Number
use persona.Daemon.Config
use persona.Daemon.Metadata
use persona.Daemon.Metadata.{Meta, metadata_schema}
use persona.Daemon.MetaFile
use persona.Daemon.MetaFile.Saved.{write_session_meta-IsAtomic, write_session_meta-read}

-- all calls succeed, and a patch file of the user 7 is there
abbrev calls : Store.Calls
calls = record {
  dir_is_nil = false;
  stat = Store.regular 0o100640 7 7;
  random = none;
  open_temp = none;
  write_error = none;
  fchown = none;
  fchmod = none;
  fsync = none;
  close_temp = none;
  rename_temp = none;
  fsync_dir = none;
}

abbrev patch : Reader
patch = record { content = codes "diff --git a/x b/x\n"; fails = false }

abbrev old_patch : Replacing.File
old_patch = record { content = codes "old"; synced = true }

test_stat :
    Store.stat_atomic_target calls.stat
    ≡ ok (record { mode = 0o640; uid = pos 7; gid = pos 7; exists = true })
unfolding Store.stat_atomic_target
test_stat = refl

calls-IsSmooth : IsSmooth calls
calls-IsSmooth = record {
  open_dir = refl;
  random = refl;
  created = refl;
  wrote = refl;
  owned = refl;
  moded = refl;
  synced = refl;
  closed = refl;
  renamed = refl;
  synced_dir = refl;
}

small_patch : length patch.content ≤ max_patch_bytes
small_patch = omega arith

test_write_file_at-completes : (Store.write_file_at calls patch).error ≡ none
test_write_file_at-completes =
    write_file_at-completes calls patch calls-IsSmooth test_stat small_patch refl

abbrev pub meta : Meta
meta = record {
  schema_version = metadata_schema;
  session_key = codes "work";
  config = record {
    base_mode = codes "worktree";
    base_ref = codes "HEAD";
    allow_dirty = true;
    ignored_mode = codes "masked";
    ignored_max = pos 200;
    apply_mode = codes "strict";
  };
  session_root = codes "/s";
  created_unix = 5;
  last_used_unix = 6;
  last_flushed_unix = 0;
  flush_count = 0;
  flush_skipped = 0;
  recovered_count = 0;
  dirty = true;
  base_oid = codes "4b825dc642cb6eb9a060e54bf8d69288fbee4904";
  generation = 2;
  last_durable_generation = 1;
  view_generation = 1;
  last_error = [];
  busy_owner_pid = pos 0;
  busy_owner_start = [];
  busy_exec_pgid = pos 0;
  busy_exec_start = [];
  initial_ignored = [];
  external_root = codes "/e";
  patch_checksum = codes "e3b0c44298fc1c149afbf4c8996fb92427ae41e4649b934ca495991b7852b855";
}

-- a package json that has just these metadata
abbrev json : MetaFile.Json
json = record { marshal_indent = λ m. ok (codes "{}"); unmarshal = λ text. ok meta }

abbrev meta_calls : MetaFile.WriteCalls
meta_calls = record {
  mkdir_all = none;
  create_temp = none;
  write_error = none;
  fsync = none;
  close_temp = none;
  chmod_temp = none;
  rename_temp = none;
  open_dir = none;
  fsync_dir = none;
}

write_session_meta-IsAtomic_example :
    IsAtomic none (codes "{}\n") (MetaFile.write_session_meta json meta_calls meta)
write_session_meta-IsAtomic_example =
    write_session_meta-IsAtomic none json meta_calls meta (codes "{}") refl

test_write : (MetaFile.write_session_meta json meta_calls meta).error ≡ none
unfolding MetaFile.write_session_meta MetaFile.write_validated Metadata.validate_meta
    Metadata.is_key Compare.equal Compare.trim_space Compare.trim_func Compare.trim_right
    Compare.trim_left_func Compare.is_space Compare.keep_last Metadata.check_options
    Config.build_daemon_session_config Config.parse_enum Config.same_config Config.or_head
    Metadata.check_generations Metadata.check_group MetaFile.in_dir MetaFile.publish
    MetaFile.write_marshalled MetaFile.write_temp MetaFile.write_text Metadata.check_digests
    Metadata.is_base_oid Metadata.is_checksum Hex.is_hex Number.parse_uint
test_write = refl

write_session_meta-read_example :
    (f : Replacing.File) × ((Replacing.apply_all
        (MetaFile.write_session_meta json meta_calls meta).effects
        (record { target = none; kept = none; temp = none })).target
      ≡ some f)
    × (MetaFile.read_session_meta json (
          ok (record {
            is_regular = true;
            size = length f.content;
            content = f.content;
            read_error = none;
          }))
        ≡ ok (MetaFile.with_schema meta))
write_session_meta-read_example =
    write_session_meta-read none json meta_calls meta (λ text e. refl) test_write

-- the directory cannot be synced
abbrev late_calls : Store.Calls
late_calls = record calls { fsync_dir = some (codes "input/output error") }
