-- ===== src/Tests/Restores.antt =====
-- The theorems on creating and restoring sessions, for a dirty session of an earlier daemon.
use persona.Base.{◌≡◌, refl, true, false, [], none, some, ok, err, arith}
use persona.Text.Compare
use persona.Text.Compare.{codes}
use persona.Text.Hex
use persona.Text.Number
use persona.Daemon.Config
use persona.Daemon.Metadata
use persona.Daemon.Session
use persona.Daemon.Session.{Slot}
use persona.Daemon.Session.Exec
use persona.Daemon.Session.Invariant.{IsValid}
use persona.Daemon.Calls.{Calls}
use persona.Daemon.Calls
use persona.Daemon.Create
use persona.Daemon.Restore
use persona.Daemon.Restore.Restored.{IsDigested, restore_session-IsValid}
use persona.Daemon.Restore.Leases.{release_exec-restore_session}
use persona.Tests.Files.{meta}
use persona.Tests.Sessions.{calls, slot}

abbrev create : Create.CreateCalls
create = record {
  open_checkpoint = none;
  checksum = codes "e3b0c44298fc1c149afbf4c8996fb92427ae41e4649b934ca495991b7852b855";
  open_root = ok (codes "/s");
  has_mounts = ok false;
  create_root = ok (codes "/s2");
  load_patch_base = ok [];
  head = ok [];
  resolved = codes "4b825dc642cb6eb9a060e54bf8d69288fbee4904";
  validate_owner = none;
  validate_recovery_base = none;
  prepare_base = none;
  write_owner = none;
  make_external = ok (codes "/e2");
  make_directories = none;
  mount_gitdir = none;
  mount_base = none;
  mount_view = none;
  write_external_owner = none;
  apply_patch = none;
  list_ignored = ok [];
  mask_patch = none;
  mask_git = none;
  retain_base = none;
  save_new = none;
  now = 9000000000;
}

abbrev restore : Restore.RestoreCalls
restore = record {
  lstat_root = Restore.there;
  lstat_external = Restore.gone;
  create = create;
  view = slot.session.view;
}

-- the daemon does not have the session
abbrev empty_slot : Slot
empty_slot = record slot { present = false; disk = some meta }

abbrev dead_calls : Calls
dead_calls = record calls { process_alive = λ pid. false }

-- the overlay cannot be mounted
abbrev no_overlay : Create.CreateCalls
no_overlay = record create { mount_view = some (codes "no such device") }

create-IsDigested : IsDigested create
unfolding Metadata.is_checksum Hex.is_hex Compare.equal Metadata.is_base_oid
create-IsDigested = record { checksum = refl; resolved = refl }

test_valid : Metadata.validate_meta meta ≡ ok tt
unfolding Metadata.validate_meta Metadata.is_key Compare.equal Compare.trim_space Compare.trim_func
    Compare.trim_right Compare.trim_left_func Compare.is_space Compare.keep_last
    Metadata.check_options Config.build_daemon_session_config Config.parse_enum Config.same_config
    Config.or_head Metadata.check_generations Metadata.check_group Metadata.check_digests
    Metadata.is_base_oid Metadata.is_checksum Hex.is_hex Number.parse_uint
test_valid = refl

test_restore : (Restore.restore_session dead_calls restore meta true empty_slot).1 ≡ ok tt
unfolding Restore.restore_session Restore.unless_refused Restore.refusal Calls.mutation_owner_alive
    Calls.process_identity_alive Compare.equal Restore.install Session.persist_session
    Create.create_session Metadata.checkpoint_valid Create.with_checkpoint Create.with_root
    Create.with_base Create.check_head Create.base_of Create.mount_view_of Create.setup_mounts
    Create.finish_view
test_restore = refl

restore_session-IsValid_example :
    IsValid 2 (Restore.restore_session dead_calls restore meta true empty_slot).0
restore_session-IsValid_example =
    restore_session-IsValid 2 dead_calls restore meta true empty_slot test_valid (omega arith)
      create-IsDigested test_valid refl test_restore

release_exec-restore_session_example :
    Exec.release_exec calls
      (codes "l")
      meta.view_generation
      (Restore.restore_session dead_calls restore meta true empty_slot).0
    ≡ (
      (Restore.restore_session dead_calls restore meta true empty_slot).0,
      err Exec.generation_mismatch,
    )
release_exec-restore_session_example =
    release_exec-restore_session dead_calls calls restore meta true empty_slot (codes "l")
      (λ e. omega (arith, e)) (omega arith) refl test_restore
