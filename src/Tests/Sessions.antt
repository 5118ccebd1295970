-- ===== src/Tests/Sessions.antt =====
-- The theorems on the daemon's sessions and their options, at concrete inputs.
use persona.Base.{
  ◌≡◌, refl, Bool, true, false, List, [], ◌∷◌, none, some, ok, err, pos, arith, All, subst, Result,
  ◌==◌, if◌then◌else◌, inl,
}
use persona.Text.Compare
use persona.Text.Hex
use persona.Text.Number
use persona.Text.Compare.{Bytes, codes}
use persona.Daemon.Config
use persona.Daemon.Config.Canonical.{build_daemon_session_config_again}
use persona.Daemon.Metadata
use persona.Daemon.Session
use persona.Daemon.Calls.{Calls, umount_paths_reverse, Process, done, failed}
use persona.Daemon.Session.Invariant.{IsValid}
use persona.Daemon.Session.Preserved.{IsTrusted}
use persona.Daemon.Session.Reachable
use persona.Daemon.Session.Exec
use persona.Daemon.Session.Save
use persona.Daemon.Session.Durable.{IsDurable, flush_session-IsDurable, release_exec-IsDurable}
use persona.Daemon.Shutdown
use persona.Daemon.Shutdown.Clean.{IsClean, close_session-IsClean}

abbrev values : Config.FlagValues
values = record {
  base_mode = codes " worktree";
  base_ref = codes " ";
  allow_dirty = true;
  ignored_mode = codes "masked";
  ignored_max = pos 200;
  apply_mode = codes "strict";
}

abbrev options : Config.Config
options = record {
  base_mode = codes "worktree";
  base_ref = codes "HEAD";
  allow_dirty = true;
  ignored_mode = codes "masked";
  ignored_max = pos 200;
  apply_mode = codes "strict";
}

test_build : Config.build_daemon_session_config values ≡ ok options
unfolding Config.build_daemon_session_config Config.parse_enum Compare.equal Compare.trim_space
    Compare.trim_func Compare.trim_right Compare.trim_left_func Compare.is_space Compare.keep_last
    Config.or_head
test_build = refl

test_build_daemon_session_config_again :
    Config.build_daemon_session_config (Config.config_values options) ≡ ok options
test_build_daemon_session_config_again = build_daemon_session_config_again values test_build

abbrev sum : Bytes
sum = codes "e3b0c44298fc1c149afbf4c8996fb92427ae41e4649b934ca495991b7852b855"

abbrev session : Session.Session
session = record {
  key = codes "work";
  config = options;
  view = record {
    repo_root = codes "/r";
    git_dir = codes "/r/.git";
    view_path = codes "/v";
    patch_path = codes "/p";
  };
  root = codes "/s";
  external_root = codes "/e";
  ignored_masks = [];
  initial_ignored = [];
  busy = false;
  busy_owner_pid = pos 0;
  busy_owner_start = [];
  busy_exec_pgid = pos 0;
  busy_exec_start = [];
  busy_lease = [];
  created_at = some 5000000000;
  last_used = none;
  last_flushed = none;
  flush_count = 0;
  flush_skipped = 0;
  recovered_count = 0;
  dirty = false;
  base_oid = [];
  generation = 0;
  last_durable_generation = 0;
  view_generation = 1;
  last_error = [];
  patch_checksum = sum;
  closed = false;
}

abbrev pub slot : Session.Slot
slot = record {
  session = session;
  present = true;
  cached = none;
  disk = none;
  patch = [];
  writes = 0;
}

-- a machine on which the third write of metadata fails
abbrev pub calls : Calls
calls = record {
  finished_at = 7000000000;
  now = 6000000000;
  ctx_error = none;
  nonce = ok (codes "00112233445566778899aabbccddeeff");
  mask_ignored_files = record {
    targets = codes "/v/x" ∷ [];
    initial_ignored = codes "x" ∷ [];
    error = none;
  };
  umount = λ path. none;
  process_alive = λ pid. true;
  process_start_time = λ pid. codes "77";
  execution_group_alive = λ group start. false;
  read_process = λ pid. ok (record { parent = pos 40; group = pos 41; start = codes "78" });
  create_temp = none;
  export_patch = ok (codes "diff --git a/x b/x\n");
  rewind = none;
  write_patch = λ text. done;
  digest = λ text. sum;
  write_meta = λ n meta. if n == 2 then failed (codes "no space") else done;
  cleanup = none;
  remove_meta = none;
  sync_directory = none;
}

abbrev requests : List (Calls × Reachable.Request)
requests =
    (calls, Reachable.acquire (pos 40) options [])
    ∷ (calls, Reachable.attach (codes "00112233445566778899aabbccddeeff") 1 (pos 41))
    ∷ (calls, Reachable.release (codes "00112233445566778899aabbccddeeff") 1)
    ∷ (calls, Reachable.mark)
    ∷ (calls, Reachable.flush 0)
    ∷ (calls, Reachable.end)
    ∷ []

abbrev starts_well : Result Bytes Process → Bool
starts_well (ok p) = Metadata.parses (Number.parse_uint 10 64 p.start)
starts_well (err why) = true

calls-IsTrusted : IsTrusted calls
unfolding Metadata.is_checksum Hex.is_hex Number.parse_uint
calls-IsTrusted = record {
  digests = λ text. refl;
  starts = λ pid e. subst (λ r. starts_well r ≡ true) e refl;
}

slot-IsValid : IsValid 0 slot
unfolding Metadata.is_key Compare.equal Compare.trim_space Compare.trim_func Compare.trim_right
    Compare.trim_left_func Compare.is_space Compare.keep_last Metadata.check_options
    Config.build_daemon_session_config Config.parse_enum Config.same_config Config.or_head
    Metadata.is_checksum Hex.is_hex
slot-IsValid = record {
  plain = record { key = refl; options = refl; oid = refl; checksum = refl };
  counted = record {
    bounded = omega arith;
    not_ahead = omega arith;
    clean = λ e. refl;
    held = λ e. cc;
    idle = λ e. (refl, refl);
    grouped = inl (refl, refl);
  };
  saved = tt;
}

requests-IsTrusted : All (λ r. IsTrusted r.0) requests
requests-IsTrusted = (t, (t, (t, (t, (t, (t, tt))))))
  where
    t : IsTrusted calls
    t = calls-IsTrusted

handle_all-IsValid_example : IsValid 6 (Reachable.handle_all requests slot)
handle_all-IsValid_example =
    Reachable.handle_all-IsValid 0 requests slot (omega arith) requests-IsTrusted slot-IsValid

-- the session while a command holds it
abbrev leased_slot : Session.Slot
leased_slot = record slot {
  session = record session {
    busy = true;
    busy_owner_pid = pos 40;
    busy_owner_start = codes "77";
    busy_lease = codes "00";
    generation = 1;
    dirty = true;
  };
}

test_flush : (Save.flush_session calls 0 slot).1 ≡ ok tt
unfolding Save.flush_session Save.flush_recovered Exec.recover_busy Exec.to_result Save.flush_idle
    Save.save_published Session.persist_session Save.save_exported Exec.write_session_patch
    Exec.with_temp Exec.exported Exec.stored
test_flush = refl

test_flush_session-IsDurable : IsDurable calls (Save.flush_session calls 0 slot).0
test_flush_session-IsDurable = flush_session-IsDurable calls slot test_flush

test_release : (Exec.release_exec calls (codes "00") 1 leased_slot).1 ≡ ok tt
unfolding Exec.release_exec Compare.equal Exec.to_result Exec.finish_busy umount_paths_reverse
    Exec.write_session_patch Exec.with_temp Exec.exported Exec.stored Session.persist_session
test_release = refl

release_exec-IsDurable_example :
    IsDurable calls (Exec.release_exec calls (codes "00") 1 leased_slot).0
release_exec-IsDurable_example =
    release_exec-IsDurable calls (codes "00") 1 leased_slot test_release

-- a session with unsaved changes when the daemon ends
abbrev dirty_slot : Session.Slot
dirty_slot = record slot { session = record session { dirty = true } }

test_cleaned : (Shutdown.close_session calls dirty_slot).cleaned ≡ true
unfolding Shutdown.close_session Shutdown.leave Shutdown.save_last Save.flush_session
    Save.flush_recovered Exec.recover_busy Exec.to_result Save.flush_idle Save.save_published
    Session.persist_session Save.save_exported Exec.write_session_patch Exec.with_temp Exec.exported
    Exec.stored Shutdown.clean_last
test_cleaned = refl

close_session-IsClean_example : IsClean (Shutdown.save_last calls dirty_slot).0
close_session-IsClean_example = close_session-IsClean calls dirty_slot refl test_cleaned
