-- ===== src/Daemon/Session.antt =====
-- `daemonSession`, its snapshots, and `persistSessionLocked`: a session that the daemon holds.

pub mod Exec
pub mod Save
pub mod Invariant
pub mod Preserved
pub mod Leasing
pub mod Saving
pub mod Reachable
pub mod Durable
use persona.Base.{
  ℕ, ◌+◌, ◌/◌, Bool, true, false, ◌&&◌, not, List, [], ◌∷◌, Option, none, some, ℤ, pos,
  if◌then◌else◌,
}
use persona.Text.Compare.{Bytes, codes, equal}
use persona.Daemon.Config.{Config}
use persona.Daemon.Metadata.{Meta, metadata_schema}
use persona.Daemon.Calls.{Calls, Outcome, done, failed, failed_late, Fault, wrap, call, message}

-- The fields of `daemonSessionInfo` that do not follow from the others.
pub record View : Type 0 where
  pub repo_root : Bytes
  pub git_dir : Bytes
  pub view_path : Bytes
  pub patch_path : Bytes

pub record Session : Type 0 where
  pub key : Bytes
  pub config : Config
  pub view : View
  pub root : Bytes
  pub external_root : Bytes
  pub ignored_masks : List Bytes
  pub initial_ignored : List Bytes
  pub busy : Bool
  pub busy_owner_pid : ℤ
  pub busy_owner_start : Bytes
  pub busy_exec_pgid : ℤ
  pub busy_exec_start : Bytes
  pub busy_lease : Bytes
  pub created_at : Option ℕ
  pub last_used : Option ℕ
  pub last_flushed : Option ℕ
  pub flush_count : ℕ
  pub flush_skipped : ℕ
  pub recovered_count : ℕ
  pub dirty : Bool
  pub base_oid : Bytes
  pub generation : ℕ
  pub last_durable_generation : ℕ
  pub view_generation : ℕ
  pub last_error : Bytes
  pub patch_checksum : Bytes
  pub closed : Bool

pub record Info : Type 0 where
  pub session_key : Bytes
  pub view : View
  pub dirty : Bool
  pub busy : Bool
  pub busy_owner_pid : ℤ
  pub busy_exec_pgid : ℤ
  pub created_unix : ℕ
  pub last_used_unix : ℕ
  pub last_flushed_unix : ℕ
  pub flush_count : ℕ
  pub flush_skipped : ℕ
  pub recovered_count : ℕ
  pub view_generation : ℕ
  pub generation : ℕ
  pub last_durable_generation : ℕ
  pub base_oid : Bytes
  pub state : Bytes
  pub last_error : Bytes
  pub recovery_root : Bytes
  pub external_root : Bytes

-- seconds of a time in nanoseconds; the zero time is none, and gives no seconds
abbrev pub unix : Option ℕ → ℕ
unix none = 0
unix (some t) = t / 1000000000

unfoldable pub session_state : Session → Bytes
session_state s =
    if s.closed
    then codes "cleanup_required"
    else if not (equal s.last_error [])
    then codes "recovery_required"
    else if s.busy
    then codes "mutating"
    else if s.dirty
    then codes "dirty"
    else codes "ready"

unfoldable pub session_snapshot : Session → Info
session_snapshot s = record {
  session_key = s.key;
  view = s.view;
  dirty = s.dirty;
  busy = s.busy;
  busy_owner_pid = s.busy_owner_pid;
  busy_exec_pgid = s.busy_exec_pgid;
  created_unix = unix s.created_at;
  last_used_unix = unix s.last_used;
  last_flushed_unix = unix s.last_flushed;
  flush_count = s.flush_count;
  flush_skipped = s.flush_skipped;
  recovered_count = s.recovered_count;
  view_generation = s.view_generation;
  generation = s.generation;
  last_durable_generation = s.last_durable_generation;
  base_oid = s.base_oid;
  state = session_state s;
  last_error = s.last_error;
  recovery_root = if equal s.last_error [] && not s.closed then [] else s.root;
  external_root = s.external_root;
}

abbrev pub meta_snapshot : Session → Meta
meta_snapshot s = record {
  schema_version = metadata_schema;
  session_key = s.key;
  config = s.config;
  session_root = s.root;
  created_unix = unix s.created_at;
  last_used_unix = unix s.last_used;
  last_flushed_unix = unix s.last_flushed;
  flush_count = s.flush_count;
  flush_skipped = s.flush_skipped;
  recovered_count = s.recovered_count;
  dirty = s.dirty;
  base_oid = s.base_oid;
  generation = s.generation;
  last_durable_generation = s.last_durable_generation;
  view_generation = s.view_generation;
  last_error = s.last_error;
  busy_owner_pid = s.busy_owner_pid;
  busy_owner_start = s.busy_owner_start;
  busy_exec_pgid = s.busy_exec_pgid;
  busy_exec_start = s.busy_exec_start;
  initial_ignored = s.initial_ignored;
  external_root = s.external_root;
  patch_checksum = s.patch_checksum;
}

-- What an operation on a key reads and writes: the session in memory, `cached[key]`, the metadata
-- file, the patch file, and how many metadata files were written.
pub record Slot : Type 0 where
  pub session : Session
  pub present : Bool
  pub cached : Option Info
  pub disk : Option Meta
  pub patch : Bytes
  pub writes : ℕ

abbrev pub cache_session : Slot → Slot
cache_session t = record t { cached = some (session_snapshot t.session) }

-- `sess.lastError = …`
abbrev pub note_error : Bytes → Slot → Slot
note_error text t = record t { session = record t.session { last_error = text } }

abbrev pub write_metadata : Bytes → Fault
write_metadata text = wrap (codes "write daemon session metadata") (codes "14") (call text)

abbrev pub persisted : Outcome → Slot → Slot × Option Fault
persisted done t = (record t { disk = some (meta_snapshot t.session); writes = t.writes + 1 }, none)
persisted (failed text) t = (
  cache_session (note_error text (record t { writes = t.writes + 1 })),
  some (write_metadata text),
)
persisted (failed_late text) t = (
  cache_session
      (note_error text (record t { disk = some (meta_snapshot t.session); writes = t.writes + 1 })),
  some (write_metadata text),
)

unfoldable pub persist_session : Calls → Slot → Slot × Option Fault
persist_session calls t =
    persisted (calls.write_meta t.writes (meta_snapshot t.session)) (cache_session t)
