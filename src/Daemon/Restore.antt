-- ===== src/Daemon/Restore.antt =====
-- `restoreSessionWithCheckpoint`, `restoreSessionByKeyLocked` and `lookupSessionLocked`: a session is
-- put back from the metadata file that an earlier daemon wrote.
pub mod Restored
pub mod Leases
use persona.Base.{
  ℕ, ◌+◌, ◌*◌, ◌%◌, ◌^◌, Bool, true, false, ◌&&◌, not, [], Option, none, some, Result, ok, err,
  ◌==◌, if◌then◌else◌,
}
use persona.Text.Compare.{Bytes, equal}
use persona.Daemon.Config.{Config, same_config}
use persona.Daemon.Metadata.{Meta}
use persona.Daemon.MetaFile.{ReadError, absent, failed, invalid_file, too_large, invalid}
use persona.Daemon.Calls.{Calls, Fault, mutation_owner_alive}
use persona.Daemon.Session.{Session, Slot, View, cache_session, persist_session}
use persona.Daemon.Create.{CreateCalls, Made, made, broke, create_session}

-- what `os.Lstat` says
pub data Lstat : Type 0 where
  there gone : Lstat
  unreadable : Bytes → Lstat

pub record RestoreCalls : Type 0 where
  pub lstat_root : Lstat
  pub lstat_external : Lstat
  pub create : CreateCalls
  -- where the repository, the view and the patch of the key are
  pub view : View

pub data RestoreFailure : Type 0 where
  missing_key owner_alive stale_root stale_external key_mismatch other_options : RestoreFailure
  lstat_failed creation_failed : Bytes → RestoreFailure
  saving_failed : Fault → RestoreFailure
  unreadable_metadata : ReadError → RestoreFailure

-- `daemonTimeFromUnix`; seconds that are not positive are 0 here
abbrev pub time_from_unix : ℕ → Option ℕ
time_from_unix seconds = if seconds == 0 then none else some (seconds * 1000000000)

abbrev pub or_time : Option ℕ → Option ℕ → Option ℕ
or_time none other = other
or_time (some t) other = some t

-- a number of type uint64 that is never 0
unfoldable pub next_view : ℕ → ℕ
next_view n = let m = (n + 1) % 2 ^ 64 in if m == 0 then 1 else m

-- the assignments to the session that was made
abbrev pub put_back : ℕ → Meta → Bool → Session → Session
put_back now meta bump s =
    let created = or_time (time_from_unix meta.created_unix) (some now) in
    record s {
      created_at = created;
      last_used = if bump then some now else or_time (time_from_unix meta.last_used_unix) created;
      last_flushed = time_from_unix meta.last_flushed_unix;
      flush_count = meta.flush_count;
      flush_skipped = meta.flush_skipped;
      recovered_count = meta.recovered_count + 1;
      generation = meta.generation;
      last_durable_generation = meta.last_durable_generation;
      dirty = meta.dirty;
      last_error = meta.last_error;
      view_generation = next_view meta.view_generation;
    }

-- `putSession`
abbrev pub put_session : Session → Slot → Slot
put_session s t = cache_session (record t { session = s; present = true })

abbrev pub published : Slot × Option Fault → Slot × Result RestoreFailure (Unit {0})
published (t, none) = (t, ok tt)
published (t, some f) = (t, err (saving_failed f))

unfoldable pub install : Calls → Meta → Bool → Made → Slot → Slot × Result RestoreFailure (Unit {0})
install calls meta bump (broke why st) t = (t, err (creation_failed why))
install calls meta bump (made s st) t =
    published (persist_session calls (put_session (put_back calls.now meta bump s) t))

abbrev pub stale : Lstat → RestoreFailure → Option RestoreFailure
stale there why = some why
stale gone why = none
stale (unreadable text) why = some (lstat_failed text)

-- the first refusal, if there is one
abbrev pub or_refusal : Option RestoreFailure → Option RestoreFailure → Option RestoreFailure
or_refusal none later = later
or_refusal (some why) later = some why

unfoldable pub refusal : Calls → RestoreCalls → Meta → Option RestoreFailure
refusal calls rc meta = or_refusal (if equal meta.session_key [] then some missing_key else none) (
    or_refusal
      (if meta.dirty
          && mutation_owner_alive calls meta.busy_owner_pid meta.busy_owner_start
              meta.busy_exec_pgid meta.busy_exec_start
        then some owner_alive
        else none)
      (or_refusal
        (if not meta.dirty && not (equal meta.session_root [])
          then stale rc.lstat_root stale_root
          else none)
        (if not (equal meta.external_root [])
          then stale rc.lstat_external stale_external
          else none)))

unfoldable pub unless_refused :
    Calls
    → RestoreCalls
    → Meta
    → Bool
    → Option RestoreFailure
    → Slot
    → Slot × Result RestoreFailure (Unit {0})
unless_refused calls rc meta bump (some why) t = (t, err why)
unless_refused calls rc meta bump none t =
    install calls meta bump
      (create_session rc.create rc.view meta.session_key meta.config (some meta)) t

unfoldable pub restore_session :
    Calls → RestoreCalls → Meta → Bool → Slot → Slot × Result RestoreFailure (Unit {0})
restore_session calls rc meta bump t =
    if t.present then (t, ok tt) else unless_refused calls rc meta bump (refusal calls rc meta) t

-- whether a session was found
abbrev pub found : Slot × Result RestoreFailure (Unit {0}) → Slot × Result RestoreFailure Bool
found (t, ok _) = (t, ok true)
found (t, err why) = (t, err why)

-- what is read at the path of the metadata file of the key
unfoldable pub lookup_read :
    Calls → RestoreCalls → Bytes → Result ReadError Meta → Slot → Slot × Result RestoreFailure Bool
lookup_read calls rc key (err absent) t = (t, ok false)
lookup_read calls rc key (err (failed why)) t = (t, err (unreadable_metadata (failed why)))
lookup_read calls rc key (err invalid_file) t = (t, err (unreadable_metadata invalid_file))
lookup_read calls rc key (err too_large) t = (t, err (unreadable_metadata too_large))
lookup_read calls rc key (err (invalid why)) t = (t, err (unreadable_metadata (invalid why)))
lookup_read calls rc key (ok meta) t =
    if not (equal meta.session_key key)
    then (t, err key_mismatch)
    else found (restore_session calls rc meta false t)

unfoldable pub lookup_session :
    Calls → RestoreCalls → Bytes → Result ReadError Meta → Slot → Slot × Result RestoreFailure Bool
lookup_session calls rc key read t =
    if t.present then (t, ok true) else lookup_read calls rc key read t

unfoldable pub restore_session_by_key :
    Calls
    → RestoreCalls
    → Bytes
    → Config
    → Result ReadError Meta
    → Slot
    → Slot × Result RestoreFailure Bool
restore_session_by_key calls rc key config (err absent) t = (t, ok false)
restore_session_by_key calls rc key config (err (failed why)) t =
    (t, err (unreadable_metadata (failed why)))
restore_session_by_key calls rc key config (err invalid_file) t =
    (t, err (unreadable_metadata invalid_file))
restore_session_by_key calls rc key config (err too_large) t =
    (t, err (unreadable_metadata too_large))
restore_session_by_key calls rc key config (err (invalid why)) t =
    (t, err (unreadable_metadata (invalid why)))
restore_session_by_key calls rc key config (ok meta) t =
    if not (equal meta.session_key key)
    then (t, err key_mismatch)
    else if not (same_config meta.config config)
    then (t, err other_options)
    else found (restore_session calls rc meta true t)
