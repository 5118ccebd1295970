-- ===== src/Daemon/Shutdown.antt =====
-- `closeSessions`: what the daemon does with a session when it ends, behind the gate of its key.
pub mod Clean
use persona.Base.{Bool, true, false, ◌&&◌, Option, none, some, Result, ok, err, if◌then◌else◌}
use persona.Text.Compare.{Bytes, codes}
use persona.Daemon.Calls.{Calls, Fault, call, join_faults, message, mutation_owner_alive}
use persona.Daemon.Session.{Session, Slot, note_error, persist_session}
use persona.Daemon.Session.Exec.{Failure, fault, busy, needs_cleanup, finish_busy, on_session}
use persona.Daemon.Session.Save.{flush_session}

-- the error of a flush; the session is neither closed nor busy, so that the others do not occur
abbrev pub failure_fault : Failure → Fault
failure_fault (fault f) = f
failure_fault _ = call (codes "session refused the flush")

abbrev pub flushed : Slot × Result Failure (Unit {0}) → Slot × Option Fault
flushed (t, ok _) = (t, none)
flushed (t, err why) = (t, some (failure_fault why))

-- the save that is left to be made
unfoldable pub save_last : Calls → Slot → Slot × Option Fault
save_last calls t =
    let s = t.session in
    if s.closed
    then (t, none)
    else if s.busy
        && mutation_owner_alive calls s.busy_owner_pid s.busy_owner_start s.busy_exec_pgid
            s.busy_exec_start
    then (
      t,
      some (
          call (
            codes
              "recovery_required: mutation owner or command group is still alive during shutdown")),
    )
    else if s.busy
    then finish_busy calls t
    else if s.dirty
    then flushed (flush_session calls 0 t)
    else (t, none)

-- How a session is left: its slot, whether its cleanup functions were called, and the error.
pub record Left : Type 0 where
  pub slot : Slot
  pub cleaned : Bool
  pub preserved : Bool
  pub error : Option Fault

-- `removeSession`
abbrev pub dropped : Slot → Slot
dropped t = record t {
  session = record t.session { closed = true };
  present = false;
  cached = none;
}

-- the error is kept in the metadata, and the cleanup functions are told to remove nothing
unfoldable pub preserve_for_recovery : Calls → Bool → Fault → Slot → Left
preserve_for_recovery calls cleaned f t =
    let (u, g) = persist_session calls (note_error (message f) t) in
    record { slot = dropped u; cleaned = cleaned; preserved = true; error = join_faults (some f) g }

unfoldable pub clean_last : Calls → Option Bytes → Slot → Left
clean_last calls none t = record {
  slot = dropped t;
  cleaned = true;
  preserved = false;
  error = none;
}
clean_last calls (some why) t = preserve_for_recovery calls true (call why) t

unfoldable pub leave : Calls → Slot × Option Fault → Left
leave calls (t, some f) = preserve_for_recovery calls false f t
leave calls (t, none) = clean_last calls calls.cleanup t

-- one turn of the loop of `closeSessions`, for a key that has a session
unfoldable pub close_session : Calls → Slot → Left
close_session calls t = leave calls (save_last calls t)
