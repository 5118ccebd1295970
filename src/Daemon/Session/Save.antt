-- ===== src/Daemon/Session/Save.antt =====
-- `flushSessionLocked`, `markDirtySession` and `endSessionLocked`, under the gate.
use persona.Base.{
  ℕ, ◌+◌, Bool, true, false, ◌&&◌, Option, none, some, Result, ok, err, ltb, if◌then◌else◌,
}
use persona.Text.Compare.{Bytes, codes}
use persona.Daemon.Session.{Session, Slot, note_error, persist_session}
use persona.Daemon.Calls.{Calls, Fault, call, wrap, message}
use persona.Daemon.Session.Exec.{
  to_result, Failure, fault, busy, needs_cleanup, next_generation, write_session_patch,
  recover_busy, on_session, saved_at, unsaved, after_save,
}

abbrev pub too_early : ℕ → ℕ → Option ℕ → Bool
too_early now min_age none = false
too_early now min_age (some flushed) = ltb 0 min_age && ltb now (flushed + min_age)

abbrev pub flushed_at : ℕ → Session → Session
flushed_at now s = saved_at now (record s { last_used = some now })

-- behind the export
unfoldable pub save_exported : Calls → Slot × Option Fault → Slot × Option Fault
save_exported calls (t, some f) =
    ((persist_session calls (on_session (unsaved (message f)) t)).0, some f)
save_exported calls (t, none) =
    after_save none (persist_session calls (on_session (flushed_at calls.now) t))

-- behind the metadata that says that a save is in progress
unfoldable pub save_published : Calls → Slot × Option Fault → Slot × Option Fault
save_published calls (t, some f) = (t, some f)
save_published calls (t, none) = save_exported calls (write_session_patch calls t)

unfoldable pub flush_idle : Calls → ℕ → Slot → Slot × Option Fault
flush_idle calls min_age t =
    if too_early calls.now min_age t.session.last_flushed
    then persist_session calls
        (on_session (λ s. record s { flush_skipped = s.flush_skipped + 1 }) t)
    else save_published calls
        (persist_session calls (on_session (λ s. record s { dirty = true }) t))

unfoldable pub flush_recovered : Calls → ℕ → Slot × Option Fault → Slot × Result Failure (Unit {0})
flush_recovered calls min_age (t, some f) = (t, err (fault f))
flush_recovered calls min_age (t, none) =
    if t.session.busy then (t, err busy) else to_result (flush_idle calls min_age t)

-- `min_age` in nanoseconds; one that is not positive is 0 here
unfoldable pub flush_session : Calls → ℕ → Slot → Slot × Result Failure (Unit {0})
flush_session calls min_age t =
    if t.session.closed
    then (t, err needs_cleanup)
    else flush_recovered calls min_age (recover_busy calls t)

-- the assignments of `markDirtySession`
abbrev pub marked : Calls → Session → Session
marked calls s = record s {
  dirty = true;
  generation = next_generation s.generation;
  last_used = some calls.now;
}

unfoldable pub mark_idle : Calls → Slot → Slot × Result Failure (Unit {0})
mark_idle calls t = to_result (persist_session calls (on_session (marked calls) t))

unfoldable pub mark_dirty : Calls → Slot → Slot × Result Failure (Unit {0})
mark_dirty calls t =
    if t.session.closed
    then (t, err needs_cleanup)
    else if t.session.busy
    then (t, err busy)
    else mark_idle calls t

unfoldable pub synced : Option Bytes → Slot → Slot × Result Failure (Unit {0})
synced (some why) t =
    (t, err (fault (wrap (codes "sync removed daemon session metadata") (codes "14") (call why))))
synced none t = (record t { present = false; cached = none }, ok tt)

unfoldable pub removed : Calls → Option Bytes → Slot → Slot × Result Failure (Unit {0})
removed calls (some why) t =
    (t, err (fault (wrap (codes "remove daemon session metadata") (codes "14") (call why))))
removed calls none t = synced calls.sync_directory (record t { disk = none })

unfoldable pub cleaned_up : Calls → Option Bytes → Slot → Slot × Result Failure (Unit {0})
cleaned_up calls (some why) t = (
  (persist_session calls (note_error why t)).0,
  err (fault (wrap (codes "cleanup daemon session") (codes "10") (call why))),
)
cleaned_up calls none t = removed calls calls.remove_meta t

unfoldable pub close_flushed :
    Calls → Slot × Result Failure (Unit {0}) → Slot × Result Failure (Unit {0})
close_flushed calls (t, err why) = (t, err why)
close_flushed calls (t, ok tt) =
    cleaned_up calls calls.cleanup (on_session (λ s. record s { closed = true }) t)

unfoldable pub end_session : Calls → Slot → Slot × Result Failure (Unit {0})
end_session calls t =
    if t.session.closed
    then cleaned_up calls calls.cleanup t
    else close_flushed calls (flush_session calls 0 t)
