-- ===== src/Daemon/Session/Exec.antt =====
-- A command in a session: `acquireExecWithLease`, `attachExec` and `releaseExecGeneration`, with
-- `writeSessionPatch`, `finishBusyLocked`, `recoverBusyLocked` and `abortAcquire`, under the gate.
use persona.Base.{
  ℕ, ◌+◌, ◌%◌, ◌^◌, Bool, true, false, ◌&&◌, ◌||◌, not, List, [], ◌∷◌, Option, none, some, Result,
  ok, err, ◌==◌, ℤ, pos, is_positive, same_ℤ, length, ltb, if◌then◌else◌,
}
use persona.Text.Compare.{Bytes, codes, equal}
use persona.Text.Hex.{is_hex, is_lower}
use persona.Daemon.Config.{Config, same_config}
use persona.Daemon.Session.{
  Session, Slot, Info, session_snapshot, cache_session, note_error, persist_session,
}
use persona.Daemon.Calls.{
  Calls, Outcome, done, failed, failed_late, Process, Fault, call, wrap, join, join_faults, message,
  umount_paths_reverse, process_identity_alive, mutation_owner_alive,
}

-- What an operation refuses to do, or the error of what it called.
pub data Failure : Type 0 where
  fault : Fault → Failure
  invalid_lease_id invalid_key needs_cleanup other_options busy not_found lease_mismatch : Failure
  generation_mismatch still_running not_owned has_process : Failure

-- A counter of type uint64 wraps around.
abbrev pub next_generation : ℕ → ℕ
next_generation n = (n + 1) % 2 ^ 64

unfoldable pub stored : Bytes → Bytes → Outcome → Slot → Slot × Option Fault
stored text sum done t =
    (record t { patch = text; session = record t.session { patch_checksum = sum } }, none)
stored text sum (failed why) t = (t, some (wrap (codes "write patch") (codes "14") (call why)))
stored text sum (failed_late why) t =
    (record t { patch = text }, some (wrap (codes "write patch") (codes "14") (call why)))

unfoldable pub exported : Calls → Result Bytes Bytes → Option Bytes → Slot → Slot × Option Fault
exported calls (err why) rewound t = (t, some (wrap (codes "export patch") (codes "13") (call why)))
exported calls (ok text) (some why) t =
    (t, some (wrap (codes "rewind export patch") (codes "14") (call why)))
exported calls (ok text) none t = stored text (calls.digest text) (calls.write_patch text) t

unfoldable pub with_temp : Calls → Option Bytes → Slot → Slot × Option Fault
with_temp calls (some why) t = (t, some (wrap (codes "create export temp") (codes "13") (call why)))
with_temp calls none t = exported calls calls.export_patch calls.rewind t

unfoldable pub write_session_patch : Calls → Slot → Slot × Option Fault
write_session_patch calls t = with_temp calls calls.create_temp t

-- the assignments of `finishBusyLocked` behind the unmount
abbrev pub idle : Calls → Session → Session
idle calls s = record s {
  ignored_masks = [];
  busy = false;
  busy_owner_pid = pos 0;
  busy_owner_start = [];
  busy_exec_pgid = pos 0;
  busy_exec_start = [];
  busy_lease = [];
  last_used = some calls.finished_at;
}

abbrev pub saved_at : ℕ → Session → Session
saved_at now s = record s {
  last_flushed = some now;
  flush_count = s.flush_count + 1;
  dirty = false;
  last_error = [];
  last_durable_generation = s.generation;
}

abbrev pub unsaved : Bytes → Session → Session
unsaved text s = record s { dirty = true; last_error = text }

abbrev pub on_session : (Session → Session) → Slot → Slot
on_session f t = record t { session = f t.session }

abbrev pub after_export : Calls → Option Fault → Session → Session
after_export calls none s = saved_at calls.finished_at (idle calls s)
after_export calls (some f) s = unsaved (message f) (idle calls s)

-- the last save of metadata failed, and what it was to record is not on disk
abbrev pub after_save : Option Fault → Slot × Option Fault → Slot × Option Fault
after_save earlier (t, none) = (t, earlier)
after_save earlier (t, some f) =
    (cache_session (on_session (unsaved (message f)) t), join_faults earlier (some f))

abbrev pub finish_unmounted : Calls → Option Fault → Option Fault → Slot → Slot × Option Fault
finish_unmounted calls export_fault (some f) t = (
  (persist_session calls (on_session (unsaved (message f)) t)).0,
  join_faults export_fault (some (wrap (codes "unmask ignored files") (codes "10") f)),
)
finish_unmounted calls export_fault none t =
    after_save export_fault (persist_session calls (on_session (after_export calls export_fault) t))

unfoldable pub finish_busy : Calls → Slot → Slot × Option Fault
finish_busy calls t =
    let (u, export_fault) = write_session_patch calls t in
    finish_unmounted calls export_fault (umount_paths_reverse calls.umount u.session.ignored_masks)
      u

unfoldable pub recover_busy : Calls → Slot → Slot × Option Fault
recover_busy calls t =
    let s = t.session in
    if not s.busy
    then (t, none)
    else if mutation_owner_alive calls s.busy_owner_pid s.busy_owner_start s.busy_exec_pgid
        s.busy_exec_start
    then (t, none)
    else finish_busy calls t

-- the session is left busy, for the next operation to finish
abbrev pub held : List Bytes → Bytes → Session → Session
held masks text s = record s {
  ignored_masks = masks;
  busy = true;
  busy_owner_pid = pos 0;
  busy_owner_start = [];
  dirty = true;
  last_error = text;
}

unfoldable pub aborted : Calls → List Bytes → Fault → Option Fault → Slot → Slot × Fault
aborted calls masks cause none t = (t, cause)
aborted calls masks cause (some f) t =
    let (u, g) = persist_session calls (on_session (held masks (message f)) t) in
    (u, elim g [ none ↦ join cause f | some h ↦ join (join cause f) h ])

unfoldable pub abort_acquire : Calls → List Bytes → Fault → Slot → Slot × Fault
abort_acquire calls masks cause t =
    aborted calls masks cause (umount_paths_reverse calls.umount masks) t

-- what `acquireExecWithLease` assigns
abbrev pub leased : Calls → ℤ → Bytes → List Bytes → List Bytes → Session → Session
leased calls owner lease masks ignored s = record s {
  ignored_masks = masks;
  initial_ignored = if s.dirty then s.initial_ignored else ignored;
  busy = true;
  busy_owner_pid = owner;
  busy_owner_start = calls.process_start_time owner;
  busy_lease = lease;
  generation = next_generation s.generation;
  last_used = some calls.now;
  dirty = true;
}

-- and what it takes back of it, to the values of `old`
abbrev pub returned : Session → Session → Session
returned old s = record s {
  ignored_masks = [];
  busy = false;
  busy_owner_pid = pos 0;
  busy_owner_start = [];
  busy_lease = [];
  dirty = old.dirty;
  generation = old.generation;
  initial_ignored = old.initial_ignored;
}

unfoldable pub rolled_back : Session → Option Fault → Slot → Slot
rolled_back old none t = cache_session (on_session (returned old) t)
rolled_back old (some f) t = cache_session (note_error (message f) t)

unfoldable pub granted :
    Calls
    → Session
    → List Bytes
    → Bytes
    → Slot × Option Fault
    → Slot × Result Failure (Info × Bytes)
granted calls old masks lease (t, none) = (t, ok (session_snapshot t.session, lease))
granted calls old masks lease (t, some f) =
    let unmasked = umount_paths_reverse calls.umount masks in
    (rolled_back old unmasked t, err (fault (elim unmasked [ none ↦ f | some g ↦ join f g ])))

unfoldable pub failing : Slot × Fault → Slot × Result Failure (Info × Bytes)
failing (t, f) = (t, err (fault f))

-- the lease is the one asked for, or a new one
unfoldable pub chosen_lease : Calls → Bytes → Result Bytes Bytes
chosen_lease calls [] = calls.nonce
chosen_lease calls (c ∷ lease) = ok (c ∷ lease)

unfoldable pub grant_lease :
    Calls
    → ℤ
    → List Bytes
    → List Bytes
    → Result Bytes Bytes
    → Slot
    → Slot × Result Failure (Info × Bytes)
grant_lease calls owner masks ignored (err why) t =
    failing
      (abort_acquire calls masks (wrap (codes "create daemon lease") (codes "10") (call why)) t)
grant_lease calls owner masks ignored (ok lease) t =
    granted calls t.session masks lease
      (persist_session calls (on_session (leased calls owner lease masks ignored) t))

unfoldable pub masked :
    Calls → ℤ → Bytes → Option Bytes → Option Bytes → Slot → Slot × Result Failure (Info × Bytes)
masked calls owner requested (some why) ctx_error t = failing (
    abort_acquire calls calls.mask_ignored_files.targets
      (wrap (codes "mask ignored files") (codes "10") (call why)) t)
masked calls owner requested none (some why) t =
    failing (abort_acquire calls calls.mask_ignored_files.targets (call why) t)
masked calls owner requested none none t =
    grant_lease calls owner calls.mask_ignored_files.targets
      calls.mask_ignored_files.initial_ignored (chosen_lease calls requested) t

unfoldable pub recovered :
    Calls → ℤ → Bytes → Slot × Option Fault → Slot × Result Failure (Info × Bytes)
recovered calls owner requested (t, some f) = (t, err (fault f))
recovered calls owner requested (t, none) =
    let s = t.session in
    if not s.busy
    then masked calls owner requested calls.mask_ignored_files.error calls.ctx_error t
    else if not (equal requested [])
        && equal s.busy_lease requested
        && same_ℤ s.busy_owner_pid owner
        && equal s.busy_owner_start (calls.process_start_time owner)
    then (t, ok (session_snapshot s, s.busy_lease))
    else (t, err busy)

unfoldable pub ensured :
    Calls → ℤ → Bytes → Slot × Option Fault → Slot × Result Failure (Info × Bytes)
ensured calls owner requested (t, some f) = (t, err (fault f))
ensured calls owner requested (t, none) = recovered calls owner requested (recover_busy calls t)

-- `hex.DecodeString` gives 16 bytes, and the text is in lower case
unfoldable pub is_lease_id : Bytes → Bool
is_lease_id lease = is_hex lease && length lease == 32 && is_lower lease

-- `acquireExecWithLease` for a session that the daemon has, `ensureSessionLocked` included
unfoldable pub acquire_exec :
    Calls → ℤ → Config → Bytes → Slot → Slot × Result Failure (Info × Bytes)
acquire_exec calls owner config requested t =
    if not (equal requested []) && not (is_lease_id requested)
    then (t, err invalid_lease_id)
    else if equal t.session.key [] || ltb 4096 (length t.session.key)
    then (t, err invalid_key)
    else if t.session.closed
    then (t, err needs_cleanup)
    else if not (same_config t.session.config config)
    then (t, err other_options)
    else ensured calls owner requested
        (persist_session calls (on_session (λ s. record s { last_used = some calls.now }) t))

unfoldable pub to_result : Slot × Option Fault → Slot × Result Failure (Unit {0})
to_result (t, none) = (t, ok tt)
to_result (t, some f) = (t, err (fault f))

unfoldable pub release_exec : Calls → Bytes → ℕ → Slot → Slot × Result Failure (Unit {0})
release_exec calls lease generation t =
    let s = t.session in
    if not t.present
    then (t, err not_found)
    else if s.closed
    then (t, err needs_cleanup)
    else if not (generation == 0) && not (generation == s.view_generation)
    then (t, err generation_mismatch)
    else if not s.busy || not (equal s.busy_lease lease)
    then (t, err lease_mismatch)
    else if calls.execution_group_alive s.busy_exec_pgid s.busy_exec_start
    then (t, err still_running)
    else to_result (finish_busy calls t)

abbrev pub attached : ℤ → Bytes → Session → Session
attached pid start s = record s { busy_exec_pgid = pid; busy_exec_start = start }

unfoldable pub attach_process :
    Calls → ℤ → Result Bytes Process → Slot → Slot × Result Failure (Unit {0})
attach_process calls pid (err why) t = (t, err (fault (call why)))
attach_process calls pid (ok process) t =
    let s = t.session in
    if not (is_positive pid)
      || not (same_ℤ process.group pid)
      || not (same_ℤ process.parent s.busy_owner_pid)
      || not (process_identity_alive calls s.busy_owner_pid s.busy_owner_start)
    then (t, err not_owned)
    else if not (same_ℤ s.busy_exec_pgid (pos 0))
        && (not (same_ℤ s.busy_exec_pgid pid) || not (equal s.busy_exec_start process.start))
    then (t, err has_process)
    else to_result (persist_session calls (on_session (attached pid process.start) t))

unfoldable pub attach_exec : Calls → Bytes → ℕ → ℤ → Slot → Slot × Result Failure (Unit {0})
attach_exec calls lease generation pid t =
    let s = t.session in
    if not t.present || s.closed || not s.busy || not (equal s.busy_lease lease) || equal lease []
    then (t, err lease_mismatch)
    else if generation == 0 || not (generation == s.view_generation)
    then (t, err generation_mismatch)
    else attach_process calls pid (calls.read_process pid) t
