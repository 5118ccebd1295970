-- ===== src/Daemon/Shutdown/Clean.antt =====
-- The end of the daemon removes nothing that is unsaved.
use persona.Base.{◌≡◌, refl, inl, inr, true, false, Option, none, some, Result, ok, err, Bool-cases}
use persona.Daemon.Calls.{Calls, Fault, mutation_owner_alive}
use persona.Daemon.Session
use persona.Daemon.Session.Exec
use persona.Daemon.Session.Durable.{IsDurable, flush_session-IsDurable, finish_busy-IsDurable}
use persona.Daemon.Shutdown

-- nothing of the session is unsaved
pub record IsClean (t : Session.Slot) : Type 0 where
  pub clean : t.session.dirty ≡ false
  pub idle : t.session.busy ≡ false

module _ (calls : Calls) where
  durable-IsClean : (t : Session.Slot) → IsDurable calls t → IsClean t
  durable-IsClean t d = record { clean = d.clean; idle = d.idle }

  flushed-IsClean :
      (r : Session.Slot × Result Exec.Failure (Unit {0}))
      → (r.1 ≡ ok tt → IsDurable calls r.0)
      → (Shutdown.flushed r).1 ≡ none
      → IsClean (Shutdown.flushed r).0
  flushed-IsClean (t, ok tt) d h = record { clean = (d refl).clean; idle = (d refl).idle }
  flushed-IsClean (t, err why) d h = absurd (cc h)

  save_last-IsClean :
      (t : Session.Slot)
      → t.session.closed ≡ false
      → (Shutdown.save_last calls t).1 ≡ none
      → IsClean (Shutdown.save_last calls t).0
  unfolding Shutdown.save_last
  save_last-IsClean t going h =
      let s = t.session in
      let alive =
        mutation_owner_alive calls s.busy_owner_pid s.busy_owner_start s.busy_exec_pgid
          s.busy_exec_start in
      elim (Bool-cases s.busy) [
        | inl busy ↦ elim (Bool-cases alive) [
          | inl running ↦ absurd (cc (simp (going, busy, running) at h))
          | inr over ↦
              simp (going, busy, over)
                (durable-IsClean _ (finish_busy-IsDurable calls t (simp (going, busy, over) at h)))
        ]
        | inr idle ↦ elim (Bool-cases s.dirty) [
          | inl dirty ↦
              simp (going, idle, dirty)
                (flushed-IsClean _ (flush_session-IsDurable calls t)
                  (simp (going, idle, dirty) at h))
          | inr clean ↦ simp (going, idle, clean) (record { clean = clean; idle = idle })
        ]
      ]

  leave-IsClean :
      (r : Session.Slot × Option Fault)
      → (r.1 ≡ none → IsClean r.0)
      → (Shutdown.leave calls r).cleaned ≡ true
      → IsClean r.0
  unfolding Shutdown.leave Shutdown.preserve_for_recovery
  leave-IsClean (t, none) c h = c refl
  leave-IsClean (t, some f) c h = absurd (cc h)

  -- When the daemon ends, it calls the cleanup functions of a session that is not closed, which
  -- remove its root, only if its last save succeeded or was not due: the session is idle and clean.
  pub close_session-IsClean :
      (t : Session.Slot)
      → t.session.closed ≡ false
      → (Shutdown.close_session calls t).cleaned ≡ true
      → IsClean (Shutdown.save_last calls t).0
  unfolding Shutdown.close_session
  close_session-IsClean t going h = leave-IsClean _ (save_last-IsClean t going) h
