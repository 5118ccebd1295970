-- ===== src/Daemon/Session/Saving.antt =====
-- The invariant under flushing, marking and ending a session.
use persona.Base.{
  ℕ, suc, ◌^◌, ◌<◌, ◌≡◌, ◌∙◌, inl, inr, true, false, Option, none, some, Result, ok, err,
  Bool-cases,
}
use persona.Text.Compare.{Bytes}
use persona.Daemon.Session
use persona.Daemon.Calls.{Calls, Fault}
use persona.Daemon.Session.Exec
use persona.Daemon.Session.Save
use persona.Daemon.Session.Invariant.{IsValid}
use persona.Daemon.Session.Preserved
use persona.Daemon.Session.Leasing

module _ (n : ℕ) (small : suc n < 2 ^ 64) (calls : Calls)
    (trusted : Preserved.IsTrusted calls) where
  save_exported-IsValid :
      (r : Session.Slot × Option Fault)
      → IsValid n r.0
      → r.0.session.busy ≡ false
      → IsValid n (Save.save_exported calls r).0
  unfolding Save.save_exported
  save_exported-IsValid (t, some f) v idle =
      Preserved.persist_session-IsValid n calls _
        (Preserved.valid v.plain (Preserved.dirty-IsCounted n v.counted) v.saved)
  save_exported-IsValid (t, none) v idle = Preserved.after_save-IsValid n none _ (
      Preserved.persist_session-IsValid n calls _ (
        Preserved.valid v.plain
          (Preserved.saved-Counted n calls.now t.session v.counted (v.counted.idle idle) idle)
          v.saved))

  save_published-IsValid :
      (r : Session.Slot × Option Fault)
      → IsValid n r.0
      → r.0.session.busy ≡ false
      → IsValid n (Save.save_published calls r).0
  unfolding Save.save_published
  save_published-IsValid (t, some f) v idle = v
  save_published-IsValid (t, none) v idle =
      save_exported-IsValid _ (Preserved.write_session_patch-IsValid n calls trusted t v)
        (Preserved.write_session_patch-busy calls t ∙ idle)

  flush_idle-IsValid :
      (min_age : ℕ) (t : Session.Slot)
      → IsValid n t
      → t.session.busy ≡ false
      → IsValid n (Save.flush_idle calls min_age t).0
  unfolding Save.flush_idle
  flush_idle-IsValid min_age t v idle =
      elim (Bool-cases (Save.too_early calls.now min_age t.session.last_flushed)) [
        | inl early ↦ simp early (
            Preserved.persist_session-IsValid n calls _ (Preserved.valid v.plain v.counted v.saved))
        | inr due ↦ simp due (
            save_published-IsValid _
              (Preserved.persist_session-IsValid n calls _
                (Preserved.valid v.plain (Preserved.dirty-IsCounted n v.counted) v.saved))
              (Preserved.persist_session-busy calls
                  (Exec.on_session (λ s. record s { dirty = true }) t)
                ∙ idle))
      ]

  flush_recovered-IsValid :
      (min_age : ℕ) (r : Session.Slot × Option Fault)
      → IsValid n r.0
      → IsValid n (Save.flush_recovered calls min_age r).0
  unfolding Save.flush_recovered
  flush_recovered-IsValid min_age (t, some f) v = v
  flush_recovered-IsValid min_age (t, none) v = elim (Bool-cases t.session.busy) [
    | inl busy ↦ simp busy v
    | inr idle ↦ simp idle (Leasing.to_result-IsValid _ (flush_idle-IsValid min_age t v idle))
  ]

  pub flush_session-IsValid :
      (min_age : ℕ) (t : Session.Slot)
      → IsValid n t
      → IsValid n (Save.flush_session calls min_age t).0
  unfolding Save.flush_session
  flush_session-IsValid min_age t v = elim (Bool-cases t.session.closed) [
    | inl closed ↦ simp closed v
    | inr open_ ↦
        simp open_
          (flush_recovered-IsValid min_age _ (Preserved.recover_busy-IsValid n calls trusted t v))
  ]

  mark_idle-IsValid : (t : Session.Slot) → IsValid n t → IsValid (suc n) (Save.mark_idle calls t).0
  unfolding Save.mark_idle
  mark_idle-IsValid t v = Leasing.to_result-IsValid _ (
      Preserved.persist_session-IsValid (suc n) calls (Exec.on_session (Save.marked calls) t)
        (Preserved.valid v.plain (Preserved.next-IsCounted small v.counted) v.saved))

  pub mark_dirty-IsValid :
      (t : Session.Slot) → IsValid n t → IsValid (suc n) (Save.mark_dirty calls t).0
  unfolding Save.mark_dirty
  mark_dirty-IsValid t v = elim (Bool-cases t.session.closed) [
    | inl closed ↦ simp closed (Preserved.later t v)
    | inr open_ ↦ elim (Bool-cases t.session.busy) [
      | inl busy ↦ simp (open_, busy) (Preserved.later t v)
      | inr idle ↦ simp (open_, idle) (mark_idle-IsValid t v)
    ]
  ]

  synced-IsValid :
      (r : Option Bytes) (t : Session.Slot) → IsValid n t → IsValid n (Save.synced r t).0
  unfolding Save.synced
  synced-IsValid (some why) t v = v
  synced-IsValid none t v = Preserved.valid v.plain v.counted v.saved

  removed-IsValid :
      (r : Option Bytes) (t : Session.Slot) → IsValid n t → IsValid n (Save.removed calls r t).0
  unfolding Save.removed
  removed-IsValid (some why) t v = v
  removed-IsValid none t v =
      synced-IsValid calls.sync_directory _ (Preserved.valid v.plain v.counted tt)

  cleaned_up-IsValid :
      (c : Option Bytes) (t : Session.Slot) → IsValid n t → IsValid n (Save.cleaned_up calls c t).0
  unfolding Save.cleaned_up
  cleaned_up-IsValid (some why) t v =
      Preserved.persist_session-IsValid n calls _ (Preserved.valid v.plain v.counted v.saved)
  cleaned_up-IsValid none t v = removed-IsValid calls.remove_meta t v

  close_flushed-IsValid :
      (r : Session.Slot × Result Exec.Failure (Unit {0}))
      → IsValid n r.0
      → IsValid n (Save.close_flushed calls r).0
  unfolding Save.close_flushed
  close_flushed-IsValid (t, err why) v = v
  close_flushed-IsValid (t, ok tt) v =
      cleaned_up-IsValid calls.cleanup _ (Preserved.valid v.plain v.counted v.saved)

  pub end_session-IsValid :
      (t : Session.Slot) → IsValid n t → IsValid n (Save.end_session calls t).0
  unfolding Save.end_session
  end_session-IsValid t v = elim (Bool-cases t.session.closed) [
    | inl closed ↦ simp closed (cleaned_up-IsValid calls.cleanup t v)
    | inr open_ ↦ simp open_ (close_flushed-IsValid _ (flush_session-IsValid 0 t v))
  ]
