-- ===== src/Daemon/Session/Durable.antt =====
-- What a save that succeeds leaves behind.
use persona.Base.{
  ℕ, ◌≡◌, ◌≢◌, refl, ◌∙◌, inl, inr, true, false, not, ◌||◌, ◌&&◌, ◌==◌, [], Option, none, some,
  Result, ok, err, Bool-cases,
}
use persona.Text.Compare.{Bytes, equal}
use persona.Daemon.Session
use persona.Daemon.Calls.{Calls, Outcome, done, failed, failed_late, Fault}
use persona.Daemon.Session.Exec
use persona.Daemon.Session.Save
use persona.Daemon.Session.Preserved.{write_session_patch-busy, persist_session-busy}

-- Nothing is unsaved, the metadata file says so and shows the session, and its checksum is that of
-- the patch file.
pub record IsDurable (calls : Calls) (t : Session.Slot) : Type 0 where
  pub clean : t.session.dirty ≡ false
  pub idle : t.session.busy ≡ false
  pub no_error : t.session.last_error ≡ []
  pub all_saved : t.session.last_durable_generation ≡ t.session.generation
  pub on_disk : t.disk ≡ some (Session.meta_snapshot t.session)
  pub checked : t.session.patch_checksum ≡ calls.digest t.patch

module _ (calls : Calls) where
  abbrev Sums : Session.Slot → Type 0
  Sums t = t.session.patch_checksum ≡ calls.digest t.patch

  stored-Sums :
      (text : Bytes) (o : Outcome) (t : Session.Slot)
      → (Exec.stored text (calls.digest text) o t).1 ≡ none
      → Sums (Exec.stored text (calls.digest text) o t).0
  unfolding Exec.stored
  stored-Sums text done t e = refl
  stored-Sums text (failed why) t e = cc
  stored-Sums text (failed_late why) t e = cc

  exported-Sums :
      (e : Result Bytes Bytes) (rewound : Option Bytes) (t : Session.Slot)
      → (Exec.exported calls e rewound t).1 ≡ none
      → Sums (Exec.exported calls e rewound t).0
  unfolding Exec.exported
  exported-Sums (err why) rewound t e = cc
  exported-Sums (ok text) (some why) t e = cc
  exported-Sums (ok text) none t e = stored-Sums text (calls.write_patch text) t e

  with_temp-Sums :
      (temp : Option Bytes) (t : Session.Slot)
      → (Exec.with_temp calls temp t).1 ≡ none
      → Sums (Exec.with_temp calls temp t).0
  unfolding Exec.with_temp
  with_temp-Sums (some why) t e = cc
  with_temp-Sums none t e = exported-Sums calls.export_patch calls.rewind t e

  write_session_patch-Sums :
      (t : Session.Slot)
      → (Exec.write_session_patch calls t).1 ≡ none
      → Sums (Exec.write_session_patch calls t).0
  unfolding Exec.write_session_patch
  write_session_patch-Sums t e = with_temp-Sums calls.create_temp t e

  -- a session whose fields say that all is saved
  record IsReady (t : Session.Slot) : Type 0 where
    clean : t.session.dirty ≡ false
    idle : t.session.busy ≡ false
    no_error : t.session.last_error ≡ []
    all_saved : t.session.last_durable_generation ≡ t.session.generation
    checked : Sums t

  persisted-IsDurable :
      (o : Outcome) (t : Session.Slot)
      → IsReady t
      → (Exec.after_save none (Session.persisted o (Session.cache_session t))).1 ≡ none
      → IsDurable calls (Exec.after_save none (Session.persisted o (Session.cache_session t))).0
  persisted-IsDurable done t r e = record {
    clean = r.clean;
    idle = r.idle;
    no_error = r.no_error;
    all_saved = r.all_saved;
    on_disk = refl;
    checked = r.checked;
  }
  persisted-IsDurable (failed why) t r e = cc
  persisted-IsDurable (failed_late why) t r e = cc

  after_save-IsDurable :
      (t : Session.Slot)
      → IsReady t
      → (Exec.after_save none (Session.persist_session calls t)).1 ≡ none
      → IsDurable calls (Exec.after_save none (Session.persist_session calls t)).0
  unfolding Session.persist_session
  after_save-IsDurable t r e = persisted-IsDurable _ t r e

  after_save-fails :
      (f : Fault) (r : Session.Slot × Option Fault) → (Exec.after_save (some f) r).1 ≢ none
  after_save-fails f (t, none) = λ e. cc
  after_save-fails f (t, some g) = λ e. cc

  finish_unmounted-IsDurable :
      (f u : Option Fault) (t : Session.Slot)
      → (f ≡ none → Sums t)
      → (Exec.finish_unmounted calls f u t).1 ≡ none
      → IsDurable calls (Exec.finish_unmounted calls f u t).0
  finish_unmounted-IsDurable none none t sums e =
      after_save-IsDurable (Exec.on_session (Exec.after_export calls none) t)
        (record {
          clean = refl;
          idle = refl;
          no_error = refl;
          all_saved = refl;
          checked = sums refl;
        })
        e
  finish_unmounted-IsDurable (some f) none t sums e = absurd (after_save-fails f _ e)
  finish_unmounted-IsDurable none (some u) t sums e = cc
  finish_unmounted-IsDurable (some f) (some u) t sums e = cc

  pub finish_busy-IsDurable :
      (t : Session.Slot)
      → (Exec.finish_busy calls t).1 ≡ none
      → IsDurable calls (Exec.finish_busy calls t).0
  unfolding Exec.finish_busy
  finish_busy-IsDurable t e = finish_unmounted-IsDurable _ _ _ (write_session_patch-Sums t) e

  save_exported-IsDurable :
      (r : Session.Slot × Option Fault)
      → r.0.session.busy ≡ false
      → (r.1 ≡ none → Sums r.0)
      → (Save.save_exported calls r).1 ≡ none
      → IsDurable calls (Save.save_exported calls r).0
  unfolding Save.save_exported
  save_exported-IsDurable (t, some f) idle sums e = cc
  save_exported-IsDurable (t, none) idle sums e =
      after_save-IsDurable (Exec.on_session (Save.flushed_at calls.now) t)
        (record {
          clean = refl;
          idle = idle;
          no_error = refl;
          all_saved = refl;
          checked = sums refl;
        })
        e

  save_published-IsDurable :
      (r : Session.Slot × Option Fault)
      → r.0.session.busy ≡ false
      → (Save.save_published calls r).1 ≡ none
      → IsDurable calls (Save.save_published calls r).0
  unfolding Save.save_published
  save_published-IsDurable (t, some f) idle e = cc
  save_published-IsDurable (t, none) idle e =
      save_exported-IsDurable _ (write_session_patch-busy calls t ∙ idle)
        (write_session_patch-Sums t) e

  to_result-IsDurable :
      (r : Session.Slot × Option Fault)
      → (r.1 ≡ none → IsDurable calls r.0)
      → (Exec.to_result r).1 ≡ ok tt
      → IsDurable calls (Exec.to_result r).0
  unfolding Exec.to_result
  to_result-IsDurable (t, none) f e = f refl
  to_result-IsDurable (t, some why) f e = cc

  not_early : (now : ℕ) (flushed : Option ℕ) → Save.too_early now 0 flushed ≡ false
  not_early now none = refl
  not_early now (some at) = refl

  flush_idle-IsDurable :
      (t : Session.Slot)
      → t.session.busy ≡ false
      → (Save.flush_idle calls 0 t).1 ≡ none
      → IsDurable calls (Save.flush_idle calls 0 t).0
  unfolding Save.flush_idle
  flush_idle-IsDurable t idle e =
      let due = not_early calls.now t.session.last_flushed in
      simp due (
        save_published-IsDurable _
          (persist_session-busy calls (Exec.on_session (λ s. record s { dirty = true }) t) ∙ idle)
          (simp due at e))

  flush_recovered-IsDurable :
      (r : Session.Slot × Option Fault)
      → (Save.flush_recovered calls 0 r).1 ≡ ok tt
      → IsDurable calls (Save.flush_recovered calls 0 r).0
  unfolding Save.flush_recovered
  flush_recovered-IsDurable (t, some f) e = cc
  flush_recovered-IsDurable (t, none) e = elim (Bool-cases t.session.busy) [
    | inl busy ↦ absurd (cc (simp busy at e))
    | inr idle ↦ simp idle (to_result-IsDurable _ (flush_idle-IsDurable t idle) (simp idle at e))
  ]

  -- If a flush without a minimal age succeeds, then nothing of the session is unsaved: the patch
  -- file holds the export whose checksum the session has, and the metadata file shows the session,
  -- clean and without an error.
  pub flush_session-IsDurable :
      (t : Session.Slot)
      → (Save.flush_session calls 0 t).1 ≡ ok tt
      → IsDurable calls (Save.flush_session calls 0 t).0
  unfolding Save.flush_session
  flush_session-IsDurable t e = elim (Bool-cases t.session.closed) [
    | inl closed ↦ absurd (cc (simp closed at e))
    | inr open_ ↦ simp open_ (flush_recovered-IsDurable _ (simp open_ at e))
  ]

  -- If a release succeeds, then nothing of what the command did is unsaved: the patch file holds the
  -- export whose checksum the session has, and the metadata file shows the session, clean, idle and
  -- without an error.
  pub release_exec-IsDurable :
      (lease : Bytes) (generation : ℕ) (t : Session.Slot)
      → (Exec.release_exec calls lease generation t).1 ≡ ok tt
      → IsDurable calls (Exec.release_exec calls lease generation t).0
  unfolding Exec.release_exec
  release_exec-IsDurable lease generation t e =
      let s = t.session in
      elim (Bool-cases t.present) [
        | inr missing ↦ absurd (cc (simp missing at e))
        | inl present ↦ elim (Bool-cases s.closed) [
          | inl closed ↦ absurd (cc (simp (present, closed) at e))
          | inr open_ ↦
              elim (Bool-cases (not (generation == 0) && not (generation == s.view_generation))) [
                | inl other ↦ absurd (cc (simp (present, open_, other) at e))
                | inr view ↦ elim (Bool-cases (not s.busy || not (equal s.busy_lease lease))) [
                  | inl lost ↦ absurd (cc (simp (present, open_, view, lost) at e))
                  | inr lease_ ↦
                      elim (Bool-cases
                        (calls.execution_group_alive s.busy_exec_pgid s.busy_exec_start)) [
                          | inl alive ↦
                              absurd (cc (simp (present, open_, view, lease_, alive) at e))
                          | inr dead ↦
                              simp (present, open_, view, lease_, dead)
                                (to_result-IsDurable _ (finish_busy-IsDurable t)
                                  (simp (present, open_, view, lease_, dead) at e))
                        ]
                ]
              ]
        ]
      ]
