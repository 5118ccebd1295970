-- ===== src/Daemon/Session/Preserved.antt =====
-- Each operation on a session keeps the invariant.
use persona.Base.{
  ℕ, suc, ◌^◌, ◌<◌, ◌≡◌, refl, inl, inr, Bool, true, false, List, [], Option, none, some, Result,
  ok, err, arith, ℤ, pos, Bool-cases,
}
use persona.Text.Compare.{Bytes}
use persona.Text.Number.{parse_uint}
use persona.Daemon.Config.{Config}
use persona.Daemon.Metadata
use persona.Daemon.Session
use persona.Daemon.Calls.{
  Calls, Outcome, done, failed, failed_late, Fault, Process, mutation_owner_alive,
}
use persona.Daemon.Session.Exec
use persona.Daemon.Session.Invariant.{
  IsCounted, IsPlain, IsValid, IsSaved, Counted, meta_snapshot-valid,
}

-- What the daemon relies on: a digest is 64 hexadecimal digits, and the start time that is read
-- of a process is a number.
pub record IsTrusted (calls : Calls) : Type 0 where
  pub digests : (text : Bytes) → Metadata.is_checksum (calls.digest text) ≡ true
  pub starts :
      (pid : ℤ) {p : Process}
      → calls.read_process pid ≡ ok p
      → Metadata.parses (parse_uint 10 64 p.start) ≡ true

pub valid :
    {n : ℕ} {t : Session.Slot}
    → IsPlain t.session.key t.session.config t.session.base_oid t.session.patch_checksum
    → Counted n t.session
    → IsSaved t.disk
    → IsValid n t
valid p c d = record { plain = p; counted = c; saved = d }

-- an export does not touch the lease
pub write_session_patch-busy :
    (calls : Calls) (t : Session.Slot)
    → (Exec.write_session_patch calls t).0.session.busy ≡ t.session.busy
unfolding Exec.write_session_patch Exec.with_temp Exec.exported Exec.stored
write_session_patch-busy calls t = ground arith

pub persist_session-busy :
    (calls : Calls) (t : Session.Slot)
    → (Session.persist_session calls t).0.session.busy ≡ t.session.busy
unfolding Session.persist_session
persist_session-busy calls t = ground arith

module _ (n : ℕ) where
  persisted-IsValid :
      (o : Outcome) (t : Session.Slot) → IsValid n t → IsValid n (Session.persisted o t).0
  persisted-IsValid done t v =
      valid v.plain v.counted (meta_snapshot-valid n t.session v.plain v.counted)
  persisted-IsValid (failed text) t v = valid v.plain v.counted v.saved
  persisted-IsValid (failed_late text) t v =
      valid v.plain v.counted (meta_snapshot-valid n t.session v.plain v.counted)

  pub persist_session-IsValid :
      (calls : Calls) (t : Session.Slot)
      → IsValid n t
      → IsValid n (Session.persist_session calls t).0
  unfolding Session.persist_session
  persist_session-IsValid calls t v =
      persisted-IsValid (calls.write_meta t.writes (Session.meta_snapshot t.session))
        (Session.cache_session t) (valid v.plain v.counted v.saved)

  -- a dirty session has fewer duties
  pub dirty-IsCounted :
      {generation durable : ℕ} {dirty busy : Bool} {group : ℤ} {start : Bytes}
      → IsCounted n generation durable dirty busy group start
      → IsCounted n generation durable true busy group start
  dirty-IsCounted c = record {
    bounded = c.bounded;
    not_ahead = c.not_ahead;
    clean = λ e. cc;
    held = λ e. refl;
    idle = c.idle;
    grouped = c.grouped;
  }

  pub after_save-IsValid :
      (earlier : Option Fault) (r : Session.Slot × Option Fault)
      → IsValid n r.0
      → IsValid n (Exec.after_save earlier r).0
  after_save-IsValid earlier (t, none) v = v
  after_save-IsValid earlier (t, some f) v = (valid v.plain (dirty-IsCounted v.counted) v.saved)

  pub saved-Counted :
      (now : ℕ) (s : Session.Session)
      → Counted n s
      → (s.busy_exec_pgid ≡ pos 0) × (s.busy_exec_start ≡ [])
      → s.busy ≡ false
      → Counted n (Exec.saved_at now s)
  saved-Counted now s c none_ idle = record {
    bounded = c.bounded;
    not_ahead = omega arith;
    clean = λ e. refl;
    held = λ e. cc;
    idle = λ e. none_;
    grouped = inl none_;
  }

  module _ (calls : Calls) (trusted : IsTrusted calls) where
    with_sum :
        {key : Bytes} {config : Config} {oid sum : Bytes} (text : Bytes)
        → IsPlain key config oid sum
        → IsPlain key config oid (calls.digest text)
    with_sum text p = record {
      key = p.key;
      options = p.options;
      oid = p.oid;
      checksum = trusted.digests text;
    }

    stored-IsValid :
        (text : Bytes) (o : Outcome) (t : Session.Slot)
        → IsValid n t
        → IsValid n (Exec.stored text (calls.digest text) o t).0
    unfolding Exec.stored
    stored-IsValid text done t v = valid (with_sum text v.plain) v.counted v.saved
    stored-IsValid text (failed why) t v = v
    stored-IsValid text (failed_late why) t v = valid v.plain v.counted v.saved

    exported-IsValid :
        (e : Result Bytes Bytes) (rewound : Option Bytes) (t : Session.Slot)
        → IsValid n t
        → IsValid n (Exec.exported calls e rewound t).0
    unfolding Exec.exported
    exported-IsValid (err why) rewound t v = v
    exported-IsValid (ok text) (some why) t v = v
    exported-IsValid (ok text) none t v = stored-IsValid text (calls.write_patch text) t v

    with_temp-IsValid :
        (temp : Option Bytes) (t : Session.Slot)
        → IsValid n t
        → IsValid n (Exec.with_temp calls temp t).0
    unfolding Exec.with_temp
    with_temp-IsValid (some why) t v = v
    with_temp-IsValid none t v = exported-IsValid calls.export_patch calls.rewind t v

    pub write_session_patch-IsValid :
        (t : Session.Slot) → IsValid n t → IsValid n (Exec.write_session_patch calls t).0
    unfolding Exec.write_session_patch
    write_session_patch-IsValid t v = with_temp-IsValid calls.create_temp t v

    idle-Counted :
        (s : Session.Session) → Counted n s → Counted n (Exec.unsaved [] (Exec.idle calls s))
    idle-Counted s c = record {
      bounded = c.bounded;
      not_ahead = c.not_ahead;
      clean = λ e. cc;
      held = λ e. refl;
      idle = λ e. (refl, refl);
      grouped = inl (refl, refl);
    }

    after_export-Counted :
        (f : Option Fault) (s : Session.Session)
        → Counted n s
        → Counted n (Exec.after_export calls f s)
    after_export-Counted none s c =
        saved-Counted calls.finished_at (record (Exec.idle calls s) { dirty = true })
          (idle-Counted s c) (refl, refl) refl
    after_export-Counted (some f) s c = idle-Counted s c

    finish_unmounted-IsValid :
        (export_fault unmounted : Option Fault) (t : Session.Slot)
        → IsValid n t
        → IsValid n (Exec.finish_unmounted calls export_fault unmounted t).0
    finish_unmounted-IsValid export_fault (some f) t v =
        persist_session-IsValid calls _ (valid v.plain (dirty-IsCounted v.counted) v.saved)
    finish_unmounted-IsValid none none t v = after_save-IsValid none _ (
        persist_session-IsValid calls _
          (valid v.plain (after_export-Counted none t.session v.counted) v.saved))
    finish_unmounted-IsValid (some f) none t v = after_save-IsValid (some f) _ (
        persist_session-IsValid calls _
          (valid v.plain (after_export-Counted (some f) t.session v.counted) v.saved))

    pub finish_busy-IsValid :
        (t : Session.Slot) → IsValid n t → IsValid n (Exec.finish_busy calls t).0
    unfolding Exec.finish_busy
    finish_busy-IsValid t v = finish_unmounted-IsValid _ _ _ (write_session_patch-IsValid t v)

    pub recover_busy-IsValid :
        (t : Session.Slot) → IsValid n t → IsValid n (Exec.recover_busy calls t).0
    unfolding Exec.recover_busy
    recover_busy-IsValid t v =
        let s = t.session in
        elim (Bool-cases s.busy) [
          | inr idle ↦ simp idle v
          | inl busy ↦
              elim (Bool-cases (
                mutation_owner_alive calls s.busy_owner_pid s.busy_owner_start s.busy_exec_pgid
                  s.busy_exec_start)) [
                    | inl alive ↦ simp (busy, alive) v
                    | inr dead ↦ simp (busy, dead) (finish_busy-IsValid t v)
                  ]
        ]

  pub busy-IsCounted :
      {generation durable : ℕ} {dirty busy : Bool} {group : ℤ} {start : Bytes}
      → IsCounted n generation durable dirty busy group start
      → IsCounted n generation durable true true group start
  busy-IsCounted c = record {
    bounded = c.bounded;
    not_ahead = c.not_ahead;
    clean = λ e. cc;
    held = λ e. refl;
    idle = λ e. cc;
    grouped = c.grouped;
  }

  pub idle-IsCounted :
      {generation durable : ℕ} {dirty busy : Bool} {group : ℤ} {start : Bytes}
      → IsCounted n generation durable dirty busy group start
      → busy ≡ false
      → IsCounted n generation durable dirty false group start
  idle-IsCounted c idle = record {
    bounded = c.bounded;
    not_ahead = c.not_ahead;
    clean = c.clean;
    held = λ e. cc;
    idle = λ e. c.idle idle;
    grouped = c.grouped;
  }

  aborted-IsValid :
      (calls : Calls) (masks : List Bytes) (cause : Fault) (u : Option Fault) (t : Session.Slot)
      → IsValid n t
      → IsValid n (Exec.aborted calls masks cause u t).0
  unfolding Exec.aborted
  aborted-IsValid calls masks cause none t v = v
  aborted-IsValid calls masks cause (some f) t v =
      persist_session-IsValid calls _ (valid v.plain (busy-IsCounted v.counted) v.saved)

  pub abort_acquire-IsValid :
      (calls : Calls) (masks : List Bytes) (cause : Fault) (t : Session.Slot)
      → IsValid n t
      → IsValid n (Exec.abort_acquire calls masks cause t).0
  unfolding Exec.abort_acquire
  abort_acquire-IsValid calls masks cause t v = aborted-IsValid calls masks cause _ t v

pub later-IsCounted :
    {n generation durable : ℕ} {dirty busy : Bool} {group : ℤ} {start : Bytes}
    → IsCounted n generation durable dirty busy group start
    → IsCounted (suc n) generation durable dirty busy group start
later-IsCounted c = record {
  bounded = omega arith;
  not_ahead = c.not_ahead;
  clean = c.clean;
  held = c.held;
  idle = c.idle;
  grouped = c.grouped;
}

pub later : {n : ℕ} (t : Session.Slot) → IsValid n t → IsValid (suc n) t
later t v = valid v.plain (later-IsCounted v.counted) v.saved

pub next-IsCounted :
    {n generation durable : ℕ} {dirty busy : Bool} {group : ℤ} {start : Bytes}
    → suc n < 2 ^ 64
    → IsCounted n generation durable dirty busy group start
    → IsCounted (suc n) (Exec.next_generation generation) durable true busy group start
next-IsCounted small c = record {
  bounded = omega arith;
  not_ahead = omega arith;
  clean = λ e. cc;
  held = λ e. refl;
  idle = c.idle;
  grouped = c.grouped;
}
