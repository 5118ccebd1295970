-- ===== src/Daemon/Restore/Leases.antt =====
-- The leases of an earlier daemon are void in a session that is put back.
use persona.Base.{
  ℕ, dec_lt, ◌+◌, ◌%◌, ◌^◌, ◌<◌, ◌≡◌, ◌≢◌, refl, Bool, true, false, ◌==◌, Option, none, some, ok,
  err, arith,
}
use persona.Text.Compare.{Bytes}
use persona.Daemon.Metadata.{Meta}
use persona.Daemon.Calls.{Calls, Outcome, done, failed, failed_late}
use persona.Daemon.Session
use persona.Daemon.Session.Exec
use persona.Daemon.Create
use persona.Daemon.Create.Stages.{IsFresh, Ends}
use persona.Daemon.Create.Undone.{create_session-Ends}
use persona.Daemon.Restore

-- a session of this daemon, with a view that is not that of the number
record IsRenewed (n : ℕ) (t : Session.Slot) : Type 0 where
  pub present : t.present ≡ true
  pub going : t.session.closed ≡ false
  pub view : (n == t.session.view_generation) ≡ false

next_view-ne : (n : ℕ) → n < 2 ^ 64 → (n == Restore.next_view n) ≡ false
unfolding Restore.next_view
next_view-ne n small = elim (dec_lt (n + 1) (2 ^ 64)) [
  | yes less ↦ let e : (n + 1) % 2 ^ 64 ≡ n + 1 = omega arith in ground (arith, e)
  | no last ↦ let e : (n + 1) % 2 ^ 64 ≡ 0 = omega arith in ground (arith, e)
]

installed-IsRenewed :
    (calls : Calls) (c : Create.CreateCalls) (meta : Meta) (bump : Bool) (m : Create.Made)
    (t : Session.Slot)
    → meta.view_generation < 2 ^ 64
    → Ends (IsFresh c meta.session_key meta.config (some meta)) m
    → (Restore.install calls meta bump m t).1 ≡ ok tt
    → IsRenewed meta.view_generation (Restore.install calls meta bump m t).0
unfolding Restore.install Session.persist_session
installed-IsRenewed calls c meta bump (Create.broke why st) t small ends h = absurd (cc h)
installed-IsRenewed calls c meta bump (Create.made s st) t small (f, falls) h = renewed _ h
  where
    u : Session.Slot
    u = Restore.put_session (Restore.put_back calls.now meta bump s) t

    renewed :
        (o : Outcome)
        → (Restore.published (Session.persisted o (Session.cache_session u))).1 ≡ ok tt
        → IsRenewed meta.view_generation
            (Restore.published (Session.persisted o (Session.cache_session u))).0
    renewed done e = record {
      present = refl;
      going = f.going;
      view = next_view-ne meta.view_generation small;
    }
    renewed (failed why) e = absurd (cc e)
    renewed (failed_late why) e = absurd (cc e)

unrefused-IsRenewed :
    (calls : Calls) (rc : Restore.RestoreCalls) (meta : Meta) (bump : Bool)
    (o : Option Restore.RestoreFailure) (t : Session.Slot)
    → meta.view_generation < 2 ^ 64
    → (Restore.unless_refused calls rc meta bump o t).1 ≡ ok tt
    → IsRenewed meta.view_generation (Restore.unless_refused calls rc meta bump o t).0
unfolding Restore.unless_refused
unrefused-IsRenewed calls rc meta bump (some why) t small h = absurd (cc h)
unrefused-IsRenewed calls rc meta bump none t small h =
    installed-IsRenewed calls rc.create meta bump _ t small
      (create_session-Ends rc.create rc.view meta.session_key meta.config (some meta)) h

restore_session-IsRenewed :
    (calls : Calls) (rc : Restore.RestoreCalls) (meta : Meta) (bump : Bool) (t : Session.Slot)
    → meta.view_generation < 2 ^ 64
    → t.present ≡ false
    → (Restore.restore_session calls rc meta bump t).1 ≡ ok tt
    → IsRenewed meta.view_generation (Restore.restore_session calls rc meta bump t).0
unfolding Restore.restore_session
restore_session-IsRenewed calls rc meta bump t small new h =
    simp new (
      unrefused-IsRenewed calls rc meta bump (Restore.refusal calls rc meta) t small
        (simp new at h))

release_exec-renewed :
    (calls : Calls) (lease : Bytes) (n : ℕ) (t : Session.Slot)
    → n ≢ 0
    → IsRenewed n t
    → Exec.release_exec calls lease n t ≡ (t, err Exec.generation_mismatch)
unfolding Exec.release_exec
release_exec-renewed calls lease n t some_ r =
    let other : (n == 0) ≡ false = ground (arith, some_) in
    simp (r.present, r.going, r.view, other) refl

-- If `restoreSessionWithCheckpoint` succeeds, then a release with the number of the view that the
-- earlier daemon had is refused, whatever its lease, and changes nothing.
pub release_exec-restore_session :
    (calls later : Calls) (rc : Restore.RestoreCalls) (meta : Meta) (bump : Bool) (t : Session.Slot)
    (lease : Bytes)
    → meta.view_generation ≢ 0
    → meta.view_generation < 2 ^ 64
    → t.present ≡ false
    → (Restore.restore_session calls rc meta bump t).1 ≡ ok tt
    → Exec.release_exec later lease meta.view_generation
        (Restore.restore_session calls rc meta bump t).0
      ≡ ((Restore.restore_session calls rc meta bump t).0, err Exec.generation_mismatch)
release_exec-restore_session calls later rc meta bump t lease some_ small new h =
    release_exec-renewed later lease meta.view_generation _ some_
      (restore_session-IsRenewed calls rc meta bump t small new h)
