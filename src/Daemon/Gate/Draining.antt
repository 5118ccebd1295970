-- ===== src/Daemon/Gate/Draining.antt =====
-- A daemon that is closing starts no work but that of releases.
use persona.Base.{
  ℕ, ◌≡◌, refl, ◌∙◌, Bool, true, false, Option, ◌==◌, ==_iff, Bool-cases, inl, inr, ap,
}
use persona.Daemon.Gate

-- No move of such a call leads into the operation while the daemon is closing.
no_entry :
    {closing : Bool} {gate : Option ℕ} {cached : Bool} {c : Gate.Call} {p q : Gate.Pc}
    {a : Gate.Act}
    → Gate.Move closing gate cached c p a q
    → closing ≡ true
    → Gate.is_release c ≡ false
    → q ≡ Gate.working
    → ⊥
unfolding Gate.refuses
no_entry (Gate.in_lock Gate.lock_cancelled) o r e = cc e
no_entry (Gate.in_lock (Gate.lock_refused h)) o r e = cc e
no_entry (Gate.in_lock (Gate.lock_waits h)) o r e = cc e
no_entry (Gate.in_lock Gate.gate_cancelled) o r e = cc e
no_entry (Gate.in_lock (Gate.gate_taken h)) o r e = cc e
no_entry (Gate.in_lock (Gate.closing_seen h)) o r e = cc e
no_entry (Gate.in_lock (Gate.closing_unseen h)) o r e = cc (rw (o, r) at h)
no_entry (Gate.in_lock Gate.gate_left) o r e = cc e
no_entry (Gate.in_lock Gate.unlocked) o r e = cc e
no_entry (Gate.in_try Gate.try_cancelled) o r e = cc e
no_entry (Gate.in_try (Gate.try_refused h)) o r e = cc e
no_entry (Gate.in_try (Gate.try_taken h n)) o r e = cc (h, o)
no_entry (Gate.in_try (Gate.try_served h g t)) o r e = cc e
no_entry (Gate.in_try (Gate.try_blocked h g t)) o r e = cc e
no_entry (Gate.in_try (Gate.blocked_refused h)) o r e = cc e
no_entry (Gate.in_try Gate.blocked_cancelled) o r e = cc e
no_entry (Gate.in_try (Gate.blocked_waits h)) o r e = cc e
no_entry (Gate.in_shutdown (Gate.close_taken h n)) o r e = cc r
no_entry (Gate.in_shutdown (Gate.drain_taken h n)) o r e = cc r
no_entry (Gate.in_shutdown (Gate.drain_passed h g)) o r e = cc e

module _ (calls : ℕ → Gate.Call) where
  Step-closing : {s t : Gate.State} → Gate.Step calls s t → s.closing ≡ true → t.closing ≡ true
  Step-closing (Gate.moves w m) o = o
  Step-closing (Gate.caches w b h) o = o
  Step-closing Gate.closes o = refl

  pub Run-closing : {s t : Gate.State} → Gate.Run calls s t → s.closing ≡ true → t.closing ≡ true
  Run-closing Gate.none_yet o = o
  Run-closing (Gate.later r st) o = Step-closing st (Run-closing r o)

  Step-working :
      (w : ℕ) {s t : Gate.State}
      → Gate.Step calls s t
      → s.closing ≡ true
      → Gate.is_release (calls w) ≡ false
      → t.pc w ≡ Gate.working
      → s.pc w ≡ Gate.working
  unfolding Gate.at_worker
  Step-working w (Gate.moves v m) o r h = elim (Bool-cases (v == w)) [
    | inl same ↦ absurd (
        no_entry m o (ap (λ u. Gate.is_release (calls u)) ((==_iff v w).0 same) ∙ r) (rw same at h))
    | inr other ↦ rw other at h
  ]
  Step-working w (Gate.caches v b e) o r h = h
  Step-working w Gate.closes o r h = h

-- Once the daemon is closing, a call other than a release that is in its operation in any later state
-- has been in it all the time.
pub Run-no_new_work :
    (calls : ℕ → Gate.Call) (w : ℕ) {s t : Gate.State}
    → Gate.Run calls s t
    → s.closing ≡ true
    → Gate.is_release (calls w) ≡ false
    → t.pc w ≡ Gate.working
    → s.pc w ≡ Gate.working
Run-no_new_work calls w Gate.none_yet o c h = h
Run-no_new_work calls w (Gate.later r st) o c h =
    Run-no_new_work calls w r o c (Step-working calls w st (Run-closing calls r o) c h)
