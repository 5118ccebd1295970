-- ===== src/Daemon/Session/Leasing.antt =====
-- The invariant under acquiring, attaching to and releasing a session.
use persona.Base.{
  ℕ, suc, ◌^◌, ◌<◌, ◌≡◌, refl, inl, inr, Bool, true, false, ◌&&◌, ◌||◌, not, List, [], Option, none,
  some, Result, ok, err, arith, ℤ, pos, is_positive, same_ℤ, length, ltb, ◌==◌, Bool-cases,
}
use persona.Text.Compare.{Bytes, equal}
use persona.Text.Number.{parse_uint}
use persona.Daemon.Config.{Config, same_config}
use persona.Daemon.Metadata
use persona.Daemon.Session
use persona.Daemon.Calls.{
  Calls, Outcome, done, failed, failed_late, Fault, Process, process_identity_alive,
}
use persona.Daemon.Session.Exec
use persona.Daemon.Session.Invariant.{IsCounted, IsValid, Counted, meta_snapshot-valid}
use persona.Daemon.Session.Preserved

pub to_result-IsValid :
    {n : ℕ} (r : Session.Slot × Option Fault) → IsValid n r.0 → IsValid n (Exec.to_result r).0
unfolding Exec.to_result
to_result-IsValid (t, none) v = v
to_result-IsValid (t, some f) v = v

module _ (n : ℕ) (small : suc n < 2 ^ 64) (calls : Calls)
    (trusted : Preserved.IsTrusted calls) where
  -- what the rollback of a lease restores, once the masks are gone
  rolled_back-IsValid :
      (old : Session.Session) (u : Option Fault) (t : Session.Slot)
      → IsValid (suc n) t
      → IsCounted
          (suc n)
          old.generation
          t.session.last_durable_generation
          old.dirty
          false
          t.session.busy_exec_pgid
          t.session.busy_exec_start
      → IsValid (suc n) (Exec.rolled_back old u t)
  unfolding Exec.rolled_back
  rolled_back-IsValid old none t v c = Preserved.valid v.plain c v.saved
  rolled_back-IsValid old (some f) t v c = Preserved.valid v.plain v.counted v.saved

  leased-Counted :
      (owner : ℤ) (masks ignored : List Bytes) (lease : Bytes) (s : Session.Session)
      → Counted n s
      → Counted (suc n) (Exec.leased calls owner lease masks ignored s)
  leased-Counted owner masks ignored lease s c =
      Preserved.busy-IsCounted (suc n) (Preserved.next-IsCounted small c)

  granted-IsValid :
      (owner : ℤ) (masks ignored : List Bytes) (lease : Bytes) (o : Outcome) (t : Session.Slot)
      → IsValid n t
      → t.session.busy ≡ false
      → IsValid
          (suc n)
          (Exec.granted calls t.session masks lease (
            Session.persisted o (
              Session.cache_session
                (Exec.on_session (Exec.leased calls owner lease masks ignored) t)))).0
  unfolding Exec.granted
  granted-IsValid owner masks ignored lease done t v idle =
      let next = leased-Counted owner masks ignored lease t.session v.counted in
      Preserved.valid v.plain next (
        meta_snapshot-valid (suc n) (Exec.leased calls owner lease masks ignored t.session) v.plain
          next)
  granted-IsValid owner masks ignored lease (failed text) t v idle =
      rolled_back-IsValid t.session _ _
        (Preserved.valid v.plain (leased-Counted owner masks ignored lease t.session v.counted)
          v.saved)
        (Preserved.idle-IsCounted (suc n) (Preserved.later-IsCounted v.counted) idle)
  granted-IsValid owner masks ignored lease (failed_late text) t v idle =
      let next = leased-Counted owner masks ignored lease t.session v.counted in
      rolled_back-IsValid t.session _ _
        (Preserved.valid v.plain next (
          meta_snapshot-valid (suc n) (Exec.leased calls owner lease masks ignored t.session)
            v.plain next))
        (Preserved.idle-IsCounted (suc n) (Preserved.later-IsCounted v.counted) idle)

  grant_lease-IsValid :
      (owner : ℤ) (masks ignored : List Bytes) (l : Result Bytes Bytes) (t : Session.Slot)
      → IsValid n t
      → t.session.busy ≡ false
      → IsValid (suc n) (Exec.grant_lease calls owner masks ignored l t).0
  unfolding Exec.grant_lease Exec.failing Session.persist_session
  grant_lease-IsValid owner masks ignored (err why) t v idle =
      Preserved.later _ (Preserved.abort_acquire-IsValid n calls masks _ t v)
  grant_lease-IsValid owner masks ignored (ok lease) t v idle =
      granted-IsValid owner masks ignored lease _ t v idle

  masked-IsValid :
      (owner : ℤ) (requested : Bytes) (e c : Option Bytes) (t : Session.Slot)
      → IsValid n t
      → t.session.busy ≡ false
      → IsValid (suc n) (Exec.masked calls owner requested e c t).0
  unfolding Exec.masked Exec.failing
  masked-IsValid owner requested (some why) c t v idle =
      Preserved.later _ (Preserved.abort_acquire-IsValid n calls _ _ t v)
  masked-IsValid owner requested none (some why) t v idle =
      Preserved.later _ (Preserved.abort_acquire-IsValid n calls _ _ t v)
  masked-IsValid owner requested none none t v idle = grant_lease-IsValid owner _ _ _ t v idle

  recovered-IsValid :
      (owner : ℤ) (requested : Bytes) (r : Session.Slot × Option Fault)
      → IsValid n r.0
      → IsValid (suc n) (Exec.recovered calls owner requested r).0
  unfolding Exec.recovered
  recovered-IsValid owner requested (t, some f) v = Preserved.later t v
  recovered-IsValid owner requested (t, none) v =
      let s = t.session in
      elim (Bool-cases s.busy) [
        | inr idle ↦ simp idle (masked-IsValid owner requested _ _ t v idle)
        | inl busy ↦
            elim (Bool-cases (
              not (equal requested [])
              && equal s.busy_lease requested
              && same_ℤ s.busy_owner_pid owner
              && equal s.busy_owner_start (calls.process_start_time owner))) [
                | inl same ↦ simp (busy, same) (Preserved.later t v)
                | inr other ↦ simp (busy, other) (Preserved.later t v)
              ]
      ]

  ensured-IsValid :
      (owner : ℤ) (requested : Bytes) (r : Session.Slot × Option Fault)
      → IsValid n r.0
      → IsValid (suc n) (Exec.ensured calls owner requested r).0
  unfolding Exec.ensured
  ensured-IsValid owner requested (t, some f) v = Preserved.later t v
  ensured-IsValid owner requested (t, none) v =
      recovered-IsValid owner requested _ (Preserved.recover_busy-IsValid n calls trusted t v)

  pub acquire_exec-IsValid :
      (owner : ℤ) (config : Config) (requested : Bytes) (t : Session.Slot)
      → IsValid n t
      → IsValid (suc n) (Exec.acquire_exec calls owner config requested t).0
  unfolding Exec.acquire_exec
  acquire_exec-IsValid owner config requested t v =
      elim (Bool-cases (not (equal requested []) && not (Exec.is_lease_id requested))) [
        | inl bad ↦ simp bad (Preserved.later t v)
        | inr fine ↦ elim (Bool-cases (equal t.session.key [] || ltb 4096 (length t.session.key))) [
          | inl bad ↦ simp (fine, bad) (Preserved.later t v)
          | inr named ↦ elim (Bool-cases t.session.closed) [
            | inl closed ↦ simp (fine, named, closed) (Preserved.later t v)
            | inr open_ ↦ elim (Bool-cases (same_config t.session.config config)) [
              | inr other ↦ simp (fine, named, open_, other) (Preserved.later t v)
              | inl same ↦
                  simp (fine, named, open_, same)
                    (ensured-IsValid owner requested _ (
                      Preserved.persist_session-IsValid n calls _
                        (Preserved.valid v.plain v.counted v.saved)))
            ]
          ]
        ]
      ]

  attached-IsCounted :
      {generation durable : ℕ} {dirty busy : Bool} {group pid : ℤ} {start new : Bytes}
      → is_positive pid ≡ true
      → Metadata.parses (parse_uint 10 64 new) ≡ true
      → busy ≡ true
      → IsCounted n generation durable dirty busy group start
      → IsCounted n generation durable dirty busy pid new
  attached-IsCounted positive number busy c = record {
    bounded = c.bounded;
    not_ahead = c.not_ahead;
    clean = c.clean;
    held = c.held;
    idle = λ e. cc;
    grouped = inr (positive, number);
  }

  attach_process-IsValid :
      (pid : ℤ) (r : Result Bytes Process) (t : Session.Slot)
      → (calls.read_process pid ≡ r)
      → IsValid n t
      → t.session.busy ≡ true
      → IsValid n (Exec.attach_process calls pid r t).0
  unfolding Exec.attach_process
  attach_process-IsValid pid (err why) t e v busy = v
  attach_process-IsValid pid (ok process) t e v busy =
      let s = t.session in
      elim (Bool-cases (
        not (is_positive pid)
        || not (same_ℤ process.group pid)
        || not (same_ℤ process.parent s.busy_owner_pid)
        || not (process_identity_alive calls s.busy_owner_pid s.busy_owner_start))) [
          | inl foreign ↦ simp foreign v
          | inr own ↦
              elim (Bool-cases (
                not (same_ℤ s.busy_exec_pgid (pos 0))
                && (not (same_ℤ s.busy_exec_pgid pid)
                    || not (equal s.busy_exec_start process.start)))) [
                      | inl taken ↦ simp (own, taken) v
                      | inr free ↦
                          simp (own, free)
                            (to_result-IsValid _ (
                              Preserved.persist_session-IsValid n calls
                                (Exec.on_session (Exec.attached pid process.start) t)
                                (Preserved.valid v.plain
                                  (attached-IsCounted (ground arith) (trusted.starts pid e) busy
                                    v.counted)
                                  v.saved)))
                    ]
        ]

  pub release_exec-IsValid :
      (lease : Bytes) (generation : ℕ) (t : Session.Slot)
      → IsValid n t
      → IsValid n (Exec.release_exec calls lease generation t).0
  unfolding Exec.release_exec
  release_exec-IsValid lease generation t v =
      let s = t.session in
      elim (Bool-cases t.present) [
        | inr missing ↦ simp missing v
        | inl present ↦ elim (Bool-cases s.closed) [
          | inl closed ↦ simp (present, closed) v
          | inr open_ ↦
              elim (Bool-cases (not (generation == 0) && not (generation == s.view_generation))) [
                | inl other ↦ simp (present, open_, other) v
                | inr view ↦ elim (Bool-cases (not s.busy || not (equal s.busy_lease lease))) [
                  | inl lost ↦ simp (present, open_, view, lost) v
                  | inr lease_ ↦
                      elim (Bool-cases
                        (calls.execution_group_alive s.busy_exec_pgid s.busy_exec_start)) [
                          | inl alive ↦ simp (present, open_, view, lease_, alive) v
                          | inr dead ↦
                              simp (present, open_, view, lease_, dead)
                                (to_result-IsValid (Exec.finish_busy calls t)
                                  (Preserved.finish_busy-IsValid n calls trusted t v))
                        ]
                ]
              ]
        ]
      ]

  pub attach_exec-IsValid :
      (lease : Bytes) (generation : ℕ) (pid : ℤ) (t : Session.Slot)
      → IsValid n t
      → IsValid n (Exec.attach_exec calls lease generation pid t).0
  unfolding Exec.attach_exec
  attach_exec-IsValid lease generation pid t v =
      let s = t.session in
      elim (Bool-cases (
        not t.present
        || s.closed
        || not s.busy
        || not (equal s.busy_lease lease)
        || equal lease [])) [
          | inl lost ↦ simp lost v
          | inr leased ↦
              elim (Bool-cases (generation == 0 || not (generation == s.view_generation))) [
                | inl other ↦ simp (leased, other) v
                | inr view ↦
                    simp (leased, view)
                      (attach_process-IsValid pid (calls.read_process pid) t refl v (ground arith))
              ]
        ]
