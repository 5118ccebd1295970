-- ===== src/Daemon/Session/Reachable.antt =====
-- Any sequence of operations on a session, each with what its calls answer.
use persona.Base.{
  ℕ, suc, zero, ◌+◌, ◌^◌, ◌<◌, ◌≡◌, subst, inl, inr, List, [], ◌∷◌, arith, ℤ, length, All,
  Bool-cases, if◌then◌else◌,
}
use persona.Text.Compare.{Bytes}
use persona.Daemon.Config.{Config}
use persona.Daemon.Calls.{Calls}
use persona.Daemon.Session.{Slot}
use persona.Daemon.Session.Exec.{acquire_exec, attach_exec, release_exec}
use persona.Daemon.Session.Save.{flush_session, mark_dirty, end_session}
use persona.Daemon.Session.Invariant.{IsValid}
use persona.Daemon.Session.Preserved.{IsTrusted, later}
use persona.Daemon.Session.Leasing.{acquire_exec-IsValid, attach_exec-IsValid, release_exec-IsValid}
use persona.Daemon.Session.Saving.{flush_session-IsValid, mark_dirty-IsValid, end_session-IsValid}

pub data Request : Type 0 where
  acquire : ℤ → Config → Bytes → Request
  attach : Bytes → ℕ → ℤ → Request
  release : Bytes → ℕ → Request
  flush : ℕ → Request
  mark end : Request

-- what the request makes of a session that the daemon has
abbrev pub handle : Calls → Request → Slot → Slot
handle calls (acquire owner config lease) t = (acquire_exec calls owner config lease t).0
handle calls (attach lease generation pid) t = (attach_exec calls lease generation pid t).0
handle calls (release lease generation) t = (release_exec calls lease generation t).0
handle calls (flush min_age) t = (flush_session calls min_age t).0
handle calls mark t = (mark_dirty calls t).0
handle calls end t = (end_session calls t).0

-- The requests in order, as long as the daemon has the session.
unfoldable pub handle_all : List (Calls × Request) → Slot → Slot
handle_all [] t = t
handle_all ((calls, request) ∷ rest) t =
    let onward = handle_all rest (handle calls request t) in if t.present then onward else t

handle-IsValid :
    (n : ℕ) (calls : Calls) (request : Request) (t : Slot)
    → suc n < 2 ^ 64
    → IsTrusted calls
    → IsValid n t
    → IsValid (suc n) (handle calls request t)
handle-IsValid n calls (acquire owner config lease) t small trusted v =
    acquire_exec-IsValid n small calls trusted owner config lease t v
handle-IsValid n calls (attach lease generation pid) t small trusted v =
    later _ (attach_exec-IsValid n small calls trusted lease generation pid t v)
handle-IsValid n calls (release lease generation) t small trusted v =
    later _ (release_exec-IsValid n small calls trusted lease generation t v)
handle-IsValid n calls (flush min_age) t small trusted v =
    later _ (flush_session-IsValid n small calls trusted min_age t v)
handle-IsValid n calls mark t small trusted v = mark_dirty-IsValid n small calls trusted t v
handle-IsValid n calls end t small trusted v =
    later _ (end_session-IsValid n small calls trusted t v)

same : {k n : ℕ} {t : Slot} → n ≡ k → IsValid n t → IsValid k t
same {t = t} e v = subst (λ m. IsValid m t) e v

later_by : (k n : ℕ) (t : Slot) → IsValid n t → IsValid (k + n) t
later_by zero n t v = same (omega arith) v
later_by (suc k) n t v = same (omega arith) (later t (later_by k n t v))

-- From a valid session with at most `n` generations, whatever requests are made in whatever order
-- and whatever their calls answer, errors included, the session stays valid, and with it every
-- metadata file on disk passes `validateDaemonSessionMeta`. The digest is one of SHA-256, start
-- times of processes are numbers, and the counter of generations does not wrap around.
pub handle_all-IsValid :
    (n : ℕ) (requests : List (Calls × Request)) (t : Slot)
    → length requests + n < 2 ^ 64
    → All (λ r. IsTrusted r.0) requests
    → IsValid n t
    → IsValid (length requests + n) (handle_all requests t)
unfolding handle_all
handle_all-IsValid n [] t small trusted v = same (omega arith) v
handle_all-IsValid n ((calls, request) ∷ rest) t small trusted v = elim (Bool-cases t.present) [
  | inr gone ↦ simp gone (later_by (suc (length rest)) n t v)
  | inl present ↦ simp present (
      same (omega arith) (
        handle_all-IsValid (suc n) rest (handle calls request t) (omega arith) trusted.1
          (handle-IsValid n calls request t (omega arith) trusted.0 v)))
]
