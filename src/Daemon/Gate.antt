-- ===== src/Daemon/Gate.antt =====
-- The gates of the sessions: `lockSessionDuringDrain`, `trySession`, and the parts of
-- `drainMutations` and `closeSessions` that take a gate, as steps of workers that run at the same
-- time.
pub mod Exclusion
pub mod Draining
pub mod Progress
use persona.Base.{ℕ, ◌≡◌, Bool, true, false, ◌&&◌, not, Option, none, some, ◌==◌, if◌then◌else◌}
use persona.Text.Compare.{Bytes, equal}

-- what a worker does: the two functions that take a gate, with their arguments; and what the
-- shutdown does for one key
pub data Call : Type 0 where
  lock_session_during_drain : (key : Bytes) (release : Bool) → Call
  try_session close_session drain_mutation : (key : Bytes) → Call

abbrev pub key_of : Call → Bytes
key_of (lock_session_during_drain key release) = key
key_of (try_session key) = key
key_of (close_session key) = key
key_of (drain_mutation key) = key

-- `trySession` calls `lockSession`, which is not for a release; the shutdown takes no notice of
-- itself.
abbrev pub is_release : Call → Bool
is_release (lock_session_during_drain key release) = release
is_release (try_session key) = false
is_release (close_session key) = true
is_release (drain_mutation key) = true

-- Where a worker is: at the start of its function; `trySession` at its call of `lockSession`;
-- before the gate; behind it, before the second look at `closing`; behind that look, to give the
-- gate back; in the operation; and at its end, with the session's cached information, an error, or
-- the operation done.
pub data Pc : Type 0 where
  start blocked waiting entered leaving working : Pc
  served refused done : Pc

abbrev pub holds : Pc → Bool
holds start = false
holds blocked = false
holds waiting = false
holds entered = true
holds leaving = true
holds working = true
holds served = false
holds refused = false
holds done = false

unfoldable pub refuses : Bool → Call → Bool
refuses closing c = closing && not (is_release c)

-- what a move does to the gate of the key
pub data Act : Type 0 where
  stay take free : Act

-- A move of a worker in `lockSessionDuringDrain`, or behind the gate, given `closing`, who has the gate of the key, and whether the information
-- of the key is cached. A test and what
-- depends on it are one move where the mutex is held.
pub data LockMove (closing : Bool) (gate : Option ℕ) (cached : Bool)
    : Call → Pc → Act → Pc → Type 0 where
  lock_cancelled :
      {k : Bytes} {r : Bool}
      → LockMove closing gate cached (lock_session_during_drain k r) start stay refused
  lock_refused :
      {k : Bytes} {r : Bool}
      → refuses closing (lock_session_during_drain k r) ≡ true
      → LockMove closing gate cached (lock_session_during_drain k r) start stay refused
  lock_waits :
      {k : Bytes} {r : Bool}
      → refuses closing (lock_session_during_drain k r) ≡ false
      → LockMove closing gate cached (lock_session_during_drain k r) start stay waiting
  gate_cancelled : {c : Call} → LockMove closing gate cached c waiting stay refused
  gate_taken : {c : Call} → gate ≡ none → LockMove closing gate cached c waiting take entered
  closing_seen :
      {c : Call} → refuses closing c ≡ true → LockMove closing gate cached c entered stay leaving
  closing_unseen :
      {c : Call} → refuses closing c ≡ false → LockMove closing gate cached c entered stay working
  gate_left : {c : Call} → LockMove closing gate cached c leaving free refused
  unlocked : {c : Call} → LockMove closing gate cached c working free done

-- in `trySession`, up to the gate
pub data TryMove (closing : Bool) (gate : Option ℕ) (cached : Bool)
    : Call → Pc → Act → Pc → Type 0 where
  try_cancelled : {k : Bytes} → TryMove closing gate cached (try_session k) start stay refused
  try_refused :
      {k : Bytes} → closing ≡ true → TryMove closing gate cached (try_session k) start stay refused
  try_taken :
      {k : Bytes}
      → closing ≡ false
      → gate ≡ none
      → TryMove closing gate cached (try_session k) start take working
  try_served :
      {k : Bytes} {v : ℕ}
      → closing ≡ false
      → gate ≡ some v
      → cached ≡ true
      → TryMove closing gate cached (try_session k) start stay served
  try_blocked :
      {k : Bytes} {v : ℕ}
      → closing ≡ false
      → gate ≡ some v
      → cached ≡ false
      → TryMove closing gate cached (try_session k) start stay blocked
  blocked_refused :
      {k : Bytes}
      → closing ≡ true
      → TryMove closing gate cached (try_session k) blocked stay refused
  blocked_cancelled : {k : Bytes} → TryMove closing gate cached (try_session k) blocked stay refused
  blocked_waits :
      {k : Bytes}
      → closing ≡ false
      → TryMove closing gate cached (try_session k) blocked stay waiting

-- in `closeSessions`, which waits for the gate and does not look at `closing`, and in
-- `drainMutations`, which does not wait; both have set `closing`
pub data ShutdownMove (closing : Bool) (gate : Option ℕ) (cached : Bool)
    : Call → Pc → Act → Pc → Type 0 where
  close_taken :
      {k : Bytes}
      → closing ≡ true
      → gate ≡ none
      → ShutdownMove closing gate cached (close_session k) start take working
  drain_taken :
      {k : Bytes}
      → closing ≡ true
      → gate ≡ none
      → ShutdownMove closing gate cached (drain_mutation k) start take working
  drain_passed :
      {k : Bytes} {v : ℕ}
      → closing ≡ true
      → gate ≡ some v
      → ShutdownMove closing gate cached (drain_mutation k) start stay done

pub data Move (closing : Bool) (gate : Option ℕ) (cached : Bool) (c : Call) (p : Pc) (a : Act)
    (q : Pc) : Type 0 where
  in_lock : LockMove closing gate cached c p a q → Move closing gate cached c p a q
  in_try : TryMove closing gate cached c p a q → Move closing gate cached c p a q
  in_shutdown : ShutdownMove closing gate cached c p a q → Move closing gate cached c p a q

-- The state that the workers share: `closing`, who has sent to the channel of a key, and whether
-- `cached` has the key; and where each worker is.
pub record State : Type 0 where
  pub closing : Bool
  pub gate : Bytes → Option ℕ
  pub cached : Bytes → Bool
  pub pc : ℕ → Pc

unfoldable pub at_key {ℓ} : {A : Type ℓ} → Bytes → A → (Bytes → A) → Bytes → A
at_key k a f j = if equal k j then a else f j

unfoldable pub at_worker {ℓ} : {A : Type ℓ} → ℕ → A → (ℕ → A) → ℕ → A
at_worker w a f v = if w == v then a else f v

abbrev pub gate_after : Act → ℕ → Bytes → (Bytes → Option ℕ) → Bytes → Option ℕ
gate_after stay w k gate = gate
gate_after take w k gate = at_key k (some w) gate
gate_after free w k gate = at_key k none gate

module _ (calls : ℕ → Call) where
  abbrev pub key : ℕ → Bytes
  key w = key_of (calls w)

  pub data Step (s : State) : State → Type 0 where
    moves :
        (w : ℕ) {a : Act} {p : Pc}
        → Move s.closing (s.gate (key w)) (s.cached (key w)) (calls w) (s.pc w) a p
        → Step s (record s { gate = gate_after a w (key w) s.gate; pc = at_worker w p s.pc })
    -- `putSession`, `cacheSession` and `removeSession`, by an operation
    caches :
        (w : ℕ) (b : Bool)
        → s.pc w ≡ working
        → Step s (record s { cached = at_key (key w) b s.cached })
    closes : Step s (record s { closing = true })

  abbrev pub init : State
  init = record { closing = false; gate = λ k. none; cached = λ k. false; pc = λ w. start }

  -- the states that a sequence of steps leads to
  pub data Run (s : State) : State → Type 0 where
    none_yet : Run s s
    later : {t u : State} → Run s t → Step t u → Run s u
