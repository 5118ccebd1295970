-- ===== src/Daemon/Gate/Progress.antt =====
-- A worker that waits for a gate can always be let in.
use persona.Base.{ℕ, ◌≡◌}
use persona.Daemon.Gate
use persona.Daemon.Gate.Exclusion
use persona.Daemon.Gate.Exclusion.{Owned}

module _ (calls : ℕ → Gate.Call) where
  abbrev moved_to : (s : Gate.State) (w : ℕ) (a : Gate.Act) (p : Gate.Pc) → Gate.State
  moved_to s w a p = record s {
    gate = Gate.gate_after a w (Gate.key calls w) s.gate;
    pc = Gate.at_worker w p s.pc;
  }

  -- The worker gets in after some steps.
  abbrev pub Enters : Gate.State → ℕ → Type 0
  Enters s w = (t : Gate.State) × Gate.Run calls s t × (t.pc w ≡ Gate.entered)
