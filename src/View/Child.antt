-- ===== src/View/Child.antt =====
-- `runCommand`: the exit code of the command, and the end of the processes that it leaves.
pub mod Codes
use persona.Base.{
  ℕ, zero, suc, ◌+◌, ◌-◌, Bool, true, false, ◌&&◌, List, [], ◌∷◌, Option, none, some, ltb, leb,
  if◌then◌else◌,
}
use persona.Text.Compare.{Bytes}

-- how `Wait` ends
pub data Wait : Type 0 where
  fine : Wait
  signaled : (signal : ℕ) → Wait
  exited : (code : ℕ) → Wait
  not_waited : Wait

-- a signal to the group; a group that may not be signalled is still there
pub data Sent : Type 0 where
  sent not_permitted gone : Sent

abbrev pub exit_env : ℕ
exit_env = 10

abbrev pub exit_write : ℕ
exit_write = 14

abbrev pub child_reserved_base : ℕ
child_reserved_base = 240

abbrev pub exit_code : Wait → ℕ
exit_code fine = 0
exit_code (signaled signal) = 128 + signal
exit_code (exited code) =
    if leb exit_env code && leb code exit_write
    then child_reserved_base + (code - exit_env)
    else code
exit_code not_waited = 127

pub record ChildCalls : Type 0 where
  pub start : Option Bytes
  pub wait : Wait
  pub terminate : Sent
  -- the probes of the first loop, and of the second behind SIGKILL
  pub probe : ℕ → Sent
  pub probe_again : ℕ → Sent
  -- the milliseconds since the deadline was set, at each round of the first loop
  pub now : ℕ → ℕ

-- what became of the group
pub data Group : Type 0 where
  ended : Group
  killed : (is_gone : Bool) → Group
  out_of_fuel : Group

-- the rounds behind SIGKILL: whether a probe found the group gone
unfoldable pub probe_killed : (ℕ → Sent) → ℕ → ℕ → Bool
probe_killed probe i zero = false
probe_killed probe i (suc left) =
    let rest = probe_killed probe (i + 1) left in
    elim (probe i) [ gone ↦ true | sent ↦ rest | not_permitted ↦ rest ]

abbrev pub round : Bool → Group → Sent → Group → Group
round late dead gone onward = ended
round late dead sent onward = if late then dead else onward
round late dead not_permitted onward = if late then dead else onward

-- the loop up to the deadline
unfoldable pub probe_all : ChildCalls → ℕ → ℕ → Group
probe_all c zero i = out_of_fuel
probe_all c (suc fuel) i =
    let onward = probe_all c fuel (i + 1) in
    round (ltb 200 (c.now i)) (killed (probe_killed c.probe_again 0 20)) (c.probe i) onward

abbrev pub after_term : Sent → Group → Group
after_term gone probed = ended
after_term sent probed = probed
after_term not_permitted probed = probed

unfoldable pub end_group : ChildCalls → Group
end_group c = after_term c.terminate (probe_all c 22 0)

abbrev pub started : ChildCalls → Option Bytes → ℕ × Group
started c (some text) = (127, ended)
started c none = (exit_code c.wait, end_group c)

-- the exit code, and what became of the group
unfoldable pub run_command : ChildCalls → List Bytes → ℕ × Group
run_command c [] = (0, ended)
run_command c (name ∷ args) = started c c.start
