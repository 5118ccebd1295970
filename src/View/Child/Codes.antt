-- ===== src/View/Child/Codes.antt =====
-- The codes that persona keeps for itself, and the end of the loops.
use persona.Base.{ℕ, suc, ◌+◌, ◌<◌, ◌≤◌, ◌⊎◌, List, [], ◌∷◌, Option, none, some, arith}
use persona.Text.Compare.{Bytes}
use persona.View.Child

-- a code that none of persona's own failures has
abbrev pub IsChildCode : ℕ → Type 0
IsChildCode code = (code < Child.exit_env) ⊎ (Child.exit_write < code)

exit_code-IsChildCode : (w : Child.Wait) → IsChildCode (Child.exit_code w)
exit_code-IsChildCode Child.fine = ground arith
exit_code-IsChildCode (Child.signaled signal) = ground arith
exit_code-IsChildCode (Child.exited code) = ground arith
exit_code-IsChildCode Child.not_waited = ground arith

-- Whatever the command does, the code that `runCommand` gives for it is none of those from 10 to 14
-- by which persona reports its own failures.
pub run_command-IsChildCode :
    (c : Child.ChildCalls) (args : List Bytes) → IsChildCode (Child.run_command c args).0
unfolding Child.run_command
run_command-IsChildCode c [] = ground arith
run_command-IsChildCode c (name ∷ args) = begun c.start
  where
    begun : (o : Option Bytes) → IsChildCode (Child.started c o).0
    begun (some text) = ground arith
    begun none = exit_code-IsChildCode c.wait

-- `time.Sleep` sleeps for ten milliseconds at least
abbrev pub Sleeps : (ℕ → ℕ) → Type 0
Sleeps now = (i : ℕ) → now i + 10 ≤ now (suc i)
