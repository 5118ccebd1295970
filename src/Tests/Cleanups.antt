-- ===== src/Tests/Cleanups.antt =====
-- The theorem on the cleanup stack at a stack whose first function fails.
use persona.Base.{ℕ, ◌≡◌, [], ◌∷◌, Option, none, some, ◌==◌, if◌then◌else◌}
use persona.Text.Compare.{Bytes, codes}
use persona.Daemon.Cleanup.{run_cleanup, backwards, failing_fns, run_cleanup_lem}

abbrev first_fails : ℕ → Option Bytes
first_fails fn = if fn == 1 then some (codes "busy") else none

test_run_cleanup_lem :
    ((run_cleanup first_fails (1 ∷ 2 ∷ [])).called ≡ backwards (1 ∷ 2 ∷ []))
    × ((run_cleanup first_fails (1 ∷ 2 ∷ [])).remaining ≡ failing_fns first_fails (1 ∷ 2 ∷ []))
test_run_cleanup_lem = run_cleanup_lem first_fails (1 ∷ 2 ∷ [])
