-- ===== src/View/Run/Status.antt =====
-- What the exit code of persona says.
use persona.Base.{◌≡◌, ◌↔◌, refl, sym, subst, Option, none, some, arith}
use persona.Text.Compare.{Bytes}
use persona.View.Failure
use persona.View.Child.Codes.{IsChildCode, run_command-IsChildCode}
use persona.View.Run
use persona.View.Run.Saved.{run_with_options-IsSaved}

-- The exit code of persona is none of those from 10 to 14, by which it reports its own failures,
-- exactly if the run has no error, whatever the command does.
pub exit_status_iff :
    (c : Run.RunCalls) (cleanup : Run.Undo → Option Bytes) (o : Run.Options)
    → ((Run.run_with_options c cleanup o).error ≡ none)
      ↔ IsChildCode (
          Run.exit_status
            (Run.run_with_options c cleanup o).error
            (Run.run_with_options c cleanup o).child_code)
exit_status_iff c cleanup o = (told, back (Run.run_with_options c cleanup o).error refl)
  where
    told :
        (Run.run_with_options c cleanup o).error ≡ none
        → IsChildCode (
            Run.exit_status
              (Run.run_with_options c cleanup o).error
              (Run.run_with_options c cleanup o).child_code)
    told h =
        let (saved, undone) = run_with_options-IsSaved c cleanup o h in
        subst (λ e. IsChildCode (Run.exit_status e (Run.run_with_options c cleanup o).child_code))
          (sym h) (subst IsChildCode (sym saved.code) (run_command-IsChildCode c.child o.command))

    reserved : (code : Failure.ExitCode) → IsChildCode (Failure.number code) → ⊥
    reserved Failure.exit_env h = ground arith
    reserved Failure.exit_repo h = ground arith
    reserved Failure.exit_apply h = ground arith
    reserved Failure.exit_export h = ground arith
    reserved Failure.exit_write h = ground arith

    back :
        (e : Option Failure.Failure)
        → (Run.run_with_options c cleanup o).error ≡ e
        → IsChildCode (Run.exit_status e (Run.run_with_options c cleanup o).child_code)
        → e ≡ none
    back none q h = refl
    back (some why) q h = absurd (reserved why.code h)
