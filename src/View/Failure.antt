-- ===== src/View/Failure.antt =====
-- The failures that persona reports by exit codes of its own, and which session is kept behind one
-- (`shouldRemoveSession`).
use persona.Base.{ℕ, Bool, true, false, Option, none, some, if◌then◌else◌}
use persona.Text.Compare.{Bytes, codes, equal}

pub data ExitCode : Type 0 where
  exit_env exit_repo exit_apply exit_export exit_write : ExitCode

abbrev pub number : ExitCode → ℕ
number exit_env = 10
number exit_repo = 11
number exit_apply = 12
number exit_export = 13
number exit_write = 14

pub record Failure : Type 0 where
  pub code : ExitCode
  pub op : Bytes

-- `Wrap`
abbrev pub failure : ExitCode → Bytes → Failure
failure code op = record { code = code; op = op }

abbrev pub is_fine : Option Failure → Bool
is_fine none = true
is_fine (some why) = false

unfoldable pub should_remove_session : Bytes → Option Failure → Bool
should_remove_session keep error =
    if equal keep (codes "always")
    then false
    else if equal keep (codes "never")
    then true
    else if equal keep (codes "on-fail")
    then is_fine error
    else true
