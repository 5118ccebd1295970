-- ===== src/Tests/Groups.antt =====
-- The theorem on process groups at a concrete /proc.
use persona.Base.{◌≡◌, refl, false, [], ◌∷◌, some, pos, Has}
use persona.Text.Compare
use persona.Text.Compare.{codes}
use persona.Text.Number
use persona.Daemon.Group
use persona.Daemon.Group.Over.{IsOver, execution_group_active_sound}

-- a shell, and a zombie of group 7
abbrev quiet : Group.ProcFs
quiet = record {
  leader = Group.gone;
  read = λ pid.
      Group.found (record { parent = pos 1; group = pos 7; state = codes "Z"; start = codes "99" });
  tasks = λ pid. Group.listed 1;
  entries = some (codes "7" ∷ codes "self" ∷ []);
  last_pid_before = some (codes "120\n");
  last_pid_after = some (codes "120\n");
}

-- another process was made during the scan
abbrev busy : Group.ProcFs
busy = record quiet { last_pid_after = some (codes "121\n") }

test_active : Group.execution_group_active busy quiet quiet (pos 7) (codes "99") ≡ false
unfolding Group.execution_group_active Group.active_in Group.inspect_execution_group
    Group.is_other_leader Compare.equal Group.scanned Group.any_live Group.live_entry Number.atoi
    Number.parse_uint Group.is_live Group.has_writer Group.settled
test_active = refl

execution_group_active_sound_example :
    (fs : Group.ProcFs) × Has fs (busy ∷ quiet ∷ quiet ∷ []) × IsOver fs (pos 7) (codes "99")
execution_group_active_sound_example =
    execution_group_active_sound busy quiet quiet (pos 7) (codes "99") test_active
