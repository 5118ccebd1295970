-- ===== src/Daemon/Group.antt =====
-- `inspectExecutionGroup` and `executionGroupActive`: whether a command's process group still runs.
pub mod Over
use persona.Base.{
  Bool, true, false, ◌&&◌, ◌||◌, not, List, [], ◌∷◌, Option, none, some, ℕ, ltb, ℤ, is_positive,
  same_ℤ, if◌then◌else◌,
}
use persona.Text.Compare.{Bytes, codes, equal}
use persona.Text.Number.{atoi}

-- `executionProcess`
pub record Stat : Type 0 where
  pub parent : ℤ
  pub group : ℤ
  pub state : Bytes
  pub start : Bytes

-- What reading a process gives: that there is none, another error, or its status.
pub data Read : Type 0 where
  gone unreadable : Read
  found : Stat → Read

-- The directory of the tasks of a process: an error other than that there is none, or else how many
-- tasks were listed.
pub data Tasks : Type 0 where
  hidden : Tasks
  listed : ℕ → Tasks

-- /proc, as one inspection reads it: the process that has the number of the group first, then all
pub record ProcFs : Type 0 where
  pub leader : Read
  pub read : ℤ → Read
  pub tasks : ℤ → Tasks
  pub entries : Option (List Bytes)
  pub last_pid_before : Option Bytes
  pub last_pid_after : Option Bytes

unfoldable pub has_writer : Tasks → Bool
has_writer hidden = true
has_writer (listed n) = ltb 1 n

abbrev pub is_zombie : Stat → Bool
is_zombie p = equal p.state (codes "Z") || equal p.state (codes "X")

-- does this process end the scan?
unfoldable pub is_live : ProcFs → ℤ → ℤ → Read → Bool
is_live fs group pid gone = false
is_live fs group pid unreadable = true
is_live fs group pid (found p) =
    same_ℤ p.group group && (not (is_zombie p) || has_writer (fs.tasks pid))

-- an entry of /proc that is no positive number is passed over
unfoldable pub live_entry : ProcFs → ℤ → Option ℤ → Bool
live_entry fs group none = false
live_entry fs group (some pid) = is_positive pid && is_live fs group pid (fs.read pid)

unfoldable pub any_live : ProcFs → ℤ → List Bytes → Bool
any_live fs group [] = false
any_live fs group (name ∷ names) = live_entry fs group (atoi name) || any_live fs group names

-- alive, and whether the answer is stable
pub record Verdict : Type 0 where
  pub alive : Bool
  pub stable : Bool

abbrev pub running : Verdict
running = record { alive = true; stable = true }

unfoldable pub is_other_leader : Bytes → Read → Bool
is_other_leader start (found p) = not (equal start []) && not (equal p.start start)
is_other_leader start gone = false
is_other_leader start unreadable = false

unfoldable pub settled : Bytes → Option Bytes → Verdict
settled before none = running
settled before (some after) = record { alive = false; stable = equal before after }

unfoldable pub scanned : ProcFs → ℤ → Option Bytes → Option (List Bytes) → Verdict
scanned fs group none entries = running
scanned fs group (some before) none = running
scanned fs group (some before) (some names) =
    if any_live fs group names then running else settled before fs.last_pid_after

unfoldable pub inspect_execution_group : ProcFs → ℤ → Bytes → Verdict
inspect_execution_group fs group start =
    if is_other_leader start fs.leader
    then record { alive = false; stable = true }
    else scanned fs group fs.last_pid_before fs.entries

-- the loop over the tries, each with /proc as it is then
unfoldable pub active_in : List ProcFs → ℤ → Bytes → Bool
active_in [] group start = true
active_in (fs ∷ tries) group start =
    let onward = active_in tries group start in
    let v = inspect_execution_group fs group start in
    if v.alive || v.stable then v.alive else onward

unfoldable pub execution_group_active : ProcFs → ProcFs → ProcFs → ℤ → Bytes → Bool
execution_group_active first second third group start =
    active_in (first ∷ second ∷ third ∷ []) group start
