-- ===== src/Daemon/Group/Over.antt =====
-- A group is reported as ended only on evidence.
use persona.Base.{
  ◌≡◌, ◌≢◌, refl, sym, ap, inl, inr, true, false, List, [], ◌∷◌, Option, none, some, ℤ, is_positive,
  same_ℤ, same_ℤ_iff, All, Has, arith, Bool-cases,
}
use persona.Text.Compare.{Bytes, equal_iff}
use persona.Text.Number.{atoi}
use persona.Daemon.Group

-- The process is gone, or of another group, or a zombie without other tasks.
pub data IsQuiet (fs : Group.ProcFs) (group pid : ℤ) : Type 0 where
  gone : fs.read pid ≡ Group.gone → IsQuiet fs group pid
  other : (p : Group.Stat) → fs.read pid ≡ Group.found p → p.group ≢ group → IsQuiet fs group pid
  zombie :
      (p : Group.Stat)
      → fs.read pid ≡ Group.found p
      → Group.is_zombie p ≡ true
      → Group.has_writer (fs.tasks pid) ≡ false
      → IsQuiet fs group pid

abbrev pub QuietEntry : Group.ProcFs → ℤ → Bytes → Type 0
QuietEntry fs group name =
    (pid : ℤ) → atoi name ≡ some pid → is_positive pid ≡ true → IsQuiet fs group pid

-- Either the number of the group is that of a process with another start, or /proc lists only quiet
-- processes and no process was made while it was read.
pub data IsOver (fs : Group.ProcFs) (group : ℤ) (start : Bytes) : Type 0 where
  replaced :
      (p : Group.Stat)
      → fs.leader ≡ Group.found p
      → start ≢ []
      → p.start ≢ start
      → IsOver fs group start
  silent :
      (names : List Bytes) (last : Bytes)
      → fs.entries ≡ some names
      → All (QuietEntry fs group) names
      → fs.last_pid_before ≡ some last
      → fs.last_pid_after ≡ some last
      → IsOver fs group start

is_live-IsQuiet :
    (fs : Group.ProcFs) (group pid : ℤ) (r : Group.Read)
    → fs.read pid ≡ r
    → Group.is_live fs group pid r ≡ false
    → IsQuiet fs group pid
unfolding Group.is_live
is_live-IsQuiet fs group pid Group.gone e h = gone e
is_live-IsQuiet fs group pid Group.unreadable e h = absurd (cc h)
is_live-IsQuiet fs group pid (Group.found p) e h = elim (Bool-cases (same_ℤ p.group group)) [
  | inr differs ↦ other p e (λ same. ground (arith, same_ℤ_iff p.group group))
  | inl same ↦ zombie p e (ground arith) (ground arith)
]

any_live-QuietEntry :
    (fs : Group.ProcFs) (group : ℤ) (names : List Bytes)
    → Group.any_live fs group names ≡ false
    → All (QuietEntry fs group) names
unfolding Group.any_live Group.live_entry
any_live-QuietEntry fs group [] h = tt
any_live-QuietEntry fs group (name ∷ names) h = (
  λ pid e positive. is_live-IsQuiet fs group pid (fs.read pid) refl (ground (arith, rw e at h)),
  any_live-QuietEntry fs group names (ground arith),
)

is_other_leader-IsOver :
    (fs : Group.ProcFs) (group : ℤ) (start : Bytes) (r : Group.Read)
    → fs.leader ≡ r
    → Group.is_other_leader start r ≡ true
    → IsOver fs group start
unfolding Group.is_other_leader
is_other_leader-IsOver fs group start (Group.found p) e h =
    replaced p e (ground (arith, equal_iff start [])) (ground (arith, equal_iff p.start start))
is_other_leader-IsOver fs group start Group.gone e h = absurd (cc h)
is_other_leader-IsOver fs group start Group.unreadable e h = absurd (cc h)

settled_same :
    (before : Bytes) (after : Option Bytes)
    → (Group.settled before after).alive ≡ false
    → (Group.settled before after).stable ≡ true
    → after ≡ some before
unfolding Group.settled
settled_same before none a s = absurd (cc a)
settled_same before (some after) a s = ap some (sym ((equal_iff before after).0 s))

scanned-IsOver :
    (fs : Group.ProcFs) (group : ℤ) (start : Bytes) (before : Option Bytes)
    (entries : Option (List Bytes))
    → fs.last_pid_before ≡ before
    → fs.entries ≡ entries
    → (Group.scanned fs group before entries).alive ≡ false
    → (Group.scanned fs group before entries).stable ≡ true
    → IsOver fs group start
unfolding Group.scanned
scanned-IsOver fs group start none entries b n a s = absurd (cc a)
scanned-IsOver fs group start (some last) none b n a s = absurd (cc a)
scanned-IsOver fs group start (some last) (some names) b n a s =
    elim (Bool-cases (Group.any_live fs group names)) [
      | inl live ↦ absurd (cc (rw live at a))
      | inr quiet ↦
          silent names last n (any_live-QuietEntry fs group names quiet) b
            (settled_same last fs.last_pid_after (rw quiet at a) (rw quiet at s))
    ]

inspect-IsOver :
    (fs : Group.ProcFs) (group : ℤ) (start : Bytes)
    → (Group.inspect_execution_group fs group start).alive ≡ false
    → (Group.inspect_execution_group fs group start).stable ≡ true
    → IsOver fs group start
unfolding Group.inspect_execution_group
inspect-IsOver fs group start a s = elim (Bool-cases (Group.is_other_leader start fs.leader)) [
  | inl other_ ↦ is_other_leader-IsOver fs group start fs.leader refl other_
  | inr same ↦
      scanned-IsOver fs group start fs.last_pid_before fs.entries refl refl (rw same at a)
        (rw same at s)
]

active_in-IsOver :
    (tries : List Group.ProcFs) (group : ℤ) (start : Bytes)
    → Group.active_in tries group start ≡ false
    → (fs : Group.ProcFs) × Has fs tries × IsOver fs group start
unfolding Group.active_in
active_in-IsOver [] group start h = absurd (cc h)
active_in-IsOver (fs ∷ tries) group start h =
    let v = Group.inspect_execution_group fs group start in
    elim (Bool-cases v.alive) [
      | inl alive ↦ absurd (ground arith)
      | inr ended ↦ elim (Bool-cases v.stable) [
        | inl stable ↦ (fs, inl refl, inspect-IsOver fs group start ended stable)
        | inr unsure ↦
            let (later, among, over) = active_in-IsOver tries group start (ground arith) in
            (later, inr among, over)
      ]
    ]

-- If `executionGroupActive` reports that a group has ended, then one of its three inspections has
-- the evidence: the number of the group is now that of a process with another start, or /proc lists
-- only processes that are gone, of other groups, or zombies without other tasks, and no process was
-- made during the scan.
pub execution_group_active_sound :
    (first second third : Group.ProcFs) (group : ℤ) (start : Bytes)
    → Group.execution_group_active first second third group start ≡ false
    → (fs : Group.ProcFs) × Has fs (first ∷ second ∷ third ∷ []) × IsOver fs group start
unfolding Group.execution_group_active
execution_group_active_sound first second third group start h =
    active_in-IsOver (first ∷ second ∷ third ∷ []) group start h
