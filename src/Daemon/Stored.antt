-- ===== src/Daemon/Stored.antt =====
-- The outcomes that the daemon's operations are given for the replacing of a file are those that the
-- system calls of `writeFileAt` and `writeDaemonSessionMeta` come to.
use persona.Base.{◌≡◌, refl, inl, inr, true, Option, none, some}
use persona.Text.Compare.{Bytes}
use persona.Replacing
use persona.Replacing.Atomic
use persona.Replacing.Atomic.{IsAtomic}
use persona.Patchio.Store
use persona.Daemon.Calls.{Outcome, done, failed, failed_late}
use persona.Daemon.Session.{Slot}

-- the file behind an outcome, and its error
abbrev pub file_after : Outcome → Option Replacing.File → Bytes → Option Replacing.File
file_after done old new = some (record { content = new; synced = true })
file_after (failed why) old new = old
file_after (failed_late why) old new = some (record { content = new; synced = true })

abbrev pub error_of : Outcome → Option Bytes
error_of done = none
error_of (failed why) = some why
error_of (failed_late why) = some why

abbrev pub dir_after : Option Replacing.File → Replacing.Run → Replacing.Dir
dir_after old r = Replacing.apply_all r.effects (record { target = old; kept = old; temp = none })

-- what programs see of the run is what the outcome says
pub record Refines (old : Option Replacing.File) (new : Bytes) (r : Replacing.Run) (o : Outcome)
    : Type 0 where
  pub target : (dir_after old r).target ≡ file_after o old new
  pub error : r.error ≡ error_of o

left-Refines :
    (old : Option Replacing.File) (new : Bytes) (r : Replacing.Run) (e : Option Bytes)
    → r.error ≡ e
    → Atomic.Left old new e (dir_after old r)
    → (o : Outcome) × Refines old new r o
left-Refines old new r none same (target, kept, temp) =
    (done, record { target = target; error = same })
left-Refines old new r (some why) same (kept, inl target, temp) =
    (failed why, record { target = target; error = same })
left-Refines old new r (some why) same (kept, inr target, temp) =
    (failed_late why, record { target = target; error = same })

pub IsAtomic-Refines :
    (old : Option Replacing.File) (new : Bytes) (r : Replacing.Run)
    → IsAtomic old new r
    → (o : Outcome) × Refines old new r o
IsAtomic-Refines old new r h = left-Refines old new r r.error refl h.left

abbrev pub patch_file : Slot → Option Replacing.File
patch_file t = some (record { content = t.patch; synced = true })
