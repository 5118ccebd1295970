-- ===== src/Replacing.antt =====
-- Replacing a file by renaming a finished one over it: the system calls that persona makes for
-- that, in their order, and what a directory holds between them.
pub mod Atomic
use persona.Base.{ℕ, Bool, true, false, List, [], ◌∷◌, ◌++◌, Option, none, some, ℤ}
use persona.Text.Compare.{Bytes}

-- The calls that succeed. All but the last two work on the temporary file.
pub data Effect : Type 0 where
  create : Effect
  write : Bytes → Effect
  chown : ℤ → ℤ → Effect
  chmod : ℕ → Effect
  sync close unlink : Effect
  rename sync_dir : Effect

-- a file, and whether its content has reached the disk
pub record File : Type 0 where
  pub content : Bytes
  pub synced : Bool

-- The file of the name, as programs see it; the one that is there if the machine stops; and the
-- temporary file.
pub record Dir : Type 0 where
  pub target : Option File
  pub kept : Option File
  pub temp : Option File

abbrev pub written : Bytes → Option File → Option File
written more none = none
written more (some f) = some (record { content = f.content ++ more; synced = false })

abbrev pub flushed : Option File → Option File
flushed none = none
flushed (some f) = some (record f { synced = true })

-- renaming a file that is not there fails
abbrev pub moved : Option File → Option File → Option File
moved none target = target
moved (some f) target = some f

abbrev pub apply : Effect → Dir → Dir
apply create d = record d { temp = some (record { content = []; synced = true }) }
apply (write more) d = record d { temp = written more d.temp }
apply (chown uid gid) d = d
apply (chmod mode) d = d
apply sync d = record d { temp = flushed d.temp }
apply close d = d
apply unlink d = record d { temp = none }
apply rename d = record d { target = moved d.temp d.target; temp = none }
apply sync_dir d = record d { kept = d.target }

abbrev pub apply_all : List Effect → Dir → Dir
apply_all [] d = d
apply_all (e ∷ es) d = apply_all es (apply e d)

-- what a function did, and its error if it has one
pub record Run : Type 0 where
  pub effects : List Effect
  pub error : Option Bytes

abbrev pub after : Effect → Run → Run
after e r = record r { effects = e ∷ r.effects }

-- One call: if it fails, what is done instead.
abbrev pub call : Effect → Option Bytes → (Bytes → Run) → Run → Run
call e none failing onward = after e onward
call e (some why) failing onward = failing why

abbrev pub stop : Bytes → Run
stop why = record { effects = []; error = some why }

-- the deferred calls of a replacement that did not come to the renaming
abbrev pub abandon : Bytes → Run
abandon why = record { effects = close ∷ unlink ∷ []; error = some why }
