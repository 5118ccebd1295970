-- ===== src/Patchio/Store.antt =====
-- `writeFileAt` with `statAtomicTargetAt`, `createAtomicTempFileAt` and `commitAtomicTempFileAt`:
-- replacing the patch file.
pub mod Atomic
use persona.Base.{
  ℕ, zero, suc, ◌+◌, ◌%◌, Bool, true, false, ◌||◌, not, List, [], ◌∷◌, Option, none, some, Result,
  ok, err, length, take, ℤ, pos, negsuc, is_negative, if◌then◌else◌,
}
use persona.Text.Compare.{Bytes, codes}
use persona.Patchio.Errors.{PatchError}
use persona.Patchio.Walk.{Reader, max_patch_bytes, limit_reader, check_patch_size}
use persona.Replacing.{
  Effect, Run, create, write, chown, chmod, sync, close, unlink, rename, sync_dir, after, call,
  stop, abandon,
}

-- What `Fstatat` gives of the target; the mode is of all bits.
pub data Stat : Type 0 where
  absent irregular : Stat
  unreadable : Bytes → Stat
  regular : (mode : ℕ) (uid gid : ℕ) → Stat

-- the answers of the calls that the functions make: none is success, some an error
pub record Calls : Type 0 where
  pub dir_is_nil : Bool
  pub stat : Stat
  pub random : Option Bytes
  pub open_temp : Option Bytes
  -- an error of writing the temporary file, with how many bytes came before it
  pub write_error : Option (Bytes × ℕ)
  pub fchown : Option Bytes
  pub fchmod : Option Bytes
  pub fsync : Option Bytes
  pub close_temp : Option Bytes
  pub rename_temp : Option Bytes
  pub fsync_dir : Option Bytes

pub record Target : Type 0 where
  pub mode : ℕ
  pub uid : ℤ
  pub gid : ℤ
  pub exists : Bool

abbrev pub new_target : Target
new_target = record { mode = 0o644; uid = negsuc 0; gid = negsuc 0; exists = false }

unfoldable pub stat_atomic_target : Stat → Result Bytes Target
stat_atomic_target absent = ok new_target
stat_atomic_target irregular = err (codes "patch target is not a regular file")
stat_atomic_target (unreadable why) = err why
stat_atomic_target (regular mode uid gid) =
    ok (record { mode = mode % 0o1000; uid = pos uid; gid = pos gid; exists = true })

unfoldable pub commit_finished : Calls → Run
commit_finished c = call sync c.fsync abandon (
    call close c.close_temp abandon (
      call rename c.rename_temp abandon
        (call sync_dir c.fsync_dir stop (record { effects = []; error = none }))))

unfoldable pub commit_atomic_temp_file : Calls → Target → Run
commit_atomic_temp_file c target =
    let finished = commit_finished c in
    let moded =
      if target.exists then call (chmod target.mode) c.fchmod abandon finished else finished in
    if not (is_negative target.uid) || not (is_negative target.gid)
    then call (chown target.uid target.gid) c.fchown abandon moded
    else moded

-- behind `io.Copy`: whether it failed, and whether the size is allowed
unfoldable pub checked : Calls → Target → Bool → Result PatchError (Unit {0}) → Run
checked c target true size = abandon (codes "read error")
checked c target false (err why) = abandon (codes "patch exceeds size limit")
checked c target false (ok _) = commit_atomic_temp_file c target

-- what `io.Copy` writes and how it ends, for a reader that is limited
unfoldable pub copied : Calls → Target → Reader → Option (Bytes × ℕ) → Run
copied c target limited (some (why, n)) = after (write (take n limited.content)) (abandon why)
copied c target limited none =
    after (write limited.content)
      (checked c target limited.fails (check_patch_size (length limited.content)))

unfoldable pub temp_opened : Calls → Reader → Target → Option Bytes → Run
temp_opened c r target (some why) = stop why
temp_opened c r target none =
    call create c.open_temp stop
      (copied c target (limit_reader (max_patch_bytes + 1) r) c.write_error)

unfoldable pub opened : Calls → Reader → Result Bytes Target → Run
opened c r (err why) = stop why
opened c r (ok target) = temp_opened c r target c.random

unfoldable pub write_file_at : Calls → Reader → Run
write_file_at c r =
    if c.dir_is_nil then stop (codes "dir is nil") else opened c r (stat_atomic_target c.stat)
