-- ===== src/Daemon/Calls.antt =====
-- What an operation of the daemon calls outside of it, as the answers that the calls give.
use persona.Base.{
  ℕ, Bool, ◌&&◌, ◌||◌, List, [], ◌∷◌, ◌++◌, Option, none, some, Result, ℤ, if◌then◌else◌,
}
use persona.Text.Compare.{Bytes, codes, equal}
use persona.Daemon.Metadata.{Meta}

-- an error: that of a call, one wrapped with an operation and an exit code, or two joined
pub data Fault : Type 0 where
  call : Bytes → Fault
  wrap : Bytes → Bytes → Fault → Fault
  join : Fault → Fault → Fault

-- `err.Error()`
unfoldable pub message : Fault → Bytes
message (call text) = text
message (wrap op code f) = op ++ codes ": " ++ message f ++ codes " (exit " ++ code ++ codes ")"
message (join f g) = message f ++ b'\n' ∷ message g

-- `errors.Join` of two errors, each of which may be nil
abbrev pub join_faults : Option Fault → Option Fault → Option Fault
join_faults none g = g
join_faults (some f) none = some f
join_faults (some f) (some g) = some (join f g)

-- Replacing a file either succeeds, or fails before the new file is in place, or behind that point.
pub data Outcome : Type 0 where
  done : Outcome
  failed failed_late : Bytes → Outcome

pub record Process : Type 0 where
  pub parent : ℤ
  pub group : ℤ
  pub start : Bytes

pub record Masks : Type 0 where
  pub targets : List Bytes
  pub initial_ignored : List Bytes
  pub error : Option Bytes

pub record Calls : Type 0 where
  -- the clock, in nanoseconds, as `finishBusyLocked` reads it and as the rest of the operation does
  pub finished_at : ℕ
  pub now : ℕ
  pub ctx_error : Option Bytes
  pub nonce : Result Bytes Bytes
  pub mask_ignored_files : Masks
  pub umount : Bytes → Option Bytes
  pub process_alive : ℤ → Bool
  pub process_start_time : ℤ → Bytes
  pub execution_group_alive : ℤ → Bytes → Bool
  pub read_process : ℤ → Result Bytes Process
  -- the parts of `writeSessionPatch`, with the text that is exported and its digest
  pub create_temp : Option Bytes
  pub export_patch : Result Bytes Bytes
  pub rewind : Option Bytes
  pub write_patch : Bytes → Outcome
  pub digest : Bytes → Bytes
  -- the outcome of writing metadata, by the number of the write
  pub write_meta : ℕ → Meta → Outcome
  pub cleanup : Option Bytes
  pub remove_meta : Option Bytes
  pub sync_directory : Option Bytes

umount_fault : Option Bytes → Option Fault
umount_fault none = none
umount_fault (some text) = some (call text)

-- The last path first; an empty path is passed over, and each error is kept.
unfoldable pub umount_paths_reverse : (Bytes → Option Bytes) → List Bytes → Option Fault
unfolding umount_fault
umount_paths_reverse umount [] = none
umount_paths_reverse umount (path ∷ paths) =
    join_faults (umount_paths_reverse umount paths)
      (if equal path [] then none else umount_fault (umount path))

unfoldable pub process_identity_alive : Calls → ℤ → Bytes → Bool
process_identity_alive calls pid start =
    calls.process_alive pid && (equal start [] || equal (calls.process_start_time pid) start)

unfoldable pub mutation_owner_alive : Calls → ℤ → Bytes → ℤ → Bytes → Bool
mutation_owner_alive calls owner owner_start group group_start =
    process_identity_alive calls owner owner_start || calls.execution_group_alive group group_start
