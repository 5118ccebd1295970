-- ===== src/View/Run.antt =====
-- `runOnNamespaceThread` with `prepareBase` and `setupMountTargetEnv`, and `main`: a command is run
-- once in a view, and what it changed is saved.
pub mod Saved
pub mod Status
use persona.Base.{
  ℕ, Bool, true, false, not, ◌&&◌, ◌||◌, List, [], ◌∷◌, ◌++◌, Option, none, some, Result, ok, err,
  ℤ, if◌then◌else◌,
}
use persona.Text.Compare.{Bytes, codes, equal, has_prefix}
use persona.Text.Filepath.{join_path}
use persona.Daemon.Calls.{Fault, umount_paths_reverse}
use persona.View.Failure.{
  Failure, failure, exit_env, exit_repo, exit_apply, exit_export, exit_write, number,
  should_remove_session,
}
use persona.View.Paths.{patch_state_paths_for_repo}
use persona.View.Apply
use persona.View.Apply.{ApplyCalls, apply_patch_store}
use persona.View.Masks
use persona.View.Masks.{MaskCalls, mask_ignored_files}
use persona.View.Child
use persona.View.Child.{ChildCalls, run_command}
use persona.View.Export
use persona.View.Export.{ExportCalls, export_patch}

pub record Options : Type 0 where
  pub base_mode : Bytes
  pub base_ref : Bytes
  pub allow_dirty : Bool
  pub ignored_mode : Bytes
  pub ignored_max : ℤ
  pub apply_mode : Bytes
  pub keep_session : Bytes
  pub command : List Bytes

pub record BaseCalls : Type 0 where
  -- `ResolveBase`, of git
  pub resolve : Bytes → Option Bytes
  -- `IsCleanExceptPaths`
  pub is_clean : List Bytes → Result Bytes Bool
  pub worktree_add : Option Bytes

-- What the calls answer, none where they succeed.
pub record RunCalls : Type 0 where
  pub getwd : Option Bytes
  pub detect_repo : Option Bytes
  pub ensure_patch_path : Option Bytes
  pub absolute : Option Bytes
  pub make_patch_dir : Option Bytes
  pub open_store : Option Bytes
  pub lock : Option Bytes
  pub create_session : Option Bytes
  pub repo_root : Bytes
  -- `isSubpath` of the resolved repository and patch
  pub patch_in_repo : Bool
  pub patch_rel : Bytes
  pub base : BaseCalls
  pub unshare : Option Bytes
  pub make_private : Option Bytes
  -- the parts of `setupMountTargetEnv`
  pub make_external : Option Bytes
  pub make_empty_dirs : Option Bytes
  pub make_empty_files : Option Bytes
  pub make_temp_root : Option Bytes
  pub plan_git : Option Bytes
  pub make_mount_dir : Option Bytes
  pub mount_gitdir : Option Bytes
  pub forced : Bool
  pub mount_base : Option Bytes
  pub mount_view : Option Bytes
  pub apply : ApplyCalls
  pub masks : MaskCalls
  pub empty_files : Bytes
  pub empty_dirs : Bytes
  pub mask_patch : Bytes → Option Bytes
  -- what .git is in the view, if it is there
  pub git_there : Bool
  pub mask_git : Option Bytes
  pub child : ChildCalls
  -- `Umount`
  pub umount : Bytes → Option Bytes
  pub create_temp : Option Bytes
  pub export : ExportCalls
  pub seek : Option Bytes
  -- `WriteFromReader`
  pub write : Option Bytes

-- the functions that are pushed to the cleanup stack
pub data Undo : Type 0 where
  close_store unlock remove_session remove_worktree remove_external : Undo
  unmount_gitdir unmount_base unmount_view unmount_masks leave : Undo

-- what is done on the way, as far as the end depends on it
pub record Outcome : Type 0 where
  pub error : Option Failure
  pub child_code : ℕ
  -- the last pushed first
  pub stack : List Undo
  -- the targets that `unmount_masks` takes away
  pub mask_targets : List Bytes
  -- whether the patch was written
  pub saved : Bool

abbrev pub broke : Failure → List Undo → List Bytes → Outcome
broke why st targets = record {
  error = some why;
  child_code = 0;
  stack = st;
  mask_targets = targets;
  saved = false;
}

-- one call; `why` is the failure if it has an error
unfoldable pub attempt {ℓ} :
    {E : Type ℓ} → Option E → Failure → List Undo → List Bytes → Outcome → Outcome
attempt none why st targets onward = onward
attempt (some e) why st targets onward = broke why st targets

unfoldable pub demand : Bool → Failure → List Undo → List Bytes → Outcome → Outcome
demand true why st targets onward = onward
demand false why st targets onward = broke why st targets

-- behind the masks: the command, the export and the writing; a failure has no code of the child
unfoldable pub save :
    RunCalls → Options → List Bytes → List Bytes → List Bytes → List Undo → List Bytes → ℕ → Outcome
save c o commands git_mask initial st targets code =
    attempt (umount_paths_reverse c.umount (commands ++ git_mask))
      (failure exit_env (codes "unmask command view")) st targets
      (attempt c.create_temp (failure exit_export (codes "create export temp")) st targets (
        attempt (export_patch c.export c.patch_in_repo c.patch_rel o.ignored_max initial).1
          (failure exit_export (codes "export patch")) st targets
          (attempt c.seek (failure exit_write (codes "rewind export patch")) st targets (
            attempt c.write (failure exit_write (codes "write patch")) st targets (record {
              error = none;
              child_code = code;
              stack = st;
              mask_targets = targets;
              saved = true;
            })))))

abbrev pub git_path : Bytes → Bytes
git_path root = join_path (root ∷ codes ".git" ∷ [])

unfoldable pub mask_git_then :
    RunCalls → Options → List Bytes → List Bytes → List Undo → List Bytes → Outcome
mask_git_then c o commands initial st targets =
    if c.git_there
    then attempt c.mask_git (failure exit_env (codes "mask .git")) st targets (
        save c o commands (git_path c.repo_root ∷ []) initial st
          (targets ++ git_path c.repo_root ∷ []) (run_command c.child o.command).0)
    else save c o commands [] initial st targets (run_command c.child o.command).0

-- the loop over the paths of the patch; `commands` are all of them
unfoldable pub mask_patch_then :
    RunCalls → Options → List Bytes → List Bytes → List Bytes → List Undo → List Bytes → Outcome
mask_patch_then c o commands initial [] st targets = mask_git_then c o commands initial st targets
mask_patch_then c o commands initial (path ∷ paths) st targets =
    attempt (c.mask_patch path) (failure exit_env (codes "mask patch file")) st targets
      (mask_patch_then c o commands initial paths st (targets ++ path ∷ []))

-- whether the patch is a file of the repository that the command would see
abbrev pub is_visible : Bool → Bytes → Bool
is_visible patch_in_repo path =
    patch_in_repo
    && not (equal path [])
    && not (has_prefix path (codes ".git/"))
    && not (equal path (codes ".git"))

abbrev pub command_masks : RunCalls → List Bytes
command_masks c =
    (patch_state_paths_for_repo c.repo_root (is_visible c.patch_in_repo c.patch_rel) c.patch_rel).1

-- the masks of the ignored files are kept also if not all could be made
abbrev pub ignored_then : RunCalls → Options → List Undo → Masks.Masks × List Bytes → Outcome
ignored_then c o st (m, initial) =
    attempt m.error (failure exit_env (codes "mask ignored files")) st m.targets
      (mask_patch_then c o (command_masks c) initial (command_masks c) st m.targets)

unfoldable pub with_view : RunCalls → Options → List Undo → Outcome
with_view c o st0 =
    let st = leave ∷ unmount_masks ∷ st0 in
    attempt (apply_patch_store c.apply o.apply_mode).error
      (failure exit_apply (codes "apply patch")) st []
      (ignored_then c o st (
        mask_ignored_files c.masks o.ignored_mode o.ignored_max c.repo_root c.empty_files
          c.empty_dirs))

-- `setupMountTargetEnv`
unfoldable pub setup_mounts : RunCalls → List Undo → (List Undo → Outcome) → Outcome
setup_mounts c st onward =
    attempt c.make_external (failure exit_env (codes "create external session dir")) st [] (
      attempt c.make_empty_dirs (failure exit_env (codes "mkdir empty dir")) (remove_external ∷ st)
        []
        (attempt c.make_empty_files (failure exit_env (codes "mkdir empty file dir"))
          (remove_external ∷ st) []
          (attempt c.make_temp_root (failure exit_env (codes "mkdir temp root"))
            (remove_external ∷ st) []
            (attempt c.plan_git (failure exit_env (codes "plan git mount")) (remove_external ∷ st)
              []
              (attempt c.make_mount_dir (failure exit_env (codes "mkdir git mount dir"))
                (remove_external ∷ st) []
                (attempt c.mount_gitdir (failure exit_env (codes "bind mount gitdir"))
                  (remove_external ∷ st) []
                  (demand (not c.forced) (failure exit_env (codes "forced mount failure"))
                    (unmount_gitdir ∷ remove_external ∷ st) []
                    (attempt c.mount_base (failure exit_env (codes "bind mount base"))
                      (unmount_gitdir ∷ remove_external ∷ st) []
                      (attempt c.mount_view (failure exit_env (codes "mount overlay"))
                        (unmount_base ∷ unmount_gitdir ∷ remove_external ∷ st) []
                        (onward (
                          unmount_view ∷ unmount_base ∷ unmount_gitdir ∷ remove_external
                          ∷ st)))))))))))

unfoldable pub with_base : RunCalls → Options → List Undo → Outcome
with_base c o st = attempt c.unshare (failure exit_env (codes "unshare mount namespace")) st [] (
    attempt c.make_private (failure exit_env (codes "make mounts private")) st []
      (setup_mounts c st (with_view c o)))

abbrev pub if_clean : Result Bytes Bool → List Undo → Outcome → Outcome
if_clean (err why) st onward = broke (failure exit_repo (codes "git clean check")) st []
if_clean (ok false) st onward = broke (failure exit_repo (codes "repository is dirty")) st []
if_clean (ok true) st onward = onward

abbrev pub is_repo : Options → Bool
is_repo o = equal o.base_mode (codes "repo")

-- `prepareBase`
unfoldable pub prepare_base : RunCalls → Options → List Undo → Outcome
prepare_base c o st =
    attempt (c.base.resolve (if is_repo o then codes "HEAD" else o.base_ref))
      (failure exit_repo (codes "resolve session base")) st []
      (if is_repo o
        then (if o.allow_dirty
            then with_base c o st
            else if_clean
                (c.base.is_clean
                  (patch_state_paths_for_repo []
                    (c.patch_in_repo && not (equal c.patch_rel (codes "."))) c.patch_rel).0)
                st (with_base c o st))
        else if equal o.base_mode (codes "worktree")
        then attempt c.base.worktree_add (failure exit_repo (codes "git worktree add")) st []
            (with_base c o (remove_worktree ∷ st))
        else broke (failure exit_env (codes "invalid base mode")) st [])

unfoldable pub run_on_thread : RunCalls → Options → Outcome
run_on_thread c o = attempt c.getwd (failure exit_env (codes "getwd")) [] [] (
    attempt c.detect_repo (failure exit_repo (codes "detect repo")) [] [] (
      attempt c.ensure_patch_path (failure exit_write (codes "ensure patch path")) [] [] (
        attempt c.absolute (failure exit_write (codes "resolve patch path")) [] [] (
          attempt c.make_patch_dir (failure exit_write (codes "ensure patch directory")) [] [] (
            attempt c.open_store (failure exit_write (codes "open patch store")) [] [] (
              attempt c.lock (failure exit_write (codes "lock patch")) (close_store ∷ []) [] (
                attempt c.create_session (failure exit_env (codes "create session"))
                  (unlock ∷ close_store ∷ []) []
                  (prepare_base c o (remove_session ∷ unlock ∷ close_store ∷ [])))))))))

-- the error of a function of the stack; the two that keep the session are not called then
abbrev pub undo_error : (Undo → Option Bytes) → Bool → Undo → Option Bytes
undo_error cleanup removes remove_session = if removes then cleanup remove_session else none
undo_error cleanup removes remove_worktree = if removes then cleanup remove_worktree else none
undo_error cleanup removes u = cleanup u

unfoldable pub all_undone : (Undo → Option Bytes) → Bool → List Undo → Bool
all_undone cleanup removes [] = true
all_undone cleanup removes (u ∷ us) =
    let rest = all_undone cleanup removes us in
    elim (undo_error cleanup removes u) [ none ↦ rest | some why ↦ false ]

abbrev pub finish_with : Bool → Outcome → Outcome
finish_with undone r = if undone then r else elim r.error [
  | none ↦ record r { error = some (failure exit_env (codes "cleanup")); child_code = 0 }
  | some why ↦ r
]

-- with the deferred function, which runs the stack; a failure of it counts if there is no other
unfoldable pub run_with_options : RunCalls → (Undo → Option Bytes) → Options → Outcome
run_with_options c cleanup o =
    let r = run_on_thread c o in
    finish_with (all_undone cleanup (should_remove_session o.keep_session r.error) r.stack) r

-- the exit code of the process
abbrev pub exit_status : Option Failure → ℕ → ℕ
exit_status none child_code = child_code
exit_status (some why) child_code = number why.code
