-- ===== src/Daemon/Create.antt =====
-- `createSessionWithCheckpoint` with `setupMountTargetEnv`: making the view of a session, new or
-- from the metadata of an earlier daemon, and what is undone when that fails.
pub mod Stages
pub mod Undone
use persona.Base.{
  ℕ, Bool, true, false, ◌&&◌, not, List, [], ◌∷◌, ◌++◌, Option, none, some, Result, ok, err, ℤ, pos,
  same_ℤ, if◌then◌else◌,
}
use persona.Text.Compare.{Bytes, codes, equal}
use persona.Daemon.Config.{Config}
use persona.Daemon.Metadata.{Meta, checkpoint_valid}
use persona.Daemon.Session.{Session, View}

-- What the calls answer, none where they succeed. Git is the one of internal/gitx, which has all of
-- the interfaces that the code asks for.
pub record CreateCalls : Type 0 where
  pub open_checkpoint : Option Bytes
  -- of the patch file
  pub checksum : Bytes
  pub open_root : Result Bytes Bytes
  pub has_mounts : Result Bytes Bool
  pub create_root : Result Bytes Bytes
  pub load_patch_base : Result Bytes Bytes
  -- the commit of HEAD, and the base that `prepareBase` comes to
  pub head : Result Bytes Bytes
  pub resolved : Bytes
  pub validate_owner : Option Bytes
  pub validate_recovery_base : Option Bytes
  pub prepare_base : Option Bytes
  pub write_owner : Option Bytes
  -- the parts of `setupMountTargetEnv`
  pub make_external : Result Bytes Bytes
  pub make_directories : Option Bytes
  pub mount_gitdir : Option Bytes
  pub mount_base : Option Bytes
  pub mount_view : Option Bytes
  pub write_external_owner : Option Bytes
  pub apply_patch : Option Bytes
  pub list_ignored : Result Bytes (List Bytes)
  pub mask_patch : Option Bytes
  -- none also where the view has no .git
  pub mask_git : Option Bytes
  pub retain_base : Option Bytes
  -- of saving the metadata of a session without prior ones
  pub save_new : Option Bytes
  pub now : ℕ

-- the functions that are pushed to the cleanup stack
pub data Undo : Type 0 where
  close_checkpoint remove_root remove_worktree : Undo
  remove_external unmount_gitdir unmount_base unmount_view unmount_masks : Undo

-- how it ends, with the stack, the last pushed first
pub data Made : Type 0 where
  made : Session → List Undo → Made
  broke : Bytes → List Undo → Made

abbrev pub attempt : Option Bytes → List Undo → Made → Made
attempt none st onward = onward
attempt (some why) st onward = broke why st

abbrev pub attempt_value {ℓ} : {A : Type ℓ} → Result Bytes A → List Undo → (A → Made) → Made
attempt_value (ok v) st onward = onward v
attempt_value (err why) st onward = broke why st

abbrev pub demand : Bool → List Undo → Bytes → Made → Made
demand true st why onward = onward
demand false st why onward = broke why st

-- What is known when the mounts are made: the key, the options, the root, the prior metadata, if
-- its view is to be used again, and whether there are none.
pub record Plan : Type 0 where
  pub key : Bytes
  pub config : Config
  pub root : Bytes
  pub base_oid : Bytes
  pub reused : Option Meta
  pub is_new : Bool

-- whether there are such metadata
abbrev pub is_reuse : Option Meta → Bool
is_reuse none = false
is_reuse (some meta) = true

abbrev pub ignored_of : Option Meta → List Bytes → List Bytes
ignored_of none listed = listed
ignored_of (some meta) listed = meta.initial_ignored

-- the session that is made
abbrev pub new_session : CreateCalls → View → Plan → Bytes → List Bytes → Session
new_session c view p external listed = record {
  key = p.key;
  config = p.config;
  view = view;
  root = p.root;
  external_root = external;
  ignored_masks = [];
  initial_ignored = ignored_of p.reused listed;
  busy = false;
  busy_owner_pid = pos 0;
  busy_owner_start = [];
  busy_exec_pgid = pos 0;
  busy_exec_start = [];
  busy_lease = [];
  created_at = some c.now;
  last_used = some c.now;
  last_flushed = none;
  flush_count = 0;
  flush_skipped = 0;
  recovered_count = 0;
  dirty = false;
  base_oid = p.base_oid;
  generation = 0;
  last_durable_generation = 0;
  view_generation = 1;
  last_error = [];
  patch_checksum = c.checksum;
  closed = false;
}

abbrev pub ignored_candidates : CreateCalls → ℤ → Result Bytes (List Bytes)
ignored_candidates c ignored_max = if same_ℤ ignored_max (pos 0) then ok [] else c.list_ignored

-- behind the mounts
unfoldable pub finish_view : CreateCalls → View → Plan → Bytes → List Undo → Made
finish_view c view p external st0 =
    let st = unmount_masks ∷ st0 in
    attempt (if is_reuse p.reused then none else c.apply_patch) st (
      attempt_value (ignored_candidates c p.config.ignored_max) st (λ listed.
        attempt c.mask_patch st (
          attempt c.mask_git st (
            attempt c.retain_base st (
              attempt (if p.is_new then c.save_new else none) st
                (made (new_session c view p external listed) st))))))

-- `setupMountTargetEnv`
unfoldable pub setup_mounts : CreateCalls → List Undo → (Bytes → List Undo → Made) → Made
setup_mounts c st onward = attempt_value c.make_external st (λ external.
    attempt c.make_directories (remove_external ∷ st) (
      attempt c.mount_gitdir (remove_external ∷ st) (
        attempt c.mount_base (unmount_gitdir ∷ remove_external ∷ st) (
          attempt c.mount_view (unmount_base ∷ unmount_gitdir ∷ remove_external ∷ st) (
            onward external
              (unmount_view ∷ unmount_base ∷ unmount_gitdir ∷ remove_external ∷ st))))))

unfoldable pub mount_view_of : CreateCalls → View → Plan → List Undo → Made
mount_view_of c view p st = attempt (if is_reuse p.reused then none else c.write_owner) st (
    setup_mounts c st
      (λ external st1. attempt c.write_external_owner st1 (finish_view c view p external st1)))

abbrev pub is_worktree : Config → Bool
is_worktree config = equal config.base_mode (codes "worktree")

-- the lower layer: the one that is there, or a new one
unfoldable pub base_of : CreateCalls → Plan → List Undo → Made → Made
base_of c p st onward =
    if is_reuse p.reused
    then attempt c.validate_owner st (
        demand (is_worktree p.config) st (codes "recovery_required")
          (attempt c.validate_recovery_base st onward))
    else attempt c.prepare_base st onward

unfoldable pub check_head : CreateCalls → Config → Bytes → List Undo → Made → Made
check_head c config pinned st onward =
    if not (equal pinned []) && equal config.base_mode (codes "repo")
    then attempt_value c.head st (λ current.
      demand (equal current pinned) st (codes "repo-mode lower HEAD differs from saved base")
        onward)
    else onward

unfoldable pub with_base : CreateCalls → View → Plan → Bytes → List Undo → Made
with_base c view p pinned st = check_head c p.config pinned st (
    base_of c p st (
      mount_view_of c view
        (record p { base_oid = if is_reuse p.reused then pinned else c.resolved })
        (if is_worktree p.config then remove_worktree ∷ st else st)))

-- with the root: the base that is pinned
unfoldable pub with_root : CreateCalls → View → Plan → Option Meta → List Undo → Made
with_root c view p none st =
    attempt_value c.load_patch_base st (λ pinned. with_base c view p pinned st)
with_root c view p (some prior) st =
    demand (not (equal prior.base_oid [])) st (codes "legacy session has no immutable base OID")
      (with_base c view p prior.base_oid st)

abbrev pub plan : Bytes → Config → Bytes → Option Meta → Bool → Plan
plan key config root reused is_new = record {
  key = key;
  config = config;
  root = root;
  base_oid = [];
  reused = reused;
  is_new = is_new;
}

-- the root of a session that is new, or of a dirty one
unfoldable pub with_checkpoint : CreateCalls → View → Bytes → Config → Option Meta → Bool → Made
with_checkpoint c view key config prior true =
    let st = close_checkpoint ∷ [] in
    attempt_value c.open_root st (λ root. attempt_value c.has_mounts st (λ mounted.
      demand (not mounted) st (codes "preserved session still has mounts")
        (with_root c view (plan key config root prior false) prior (remove_root ∷ st))))
with_checkpoint c view key config prior false =
    let st = close_checkpoint ∷ [] in
    attempt_value c.create_root st (λ root.
      with_root c view (plan key config root none (not (is_reuse prior))) prior (remove_root ∷ st))

abbrev pub fits_checkpoint : Bytes → Option Meta → Bool
fits_checkpoint checksum none = true
fits_checkpoint checksum (some prior) = checkpoint_valid checksum prior

abbrev pub is_dirty : Option Meta → Bool
is_dirty none = false
is_dirty (some prior) = prior.dirty

unfoldable pub create_session : CreateCalls → View → Bytes → Config → Option Meta → Made
create_session c view key config prior = attempt c.open_checkpoint [] (
    demand (fits_checkpoint c.checksum prior) (close_checkpoint ∷ [])
      (codes "saved patch checksum differs from session metadata")
      (with_checkpoint c view key config prior (is_dirty prior)))

-- What a function of the stack removes; `preserve` is what the variable says when it runs. Each of
-- them looks for mounts first.
pub data Removed : Type 0 where
  root worktree external : Removed

abbrev pub removes : Bool → Undo → List Removed
removes preserve close_checkpoint = []
removes preserve remove_root = if preserve then [] else root ∷ []
removes preserve remove_worktree = if preserve then [] else worktree ∷ []
removes preserve remove_external = external ∷ []
removes preserve unmount_gitdir = []
removes preserve unmount_base = []
removes preserve unmount_view = []
removes preserve unmount_masks = []

abbrev pub removes_all : Bool → List Undo → List Removed
removes_all preserve [] = []
removes_all preserve (u ∷ us) = removes preserve u ++ removes_all preserve us

-- the stack behind the creation
abbrev pub stack_of : Made → List Undo
stack_of (made s st) = st
stack_of (broke why st) = st

-- what the deferred function removes when the creation fails
abbrev pub removed_by : Option Meta → Made → List Removed
removed_by prior (made s st) = []
removed_by prior (broke why st) = removes_all (is_dirty prior) st
