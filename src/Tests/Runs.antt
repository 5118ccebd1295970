-- ===== src/Tests/Runs.antt =====
-- A run of a command in a view: its patch is applied, and what it changes is saved.
use persona.Base.{◌≡◌, ◌↔◌, refl, true, false, [], ◌∷◌, Option, none, ok, pos}
use persona.Text.Compare.{Bytes, codes, equal}
use persona.Patchio.Block
use persona.View.Failure
use persona.View.Apply
use persona.View.Apply.Done.{Done, apply_patch_store-Done}
use persona.View.Child.Codes.{IsChildCode}
use persona.View.Run
use persona.View.Run.Status.{exit_status_iff}
use persona.Tests.Views.{exports, masks, child}

abbrev tree : Block.WorkTree
tree = record { lstat = λ path. none; open_file = λ path. none }

abbrev applies : Apply.ApplyCalls
applies = record {
  open_read = ok true;
  stat = ok 2;
  file = record { content = codes "x\n"; fails = false };
  context = none;
  apply = λ content. none;
  apply_again = λ content. none;
  tree = tree;
}

test_apply_patch_store :
    Apply.apply_patch_store applies (codes "strict")
    ≡ record { given = codes "x\n" ∷ []; error = none }
unfolding Apply.apply_patch_store persona.Patchio.Walk.limit_reader
    persona.Patchio.Walk.check_patch_size Apply.apply_snapshot equal
    persona.Patchio.Validate.validate_patch persona.Patchio.Walk.walk_patch_lines
    persona.Patchio.Walk.lines persona.Patchio.Validate.validate_line
    persona.Text.Compare.has_prefix persona.Patchio.Quoting.trim_line
    persona.Patchio.Validate.check_header persona.Patchio.Validate.check_rename
test_apply_patch_store = refl

test_apply_error : (Apply.apply_patch_store applies (codes "strict")).error ≡ none
unfolding Apply.apply_patch_store persona.Patchio.Walk.limit_reader
    persona.Patchio.Walk.check_patch_size Apply.apply_snapshot equal
    persona.Patchio.Validate.validate_patch persona.Patchio.Walk.walk_patch_lines
    persona.Patchio.Walk.lines persona.Patchio.Validate.validate_line
    persona.Text.Compare.has_prefix persona.Patchio.Quoting.trim_line
    persona.Patchio.Validate.check_header persona.Patchio.Validate.check_rename
test_apply_error = refl

apply_patch_store-Done_example :
    Done applies (codes "strict") (Apply.apply_patch_store applies (codes "strict")).given
apply_patch_store-Done_example = apply_patch_store-Done applies (codes "strict") test_apply_error

abbrev base : Run.BaseCalls
base = record { resolve = λ ref. none; is_clean = λ paths. ok true; worktree_add = none }

abbrev run : Run.RunCalls
run = record {
  getwd = none;
  detect_repo = none;
  ensure_patch_path = none;
  absolute = none;
  make_patch_dir = none;
  open_store = none;
  lock = none;
  create_session = none;
  repo_root = codes "/r";
  patch_in_repo = false;
  patch_rel = [];
  base = base;
  unshare = none;
  make_private = none;
  make_external = none;
  make_empty_dirs = none;
  make_empty_files = none;
  make_temp_root = none;
  plan_git = none;
  make_mount_dir = none;
  mount_gitdir = none;
  forced = false;
  mount_base = none;
  mount_view = none;
  apply = applies;
  masks = masks;
  empty_files = codes "/f";
  empty_dirs = codes "/d";
  mask_patch = λ path. none;
  git_there = true;
  mask_git = none;
  child = child;
  umount = λ path. none;
  create_temp = none;
  export = exports;
  seek = none;
  write = none;
}

abbrev options : Run.Options
options = record {
  base_mode = codes "repo";
  base_ref = codes "HEAD";
  allow_dirty = false;
  ignored_mode = codes "readonly";
  ignored_max = pos 2;
  apply_mode = codes "strict";
  keep_session = codes "on-fail";
  command = codes "make" ∷ [];
}

abbrev cleanup : Run.Undo → Option Bytes
cleanup u = none

exit_status_iff_example :
    ((Run.run_with_options run cleanup options).error ≡ none)
    ↔ IsChildCode (
        Run.exit_status
          (Run.run_with_options run cleanup options).error
          (Run.run_with_options run cleanup options).child_code)
exit_status_iff_example = exit_status_iff run cleanup options
