-- ===== src/Tests/Roots.antt =====
-- Removing and making the directories of a session, and the mount of the directory of git.
use persona.Base.{◌≡◌, refl, Bool, Result, false, none, some, ok, ◌==◌, if◌then◌else◌}
use persona.View.Paths
use persona.View.Paths.Mirrored.{IsMirrored, plan_git_dir_mount-IsMirrored}
use persona.Text.Compare.{Bytes, codes, equal}
use persona.Text.Filepath.{base}
use persona.Roots.Owner
use persona.Roots.Owner.Owned.{IsOwned, remove_all-IsOwned}
use persona.Roots.Create
use persona.Roots.Create.Exclusive.{IsFresh, create-IsFresh}

abbrev files : Owner.Files
files = record {
  lstat = λ path. if equal (base path) Owner.owner_file then Owner.regular 2 else Owner.directory;
  read_file = λ path. ok (codes "a\n");
}

abbrev session : Owner.Session
session = Owner.session_at (codes "/r/.git") (codes "a") (codes "/r/.git/persona/sessions/a")

abbrev unmounted : Result Bytes Bool
unmounted = ok false

test_remove_all : Owner.remove_all files unmounted session ≡ ok (codes "/r/.git/persona/sessions/a")
unfolding Owner.remove_all Owner.validate_root Owner.validate_clean_root persona.Text.Filepath.clean
    equal persona.Text.Filepath.dir persona.Text.Filepath.split_file persona.Text.Split.join
    persona.Text.Filepath.parts_of persona.Text.Filepath.clean_parts persona.Text.Split.split
    persona.Text.Filepath.clean_part persona.Text.Filepath.join_path Owner.all_directories base
    persona.Text.Filepath.trim_slashes Owner.validate_marker
test_remove_all = refl

remove_all-IsOwned_example :
    (codes "/r/.git/persona/sessions/a" ≡ session.root)
    × (unmounted ≡ ok false)
    × IsOwned files session.git_dir session.root
remove_all-IsOwned_example =
    remove_all-IsOwned files unmounted session (codes "/r/.git/persona/sessions/a") test_remove_all

abbrev creating : Create.CreateCalls
creating = record {
  lstat = λ path. Owner.missing;
  mkdir_all = λ path. none;
  attempt = λ i. record {
    new_id = ok (codes "a");
    mkdir = if i == 0 then Create.exists else Create.made;
  };
  open_marker = none;
  write_marker = none;
  sync_marker = none;
  close_marker = none;
}

test_create : Create.create creating (codes "/r/.git") ≡ ok session
unfolding Create.create Create.allocate Create.furnish Create.make_all
    persona.Text.Filepath.join_path equal persona.Text.Filepath.clean persona.Text.Split.join
    persona.Text.Filepath.parts_of persona.Text.Filepath.clean_parts persona.Text.Split.split
    persona.Text.Filepath.clean_part
test_create = refl

test_create-IsFresh : IsFresh creating (codes "/r/.git") session
test_create-IsFresh = create-IsFresh creating (codes "/r/.git") session test_create

test_plan_git_dir_mount :
    Paths.plan_git_dir_mount
      (codes "/r/.git/worktrees/w")
      (codes "/m/gitdir")
      (ok (some (codes "../..\n")))
    ≡ ok (codes "/r/.git", codes "/m/gitdir/worktrees/w")
unfolding Paths.plan_git_dir_mount Paths.resolve_git_common_dir equal
    persona.Text.Compare.trim_space persona.Text.Compare.trim_func persona.Text.Compare.trim_right
    persona.Text.Compare.trim_left_func persona.Text.Compare.is_space persona.Text.Compare.keep_last
    persona.Text.Filepath.rel persona.Text.Filepath.clean persona.Text.Filepath.join_path
    persona.Text.Split.join persona.Text.Filepath.parts_of persona.Text.Filepath.clean_parts
    persona.Text.Split.split persona.Text.Filepath.clean_part persona.Text.Compare.has_prefix
test_plan_git_dir_mount = refl

plan_git_dir_mount-IsMirrored_example :
    IsMirrored
      (codes "/r/.git/worktrees/w")
      (codes "/m/gitdir")
      (codes "/r/.git")
      (codes "/m/gitdir/worktrees/w")
plan_git_dir_mount-IsMirrored_example =
    plan_git_dir_mount-IsMirrored (codes "/r/.git/worktrees/w") (codes "/m/gitdir")
      (codes "/r/.git") (codes "/m/gitdir/worktrees/w") (ok (some (codes "../..\n"))) refl refl
      test_plan_git_dir_mount
