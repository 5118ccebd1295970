-- ===== src/Roots/Owner.antt =====
-- `Session`, `validateRoot`, `Create`, `Open` and `RemoveAll`: the directories of a session, and the
-- marker that says whose they are.
pub mod Owned
use persona.Base.{
  ℕ, zero, suc, Bool, true, false, ◌||◌, not, List, [], ◌∷◌, ◌++◌, Option, none, some, Result, ok,
  err, ◌>>◌, ◌>>=◌, ltb, if◌then◌else◌,
}
use persona.Text.Compare.{Bytes, codes, equal}
use persona.Text.Filepath.{clean, join_path, dir, base, is_abs}

pub record Session : Type 0 where
  pub id : Bytes
  pub root : Bytes
  pub upper : Bytes
  pub work : Bytes
  pub view : Bytes
  pub mnt_base : Bytes
  pub base_wt : Bytes
  pub tmp : Bytes
  pub git_dir : Bytes

abbrev pub owner_file : Bytes
owner_file = codes ".persona-session"

-- what `Lstat` says of a path
pub data Node : Type 0 where
  missing directory symlink special : Node
  unreadable : Bytes → Node
  regular : (size : ℕ) → Node

pub data OwnerError : Type 0 where
  not_direct_child not_directory bad_marker wrong_marker has_mounts exhausted parent_symlink :
      OwnerError
  bad_subdirectory : Bytes → OwnerError
  call_failed : Bytes → OwnerError

pub record Files : Type 0 where
  pub lstat : Bytes → Node
  pub read_file : Bytes → Result Bytes Bytes

abbrev pub sessions_root : Bytes → Bytes
sessions_root git_dir = join_path (git_dir ∷ codes "persona" ∷ codes "sessions" ∷ [])

abbrev pub node_error : Node → OwnerError → Result OwnerError (Unit {0})
node_error directory why = ok tt
node_error missing why = err (call_failed (codes "file does not exist"))
node_error (unreadable text) why = err (call_failed text)
node_error symlink why = err why
node_error special why = err why
node_error (regular size) why = err why

unfoldable pub all_directories : Files → List Bytes → Result OwnerError (Unit {0})
all_directories fs [] = ok tt
all_directories fs (path ∷ paths) =
    node_error (fs.lstat path) not_directory >> all_directories fs paths

abbrev pub marker_node : Node → Result OwnerError (Unit {0})
marker_node (regular size) = if ltb 256 size then err bad_marker else ok tt
marker_node missing = err (call_failed (codes "file does not exist"))
marker_node (unreadable text) = err (call_failed text)
marker_node directory = err bad_marker
marker_node symlink = err bad_marker
marker_node special = err bad_marker

abbrev pub marker_text : Bytes → Result Bytes Bytes → Result OwnerError (Unit {0})
marker_text id (err text) = err (call_failed text)
marker_text id (ok content) = if equal content (id ++ b'\n' ∷ []) then ok tt else err wrong_marker

unfoldable pub validate_marker : Files → Bytes → Result OwnerError (Unit {0})
validate_marker fs root =
    marker_node (fs.lstat (join_path (root ∷ owner_file ∷ [])))
    >> marker_text (base root) (fs.read_file (join_path (root ∷ owner_file ∷ [])))

-- behind `filepath.Clean(root)`
unfoldable pub validate_clean_root : Files → Bytes → Bytes → Result OwnerError (Unit {0})
validate_clean_root fs git_dir root =
    if not (is_abs root) || not (equal (dir root) (clean (sessions_root git_dir)))
    then err not_direct_child
    else all_directories fs
        (git_dir ∷ join_path (git_dir ∷ codes "persona" ∷ []) ∷ sessions_root git_dir ∷ root ∷ [])
      >> validate_marker fs root

unfoldable pub validate_root : Files → Bytes → Bytes → Result OwnerError (Unit {0})
validate_root fs git_dir root = validate_clean_root fs git_dir (clean root)

abbrev pub session_at : Bytes → Bytes → Bytes → Session
session_at git_dir id root = record {
  id = id;
  root = root;
  upper = join_path (root ∷ codes "upper" ∷ []);
  work = join_path (root ∷ codes "work" ∷ []);
  view = join_path (root ∷ codes "view" ∷ []);
  mnt_base = join_path (root ∷ codes "mnt" ∷ codes "base" ∷ []);
  base_wt = join_path (root ∷ codes "basewt" ∷ []);
  tmp = join_path (root ∷ codes "tmp" ∷ []);
  git_dir = git_dir;
}

abbrev pub subdirectories : Session → List Bytes
subdirectories s = s.upper ∷ s.work ∷ s.view ∷ s.mnt_base ∷ s.base_wt ∷ s.tmp ∷ []

unfoldable pub check_subdirectories : Files → List Bytes → Result OwnerError (Unit {0})
check_subdirectories fs [] = ok tt
check_subdirectories fs (path ∷ paths) =
    node_error (fs.lstat path) (bad_subdirectory path) >> check_subdirectories fs paths

abbrev pub opened : Files → Session → Result OwnerError Session
opened fs s = check_subdirectories fs (subdirectories s) >> ok s

-- `Open`
unfoldable pub open_session : Files → Bytes → Bytes → Result OwnerError Session
open_session fs git_dir root =
    validate_root fs git_dir root >> opened fs (session_at git_dir (base (clean root)) (clean root))

-- what `RemoveAll` comes to: an error, or the tree that it removes
abbrev pub unless_mounted : Bytes → Result Bytes Bool → Result OwnerError Bytes
unless_mounted root (err text) = err (call_failed text)
unless_mounted root (ok true) = err has_mounts
unless_mounted root (ok false) = ok root

unfoldable pub remove_all : Files → Result Bytes Bool → Session → Result OwnerError Bytes
remove_all fs mounted s = validate_root fs s.git_dir s.root >> unless_mounted s.root mounted
