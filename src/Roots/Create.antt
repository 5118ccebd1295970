-- ===== src/Roots/Create.antt =====
-- `Create`: a new directory for a session, with its marker.
pub mod Exclusive
use persona.Base.{
  ℕ, zero, suc, ◌+◌, List, [], ◌∷◌, Option, none, some, Result, ok, err, ◌>>◌, ◌>>=◌,
}
use persona.Text.Compare.{Bytes, codes}
use persona.Text.Filepath.{join_path}
use persona.Roots.Owner.{
  Session, Node, missing, unreadable, directory, symlink, special, regular, OwnerError, exhausted,
  parent_symlink, call_failed, sessions_root, session_at, subdirectories,
}

-- how `Mkdir` ends
pub data Mkdir : Type 0 where
  made exists : Mkdir
  broken : Bytes → Mkdir

pub record Attempt : Type 0 where
  -- `newSessionID`
  pub new_id : Result Bytes Bytes
  pub mkdir : Mkdir

pub record CreateCalls : Type 0 where
  pub lstat : Bytes → Node
  pub mkdir_all : Bytes → Option Bytes
  pub attempt : ℕ → Attempt
  pub open_marker : Option Bytes
  pub write_marker : Option Bytes
  pub sync_marker : Option Bytes
  pub close_marker : Option Bytes

abbrev pub no_symlink : Node → Result OwnerError (Unit {0})
no_symlink missing = ok tt
no_symlink (unreadable text) = err (call_failed text)
no_symlink symlink = err parent_symlink
no_symlink directory = ok tt
no_symlink special = ok tt
no_symlink (regular size) = ok tt

abbrev pub unless_failed : Option Bytes → Result OwnerError (Unit {0})
unless_failed none = ok tt
unless_failed (some text) = err (call_failed text)

-- one attempt; `onward` is the next
abbrev pub mkdir_or : Bytes → Mkdir → Result OwnerError Bytes → Result OwnerError Bytes
mkdir_or id made onward = ok id
mkdir_or id exists onward = onward
mkdir_or id (broken text) onward = err (call_failed text)

abbrev pub attempted :
    Attempt → Result Bytes Bytes → Result OwnerError Bytes → Result OwnerError Bytes
attempted a (err text) onward = err (call_failed text)
attempted a (ok id) onward = mkdir_or id a.mkdir onward

-- the loop, with the attempts that are left
unfoldable pub allocate : (ℕ → Attempt) → ℕ → ℕ → Result OwnerError Bytes
allocate attempt i zero = err exhausted
allocate attempt i (suc left) =
    let onward = allocate attempt (i + 1) left in attempted (attempt i) (attempt i).new_id onward

-- the three calls on the marker are all made, and the first error counts
abbrev pub write_marker_file : CreateCalls → Result OwnerError (Unit {0})
write_marker_file c =
    unless_failed c.open_marker
    >> (unless_failed c.write_marker
        >> (unless_failed c.sync_marker >> unless_failed c.close_marker))

unfoldable pub make_all : CreateCalls → List Bytes → Result OwnerError (Unit {0})
make_all c [] = ok tt
make_all c (path ∷ paths) = unless_failed (c.mkdir_all path) >> make_all c paths

-- behind the allocation
unfoldable pub furnish : CreateCalls → Session → Result OwnerError Session
furnish c s = write_marker_file c >> (make_all c (subdirectories s) >> ok s)

unfoldable pub create : CreateCalls → Bytes → Result OwnerError Session
create c git_dir =
    no_symlink (c.lstat (join_path (git_dir ∷ codes "persona" ∷ [])))
    >> (no_symlink (c.lstat (sessions_root git_dir))
        >> (unless_failed (c.mkdir_all (sessions_root git_dir))
            >> (allocate c.attempt 0 10 >>= λ id.
                furnish c (session_at git_dir id (join_path (sessions_root git_dir ∷ id ∷ []))))))
