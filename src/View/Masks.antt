-- ===== src/View/Masks.antt =====
-- `maskIgnoredFiles` with `maskPathWithBacking` and `prepareMaskBacking`: what the command sees of the
-- ignored files.
pub mod Mounted
pub mod Guarded
use persona.Base.{
  ℕ, Bool, true, false, List, [], ◌∷◌, ◌++◌, Option, none, some, Result, ok, err, ◌>>=◌, ◌>>◌, ℤ,
  pos, same_ℤ, if◌then◌else◌,
}
use persona.Text.Compare.{Bytes, codes, equal}
use persona.Text.Filepath.{join_path}
use persona.View.Export.{ExportError, within_limit}

-- what `Lstat` says of a target
pub data Target : Type 0 where
  missing symlink directory other : Target
  unreadable : Bytes → Target

-- how a call on a path ends that may have gone away
pub data Bound : Type 0 where
  bound vanished : Bound
  broken : Bytes → Bound

pub data Kind : Type 0 where
  mask_file mask_dir : Kind

pub data MaskError : Type 0 where
  not_listed : ExportError → MaskError
  unsupported_symlink : Bytes → MaskError
  call_failed : Bytes → MaskError

-- the empty file and directory behind a mask
pub record BackingCalls : Type 0 where
  pub exists : Bool
  -- an error of `Stat` that is not that the file is missing
  pub stat : Option Bytes
  pub create : Option Bytes
  pub close : Option Bytes
  pub mkdir : Option Bytes

pub record MaskCalls : Type 0 where
  pub list_ignored : Result Bytes (List Bytes)
  pub lstat : Bytes → Target
  pub bind : Bytes → Bound
  pub remount_ro : Bytes → Option Bytes
  pub backing : Bytes → BackingCalls
  -- sixteen hexadecimal digits of a path
  pub digest : Bytes → Bytes
  -- `MaskPath` with the empty file and the empty directory
  pub mask_path : Bytes → Kind → Bytes → Bytes → Option Bytes

abbrev pub first_of : Option Bytes → Result Bytes (Unit {0})
first_of none = ok tt
first_of (some text) = err text

abbrev pub make_file : BackingCalls → Result Bytes (Unit {0})
make_file b = if b.exists then ok tt else first_of b.stat >> (first_of b.create >> first_of b.close)

unfoldable pub prepare_mask_backing :
    BackingCalls → Bytes → Bytes → Bytes → Result Bytes (Bytes × Bytes)
prepare_mask_backing b files dirs name =
    make_file b
    >> (first_of b.mkdir >> ok (join_path (files ∷ name ∷ []), join_path (dirs ∷ name ∷ [])))

unfoldable pub mask_path_with_backing :
    MaskCalls → Bytes → Bytes → Bytes → Kind → Result Bytes (Unit {0})
mask_path_with_backing c files dirs target kind =
    prepare_mask_backing (c.backing target) files dirs (c.digest target) >>= λ made.
    first_of (c.mask_path target kind made.0 made.1)

-- the mounts that were made
pub data Mount : Type 0 where
  bind_of read_only_of mask_of : Bytes → Mount

pub record Masks : Type 0 where
  pub targets : List Bytes
  pub mounts : List Mount
  pub error : Option MaskError

abbrev pub stop : MaskError → Masks
stop why = record { targets = []; mounts = []; error = some why }

-- one mount, before what follows
abbrev pub mounted : Mount → Masks → Masks
mounted m rest = record rest { mounts = m ∷ rest.mounts }

abbrev pub target_of : Bytes → Masks → Masks
target_of target rest = record rest { targets = target ∷ rest.targets }

abbrev pub remounted : Bytes → Option Bytes → Masks → Masks
remounted target (some text) rest = stop (call_failed text)
remounted target none rest = mounted (read_only_of target) rest

-- the target is kept before the second call
abbrev pub read_only_bound : MaskCalls → Bytes → Bound → Masks → Masks
read_only_bound c target vanished rest = rest
read_only_bound c target (broken text) rest = stop (call_failed text)
read_only_bound c target bound rest =
    mounted (bind_of target) (target_of target (remounted target (c.remount_ro target) rest))

abbrev pub read_only : MaskCalls → Bytes → Target → Masks → Masks
read_only c target missing rest = rest
read_only c target (unreadable text) rest = stop (call_failed text)
read_only c target symlink rest = stop (unsupported_symlink target)
read_only c target directory rest = read_only_bound c target (c.bind target) rest
read_only c target other rest = read_only_bound c target (c.bind target) rest

abbrev pub masked_as : Bytes → Result Bytes (Unit {0}) → Masks → Masks
masked_as target (err text) rest = stop (call_failed text)
masked_as target (ok _) rest = mounted (mask_of target) (target_of target rest)

abbrev pub masked : MaskCalls → Bytes → Bytes → Bytes → Target → Masks → Masks
masked c files dirs target missing rest = rest
masked c files dirs target (unreadable text) rest = stop (call_failed text)
masked c files dirs target symlink rest = stop (unsupported_symlink target)
masked c files dirs target directory rest =
    masked_as target (mask_path_with_backing c files dirs target mask_dir) rest
masked c files dirs target other rest =
    masked_as target (mask_path_with_backing c files dirs target mask_file) rest

abbrev pub place : Bytes → Bytes → Bytes
place root path = join_path (root ∷ path ∷ [])

-- the loop over the ignored paths
unfoldable pub mask_all : MaskCalls → Bytes → Bytes → Bytes → Bytes → List Bytes → Masks
mask_all c mode root files dirs [] = record { targets = []; mounts = []; error = none }
mask_all c mode root files dirs (path ∷ paths) =
    let rest = mask_all c mode root files dirs paths in
    if equal mode (codes "readonly")
    then read_only c (place root path) (c.lstat (place root path)) rest
    else if equal mode (codes "masked")
    then masked c files dirs (place root path) (c.lstat (place root path)) rest
    else rest

abbrev pub listed :
    MaskCalls → Bytes → Bytes → Bytes → Bytes → Result ExportError (List Bytes) → Masks × List Bytes
listed c mode root files dirs (err why) = (stop (not_listed why), [])
listed c mode root files dirs (ok ignored) =
    if equal mode (codes "transparent")
    then (record { targets = []; mounts = []; error = none }, ignored)
    else (mask_all c mode root files dirs ignored, ignored)

-- the masks, and the ignored paths
unfoldable pub mask_ignored_files :
    MaskCalls → Bytes → ℤ → Bytes → Bytes → Bytes → Masks × List Bytes
mask_ignored_files c mode most root files dirs =
    if same_ℤ most (pos 0)
    then (record { targets = []; mounts = []; error = none }, [])
    else listed c mode root files dirs (within_limit most c.list_ignored)
