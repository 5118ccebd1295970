-- ===== src/Gitx/Attributes.antt =====
-- `checkStorageAttributes`: no file that git would convert is exported, unless it is unchanged.
pub mod Harmless
use persona.Base.{
  ℕ, Bool, true, false, ◌||◌, List, [], ◌∷◌, Option, none, some, Result, ok, err, ◌>>◌,
  if◌then◌else◌,
}
use persona.Text.Compare.{Bytes, codes, equal}
use persona.Text.Split.{split}
use persona.Gitx.Program.{Failed}
use persona.Gitx.Clean.{has}

-- what `Lstat` says of a path; a path below a file is gone, too
pub data Kind : Type 0 where
  gone other : Kind
  unreadable : Bytes → Kind
  regular : (size : ℕ) → Kind

pub record AttributeCalls : Type 0 where
  -- the output of check-attr
  pub check_attr : Result Failed Bytes
  pub lstat : Bytes → Kind
  -- `rawBlobMatches`, of a path, its size and an object
  pub raw_blob_matches : Bytes → ℕ → Bytes → Result Bytes Bool
  -- the paths that git says have changed
  pub changed : Result Bytes (List Bytes)

pub data Refused : Type 0 where
  git_failed : Failed → Refused
  call_failed : Bytes → Refused
  unsupported : (path : Bytes) → (attr : Bytes) → (value : Bytes) → Refused

abbrev pub unless_changed : Refused → Bytes → Result Bytes (List Bytes) → Result Refused (Unit {0})
unless_changed why path (err text) = err (call_failed text)
unless_changed why path (ok names) = if has names path then err why else ok tt

abbrev pub unless_same :
    AttributeCalls → Refused → Bytes → Result Bytes Bool → Result Refused (Unit {0})
unless_same c why path (err text) = err (call_failed text)
unless_same c why path (ok false) = err why
unless_same c why path (ok true) = unless_changed why path c.changed

-- a regular file; `index` has the objects of the base, none without an export
abbrev pub check_regular :
    AttributeCalls → Option (Bytes → Bytes) → Refused → Bytes → ℕ → Result Refused (Unit {0})
check_regular c none why path size = err why
check_regular c (some base) why path size =
    if equal (base path) []
    then err why
    else unless_same c why path (c.raw_blob_matches path size (base path))

abbrev pub check_kind :
    AttributeCalls → Option (Bytes → Bytes) → Refused → Bytes → Kind → Result Refused (Unit {0})
check_kind c index why path gone = ok tt
check_kind c index why path other = ok tt
check_kind c index why path (unreadable text) = err (call_failed text)
check_kind c index why path (regular size) = check_regular c index why path size

abbrev pub is_unset : Bytes → Bool
is_unset value = equal value (codes "unspecified") || equal value (codes "unset")

-- The loop over the fields, three at a time, with the paths that were looked at.
unfoldable pub check_fields :
    AttributeCalls → Option (Bytes → Bytes) → List Bytes → List Bytes → Result Refused (Unit {0})
check_fields c index checked [] = ok tt
check_fields c index checked (path ∷ []) = ok tt
check_fields c index checked (path ∷ attr ∷ []) = ok tt
check_fields c index checked (path ∷ attr ∷ value ∷ fields) =
    let skipped = check_fields c index checked fields in
    let onward = check_fields c index (path ∷ checked) fields in
    if is_unset value || has checked path
    then skipped
    else check_kind c index (unsupported path attr value) path (c.lstat path) >> onward

-- `strings.TrimSuffix` of one zero byte
unfoldable pub without_zero : Bytes → Bytes
without_zero [] = []
without_zero (ch ∷ s) =
    let rest = without_zero s in if equal (ch ∷ s) (0 ∷ []) then [] else ch ∷ rest

abbrev pub check_output :
    AttributeCalls → Option (Bytes → Bytes) → Result Failed Bytes → Result Refused (Unit {0})
check_output c index (err why) = err (git_failed why)
check_output c index (ok text) = check_fields c index [] (split 0 (without_zero text))

unfoldable pub check_storage_attributes :
    AttributeCalls → Option (Bytes → Bytes) → List Bytes → Result Refused (Unit {0})
check_storage_attributes c index [] = ok tt
check_storage_attributes c index (path ∷ paths) = check_output c index c.check_attr
