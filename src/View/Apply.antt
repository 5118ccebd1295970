-- ===== src/View/Apply.antt =====
-- `applyPatchStore` and `applyPatchData` with `retryFilteredExistingNewFiles`, `openPatchStoreRead` and
-- `IsAlreadyExistsError`: the stored patch is applied to the view.
pub mod Took
pub mod Done
use persona.Base.{
  ℕ, ◌+◌, Bool, true, false, not, ◌||◌, List, [], ◌∷◌, ◌++◌, Option, none, some, Result, ok, err,
  length, leb, if◌then◌else◌,
}
use persona.Text.Compare.{Bytes, codes, equal}
use persona.Text.Search.{contains}
use persona.Patchio.Errors.{PatchError}
use persona.Patchio.Walk.{Reader, max_patch_bytes, check_patch_size, limit_reader}
use persona.Patchio.Validate.{validate_patch}
use persona.Patchio.Block.{WorkTree, should_skip_new_file_block}
use persona.Patchio.Filter
use persona.Patchio.Filter.{filter_existing_new_files}

-- an error of git apply, and whether it has the tag `AlreadyExists`
pub record GitError : Type 0 where
  pub text : Bytes
  pub tagged : Bool

unfoldable pub is_already_exists_error : GitError → Bool
is_already_exists_error e =
    e.tagged
    || contains e.text (codes "already exists in working directory")
    || contains e.text (codes "existiert bereits")

pub data ApplyError : Type 0 where
  git_refused : GitError → ApplyError
  bad_patch : PatchError → ApplyError
  call_failed : Bytes → ApplyError

pub record ApplyCalls : Type 0 where
  -- `OpenRead`; there may be no file
  pub open_read : Result Bytes Bool
  pub stat : Result Bytes ℕ
  pub file : Reader
  pub context : Option Bytes
  -- git apply, the first time and behind the filter
  pub apply : Bytes → Option GitError
  pub apply_again : Bytes → Option GitError
  -- the work tree, as the filter sees it
  pub tree : WorkTree

-- the patches that git got, in their order, and the error
pub record Applied : Type 0 where
  pub given : List Bytes
  pub error : Option ApplyError

abbrev pub stop : ApplyError → Applied
stop why = record { given = []; error = some why }

abbrev pub nothing : Applied
nothing = record { given = []; error = none }

abbrev pub whole : Bytes → Reader
whole content = record { content = content; fails = false }

abbrev pub joined : List Bytes → Bytes
joined [] = []
joined (line ∷ lines) = line ++ joined lines

abbrev pub refusal : Option GitError → Option ApplyError
refusal none = none
refusal (some e) = some (git_refused e)

abbrev pub is_strict : Bytes → Bool
is_strict mode = equal mode (codes "strict")

-- `retryFilteredExistingNewFiles`, with what is left of the patch
unfoldable pub retry_filtered : ApplyCalls → Bytes → Bytes → GitError → List Bytes → Bytes → Applied
retry_filtered c mode content e [] filtered = record {
  given = content ∷ [];
  error = some (git_refused e);
}
retry_filtered c mode content e (path ∷ paths) filtered =
    if not (is_strict mode) || not (is_already_exists_error e)
    then record { given = content ∷ []; error = some (git_refused e) }
    else if equal filtered []
    then record { given = content ∷ []; error = none }
    else record { given = content ∷ filtered ∷ []; error = refusal (c.apply_again filtered) }

abbrev pub filtered_of : ApplyCalls → Bytes → Result PatchError Filter.State
filtered_of c content =
    filter_existing_new_files (λ out line. true) (should_skip_new_file_block c.tree) (whole content)

-- behind the refusal of git; `told` is the error if the filter fails
abbrev pub behind_filter :
    ApplyCalls
    → Bytes
    → Bytes
    → GitError
    → (PatchError → ApplyError)
    → Result PatchError Filter.State
    → Applied
behind_filter c mode content e told (err why) = record {
  given = content ∷ [];
  error = some (told why);
}
behind_filter c mode content e told (ok s) =
    retry_filtered c mode content e s.skipped (joined s.out)

abbrev pub behind_apply :
    ApplyCalls → Bytes → Bytes → (GitError → PatchError → ApplyError) → Option GitError → Applied
behind_apply c mode content told none = record { given = content ∷ []; error = none }
behind_apply c mode content told (some e) =
    behind_filter c mode content e (told e) (filtered_of c content)

abbrev pub when_valid : Result PatchError (Unit {0}) → Applied → Applied
when_valid (err why) onward = stop (bad_patch why)
when_valid (ok _) onward = onward

-- `applyPatchData`: if the filter fails, the error of git counts
unfoldable pub apply_patch_data : ApplyCalls → Bytes → Bytes → Applied
apply_patch_data c mode content =
    if equal content []
    then nothing
    else when_valid (validate_patch (whole content))
        (behind_apply c mode content (λ e why. git_refused e) (c.apply content))

abbrev pub when_current : Option Bytes → Applied → Applied
when_current (some text) onward = stop (call_failed text)
when_current none onward = onward

-- the snapshot that was read
unfoldable pub apply_snapshot : ApplyCalls → Bytes → Bytes → Applied
apply_snapshot c mode content =
    if equal content []
    then nothing
    else when_valid (validate_patch (whole content)) (
        when_current c.context
          (behind_apply c mode content (λ e why. bad_patch why) (c.apply content)))

-- `io.ReadAll` of a reader that is limited
abbrev pub read_snapshot : ApplyCalls → Bytes → Reader → Applied
read_snapshot c mode limited =
    if limited.fails
    then stop (call_failed (codes "read error"))
    else when_valid (check_patch_size (length limited.content))
        (apply_snapshot c mode limited.content)

abbrev pub stated : ApplyCalls → Bytes → Result Bytes ℕ → Applied
stated c mode (err text) = stop (call_failed text)
stated c mode (ok size) =
    if leb size max_patch_bytes
    then read_snapshot c mode (limit_reader (max_patch_bytes + 1) c.file)
    else stop (call_failed (codes "patch exceeds size limit"))

abbrev pub opened : ApplyCalls → Bytes → Result Bytes Bool → Applied
opened c mode (err text) = stop (call_failed text)
opened c mode (ok false) = nothing
opened c mode (ok true) = stated c mode c.stat

-- `applyPatchStore`
unfoldable pub apply_patch_store : ApplyCalls → Bytes → Applied
apply_patch_store c mode = opened c mode c.open_read
