-- ===== src/View/Export.antt =====
-- `exportPatchToWriter` with `patchLimitWriter`, `gitDiffToWriter`, `listIgnoredCandidatesChecked`
-- and `checkIgnoredCandidateLimit`: the patch of what a view has changed.
pub mod Bounded
pub mod Whole
pub mod Ignored
use persona.Base.{
  ℕ, zero, suc, ◌+◌, ◌≡◌, refl, Bool, true, false, not, ◌&&◌, ◌||◌, List, [], ◌∷◌, ◌++◌, Option,
  none, some, Result, ok, err, ◌>>◌, ◌>>=◌, length, take, ltb, leb, ◌==◌, ℤ, pos, negsuc,
  is_positive, same_ℤ, if◌then◌else◌,
}
use persona.Text.Compare.{Bytes, codes, equal}
use persona.Text.Sort.{sort}
use persona.Gitx.Program.{Exit, succeeded, exited, not_run}
use persona.Gitx.Clean.{has}
use persona.Patchio.Errors.{PatchError}
use persona.Patchio.Walk.{check_patch_size}
use persona.Patchio.Untracked.{filter_untracked_paths}

pub data ExportError : Type 0 where
  call_failed : Bytes → ExportError
  git_failed : Exit → ExportError
  too_large : PatchError → ExportError
  short_write : ExportError
  too_many_ignored : ℤ → ExportError
  ignored_changed : (newly no_longer : List Bytes) → ExportError

-- What the writer behind does with more bytes, by what it has: how many it takes, and its error.
abbrev pub Sink : Type 0
Sink = Bytes → Bytes → ℕ × Option Bytes

-- `patchLimitWriter`, with what the writer behind has got
pub record Limited : Type 0 where
  pub out : Bytes
  pub bytes : ℕ

abbrev pub written : Bytes → Limited → ℕ × Option Bytes → Limited × Option ExportError
written p w (n, some text) =
    (record { out = w.out ++ take n p; bytes = w.bytes + n }, some (call_failed text))
written p w (n, none) = (
  record { out = w.out ++ take n p; bytes = w.bytes + n },
  if n == length p then none else some short_write,
)

abbrev pub within :
    Sink → Bytes → Limited → Result PatchError (Unit {0}) → Limited × Option ExportError
within sink p w (err why) = (w, some (too_large why))
within sink p w (ok _) = written p w (sink w.out p)

-- `Write`
unfoldable pub limited_write : Sink → Bytes → Limited → Limited × Option ExportError
limited_write sink p w = within sink p w (check_patch_size (w.bytes + length p))

-- an action of the writer behind another one
abbrev pub and_then :
    Limited × Option ExportError
    → (Limited → Limited × Option ExportError)
    → Limited × Option ExportError
and_then (w, none) onward = onward w
and_then (w, some why) onward = (w, some why)

-- a run of git diff: the pieces of its output, and how it ends
pub record DiffRun : Type 0 where
  pub pieces : List Bytes
  pub exit : Exit

-- package exec copies the output up to the first error of the writer
unfoldable pub copy_pieces : Sink → List Bytes → Limited → Limited × Option ExportError
copy_pieces sink [] w = (w, none)
copy_pieces sink (p ∷ ps) w = and_then (limited_write sink p w) (λ v. copy_pieces sink ps v)

-- `cmd.Run` reports the error of copying only if the program exits with 0
abbrev pub run_error : Exit → Option ExportError → Option ExportError
run_error succeeded copied = copied
run_error (exited code) copied = if code == 1 then none else some (git_failed (exited code))
run_error not_run copied = some (git_failed not_run)

-- `gitDiffToWriter`
unfoldable pub git_diff_to_writer : Sink → DiffRun → Limited → Limited × Option ExportError
git_diff_to_writer sink r w =
    let copied = copy_pieces sink r.pieces w in (copied.0, run_error r.exit copied.1)

-- what comes of a call before the run: an error, or the run
abbrev pub diff_to : Sink → Result Bytes DiffRun → Limited → Limited × Option ExportError
diff_to sink (err text) w = (w, some (call_failed text))
diff_to sink (ok r) w = git_diff_to_writer sink r w

-- what `Lstat` says of an untracked path
pub data Entry : Type 0 where
  gone special ordinary : Entry
  unreadable : Bytes → Entry

-- a new file: its entry, and the diff of it; a file that goes away before the diff is passed over
pub data NewDiff : Type 0 where
  vanished : NewDiff
  broken : Bytes → NewDiff
  diffed : DiffRun → NewDiff

pub record ExportCalls : Type 0 where
  -- `SnapshotForExport`; the other calls are those of the snapshot
  pub snapshot : Option Bytes
  pub list_ignored : Result Bytes (List Bytes)
  -- `DiffHeadBinaryTo`, by the paths that it excludes
  pub diff_head : List Bytes → Result Bytes DiffRun
  pub list_untracked : Result Bytes (List Bytes)
  pub lstat : Bytes → Entry
  -- `DiffNewFileNoIndexTo`
  pub diff_new : Bytes → NewDiff
  pub sink : Sink

unfoldable pub check_ignored_limit : List Bytes → ℤ → Result ExportError (Unit {0})
check_ignored_limit ignored (pos n) =
    if ltb 0 n && ltb n (length ignored) then err (too_many_ignored (pos n)) else ok tt
check_ignored_limit ignored (negsuc n) = ok tt

abbrev pub within_limit : ℤ → Result Bytes (List Bytes) → Result ExportError (List Bytes)
within_limit most (err text) = err (call_failed text)
within_limit most (ok ignored) = check_ignored_limit ignored most >> ok ignored

-- the paths of a list that are not in another
unfoldable pub outside : List Bytes → List Bytes → List Bytes
outside set [] = []
outside set (path ∷ paths) =
    let rest = outside set paths in if has set path then rest else path ∷ rest

abbrev pub unless_any : List Bytes → List Bytes → Result ExportError (Unit {0})
unless_any [] [] = ok tt
unless_any newly no_longer = err (ignored_changed (sort newly) (sort no_longer))

abbrev pub same_ignored : List Bytes → List Bytes → Result ExportError (Unit {0})
same_ignored initial now = unless_any (outside initial now) (outside now initial)

unfoldable pub check_ignored : ExportCalls → ℤ → List Bytes → Result ExportError (Unit {0})
check_ignored c most initial =
    if same_ℤ most (pos 0)
    then ok tt
    else check_ignored_limit initial most
      >> (within_limit most c.list_ignored >>= λ now. same_ignored initial now)

-- `patchStateRelPaths` with the test of `patchStatePathsForRepo`
unfoldable pub patch_state_rel_paths : Bool → Bytes → List Bytes
patch_state_rel_paths false patch_rel = []
patch_state_rel_paths true [] = []
patch_state_rel_paths true (c ∷ s) = (c ∷ s) ∷ ((c ∷ s) ++ codes ".lock") ∷ []

abbrev pub new_file : Sink → NewDiff → Limited → Limited × Option ExportError
new_file sink vanished w = (w, none)
new_file sink (broken text) w = (w, some (call_failed text))
new_file sink (diffed r) w = git_diff_to_writer sink r w

abbrev pub new_entry : ExportCalls → Bytes → Entry → Limited → Limited × Option ExportError
new_entry c path gone w = (w, none)
new_entry c path special w = (w, none)
new_entry c path (unreadable text) w = (w, some (call_failed text))
new_entry c path ordinary w = new_file c.sink (c.diff_new path) w

unfoldable pub export_new : ExportCalls → List Bytes → Limited → Limited × Option ExportError
export_new c [] w = (w, none)
export_new c (path ∷ paths) w =
    and_then (new_entry c path (c.lstat path) w) (λ v. export_new c paths v)

abbrev pub excluded_prefixes : List Bytes
excluded_prefixes = codes ".git/" ∷ []

abbrev pub to_export : List Bytes → List Bytes → List Bytes
to_export paths exact = sort (filter_untracked_paths paths excluded_prefixes exact)

abbrev pub export_untracked :
    ExportCalls → List Bytes → Result Bytes (List Bytes) → Limited → Limited × Option ExportError
export_untracked c exact (err text) w = (w, some (call_failed text))
export_untracked c exact (ok paths) w = export_new c (to_export paths exact) w

abbrev pub start : Limited
start = record { out = []; bytes = 0 }

-- what is written, and the error; without one the result is `bytes`
unfoldable pub export_views : ExportCalls → List Bytes → Limited × Option ExportError
export_views c exact =
    and_then (diff_to c.sink (c.diff_head exact) start)
      (λ w. export_untracked c exact c.list_untracked w)

abbrev pub when_same :
    Result ExportError (Unit {0}) → Limited × Option ExportError → Limited × Option ExportError
when_same (err why) onward = (start, some why)
when_same (ok _) onward = onward

abbrev pub when_snapshot :
    Option Bytes → Limited × Option ExportError → Limited × Option ExportError
when_snapshot (some text) onward = (start, some (call_failed text))
when_snapshot none onward = onward

unfoldable pub export_patch :
    ExportCalls → Bool → Bytes → ℤ → List Bytes → Limited × Option ExportError
export_patch c patch_in_repo patch_rel most initial = when_snapshot c.snapshot (
    when_same (check_ignored c most initial)
      (export_views c (patch_state_rel_paths patch_in_repo patch_rel)))
