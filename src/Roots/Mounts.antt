-- ===== src/Roots/Mounts.antt =====
-- `HasMounts`: whether a path is a mount point or has one below, by the lines of
-- /proc/self/mountinfo.
pub mod Found
use persona.Base.{
  ℕ, zero, suc, Bool, true, false, ◌||◌, List, [], ◌∷◌, ◌++◌, Option, none, some, Result, ok, err,
  length, ltb, ◌==◌, if◌then◌else◌,
}
use persona.Text.Compare.{Bytes, codes, equal, has_prefix}
use persona.Daemon.Status.{fields, field}

-- the byte for which an escape stands at the start of a text
unfoldable pub escaped_at : Bytes → Option ℕ
escaped_at s =
    if has_prefix s (codes "\\040")
    then some b' '
    else if has_prefix s (codes "\\011")
    then some b'\t'
    else if has_prefix s (codes "\\012")
    then some b'\n'
    else if has_prefix s (codes "\\134")
    then some b'\\'
    else none

-- one step of the replacer, with how many bytes of an escape are left to pass
unfoldable pub replaced : ℕ → Option ℕ → ℕ → (ℕ → Bytes) → Bytes
replaced (suc k) o c onward = onward k
replaced zero (some b) c onward = b ∷ onward 3
replaced zero none c onward = c ∷ onward 0

-- `decode.Replace`
unfoldable pub decode_from : ℕ → Bytes → Bytes
decode_from k [] = []
decode_from k (c ∷ s) = replaced k (escaped_at (c ∷ s)) c (λ j. decode_from j s)

abbrev pub decode : Bytes → Bytes
decode s = decode_from 0 s

unfoldable pub is_at_or_below : Bytes → Bytes → Bool
is_at_or_below root path = equal path root || has_prefix path (root ++ b'/' ∷ [])

unfoldable pub is_mount_line : Bytes → List Bytes → Bool
is_mount_line root words =
    if ltb (length words) 5 then false else is_at_or_below root (decode (field 4 words))

unfoldable pub any_mount : Bytes → List Bytes → Bool
any_mount root [] = false
any_mount root (line ∷ lines) = is_mount_line root (fields line) || any_mount root lines

abbrev pub or_error : Bool → Option Bytes → Result Bytes Bool
or_error true scan_error = ok true
or_error false none = ok false
or_error false (some why) = err why

-- the lines that the scanner gives, and its error; or the error of opening the file
unfoldable pub has_mounts : Bytes → Result Bytes (List Bytes × Option Bytes) → Result Bytes Bool
has_mounts root (err why) = err why
has_mounts root (ok (lines, scan_error)) = or_error (any_mount root lines) scan_error
