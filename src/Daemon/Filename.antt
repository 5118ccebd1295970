-- ===== src/Daemon/Filename.antt =====
-- `daemonSafeName`, `daemonSessionMetaPath` and `validDaemonMetaFilename`: the names of the metadata
-- files. A key is given by its runes; a file's name by its bytes, of which those that are not ASCII
-- are no part of a valid name, as runes or as bytes.
pub mod Safe
pub mod Listed
use persona.Base.{
  ℕ, zero, suc, Bool, true, false, ◌&&◌, ◌||◌, not, List, [], ◌∷◌, ◌++◌, Option, none, some, length,
  ltb, leb, ◌==◌, if◌then◌else◌,
}
use persona.Text.Compare.{Bytes, codes, equal, trim_space, trim_func}
use persona.Text.Hex.{is_hex, is_lower}

abbrev pub is_safe : ℕ → Bool
is_safe r =
    leb b'a' r && leb r b'z'
    || (leb b'A' r && leb r b'Z')
    || (leb b'0' r && leb r b'9')
    || r == b'_'
    || r == b'-'

abbrev pub safe_rune : ℕ → ℕ
safe_rune r = if is_safe r then r else b'-'

-- the loop, with room for some more bytes
unfoldable pub safe_runes : ℕ → List ℕ → Bytes
safe_runes zero s = []
safe_runes (suc room) [] = []
safe_runes (suc room) (r ∷ s) = safe_rune r ∷ safe_runes room s

abbrev pub is_edge : ℕ → Bool
is_edge c = c == b'-' || c == b'.'

abbrev pub or_session : Bytes → Bytes
or_session [] = codes "session"
or_session (c ∷ s) = c ∷ s

unfoldable pub daemon_safe_name : List ℕ → Bytes
daemon_safe_name raw = or_session (trim_func is_edge (safe_runes 48 (trim_space raw)))

-- The name of the metadata file; the digest is that of the key, in hexadecimal form.
abbrev pub meta_filename : List ℕ → Bytes → Bytes
meta_filename raw digest = (daemon_safe_name raw ++ (b'-' ∷ digest)) ++ codes ".json"

abbrev pub with_head : ℕ → Option Bytes → Option Bytes
with_head c none = none
with_head c (some s) = some (c ∷ s)

-- `strings.HasSuffix` and `strings.TrimSuffix`
unfoldable pub without_suffix : Bytes → Bytes → Option Bytes
without_suffix [] suffix = if equal [] suffix then some [] else none
without_suffix (c ∷ s) suffix =
    let rest = without_suffix s suffix in if equal (c ∷ s) suffix then some [] else with_head c rest

abbrev pub cut_here : ℕ → ℕ → Bytes → Option (Bytes × Bytes) → Option (Bytes × Bytes)
cut_here sep c s none = if c == sep then some ([], s) else none
cut_here sep c s (some (before, after)) = some (c ∷ before, after)

-- what stands before and behind the last separator, by `strings.LastIndexByte`
unfoldable pub last_cut : ℕ → Bytes → Option (Bytes × Bytes)
last_cut sep [] = none
last_cut sep (c ∷ s) = cut_here sep c s (last_cut sep s)

unfoldable pub valid_parts : Bytes → Bytes → Bool
valid_parts name digest =
    not (ltb (length name) 1)
    && not (ltb 48 (length name))
    && length digest == 16
    && equal (daemon_safe_name name) name
    && is_hex digest
    && is_lower digest

abbrev pub valid_cut : Option (Bytes × Bytes) → Bool
valid_cut none = false
valid_cut (some (name, digest)) = valid_parts name digest

abbrev pub valid_stem : Option Bytes → Bool
valid_stem none = false
valid_stem (some stem) = valid_cut (last_cut b'-' stem)

unfoldable pub valid_daemon_meta_filename : Bytes → Bool
valid_daemon_meta_filename name = valid_stem (without_suffix name (codes ".json"))
