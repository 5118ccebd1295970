-- ===== src/Daemon/Filename/Listed.antt =====
-- Every metadata file that the daemon names is one that it lists.
use persona.Base.{
  ℕ, ◌≤◌, ◌≡◌, refl, ap, true, false, List, [], ◌∷◌, ◌++◌, All, none, some, length, length-append,
  ltb, ==_refl, Bool-cases, inl, inr, arith,
}
use persona.Text.Compare.{
  Bytes, codes, equal, equal_iff, equal_refl, trim_space, trim_func, trim_left_func, trim_right,
  keep_last, is_space, contains_byte,
}
use persona.Text.Hex.{is_hex, is_lower, all_hex}
use persona.Text.Trim.{trim_func_idem}
use persona.Daemon.Filename
use persona.Daemon.Filename.Safe.{
  IsSafe, safe_runes-IsSafe, length-safe_runes, safe_runes_same, trim_right-IsSafe,
  trim_left_func-IsSafe, length-trim_right, length-trim_left_func, trim_func_same,
}

safe-not_space : (c : ℕ) → Filename.safe_rune c ≡ c → is_space c ≡ false
unfolding is_space
safe-not_space c e = ground (arith, e)

IsSafe-not_space : (s : Bytes) → IsSafe s → All (λ c. is_space c ≡ false) s
IsSafe-not_space [] h = tt
IsSafe-not_space (c ∷ s) (e, h) = (safe-not_space c e, IsSafe-not_space s h)

-- a name that is its own safe name
record IsOwnName (n : Bytes) : Type 0 where
  pub same : Filename.daemon_safe_name n ≡ n
  pub filled : 1 ≤ length n
  pub short : length n ≤ 48

session-IsOwnName : IsOwnName (codes "session")
unfolding Filename.daemon_safe_name Filename.safe_runes trim_space trim_func trim_left_func is_space
    trim_right keep_last
session-IsOwnName = record { same = refl; filled = omega arith; short = omega arith }

own_name :
    (n : Bytes)
    → IsSafe n
    → length n ≤ 48
    → trim_func Filename.is_edge n ≡ n
    → Filename.or_session n ≡ n
    → Filename.daemon_safe_name n ≡ n
unfolding Filename.daemon_safe_name trim_space
own_name n h l t o =
    rw (trim_func_same is_space n (IsSafe-not_space n h), safe_runes_same 48 n h l, t) o

named :
    (n : Bytes)
    → IsSafe n
    → length n ≤ 48
    → trim_func Filename.is_edge n ≡ n
    → IsOwnName (Filename.or_session n)
named [] h l t = session-IsOwnName
named (c ∷ n) h l t = record { same = own_name (c ∷ n) h l t refl; filled = omega arith; short = l }

daemon_safe_name-IsOwnName : (raw : List ℕ) → IsOwnName (Filename.daemon_safe_name raw)
unfolding Filename.daemon_safe_name trim_func
daemon_safe_name-IsOwnName raw =
    let s = Filename.safe_runes 48 (trim_space raw) in
    let t = trim_left_func Filename.is_edge s in
    named (trim_func Filename.is_edge s)
      (trim_right-IsSafe Filename.is_edge t
        (trim_left_func-IsSafe Filename.is_edge s (safe_runes-IsSafe 48 (trim_space raw))))
      (omega (
        arith,
        length-trim_right Filename.is_edge t,
        length-trim_left_func Filename.is_edge s,
        length-safe_runes 48 (trim_space raw),
      ))
      (trim_func_idem Filename.is_edge s)

not_suffix : (c : ℕ) (s suffix : Bytes) → equal (c ∷ (s ++ suffix)) suffix ≡ false
not_suffix c s suffix = elim (Bool-cases (equal (c ∷ (s ++ suffix)) suffix)) [
  | inr other ↦ other
  | inl same ↦ absurd (
      omega
        (arith, ap length ((equal_iff (c ∷ (s ++ suffix)) suffix).0 same), length-append s suffix))
]

without_suffix-all : (suffix : Bytes) → Filename.without_suffix suffix suffix ≡ some []
unfolding Filename.without_suffix equal
without_suffix-all [] = refl
without_suffix-all (c ∷ s) = rw (==_refl c, equal_refl s) refl

without_suffix-append : (s suffix : Bytes) → Filename.without_suffix (s ++ suffix) suffix ≡ some s
unfolding Filename.without_suffix
without_suffix-append [] suffix = without_suffix-all suffix
without_suffix-append (c ∷ s) suffix =
    rw (not_suffix c s suffix, without_suffix-append s suffix) refl

last_cut-none : (sep : ℕ) (s : Bytes) → contains_byte s sep ≡ false → Filename.last_cut sep s ≡ none
unfolding Filename.last_cut contains_byte
last_cut-none sep [] h = refl
last_cut-none sep (c ∷ s) h = rw (last_cut-none sep s (ground (arith, h))) (ground (arith, h))

last_cut-append :
    (sep : ℕ) (n d : Bytes)
    → contains_byte d sep ≡ false
    → Filename.last_cut sep (n ++ (sep ∷ d)) ≡ some (n, d)
unfolding Filename.last_cut
last_cut-append sep [] d h = rw (last_cut-none sep d h) (ground arith)
last_cut-append sep (c ∷ n) d h = rw (last_cut-append sep n d h) refl

hex-no_dash : (d : Bytes) → all_hex d ≡ true → contains_byte d b'-' ≡ false
unfolding all_hex contains_byte
hex-no_dash [] h = refl
hex-no_dash (c ∷ d) h = ground (arith, hex-no_dash d)

digest-no_dash : (d : Bytes) → is_hex d ≡ true → contains_byte d b'-' ≡ false
unfolding is_hex
digest-no_dash d h = hex-no_dash d (ground (arith, h))

valid_parts_lem :
    (n d : Bytes)
    → IsOwnName n
    → is_hex d ≡ true
    → is_lower d ≡ true
    → length d ≡ 16
    → Filename.valid_parts n d ≡ true
unfolding Filename.valid_parts
valid_parts_lem n d own hex low l =
    rw (own.same, equal_refl n, hex, low, l, long (length n) own.filled, short (length n) own.short)
      refl
  where
    long : (k : ℕ) → 1 ≤ k → ltb k 1 ≡ false
    long k h = ground arith

    short : (k : ℕ) → k ≤ 48 → ltb 48 k ≡ false
    short k h = ground arith

-- The name that `daemonSessionMetaPath` gives the metadata file of a key, whatever the key is, passes
-- `validDaemonMetaFilename`, by which the daemon finds its sessions again; the digest has 16
-- hexadecimal digits in lower case.
pub valid_daemon_meta_filename-meta_filename :
    (raw : List ℕ) (digest : Bytes)
    → is_hex digest ≡ true
    → is_lower digest ≡ true
    → length digest ≡ 16
    → Filename.valid_daemon_meta_filename (Filename.meta_filename raw digest) ≡ true
unfolding Filename.valid_daemon_meta_filename
valid_daemon_meta_filename-meta_filename raw digest hex low l =
    let n = Filename.daemon_safe_name raw in
    rw
      (
        without_suffix-append (n ++ (b'-' ∷ digest)) (codes ".json"),
        last_cut-append b'-' n digest (digest-no_dash digest hex),
      )
      (valid_parts_lem n digest (daemon_safe_name-IsOwnName raw) hex low l)
