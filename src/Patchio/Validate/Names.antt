-- ===== src/Patchio/Validate/Names.antt =====
-- The names of a header line, and when they are all safe.
use persona.Base.{
  ◌≡◌, refl, ◌↔◌, inl, inr, true, false, List, [], ◌∷◌, ok, ◌>>=◌, ◌>>◌, arith, drop, length,
  Bool-cases, All, >>=-eq-ok, >>-eq-ok,
}
use persona.Text.Compare.{Bytes, codes, equal, equal_iff, has_prefix, has_prefix_exclusive}
use persona.Patchio.Paths.{check_path, sanitize_patch_path}
use persona.Patchio.Paths.Safe.{IsSafe, check_path_iff}
use persona.Patchio.Quoting.{trim_line, parse_maybe_quoted_path, parse_patch_header_path}
use persona.Patchio.DiffHeader.{PathPair, diff_git, diff_header_paths}
use persona.Patchio.Validate.{
  check_pairs, check_diff_header, check_file_header, check_rename, rename_prefixes, check_header,
}

abbrev pub PairIsSafe : PathPair → Type 0
PairIsSafe p = IsSafe (sanitize_patch_path p.0) × IsSafe (sanitize_patch_path p.1)

-- the name behind `rename from ` and the like
abbrev pub renamed : Bytes → Bytes → Bytes
renamed prefix line = parse_maybe_quoted_path (trim_line (drop (length prefix) line))

-- Every name that the line gives is safe.
pub record NamesSafe (line : Bytes) : Type 0 where
  pub diff :
      has_prefix line diff_git ≡ true
      → (pairs : List PathPair) × (diff_header_paths line ≡ ok pairs) × All PairIsSafe pairs
  pub added_file :
      has_prefix line (codes "+++ ") ≡ true → IsSafe (parse_patch_header_path (drop 4 line))
  pub removed_file :
      has_prefix line (codes "--- ") ≡ true → IsSafe (parse_patch_header_path (drop 4 line))
  pub rename : All (λ p. has_prefix line p ≡ true → IsSafe (renamed p line)) rename_prefixes

check_pairs_iff : (pairs : List PathPair) → (check_pairs pairs ≡ ok tt) ↔ All PairIsSafe pairs
unfolding check_pairs
check_pairs_iff [] = (λ _. tt, λ _. refl)
check_pairs_iff ((l, r) ∷ pairs) = let ih = check_pairs_iff pairs in (only_if ih, if_ ih)
  where
    Ih : Type 0
    Ih = (check_pairs pairs ≡ ok tt) ↔ All PairIsSafe pairs

    only_if : Ih → check_pairs ((l, r) ∷ pairs) ≡ ok tt → All PairIsSafe ((l, r) ∷ pairs)
    only_if ih h =
        let (hl, h') =
          >>-eq-ok (check_path (sanitize_patch_path l))
            (check_path (sanitize_patch_path r) >> check_pairs pairs) h in
        let (hr, h'') = >>-eq-ok (check_path (sanitize_patch_path r)) (check_pairs pairs) h' in
        (((check_path_iff _).0 hl, (check_path_iff _).0 hr), ih.0 h'')

    if_ : Ih → All PairIsSafe ((l, r) ∷ pairs) → check_pairs ((l, r) ∷ pairs) ≡ ok tt
    if_ ih ((sl, sr), rest) = rw ((check_path_iff _).1 sl, (check_path_iff _).1 sr) (ih.1 rest)

check_file_header_iff :
    (line : Bytes)
    → (check_file_header line ≡ ok tt) ↔ IsSafe (parse_patch_header_path (drop 4 line))
unfolding check_file_header
check_file_header_iff line = elim (Bool-cases (equal (parse_patch_header_path (drop 4 line)) [])) [
  | inl e ↦ (λ _. inl ((equal_iff _ []).0 e), λ _. rw e)
  | inr ne ↦ rw ne (check_path_iff (parse_patch_header_path (drop 4 line)))
]

check_diff_header_iff :
    (line : Bytes)
    → (check_diff_header line ≡ ok tt)
      ↔ ((pairs : List PathPair) × (diff_header_paths line ≡ ok pairs) × All PairIsSafe pairs)
unfolding check_diff_header
check_diff_header_iff line = (only_if, if_)
  where
    only_if :
        (diff_header_paths line >>= check_pairs) ≡ ok tt
        → (pairs : List PathPair) × (diff_header_paths line ≡ ok pairs) × All PairIsSafe pairs
    only_if h =
        let (pairs, e, safe) = >>=-eq-ok (diff_header_paths line) check_pairs h in
        (pairs, e, (check_pairs_iff pairs).0 safe)

    if_ :
        ((pairs : List PathPair) × (diff_header_paths line ≡ ok pairs) × All PairIsSafe pairs)
        → (diff_header_paths line >>= check_pairs) ≡ ok tt
    if_ (pairs, e, safe) = rw e ((check_pairs_iff pairs).1 safe)

-- No prefix of the list begins with another one.
abbrev Exclusive : Bytes → List Bytes → Type 0
Exclusive p = All (λ q. (has_prefix p q ≡ false) × (has_prefix q p ≡ false))

abbrev AllExclusive : List Bytes → Type 0
AllExclusive [] = Unit
AllExclusive (p ∷ ps) = Exclusive p ps × AllExclusive ps

abbrev RenameSafe : Bytes → Bytes → Type 0
RenameSafe line p = has_prefix line p ≡ true → IsSafe (renamed p line)

not_both :
    (line p q : Bytes)
    → (has_prefix p q ≡ false) × (has_prefix q p ≡ false)
    → has_prefix line p ≡ true
    → has_prefix line q ≡ true
    → ⊥
not_both line p q (pq, qp) hp hq = cc (has_prefix_exclusive line p q pq qp hp)

none_of :
    (line p : Bytes) (ps : List Bytes)
    → has_prefix line p ≡ true
    → Exclusive p ps
    → All (RenameSafe line) ps
none_of line p [] h x = tt
none_of line p (q ∷ ps) h (pq, x) =
    (λ hq. absurd (not_both line p q pq h hq), none_of line p ps h x)

check_rename_iff :
    (ps : List Bytes) (line : Bytes)
    → AllExclusive ps
    → (check_rename ps line ≡ ok tt) ↔ All (RenameSafe line) ps
unfolding check_rename
check_rename_iff [] line x = (λ _. tt, λ _. refl)
check_rename_iff (p ∷ ps) line (px, x) = elim (Bool-cases (has_prefix line p)) [
  | inl fits ↦ rw fits (
    λ h. (λ _. (check_path_iff (renamed p line)).0 h, none_of line p ps fits px),
    λ (here, _). (check_path_iff (renamed p line)).1 (here refl),
  )
  | inr misses ↦
      let ih = check_rename_iff ps line x in
      rw misses (λ h. (λ e. cc, ih.0 h), λ (_, later). ih.1 later)
]

abbrev header_prefixes : List Bytes
header_prefixes = diff_git ∷ codes "+++ " ∷ codes "--- " ∷ rename_prefixes

header_prefixes-exclusive : AllExclusive header_prefixes
unfolding has_prefix
header_prefixes-exclusive = ground arith

check_header_sound : (line : Bytes) → check_header line ≡ ok tt → NamesSafe line
unfolding check_header
check_header_sound line h =
    let ((dp, (dm, dr)), ((pm, pr), (mr, rr))) = header_prefixes-exclusive in
    elim (Bool-cases (has_prefix line diff_git)) [
      | inl d ↦ record {
        diff = λ _. (check_diff_header_iff line).0 (rw d at h);
        added_file = λ e. absurd (not_both line diff_git (codes "+++ ") dp d e);
        removed_file = λ e. absurd (not_both line diff_git (codes "--- ") dm d e);
        rename = none_of line diff_git rename_prefixes d dr;
      }
      | inr nd ↦ elim (Bool-cases (has_prefix line (codes "+++ "))) [
        | inl p ↦ record {
          diff = λ e. cc;
          added_file = λ _. (check_file_header_iff line).0 (rw (nd, p) at h);
          removed_file = λ e. absurd (not_both line (codes "+++ ") (codes "--- ") pm p e);
          rename = none_of line (codes "+++ ") rename_prefixes p pr;
        }
        | inr np ↦ elim (Bool-cases (has_prefix line (codes "--- "))) [
          | inl m ↦ record {
            diff = λ e. cc;
            added_file = λ e. cc;
            removed_file = λ _. (check_file_header_iff line).0 (rw (nd, np, m) at h);
            rename = none_of line (codes "--- ") rename_prefixes m mr;
          }
          | inr nm ↦ record {
            diff = λ e. cc;
            added_file = λ e. cc;
            removed_file = λ e. cc;
            rename = (check_rename_iff rename_prefixes line rr).0 (rw (nd, np, nm) at h);
          }
        ]
      ]
    ]

check_header_complete : (line : Bytes) → NamesSafe line → check_header line ≡ ok tt
unfolding check_header
check_header_complete line v = elim (Bool-cases (has_prefix line diff_git)) [
  | inl d ↦ rw d ((check_diff_header_iff line).1 (v.diff d))
  | inr nd ↦ elim (Bool-cases (has_prefix line (codes "+++ "))) [
    | inl p ↦ rw (nd, p) ((check_file_header_iff line).1 (v.added_file p))
    | inr np ↦ elim (Bool-cases (has_prefix line (codes "--- "))) [
      | inl m ↦ rw (nd, np, m) ((check_file_header_iff line).1 (v.removed_file m))
      | inr nm ↦
          let (_, (_, (_, rr))) = header_prefixes-exclusive in
          rw (nd, np, nm) ((check_rename_iff rename_prefixes line rr).1 v.rename)
    ]
  ]
]

-- A header line is accepted exactly if every name in it is safe.
pub check_header_iff : (line : Bytes) → (check_header line ≡ ok tt) ↔ NamesSafe line
check_header_iff line = (check_header_sound line, check_header_complete line)
