-- ===== src/Patchio/Validate/Grammar.antt =====
-- The patches that are accepted, as a grammar of lines.
use persona.Base.{
  suc, ◌≤◌, ◌≡◌, refl, sym, ap, ◌↔◌, inl, inr, true, false, List, [], ◌∷◌, ok, err, arith, length,
  ◌==◌, if◌then◌else◌, Bool-cases, >>=-eq-ok, >>-eq-ok,
}
use persona.Text.Compare.{Bytes, codes, equal, equal_iff, has_prefix}
use persona.Patchio.Errors.{incomplete_hunk}
use persona.Patchio.Quoting.{trim_line}
use persona.Patchio.Hunk.{Hunk, no_hunk, parse_hunk_header}
use persona.Patchio.Walk.{Reader, lines, max_patch_bytes, walk_patch_lines}
use persona.Patchio.Walk.Lines.{fold_lines, walk_patch_lines_iff}
use persona.Patchio.Validate.{
  no_newline, hunk_line, check_header, is_open, validate_line, validate_patch,
}
use persona.Patchio.Validate.Names.{NamesSafe, check_header_iff}

-- Both counts are used up.
abbrev pub IsClosed : Hunk → Type 0
IsClosed h = (h.old ≡ 0) × (h.new ≡ 0)

-- One line, its end trimmed, takes the counts from `h` to `k`.
pub data LineStep (h : Hunk) (line : Bytes) (k : Hunk) : Type 0 where
  marker : is_open h ≡ true → line ≡ no_newline → k ≡ h → LineStep h line k
  context :
      (r : Bytes) → line ≡ b' ' ∷ r → h.old ≡ suc k.old → h.new ≡ suc k.new → LineStep h line k
  removed : (r : Bytes) → line ≡ b'-' ∷ r → h.old ≡ suc k.old → h.new ≡ k.new → LineStep h line k
  added : (r : Bytes) → line ≡ b'+' ∷ r → h.old ≡ k.old → h.new ≡ suc k.new → LineStep h line k
  opens :
      IsClosed h
      → has_prefix line (codes "@@ ") ≡ true
      → parse_hunk_header line ≡ ok k
      → LineStep h line k
  header :
      IsClosed h
      → has_prefix line (codes "@@ ") ≡ false
      → NamesSafe line
      → k ≡ h
      → LineStep h line k

-- The lines lead from the counts `h` to no open hunk.
pub data IsPatch : Hunk → List Bytes → Type 0 where
  done : {h : Hunk} → IsClosed h → IsPatch h []
  line :
      {h k : Hunk} {l : Bytes} {ls : List Bytes}
      → LineStep h (trim_line l) k
      → IsPatch k ls
      → IsPatch h (l ∷ ls)

not_open : (h : Hunk) → is_open h ≡ false → IsClosed h
not_open h e = ground arith

closed_not_open : (h : Hunk) → IsClosed h → is_open h ≡ false
closed_not_open h e = ground arith

hunk_line_sound :
    (h k : Hunk) (l : Bytes) → is_open h ≡ true → hunk_line h l ≡ ok k → LineStep h l k
unfolding hunk_line
hunk_line_sound h k [] o e = absurd (ground arith)
hunk_line_sound h k (c ∷ l) o e = elim (Bool-cases (equal (c ∷ l) no_newline)) [
  | inl m ↦ marker o ((equal_iff _ _).0 m) (ground arith)
  | inr nm ↦ elim (Bool-cases (c == b' ')) [
    | inl sp ↦ context l (ground arith) (ground arith) (ground arith)
    | inr nsp ↦ elim (Bool-cases (c == b'-')) [
      | inl mi ↦ removed l (ground arith) (ground arith) (ground arith)
      | inr nmi ↦ added l (ground arith) (ground arith) (ground arith)
    ]
  ]
]

hunk_line_complete :
    (h k : Hunk) (l : Bytes) → is_open h ≡ true → LineStep h l k → hunk_line h l ≡ ok k
unfolding hunk_line
hunk_line_complete h k [] o (marker _ m e) = absurd (ground arith)
hunk_line_complete h k [] o (context r l a b) = absurd (ground arith)
hunk_line_complete h k [] o (removed r l a b) = absurd (ground arith)
hunk_line_complete h k [] o (added r l a b) = absurd (ground arith)
hunk_line_complete h k [] o (opens c p e) = absurd (ground arith)
hunk_line_complete h k [] o (header c p n e) = absurd (ground arith)
hunk_line_complete h k (c ∷ s) o (marker _ m e) = ground (arith, equal_iff (c ∷ s) no_newline)
hunk_line_complete h k (c ∷ s) o (context r l a b) = ground (arith, equal_iff (c ∷ s) no_newline)
hunk_line_complete h k (c ∷ s) o (removed r l a b) = ground (arith, equal_iff (c ∷ s) no_newline)
hunk_line_complete h k (c ∷ s) o (added r l a b) = ground (arith, equal_iff (c ∷ s) no_newline)
hunk_line_complete h k (c ∷ s) o (opens x p e) = absurd (ground arith)
hunk_line_complete h k (c ∷ s) o (header x p n e) = absurd (ground arith)

validate_line_sound :
    (h k : Hunk) (raw : Bytes) → validate_line h raw ≡ ok k → LineStep h (trim_line raw) k
unfolding validate_line
validate_line_sound h k raw e = elim (Bool-cases (is_open h)) [
  | inl o ↦ hunk_line_sound h k (trim_line raw) o (rw o at e)
  | inr no_ ↦ elim (Bool-cases (has_prefix (trim_line raw) (codes "@@ "))) [
    | inl p ↦ opens (not_open h no_) p (rw (no_, p) at e)
    | inr np ↦
        let (names, same) = >>-eq-ok (check_header (trim_line raw)) (ok h) (rw (no_, np) at e) in
        header (not_open h no_) np ((check_header_iff (trim_line raw)).0 names) (ground arith)
  ]
]

in_hunk_complete :
    (h k : Hunk) (raw : Bytes)
    → is_open h ≡ true
    → LineStep h (trim_line raw) k
    → validate_line h raw ≡ ok k
unfolding validate_line
in_hunk_complete h k raw o st = rw o (hunk_line_complete h k (trim_line raw) o st)

validate_line_complete :
    (h k : Hunk) (raw : Bytes) → LineStep h (trim_line raw) k → validate_line h raw ≡ ok k
validate_line_complete h k raw (marker o m e) = in_hunk_complete h k raw o (marker o m e)
validate_line_complete h k raw (context r l a b) =
    in_hunk_complete h k raw (ground arith) (context r l a b)
validate_line_complete h k raw (removed r l a b) =
    in_hunk_complete h k raw (ground arith) (removed r l a b)
validate_line_complete h k raw (added r l a b) =
    in_hunk_complete h k raw (ground arith) (added r l a b)
validate_line_complete h k raw (opens c p e) = unfold validate_line in rw (closed_not_open h c, p) e
validate_line_complete h k raw (header c p n e) =
    unfold validate_line in
    rw (closed_not_open h c, p, (check_header_iff (trim_line raw)).1 n) (ap ok (sym e))

fold-IsPatch :
    (ls : List Bytes) (h k : Hunk)
    → fold_lines validate_line h ls ≡ ok k
    → is_open k ≡ false
    → IsPatch h ls
fold-IsPatch [] h k e c = done (not_open h (ground arith))
fold-IsPatch (l ∷ ls) h k e c =
    let (t, st, later) = >>=-eq-ok (validate_line h l) (λ t. fold_lines validate_line t ls) e in
    line (validate_line_sound h t l st) (fold-IsPatch ls t k later c)

IsPatch-fold :
    {h : Hunk} {ls : List Bytes}
    → IsPatch h ls
    → (k : Hunk) × (fold_lines validate_line h ls ≡ ok k) × (is_open k ≡ false)
IsPatch-fold {h} (done c) = (h, refl, closed_not_open h c)
IsPatch-fold {h} (line {k} {l} st p) =
    let (m, e, c) = IsPatch-fold p in (m, rw (validate_line_complete h k l st) e, c)

-- A patch is accepted exactly if it is at most 16 MiB long, the reader does not fail, and its lines
-- follow the grammar: header lines whose names are all safe, and hunks with as many lines of each
-- kind as their header declares.
pub validate_patch_iff :
    (r : Reader)
    → (validate_patch r ≡ ok tt) ↔ (
        (length r.content ≤ max_patch_bytes)
        × (r.fails ≡ false)
        × IsPatch no_hunk (lines r.content))
unfolding validate_patch
validate_patch_iff r = (only_if, if_)
  where
    only_if :
        validate_patch r ≡ ok tt
        → (length r.content ≤ max_patch_bytes)
          × (r.fails ≡ false)
          × IsPatch no_hunk (lines r.content)
    only_if e =
        let (k, walked, closed) =
          >>=-eq-ok (walk_patch_lines validate_line no_hunk r)
            (λ h. if is_open h then err incomplete_hunk else ok tt) e in
        let (small, sound, folded) = (walk_patch_lines_iff validate_line no_hunk k r).0 walked in
        (small, sound, fold-IsPatch (lines r.content) no_hunk k folded (ground arith))

    if_ :
        (length r.content ≤ max_patch_bytes) × (r.fails ≡ false) × IsPatch no_hunk (lines r.content)
        → validate_patch r ≡ ok tt
    if_ (small, sound, p) =
        let (k, folded, closed) = IsPatch-fold p in
        rw ((walk_patch_lines_iff validate_line no_hunk k r).1 (small, sound, folded), closed)
