-- ===== src/Patchio/Paths/Safe.antt =====
-- What `check_path` accepts, said by the parts between the slashes.
use persona.Base.{
  ℕ, ◌≡◌, refl, ap, sym, ◌≢◌, ◌↔◌, ◌⊎◌, inl, inr, false, List, [], ◌∷◌, ◌++◌, map, ok, arith, ◌==◌,
  Bool-cases, All, append_assoc, append-nil, >>=-eq-ok,
}
use persona.Text.Compare.{Bytes, codes, equal, equal_iff, has_prefix, lower}
use persona.Text.Split.{split, push_head}
use persona.Patchio.Paths.{check_part, check_parts, check_path}

-- A name that is no dot directory and no spelling of the repository's own directory.
pub record IsPlain (part : Bytes) : Type 0 where
  pub ne_current : part ≢ codes "."
  pub ne_parent : part ≢ codes ".."
  pub ne_git : map lower part ≢ codes ".git"

-- Relative, with plain parts only.
pub record IsInside (path : Bytes) : Type 0 where
  pub relative : has_prefix path (codes "/") ≡ false
  pub plain : All IsPlain (split b'/' path)

-- The paths that a patch may name: none, `/dev/null`, or one inside the tree.
abbrev pub IsSafe : Bytes → Type 0
IsSafe path = (path ≡ []) ⊎ (path ≡ codes "/dev/null") ⊎ IsInside path

check_part_sound : (part : Bytes) → check_part part ≡ ok tt → IsPlain part
unfolding check_part
check_part_sound part h = record {
  ne_current = ground (arith, equal_iff part (codes "."));
  ne_parent = ground (arith, equal_iff part (codes ".."));
  ne_git = ground (arith, equal_iff (map lower part) (codes ".git"));
}

check_part_complete : (part : Bytes) → IsPlain part → check_part part ≡ ok tt
unfolding check_part
check_part_complete part p = ground (
  arith,
  equal_iff part (codes "."),
  equal_iff part (codes ".."),
  equal_iff (map lower part) (codes ".git"),
)

-- the parts of `part ++ path`, where `part` has no slash
abbrev parts_behind : Bytes → List Bytes → List Bytes
parts_behind part [] = part ∷ []
parts_behind part (p ∷ ps) = (part ++ p) ∷ ps

parts_behind-push_head :
    (part : Bytes) (c : ℕ) (ps : List Bytes)
    → parts_behind (part ++ c ∷ []) ps ≡ parts_behind part (push_head c ps)
parts_behind-push_head part c [] = refl
parts_behind-push_head part c (p ∷ ps) = ap (λ q. q ∷ ps) (append_assoc part (c ∷ []) p)

parts_behind_nil-push_head :
    (c : ℕ) (ps : List Bytes) → parts_behind [] (push_head c ps) ≡ push_head c ps
parts_behind_nil-push_head c [] = refl
parts_behind_nil-push_head c (p ∷ ps) = refl

parts_behind-split : (s : Bytes) → parts_behind [] (split b'/' s) ≡ split b'/' s
unfolding split
parts_behind-split [] = refl
parts_behind-split (c ∷ s) = elim (Bool-cases (c == b'/')) [
  | inl slash ↦ rw slash (refl)
  | inr other ↦ rw other (parts_behind_nil-push_head c (split b'/' s))
]

check_parts_sound :
    (path part : Bytes)
    → check_parts part path ≡ ok tt
    → All IsPlain (parts_behind part (split b'/' path))
unfolding check_parts split
check_parts_sound [] part h = (rw (append-nil part) (check_part_sound part h), tt)
check_parts_sound (c ∷ path) part h = elim (Bool-cases (c == b'/')) [
  | inl slash ↦
      let (_, here, later) =
        >>=-eq-ok (check_part part) (λ _. check_parts [] path) (rw slash at h) in
      rw slash (
        rw (append-nil part) (check_part_sound part here),
        rw (← parts_behind-split path) (check_parts_sound path [] later),
      )
  | inr other ↦
      rw (other, sym (parts_behind-push_head part c (split b'/' path)))
        (check_parts_sound path (part ++ c ∷ []) (rw other at h))
]

check_parts_complete :
    (path part : Bytes)
    → All IsPlain (parts_behind part (split b'/' path))
    → check_parts part path ≡ ok tt
unfolding check_parts split
check_parts_complete [] part h = check_part_complete part (rw (append-nil part) at h.0)
check_parts_complete (c ∷ path) part h = elim (Bool-cases (c == b'/')) [
  | inl slash ↦
      let (here, later) = rw slash at h in
      rw (slash, check_part_complete part (rw (append-nil part) at here))
        (check_parts_complete path [] (rw (parts_behind-split path) later))
  | inr other ↦ rw other (
      check_parts_complete path (part ++ c ∷ [])
        (rw (parts_behind-push_head part c (split b'/' path)) (rw other at h)))
]

-- A path is refused exactly if it is neither empty, nor `/dev/null`, nor inside the tree: so it is
-- accepted exactly if no part between its slashes is `.`, `..` or `.git` in any case, and it does
-- not begin with a slash.
pub check_path_iff : (path : Bytes) → (check_path path ≡ ok tt) ↔ IsSafe path
unfolding check_path
check_path_iff path = (sound, complete)
  where
    sound : check_path path ≡ ok tt → IsSafe path
    sound h = elim (Bool-cases (equal path [])) [
      | inl e ↦ inl ((equal_iff path []).0 e)
      | inr ne ↦ elim (Bool-cases (equal path (codes "/dev/null"))) [
        | inl e ↦ inr (inl ((equal_iff path (codes "/dev/null")).0 e))
        | inr nd ↦ elim (Bool-cases (has_prefix path (codes "/"))) [
          | inl abs ↦ absurd (ground arith)
          | inr rel ↦ inr (
              inr (record {
                relative = rel;
                plain = rw (← parts_behind-split path) (check_parts_sound path [] (ground arith));
              }))
        ]
      ]
    ]

    complete : IsSafe path → check_path path ≡ ok tt
    complete (inl e) = ground (arith, equal_iff path [])
    complete (inr (inl e)) = ground (arith, equal_iff path (codes "/dev/null"))
    complete (inr (inr v)) =
        ground
          (arith, check_parts_complete path [] (rw (parts_behind-split path) v.plain), v.relative)
