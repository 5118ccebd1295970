-- ===== src/Patchio/Untracked.antt =====
-- `FilterUntrackedPaths`.
use persona.Base.{
  ◌≡◌, ◌≢◌, refl, sym, ◌↔◌, ◌⊎◌, inl, inr, Bool, true, false, ◌&&◌, ◌||◌, not, List, [], ◌∷◌, arith,
  if◌then◌else◌, Bool-cases, Has, subst, ||_iff,
}
use persona.Text.Compare.{Bytes, equal, equal_iff, has_prefix}
use persona.Patchio.Quoting.{drop_last}

-- `_, ok := exact[path]`, where the empty items were left out of the set
is_exact : List Bytes → Bytes → Bool
is_exact [] path = false
is_exact (item ∷ items) path = not (equal item []) && equal item path || is_exact items path

-- the inner loop; `drop_last` is `TrimSuffix(prefix, "/")`
is_below : List Bytes → Bytes → Bool
is_below [] path = false
is_below (prefix ∷ prefixes) path =
    not (equal prefix []) && (has_prefix path prefix || equal path (drop_last b'/' prefix))
    || is_below prefixes path

unfoldable pub filter_untracked_paths : List Bytes → List Bytes → List Bytes → List Bytes
unfolding is_exact is_below
filter_untracked_paths [] prefixes exact = []
filter_untracked_paths (path ∷ paths) prefixes exact =
    let rest = filter_untracked_paths paths prefixes exact in
    if is_exact exact path || is_below prefixes path then rest else path ∷ rest

-- The path is excluded by name, or by a prefix, or is the directory that a prefix names.
pub data IsExcluded (prefixes exact : List Bytes) (path : Bytes) : Type 0 where
  by_name : path ≢ [] → Has path exact → IsExcluded prefixes exact path
  by_prefix :
      (p : Bytes)
      → p ≢ []
      → Has p prefixes
      → (has_prefix path p ≡ true) ⊎ (path ≡ drop_last b'/' p)
      → IsExcluded prefixes exact path

is_exact_sound :
    (exact : List Bytes) (path : Bytes) → is_exact exact path ≡ true → (path ≢ []) × Has path exact
unfolding is_exact
is_exact_sound [] path e = cc
is_exact_sound (item ∷ items) path e = elim (Bool-cases (not (equal item []) && equal item path)) [
  | inl here ↦ (
    ground (arith, equal_iff path [], equal_iff item path, equal_iff item []),
    inl (ground (arith, equal_iff item path)),
  )
  | inr later ↦ let (ne, h) = is_exact_sound items path (ground arith) in (ne, inr h)
]

is_exact_complete :
    (exact : List Bytes) (path : Bytes) → path ≢ [] → Has path exact → is_exact exact path ≡ true
unfolding is_exact
is_exact_complete [] path ne h = absurd h
is_exact_complete (item ∷ items) path ne (inl e) =
    ground (arith, equal_iff item [], equal_iff item path)
is_exact_complete (item ∷ items) path ne (inr h) = ground (arith, is_exact_complete items path ne h)

is_below_sound :
    (prefixes : List Bytes) (path : Bytes)
    → is_below prefixes path ≡ true
    → (p : Bytes) × (p ≢ [])
      × Has p prefixes
      × ((has_prefix path p ≡ true) ⊎ (path ≡ drop_last b'/' p))
unfolding is_below
is_below_sound [] path e = absurd (cc e)
is_below_sound (q ∷ qs) path e = elim (Bool-cases (equal q [])) [
  | inl empty ↦ let (p, ne, h, c) = is_below_sound qs path (ground arith) in (p, ne, inr h, c)
  | inr full ↦ elim (Bool-cases (has_prefix path q)) [
    | inl begins ↦ (q, ground (arith, equal_iff q []), inl refl, inl begins)
    | inr other ↦ elim (Bool-cases (equal path (drop_last b'/' q))) [
      | inl names ↦ (q, ground (arith, equal_iff q []), inl refl, inr ((equal_iff _ _).0 names))
      | inr differs ↦ let (p, ne, h, c) = is_below_sound qs path (ground arith) in (p, ne, inr h, c)
    ]
  ]
]

is_below_complete :
    (prefixes : List Bytes) (path p : Bytes)
    → p ≢ []
    → Has p prefixes
    → (has_prefix path p ≡ true) ⊎ (path ≡ drop_last b'/' p)
    → is_below prefixes path ≡ true
unfolding is_below
is_below_complete [] path p ne h c = absurd h
is_below_complete (q ∷ qs) path p ne (inl e) c =
    ground (arith, equal_iff q [], equal_iff path (drop_last b'/' q))
is_below_complete (q ∷ qs) path p ne (inr h) c = ground (arith, is_below_complete qs path p ne h c)

IsExcluded-iff :
    (prefixes exact : List Bytes) (path : Bytes)
    → ((is_exact exact path || is_below prefixes path) ≡ true) ↔ IsExcluded prefixes exact path
IsExcluded-iff prefixes exact path = (sound, complete)
  where
    sound : (is_exact exact path || is_below prefixes path) ≡ true → IsExcluded prefixes exact path
    sound e = elim ((||_iff _ _).0 e) [
      | inl x ↦ let (ne, h) = is_exact_sound exact path x in by_name ne h
      | inr b ↦ let (p, ne, h, c) = is_below_sound prefixes path b in by_prefix p ne h c
    ]

    complete :
        IsExcluded prefixes exact path → (is_exact exact path || is_below prefixes path) ≡ true
    complete (by_name ne h) = (||_iff _ _).1 (inl (is_exact_complete exact path ne h))
    complete (by_prefix p ne h c) = (||_iff _ _).1 (inr (is_below_complete prefixes path p ne h c))

-- A path is in the result exactly if it is among the paths given and is not excluded.
pub filter_untracked_paths_iff :
    (prefixes exact paths : List Bytes) (path : Bytes)
    → Has path (filter_untracked_paths paths prefixes exact)
      ↔ (Has path paths × ¬ IsExcluded prefixes exact path)
unfolding filter_untracked_paths
filter_untracked_paths_iff prefixes exact [] path = (λ h. absurd h, λ h. absurd h.0)
filter_untracked_paths_iff prefixes exact (q ∷ qs) path =
    let ih = filter_untracked_paths_iff prefixes exact qs path in
    let (sound, complete) = IsExcluded-iff prefixes exact q in
    elim (Bool-cases (is_exact exact q || is_below prefixes q)) [
      | inl out ↦ rw out (
        λ h. (inr (ih.0 h).0, (ih.0 h).1),
        λ h. elim h.0 [
          | inl e ↦ absurd (h.1 (subst (IsExcluded prefixes exact) (sym e) (sound out)))
          | inr m ↦ ih.1 (m, h.1)
        ],
      )
      | inr kept ↦ rw kept (
        λ h. elim h [
          | inl e ↦ (inl e, λ x. cc (complete (subst (IsExcluded prefixes exact) e x)))
          | inr m ↦ (inr (ih.0 m).0, (ih.0 m).1)
        ],
        λ h. elim h.0 [ inl e ↦ inl e | inr m ↦ inr (ih.1 (m, h.1)) ],
      )
    ]
