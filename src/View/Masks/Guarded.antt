-- ===== src/View/Masks/Guarded.antt =====
-- What the command can change of the ignored files.
use persona.Base.{
  ◌≡◌, ◌≢◌, ◌⊎◌, refl, sym, subst, inl, inr, List, [], ◌∷◌, All, All-map, Has, Option, none, some,
  Result, ok, err, Bool-cases, ℤ, pos, same_ℤ, same_ℤ_iff,
}
use persona.Text.Compare.{Bytes, codes, equal}
use persona.View.Export.{within_limit}
use persona.View.Masks

-- a target that the command finds read-only: it is not there, or it is mounted and remounted
pub data IsReadOnly (c : Masks.MaskCalls) (targets : List Bytes) (target : Bytes) : Type 0 where
  absent : c.lstat target ≡ Masks.missing → IsReadOnly c targets target
  went : c.bind target ≡ Masks.vanished → IsReadOnly c targets target
  held :
      c.bind target ≡ Masks.bound
      → c.remount_ro target ≡ none
      → Has target targets
      → IsReadOnly c targets target

-- a target that the command finds empty
pub data IsHidden (c : Masks.MaskCalls) (files dirs : Bytes) (targets : List Bytes) (target : Bytes)
    : Type 0 where
  absent : c.lstat target ≡ Masks.missing → IsHidden c files dirs targets target
  hidden :
      (kind : Masks.Kind)
      → Masks.mask_path_with_backing c files dirs target kind ≡ ok tt
      → Has target targets
      → IsHidden c files dirs targets target

module _ (c : Masks.MaskCalls) where
  IsReadOnly-more :
      (more : Bytes) (targets : List Bytes) (target : Bytes)
      → IsReadOnly c targets target
      → IsReadOnly c (more ∷ targets) target
  IsReadOnly-more more targets target (absent e) = absent e
  IsReadOnly-more more targets target (went e) = went e
  IsReadOnly-more more targets target (held b r h) = held b r (inr h)

  read_only_bound-IsReadOnly :
      (target : Bytes) (b : Masks.Bound) (rest : Masks.Masks)
      → c.bind target ≡ b
      → (Masks.read_only_bound c target b rest).error ≡ none
      → IsReadOnly c (Masks.read_only_bound c target b rest).targets target
        × (rest.error ≡ none)
        × ((x : Bytes)
            → IsReadOnly c rest.targets x
            → IsReadOnly c (Masks.read_only_bound c target b rest).targets x)
  read_only_bound-IsReadOnly target Masks.vanished rest e h = (went e, h, λ x k. k)
  read_only_bound-IsReadOnly target (Masks.broken text) rest e h = absurd (cc h)
  read_only_bound-IsReadOnly target Masks.bound rest e h = again (c.remount_ro target) refl h
    where
      again :
          (o : Option Bytes)
          → c.remount_ro target ≡ o
          → (Masks.remounted target o rest).error ≡ none
          → IsReadOnly c (target ∷ (Masks.remounted target o rest).targets) target
            × (rest.error ≡ none)
            × ((x : Bytes)
                → IsReadOnly c rest.targets x
                → IsReadOnly c (target ∷ (Masks.remounted target o rest).targets) x)
      again (some text) r k = absurd (cc k)
      again none r k = (held e r (inl refl), k, λ x m. IsReadOnly-more target rest.targets x m)

  read_only-IsReadOnly :
      (target : Bytes) (t : Masks.Target) (rest : Masks.Masks)
      → c.lstat target ≡ t
      → (Masks.read_only c target t rest).error ≡ none
      → IsReadOnly c (Masks.read_only c target t rest).targets target
        × (rest.error ≡ none)
        × ((x : Bytes)
            → IsReadOnly c rest.targets x
            → IsReadOnly c (Masks.read_only c target t rest).targets x)
  read_only-IsReadOnly target Masks.missing rest e h = (absent e, h, λ x k. k)
  read_only-IsReadOnly target (Masks.unreadable text) rest e h = absurd (cc h)
  read_only-IsReadOnly target Masks.symlink rest e h = absurd (cc h)
  read_only-IsReadOnly target Masks.directory rest e h =
      read_only_bound-IsReadOnly target (c.bind target) rest refl h
  read_only-IsReadOnly target Masks.other rest e h =
      read_only_bound-IsReadOnly target (c.bind target) rest refl h

  module _ (files dirs : Bytes) where
    IsHidden-more :
        (more : Bytes) (targets : List Bytes) (target : Bytes)
        → IsHidden c files dirs targets target
        → IsHidden c files dirs (more ∷ targets) target
    IsHidden-more more targets target (absent e) = absent e
    IsHidden-more more targets target (hidden kind e h) = hidden kind e (inr h)

    masked_as-IsHidden :
        (target : Bytes) (kind : Masks.Kind) (r : Result Bytes (Unit {0})) (rest : Masks.Masks)
        → Masks.mask_path_with_backing c files dirs target kind ≡ r
        → (Masks.masked_as target r rest).error ≡ none
        → IsHidden c files dirs (Masks.masked_as target r rest).targets target
          × (rest.error ≡ none)
          × ((x : Bytes)
              → IsHidden c files dirs rest.targets x
              → IsHidden c files dirs (Masks.masked_as target r rest).targets x)
    masked_as-IsHidden target kind (err text) rest e h = absurd (cc h)
    masked_as-IsHidden target kind (ok u) rest e h =
        (hidden kind e (inl refl), h, λ x k. IsHidden-more target rest.targets x k)

    masked-IsHidden :
        (target : Bytes) (t : Masks.Target) (rest : Masks.Masks)
        → c.lstat target ≡ t
        → (Masks.masked c files dirs target t rest).error ≡ none
        → IsHidden c files dirs (Masks.masked c files dirs target t rest).targets target
          × (rest.error ≡ none)
          × ((x : Bytes)
              → IsHidden c files dirs rest.targets x
              → IsHidden c files dirs (Masks.masked c files dirs target t rest).targets x)
    masked-IsHidden target Masks.missing rest e h = (absent e, h, λ x k. k)
    masked-IsHidden target (Masks.unreadable text) rest e h = absurd (cc h)
    masked-IsHidden target Masks.symlink rest e h = absurd (cc h)
    masked-IsHidden target Masks.directory rest e h =
        masked_as-IsHidden target Masks.mask_dir _ rest refl h
    masked-IsHidden target Masks.other rest e h =
        masked_as-IsHidden target Masks.mask_file _ rest refl h

    module _ (root : Bytes) where
      mask_all-IsReadOnly :
          (paths : List Bytes)
          → (Masks.mask_all c (codes "readonly") root files dirs paths).error ≡ none
          → All
              (λ path.
                IsReadOnly c
                  (Masks.mask_all c (codes "readonly") root files dirs paths).targets
                  (Masks.place root path))
              paths
      unfolding Masks.mask_all equal
      mask_all-IsReadOnly [] h = tt
      mask_all-IsReadOnly (path ∷ paths) h =
          let rest : Masks.Masks = Masks.mask_all c (codes "readonly") root files dirs paths in
          let (first, fine, keep) =
            read_only-IsReadOnly (Masks.place root path) (c.lstat (Masks.place root path)) rest refl
              h in
          (
            first,
            All-map _ _ paths (λ x k. keep (Masks.place root x) k) (mask_all-IsReadOnly paths fine),
          )

      mask_all-IsHidden :
          (paths : List Bytes)
          → (Masks.mask_all c (codes "masked") root files dirs paths).error ≡ none
          → All
              (λ path.
                IsHidden c files dirs
                  (Masks.mask_all c (codes "masked") root files dirs paths).targets
                  (Masks.place root path))
              paths
      unfolding Masks.mask_all equal
      mask_all-IsHidden [] h = tt
      mask_all-IsHidden (path ∷ paths) h =
          let rest : Masks.Masks = Masks.mask_all c (codes "masked") root files dirs paths in
          let (first, fine, keep) =
            masked-IsHidden (Masks.place root path) (c.lstat (Masks.place root path)) rest refl h in
          (
            first,
            All-map _ _ paths (λ x k. keep (Masks.place root x) k) (mask_all-IsHidden paths fine),
          )

-- what stands behind the masks of each mode
abbrev pub IsGuarded :
    Masks.MaskCalls → Bytes → Bytes → Bytes → Masks.Masks → List Bytes → Bytes → Type 0
IsGuarded c root files dirs m ignored mode =
    (mode ≡ codes "transparent")
    ⊎ ((mode ≡ codes "readonly")
        × All (λ path. IsReadOnly c m.targets (Masks.place root path)) ignored)
    ⊎ ((mode ≡ codes "masked")
        × All (λ path. IsHidden c files dirs m.targets (Masks.place root path)) ignored)

abbrev pub IsMode : Bytes → Type 0
IsMode mode = (mode ≡ codes "transparent") ⊎ (mode ≡ codes "readonly") ⊎ (mode ≡ codes "masked")

listed-IsGuarded :
    (c : Masks.MaskCalls) (mode root files dirs : Bytes) (ignored : List Bytes)
    → IsMode mode
    → (Masks.listed c mode root files dirs (ok ignored)).0.error ≡ none
    → IsGuarded c root files dirs (Masks.listed c mode root files dirs (ok ignored)).0 ignored mode
unfolding equal
listed-IsGuarded c mode root files dirs ignored (inl open_all) h = inl open_all
listed-IsGuarded c mode root files dirs ignored (inr (inl ro)) h = inr (
    inl (
      ro,
      subst
          (λ m.
            All
              (λ path.
                IsReadOnly c (Masks.listed c m root files dirs (ok ignored)).0.targets
                  (Masks.place root path))
              ignored)
          (sym ro)
          (mask_all-IsReadOnly c files dirs root ignored
            (subst (λ m. (Masks.listed c m root files dirs (ok ignored)).0.error ≡ none) ro h)),
    ))
listed-IsGuarded c mode root files dirs ignored (inr (inr hides)) h = inr (
    inr (
      hides,
      subst
          (λ m.
            All
              (λ path.
                IsHidden c files dirs (Masks.listed c m root files dirs (ok ignored)).0.targets
                  (Masks.place root path))
              ignored)
          (sym hides)
          (mask_all-IsHidden c files dirs root ignored
            (subst (λ m. (Masks.listed c m root files dirs (ok ignored)).0.error ≡ none) hides h)),
    ))

-- If `maskIgnoredFiles` has no error, the limit is not 0 and the mode is one of the three, then it
-- gives back the paths that git says are ignored; and unless the mode is transparent, each of them is
-- missing or is kept among the targets: mounted on itself and then remounted read-only, or gone before
-- the mount, in the mode readonly; masked by the empty file or directory in the mode masked.
pub mask_ignored_files-IsGuarded :
    (c : Masks.MaskCalls) (mode : Bytes) (most : ℤ) (root files dirs : Bytes) (ignored : List Bytes)
    → most ≢ pos 0
    → IsMode mode
    → within_limit most c.list_ignored ≡ ok ignored
    → (Masks.mask_ignored_files c mode most root files dirs).0.error ≡ none
    → ((Masks.mask_ignored_files c mode most root files dirs).1 ≡ ignored)
      × IsGuarded c root files dirs
          (Masks.mask_ignored_files c mode most root files dirs).0
          ignored
          mode
unfolding Masks.mask_ignored_files
mask_ignored_files-IsGuarded c mode most root files dirs ignored n one_of_three e h =
    elim (Bool-cases (same_ℤ most (pos 0))) [
      | inl nothing ↦ absurd (n ((same_ℤ_iff most (pos 0)).0 nothing))
      | inr some_limit ↦
          rw (some_limit, e)
            (
              same,
              listed-IsGuarded c mode root files dirs ignored one_of_three
                  (rw (some_limit, e) at h),
            )
    ]
  where
    same : (Masks.listed c mode root files dirs (ok ignored)).1 ≡ ignored
    same = elim (Bool-cases (equal mode (codes "transparent"))) [
      | inl open_all ↦ rw open_all refl
      | inr closed ↦ rw closed refl
    ]
