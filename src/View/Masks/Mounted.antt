-- ===== src/View/Masks/Mounted.antt =====
-- Which mounts are taken away again, and what the command can change.
use persona.Base.{
  ◌≡◌, refl, ap, inl, inr, List, [], ◌∷◌, Option, none, some, Result, ok, err, Bool-cases, ℤ, pos,
  same_ℤ,
}
use persona.Text.Compare.{Bytes, codes, equal}
use persona.View.Export.{ExportError, within_limit}
use persona.View.Masks

-- the paths that a list of mounts leaves mounted
abbrev pub mount_points : List Masks.Mount → List Bytes
mount_points [] = []
mount_points (Masks.bind_of target ∷ ms) = target ∷ mount_points ms
mount_points (Masks.read_only_of target ∷ ms) = mount_points ms
mount_points (Masks.mask_of target ∷ ms) = target ∷ mount_points ms

abbrev pub IsKept : Masks.Masks → Type 0
IsKept m = m.targets ≡ mount_points m.mounts

module _ (c : Masks.MaskCalls) where
  remounted-IsKept :
      (target : Bytes) (o : Option Bytes) (rest : Masks.Masks)
      → IsKept rest
      → IsKept (Masks.remounted target o rest)
  remounted-IsKept target (some text) rest h = refl
  remounted-IsKept target none rest h = h

  read_only_bound-IsKept :
      (target : Bytes) (b : Masks.Bound) (rest : Masks.Masks)
      → IsKept rest
      → IsKept (Masks.read_only_bound c target b rest)
  read_only_bound-IsKept target Masks.vanished rest h = h
  read_only_bound-IsKept target (Masks.broken text) rest h = refl
  read_only_bound-IsKept target Masks.bound rest h =
      ap (◌∷◌ target) (remounted-IsKept target (c.remount_ro target) rest h)

  read_only-IsKept :
      (target : Bytes) (t : Masks.Target) (rest : Masks.Masks)
      → IsKept rest
      → IsKept (Masks.read_only c target t rest)
  read_only-IsKept target Masks.missing rest h = h
  read_only-IsKept target (Masks.unreadable text) rest h = refl
  read_only-IsKept target Masks.symlink rest h = refl
  read_only-IsKept target Masks.directory rest h =
      read_only_bound-IsKept target (c.bind target) rest h
  read_only-IsKept target Masks.other rest h = read_only_bound-IsKept target (c.bind target) rest h

  masked_as-IsKept :
      (target : Bytes) (r : Result Bytes (Unit {0})) (rest : Masks.Masks)
      → IsKept rest
      → IsKept (Masks.masked_as target r rest)
  masked_as-IsKept target (err text) rest h = refl
  masked_as-IsKept target (ok x) rest h = ap (◌∷◌ target) h

  masked-IsKept :
      (files dirs target : Bytes) (t : Masks.Target) (rest : Masks.Masks)
      → IsKept rest
      → IsKept (Masks.masked c files dirs target t rest)
  masked-IsKept files dirs target Masks.missing rest h = h
  masked-IsKept files dirs target (Masks.unreadable text) rest h = refl
  masked-IsKept files dirs target Masks.symlink rest h = refl
  masked-IsKept files dirs target Masks.directory rest h = masked_as-IsKept target _ rest h
  masked-IsKept files dirs target Masks.other rest h = masked_as-IsKept target _ rest h

  module _ (mode root files dirs : Bytes) where
    mask_all-IsKept : (paths : List Bytes) → IsKept (Masks.mask_all c mode root files dirs paths)
    unfolding Masks.mask_all
    mask_all-IsKept [] = refl
    mask_all-IsKept (path ∷ paths) =
        let h = mask_all-IsKept paths in
        let rest : Masks.Masks = Masks.mask_all c mode root files dirs paths in
        elim (Bool-cases (equal mode (codes "readonly"))) [
          | inl ro ↦
              rw ro
                (read_only-IsKept (Masks.place root path) (c.lstat (Masks.place root path)) rest h)
          | inr writes ↦ elim (Bool-cases (equal mode (codes "masked"))) [
            | inl masks ↦
                rw (writes, masks)
                  (masked-IsKept files dirs (Masks.place root path)
                    (c.lstat (Masks.place root path)) rest h)
            | inr neither ↦ rw (writes, neither) h
          ]
        ]

-- Whatever the calls answer, and also if it fails, the targets that `maskIgnoredFiles` returns, which
-- are unmounted behind the command, are just the paths on which it has made a mount, in their order.
pub mask_ignored_files-IsKept :
    (c : Masks.MaskCalls) (mode : Bytes) (most : ℤ) (root files dirs : Bytes)
    → IsKept (Masks.mask_ignored_files c mode most root files dirs).0
unfolding Masks.mask_ignored_files
mask_ignored_files-IsKept c mode most root files dirs = elim (Bool-cases (same_ℤ most (pos 0))) [
  | inl nothing ↦ rw nothing refl
  | inr some_limit ↦ rw some_limit (begun (within_limit most c.list_ignored))
]
  where
    begun : (r : Result ExportError (List Bytes)) → IsKept (Masks.listed c mode root files dirs r).0
    begun (err why) = refl
    begun (ok ignored) = elim (Bool-cases (equal mode (codes "transparent"))) [
      | inl open_all ↦ rw open_all refl
      | inr closed ↦ rw closed (mask_all-IsKept c mode root files dirs ignored)
    ]
