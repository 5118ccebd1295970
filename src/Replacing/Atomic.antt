-- ===== src/Replacing/Atomic.antt =====
-- That a run replaces a file at once or not at all.
use persona.Base.{◌≡◌, refl, sym, subst, ◌⊎◌, inl, true, false, List, [], ◌∷◌, Option, none, some}
use persona.Text.Compare.{Bytes}
use persona.Replacing

-- The predicate holds now and behind each of the calls.
abbrev pub Always : (Replacing.Dir → Type 0) → Replacing.Dir → List Replacing.Effect → Type 0
Always P d [] = P d
Always P d (e ∷ es) = P d × Always P (Replacing.apply e d) es

-- The old file, or the whole new one, which then is on the disk.
abbrev pub IsWhole : Option Replacing.File → Bytes → Option Replacing.File → Type 0
IsWhole old new f = (f ≡ old) ⊎ (f ≡ some (record { content = new; synced = true }))

abbrev pub IsIntact : Option Replacing.File → Bytes → Replacing.Dir → Type 0
IsIntact old new d = IsWhole old new d.target × IsWhole old new d.kept

-- What a run leaves behind: without an error the new file for good; with an error either what was
-- there, or the new file, of which it is not sure that it lasts. No temporary file stays.
abbrev pub Left : Option Replacing.File → Bytes → Option Bytes → Replacing.Dir → Type 0
Left old new none d =
    (d.target ≡ some (record { content = new; synced = true }))
    × (d.kept ≡ d.target)
    × (d.temp ≡ none)
Left old new (some why) d = (d.kept ≡ old) × IsWhole old new d.target × (d.temp ≡ none)

pub record IsAtomic (old : Option Replacing.File) (new : Bytes) (r : Replacing.Run) : Type 0 where
  pub intact :
      Always (IsIntact old new) (record { target = old; kept = old; temp = none }) r.effects
  pub left :
      Left old new r.error
        (Replacing.apply_all r.effects (record { target = old; kept = old; temp = none }))

-- the directory while the temporary file is there
abbrev pub Open : Option Replacing.File → Replacing.File → Replacing.Dir
Open old f = record { target = old; kept = old; temp = some f }

-- what a run from there on has to do
pub record Finishes (old : Option Replacing.File) (new : Bytes) (f : Replacing.File)
    (r : Replacing.Run) : Type 0 where
  pub intact : Always (IsIntact old new) (Open old f) r.effects
  pub left : Left old new r.error (Replacing.apply_all r.effects (Open old f))

module _ (old : Option Replacing.File) (new : Bytes) where
  pub abandon-Finishes :
      (f : Replacing.File) (why : Bytes) → Finishes old new f (Replacing.abandon why)
  abandon-Finishes f why = record {
    intact = ((inl refl, inl refl), ((inl refl, inl refl), (inl refl, inl refl)));
    left = (refl, inl refl, refl);
  }

  -- a call that does not touch what the files hold
  pub same-Finishes :
      (f : Replacing.File) (e : Replacing.Effect) (o : Option Bytes) (r : Replacing.Run)
      → Replacing.apply e (Open old f) ≡ Open old f
      → Finishes old new f r
      → Finishes old new f (Replacing.call e o Replacing.abandon r)
  same-Finishes f e (some why) r same h = abandon-Finishes f why
  same-Finishes f e none r same h = record {
    intact = (
      (inl refl, inl refl),
      subst (λ d. Always (IsIntact old new) d r.effects) (sym same) h.intact,
    );
    left = subst (λ d. Left old new r.error (Replacing.apply_all r.effects d)) (sym same) h.left;
  }

  pub write-Finishes :
      (more : Bytes) (q : Replacing.Run)
      → Finishes old new (record { content = more; synced = false }) q
      → Finishes old new
          (record { content = []; synced = true })
          (Replacing.after (Replacing.write more) q)
  write-Finishes more q h = record { intact = ((inl refl, inl refl), h.intact); left = h.left }

pub stop-IsAtomic :
    (old : Option Replacing.File) (new why : Bytes) → IsAtomic old new (Replacing.stop why)
stop-IsAtomic old new why = record { intact = (inl refl, inl refl); left = (refl, inl refl, refl) }

pub created-IsAtomic :
    (old : Option Replacing.File) (new : Bytes) (o : Option Bytes) (r : Replacing.Run)
    → Finishes old new (record { content = []; synced = true }) r
    → IsAtomic old new (Replacing.call Replacing.create o Replacing.stop r)
created-IsAtomic old new (some why) r h = stop-IsAtomic old new why
created-IsAtomic old new none r h = record {
  intact = ((inl refl, inl refl), h.intact);
  left = h.left;
}
