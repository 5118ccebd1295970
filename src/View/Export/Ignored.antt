-- ===== src/View/Export/Ignored.antt =====
-- The ignored paths behind an export are those before the command.
use persona.Base.{
  zero, suc, ◌≤◌, ◌≡◌, ◌↔◌, refl, sym, ap, subst, inl, inr, Bool, List, [], ◌∷◌, Has, Option, none,
  some, Result, ok, err, >>-eq-ok, >>=-eq-ok, Bool-cases, length, arith, ℤ, pos, negsuc, same_ℤ,
  same_ℤ_iff, ◌≢◌,
}
use persona.Text.Compare.{Bytes}
use persona.Gitx.Clean.{has}
use persona.Gitx.Clean.Only.{has_iff}
use persona.View.Export

outside-none :
    (set paths : List Bytes) → Export.outside set paths ≡ [] → (x : Bytes) → Has x paths → Has x set
unfolding Export.outside
outside-none set [] h x m = absurd m
outside-none set (path ∷ paths) h x m = elim (Bool-cases (has set path)) [
  | inl known ↦ elim m [
    | inl e ↦ subst (λ y. Has y set) (sym e) ((has_iff set path).0 known)
    | inr later ↦ outside-none set paths (rw known at h) x later
  ]
  | inr new ↦ absurd (cc (rw new at h))
]

unless_any-none :
    (newly no_longer : List Bytes)
    → Export.unless_any newly no_longer ≡ ok tt
    → (newly ≡ []) × (no_longer ≡ [])
unless_any-none [] [] h = (refl, refl)
unless_any-none (a ∷ more) bs h = absurd (cc h)
unless_any-none [] (b ∷ bs) h = absurd (cc h)

-- a positive limit holds
abbrev pub WithinLimit : ℤ → List Bytes → Type 0
WithinLimit (pos zero) paths = Unit
WithinLimit (pos (suc n)) paths = length paths ≤ suc n
WithinLimit (negsuc n) paths = Unit

check_ignored_limit-Within :
    (paths : List Bytes) (most : ℤ)
    → Export.check_ignored_limit paths most ≡ ok tt
    → WithinLimit most paths
unfolding Export.check_ignored_limit
check_ignored_limit-Within paths (pos zero) h = tt
check_ignored_limit-Within paths (pos (suc n)) h = ground arith
check_ignored_limit-Within paths (negsuc n) h = tt

pub within_limit-ok :
    (most : ℤ) (r : Result Bytes (List Bytes)) (now : List Bytes)
    → Export.within_limit most r ≡ ok now
    → (r ≡ ok now) × WithinLimit most now
within_limit-ok most (err text) now h = absurd (cc h)
within_limit-ok most (ok paths) now h =
    let (few, same) = >>-eq-ok (Export.check_ignored_limit paths most) _ h in
    let e : paths ≡ now = cc same in
    (ap ok e, subst (WithinLimit most) e (check_ignored_limit-Within paths most few))

-- If an export has no error and the limit is not 0, then git names ignored paths again, just those
-- that it named before the command, and not more than the limit if that is positive.
pub export_patch-Ignored :
    (c : Export.ExportCalls) (patch_in_repo : Bool) (patch_rel : Bytes) (most : ℤ)
    (initial : List Bytes) (w : Export.Limited)
    → most ≢ pos 0
    → Export.export_patch c patch_in_repo patch_rel most initial ≡ (w, none)
    → (now : List Bytes) × (c.list_ignored ≡ ok now)
      × WithinLimit most now
      × WithinLimit most initial
      × ((path : Bytes) → Has path initial ↔ Has path now)
unfolding Export.export_patch Export.check_ignored
export_patch-Ignored c patch_in_repo patch_rel most initial w n h =
    begun c.snapshot (Export.check_ignored c most initial) refl h
  where
    Same : Type 0
    Same =
        (now : List Bytes) × (c.list_ignored ≡ ok now)
        × WithinLimit most now
        × WithinLimit most initial
        × ((path : Bytes) → Has path initial ↔ Has path now)

    compared : Export.check_ignored c most initial ≡ ok tt → Same
    compared k = elim (Bool-cases (same_ℤ most (pos 0))) [
      | inl nothing ↦ absurd (n ((same_ℤ_iff most (pos 0)).0 nothing))
      | inr some_limit ↦
          let (few, rest) =
            >>-eq-ok (Export.check_ignored_limit initial most) _ (rw some_limit at k) in
          let (now, listed, same) =
            >>=-eq-ok (Export.within_limit most c.list_ignored) (λ x. Export.same_ignored initial x)
              rest in
          let (answered, limit) = within_limit-ok most c.list_ignored now listed in
          let (newly, no_longer) = unless_any-none _ _ same in
          (
            now,
            answered,
            limit,
            check_ignored_limit-Within initial most few,
            λ path. (outside-none now initial no_longer path, outside-none initial now newly path),
          )
    ]

    begun :
        (o : Option Bytes) (r : Result Export.ExportError (Unit {0}))
        → Export.check_ignored c most initial ≡ r
        → Export.when_snapshot o (
            Export.when_same r
              (Export.export_views c (Export.patch_state_rel_paths patch_in_repo patch_rel)))
          ≡ (w, none)
        → Same
    begun (some why) r e k = absurd (cc (ap (λ x. x.1) k))
    begun none (err why) e k = absurd (cc (ap (λ x. x.1) k))
    begun none (ok x) e k = compared e
