-- ===== src/Gitx/Attributes/Harmless.antt =====
-- What the check of the attributes lets through.
use persona.Base.{
  ℕ, ◌≡◌, refl, ◌⊎◌, Bool, true, false, ◌||◌, List, [], ◌∷◌, All, All-Has, Option, none, some,
  Result, ok, err, >>-eq-ok, Bool-cases, inl, inr,
}
use persona.Text.Compare.{Bytes, equal}
use persona.Text.Split.{split}
use persona.Gitx.Clean.{has}
use persona.Gitx.Clean.Only.{has_iff}
use persona.Gitx.Attributes

module _ (c : Attributes.AttributeCalls) (index : Option (Bytes → Bytes)) where
  -- a path that git stores as it is: it is gone, or no regular file, or has the bytes of its object in
  -- the base and no change that git tells
  pub data IsHarmless (path : Bytes) : Type 0 where
    deleted : c.lstat path ≡ Attributes.gone → IsHarmless path
    special : c.lstat path ≡ Attributes.other → IsHarmless path
    unchanged :
        (size : ℕ) (base : Bytes → Bytes) (names : List Bytes)
        → c.lstat path ≡ Attributes.regular size
        → index ≡ some base
        → c.raw_blob_matches path size (base path) ≡ ok true
        → c.changed ≡ ok names
        → has names path ≡ false
        → IsHarmless path

  -- each path with an attribute that is set
  abbrev pub Stored : List Bytes → Type 0
  Stored [] = Unit
  Stored (path ∷ []) = Unit
  Stored (path ∷ attr ∷ []) = Unit
  Stored (path ∷ attr ∷ value ∷ fields) =
      ((Attributes.is_unset value ≡ true) ⊎ IsHarmless path) × Stored fields

  changed-IsHarmless :
      (why : Attributes.Refused) (path : Bytes) (size : ℕ) (base : Bytes → Bytes)
      (r : Result Bytes (List Bytes))
      → c.lstat path ≡ Attributes.regular size
      → index ≡ some base
      → c.raw_blob_matches path size (base path) ≡ ok true
      → c.changed ≡ r
      → Attributes.unless_changed why path r ≡ ok tt
      → IsHarmless path
  changed-IsHarmless why path size base (err text) k i m e h = absurd (cc h)
  changed-IsHarmless why path size base (ok names) k i m e h = elim (Bool-cases (has names path)) [
    | inl there ↦ absurd (cc (rw there at h))
    | inr free ↦ unchanged size base names k i m e free
  ]

  same-IsHarmless :
      (why : Attributes.Refused) (path : Bytes) (size : ℕ) (base : Bytes → Bytes)
      (r : Result Bytes Bool)
      → c.lstat path ≡ Attributes.regular size
      → index ≡ some base
      → c.raw_blob_matches path size (base path) ≡ r
      → Attributes.unless_same c why path r ≡ ok tt
      → IsHarmless path
  same-IsHarmless why path size base (err text) k i m h = absurd (cc h)
  same-IsHarmless why path size base (ok false) k i m h = absurd (cc h)
  same-IsHarmless why path size base (ok true) k i m h =
      changed-IsHarmless why path size base c.changed k i m refl h

  regular-IsHarmless :
      (why : Attributes.Refused) (path : Bytes) (size : ℕ) (o : Option (Bytes → Bytes))
      → c.lstat path ≡ Attributes.regular size
      → index ≡ o
      → Attributes.check_regular c o why path size ≡ ok tt
      → IsHarmless path
  regular-IsHarmless why path size none k i h = absurd (cc h)
  regular-IsHarmless why path size (some base) k i h = elim (Bool-cases (equal (base path) [])) [
    | inl new ↦ absurd (cc (rw new at h))
    | inr old ↦ same-IsHarmless why path size base _ k i refl (rw old at h)
  ]

  kind-IsHarmless :
      (why : Attributes.Refused) (path : Bytes) (k : Attributes.Kind)
      → c.lstat path ≡ k
      → Attributes.check_kind c index why path k ≡ ok tt
      → IsHarmless path
  kind-IsHarmless why path Attributes.gone e h = deleted e
  kind-IsHarmless why path Attributes.other e h = special e
  kind-IsHarmless why path (Attributes.unreadable text) e h = absurd (cc h)
  kind-IsHarmless why path (Attributes.regular size) e h =
      regular-IsHarmless why path size index e refl h

  seen-IsHarmless :
      (checked : List Bytes) (path : Bytes) (a b : Bool)
      → All IsHarmless checked
      → has checked path ≡ b
      → (a || b) ≡ true
      → (a ≡ true) ⊎ IsHarmless path
  seen-IsHarmless checked path true b all e h = inl refl
  seen-IsHarmless checked path false true all e h =
      inr (All-Has IsHarmless path checked all ((has_iff checked path).0 e))
  seen-IsHarmless checked path false false all e h = absurd (cc h)

  check_fields-Stored :
      (checked fields : List Bytes)
      → All IsHarmless checked
      → Attributes.check_fields c index checked fields ≡ ok tt
      → Stored fields
  unfolding Attributes.check_fields
  check_fields-Stored checked [] all h = tt
  check_fields-Stored checked (path ∷ []) all h = tt
  check_fields-Stored checked (path ∷ attr ∷ []) all h = tt
  check_fields-Stored checked (path ∷ attr ∷ value ∷ fields) all h =
      elim (Bool-cases (Attributes.is_unset value || has checked path)) [
        | inl skip ↦ (
          seen-IsHarmless checked path (Attributes.is_unset value) (has checked path) all refl skip,
          check_fields-Stored checked fields all (rw skip at h),
        )
        | inr look ↦
            let (now, onward) = >>-eq-ok _ _ (rw look at h) in
            let harmless =
              kind-IsHarmless (Attributes.unsupported path attr value) path (c.lstat path) refl
                now in
            (inr harmless, check_fields-Stored (path ∷ checked) fields (harmless, all) onward)
      ]

  check_output-Stored :
      (text : Bytes)
      → Attributes.check_output c index (ok text) ≡ ok tt
      → Stored (split 0 (Attributes.without_zero text))
  check_output-Stored text h = check_fields-Stored [] (split 0 (Attributes.without_zero text)) tt h

-- If `checkStorageAttributes` lets paths through, then every path of which git says that one of the
-- attributes is set is gone, or no regular file, or has the bytes of its object in the base and no
-- change that git tells: nothing that a conversion could alter is stored.
pub check_storage_attributes-Stored :
    (c : Attributes.AttributeCalls) (index : Option (Bytes → Bytes)) (path : Bytes)
    (paths : List Bytes) (text : Bytes)
    → c.check_attr ≡ ok text
    → Attributes.check_storage_attributes c index (path ∷ paths) ≡ ok tt
    → Stored c index (split 0 (Attributes.without_zero text))
unfolding Attributes.check_storage_attributes
check_storage_attributes-Stored c index path paths text e h =
    check_output-Stored c index text (simp e at h)
