-- ===== src/View/Apply/Done.antt =====
-- What stands behind the application of a patch without an error.
use persona.Base.{
  ℕ, ◌+◌, ◌<◌, ◌≤◌, ◌≡◌, refl, sym, ap, subst, ◌∙◌, inl, inr, Bool, true, false, List, [], none,
  Result, ok, err, Bool-cases, length, length-take, take_all, leb, leb→le, lt→leb_false, arith,
}
use persona.Text.Compare.{Bytes}
use persona.Patchio.Walk.{Reader, max_patch_bytes, check_patch_size, limit_reader}
use persona.View.Apply
use persona.View.Apply.Took.{Snapshot, apply_snapshot-Snapshot, when_valid-none}

-- a reader that is read whole within the limit
limit_reader-whole :
    (r : Reader)
    → (limit_reader (max_patch_bytes + 1) r).fails ≡ false
    → length (limit_reader (max_patch_bytes + 1) r).content ≤ max_patch_bytes
    → ((limit_reader (max_patch_bytes + 1) r).content ≡ r.content) × (r.fails ≡ false)
unfolding limit_reader
limit_reader-whole r f small =
    let n : length r.content < max_patch_bytes + 1 =
      omega (arith, length-take {0} (max_patch_bytes + 1) r.content) in
    (
      take_all (max_patch_bytes + 1) r.content (omega arith),
      rw (lt→leb_false (max_patch_bytes + 1) (length r.content) n) at f,
    )

check_patch_size-le : (n : ℕ) → check_patch_size n ≡ ok tt → n ≤ max_patch_bytes
unfolding check_patch_size
check_patch_size-le n h = elim (Bool-cases (leb n max_patch_bytes)) [
  | inl fits ↦ leb→le _ _ fits
  | inr large ↦ absurd (cc (rw large at h))
]

-- what a run without an error came to: there is no patch, or it was read whole
pub data Done (c : Apply.ApplyCalls) (mode : Bytes) : List Bytes → Type 0 where
  no_patch : c.open_read ≡ ok false → Done c mode []
  read :
      {given : List Bytes}
      → c.open_read ≡ ok true
      → c.file.fails ≡ false
      → length c.file.content ≤ max_patch_bytes
      → Snapshot c mode c.file.content given
      → Done c mode given

module _ (c : Apply.ApplyCalls) (mode : Bytes) where
  read_snapshot-Done :
      (limited : Reader)
      → c.open_read ≡ ok true
      → limited ≡ limit_reader (max_patch_bytes + 1) c.file
      → (Apply.read_snapshot c mode limited).error ≡ none
      → Done c mode (Apply.read_snapshot c mode limited).given
  read_snapshot-Done limited o e h = elim (Bool-cases limited.fails) [
    | inl fails ↦ absurd (cc (simp fails at h))
    | inr sound ↦
        let onward : Apply.Applied = Apply.apply_snapshot c mode limited.content in
        let k : (Apply.when_valid (check_patch_size (length limited.content)) onward).error ≡ none =
          simp sound at h in
        let (size, same) = when_valid-none _ onward k in
        let small = check_patch_size-le (length limited.content) size in
        let m : onward.error ≡ none = sym (ap (λ x. x.error) same) ∙ k in
        let (content, fine) =
          limit_reader-whole c.file (sym (ap (λ x. x.fails) e) ∙ sound)
            (subst (λ x. length x.content ≤ max_patch_bytes) e small) in
        let text : limited.content ≡ c.file.content = ap (λ x. x.content) e ∙ content in
        let snapshot = apply_snapshot-Snapshot c mode limited.content small m in
        simp sound (
          subst (λ x. Done c mode x.given) (sym same)
            (read o fine (subst (λ x. length x ≤ max_patch_bytes) text small)
              (subst (λ x. Snapshot c mode x onward.given) text snapshot)))
  ]

  stated-Done :
      (r : Result Bytes ℕ)
      → c.open_read ≡ ok true
      → (Apply.stated c mode r).error ≡ none
      → Done c mode (Apply.stated c mode r).given
  stated-Done (err text) o h = absurd (cc h)
  stated-Done (ok size) o h = elim (Bool-cases (leb size max_patch_bytes)) [
    | inl fits ↦
        rw fits
          (read_snapshot-Done (limit_reader (max_patch_bytes + 1) c.file) o refl (rw fits at h))
    | inr large ↦ absurd (cc (rw large at h))
  ]

-- If `applyPatchStore` has no error, then there is no patch; or it was read whole and is empty; or
-- it is valid, and git took it; or git refused it as its files exist already, the mode is strict, and
-- git took the rest of it, or nothing is left, where each block that is left out is of a new file
-- that the work tree has already, with the
-- executable bit of its mode and its content.
pub apply_patch_store-Done :
    (c : Apply.ApplyCalls) (mode : Bytes)
    → (Apply.apply_patch_store c mode).error ≡ none
    → Done c mode (Apply.apply_patch_store c mode).given
unfolding Apply.apply_patch_store
apply_patch_store-Done c mode h = begun c.open_read refl h
  where
    begun :
        (r : Result Bytes Bool)
        → c.open_read ≡ r
        → (Apply.opened c mode r).error ≡ none
        → Done c mode (Apply.opened c mode r).given
    begun (err text) o k = absurd (cc k)
    begun (ok false) o k = no_patch o
    begun (ok true) o k = stated-Done c mode c.stat o k
