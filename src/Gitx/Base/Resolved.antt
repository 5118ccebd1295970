-- ===== src/Gitx/Base/Resolved.antt =====
-- A base is never taken for empty because of an error.
use persona.Base.{
  ◌≡◌, refl, ap, ◌∙◌, inl, inr, Bool, true, false, ◌&&◌, ◌||◌, not, Result, ok, err, Bool-cases,
  arith, ==_iff,
}
use persona.Text.Compare.{Bytes, codes, equal, equal_iff, trim_space}
use persona.Gitx.Program
use persona.Gitx.Program.{Program, Failed}
use persona.Gitx.Base

module _ (work_tree git_dir : Bytes) (git : Program) (ref : Bytes) where
  -- the three ways to come to an object
  pub data Source (oid : Bytes) : Type 0 where
    commit :
        (stdout : Bytes)
        → Program.git_output_bytes git (Base.rev_parse_args work_tree git_dir ref) ≡ ok stdout
        → oid ≡ trim_space stdout
        → Source oid
    empty_itself : Base.empty_tree_oid work_tree git_dir git ≡ ok oid → ref ≡ oid → Source oid
    unborn :
        (branch : Bytes)
        → ref ≡ codes "HEAD"
        → Program.git_output_bytes git (Base.symbolic_ref_args work_tree git_dir) ≡ ok branch
        → (git (Base.show_ref_args work_tree git_dir branch)).exit ≡ Program.exited 1
        → Base.empty_tree_oid work_tree git_dir git ≡ ok oid
        → Source oid

  unborn_exit :
      (e : Program.Exit) → Base.is_unborn work_tree git_dir e ≡ true → e ≡ Program.exited 1
  unborn_exit Program.succeeded h = absurd (cc h)
  unborn_exit (Program.exited code) h = ap Program.exited ((==_iff code 1).0 h)
  unborn_exit Program.not_run h = absurd (cc h)

  on_branch-Source :
      (why : Failed) (oid : Bytes) (r : Result Failed Bytes)
      → ref ≡ codes "HEAD"
      → Program.git_output_bytes git (Base.symbolic_ref_args work_tree git_dir) ≡ r
      → Base.on_branch work_tree git_dir git why r ≡ ok oid
      → Source oid
  on_branch-Source why oid (err _) e f h = absurd (cc h)
  on_branch-Source why oid (ok branch) e f h =
      elim (Bool-cases (
        Base.is_unborn work_tree git_dir
          (git (Base.show_ref_args work_tree git_dir branch)).exit)) [
            | inl gone ↦ unborn branch e f (unborn_exit _ gone) (rw gone at h)
            | inr there ↦ absurd (cc (rw there at h))
          ]

  is_head : (a b : Bool) → (not a || b) ≡ false → a ≡ true
  is_head a b h = ground (arith, h)

  resolve_unborn-Source :
      (cancelled : Bool) (why : Failed) (oid : Bytes)
      → Base.resolve_unborn work_tree git_dir git cancelled ref why ≡ ok oid
      → Source oid
  unfolding Base.resolve_unborn
  resolve_unborn-Source cancelled why oid h =
      elim (Bool-cases (not (equal ref (codes "HEAD")) || cancelled)) [
        | inl stopped ↦ absurd (cc (rw stopped at h))
        | inr head ↦
            on_branch-Source why oid _
              ((equal_iff ref (codes "HEAD")).0 (is_head (equal ref (codes "HEAD")) cancelled head))
              refl (rw head at h)
      ]

  same_as_empty-Source :
      (cancelled : Bool) (why : Failed) (oid : Bytes) (r : Result Failed Bytes)
      → Base.empty_tree_oid work_tree git_dir git ≡ r
      → Base.same_as_empty work_tree git_dir git cancelled ref why r ≡ ok oid
      → Source oid
  same_as_empty-Source cancelled why oid (err _) e h = absurd (cc h)
  same_as_empty-Source cancelled why oid (ok empty_oid) e h =
      elim (Bool-cases (equal ref empty_oid)) [
        | inl same ↦
            let found = rw same at h in
            empty_itself (e ∙ found) ((equal_iff ref empty_oid).0 same ∙ inner empty_oid oid found)
        | inr other ↦ resolve_unborn-Source cancelled why oid (rw other at h)
      ]
    where
      inner : (a b : Bytes) → ◌≡◌ {A = Result Failed Bytes} (ok a) (ok b) → a ≡ b
      inner a b e = cc e

  resolve_found-Source :
      (first second : Bool) (oid : Bytes) (r : Result Failed Bytes)
      → Program.git_output_bytes git (Base.rev_parse_args work_tree git_dir ref) ≡ r
      → Base.resolve_found work_tree git_dir git first second ref r ≡ ok oid
      → Source oid
  resolve_found-Source first second oid (ok stdout) e h = commit stdout e (cc h)
  resolve_found-Source first second oid (err why) e h =
      elim (Bool-cases (Base.is_object_id ref && not first)) [
        | inl object ↦ same_as_empty-Source second why oid _ refl (rw object at h)
        | inr name ↦ resolve_unborn-Source second why oid (rw name at h)
      ]

  -- If `resolveBaseOID` gives an object, then git resolved the reference to a commit with this id; or
  -- the reference is itself the id of the empty tree; or it is HEAD, a symbolic reference to a branch
  -- of which git says that it does not exist, and the object is the empty tree. No other failure of
  -- git is taken for an empty base.
  pub resolve_base_oid-Source :
      (first second : Bool) (oid : Bytes)
      → Base.resolve_base_oid work_tree git_dir git first second ref ≡ ok oid
      → Source oid
  unfolding Base.resolve_base_oid
  resolve_base_oid-Source first second oid h = resolve_found-Source first second oid _ refl h
