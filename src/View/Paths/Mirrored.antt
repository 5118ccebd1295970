-- ===== src/View/Paths/Mirrored.antt =====
-- Where the directory of git is found behind its mount.
use persona.Base.{
  ◌≡◌, refl, sym, subst, ap, ◌∙◌, inl, inr, true, false, List, [], ◌∷◌, ◌++◌, append-nil, Option,
  none, some, Result, ok, >>=-eq-ok, All, Bool-cases,
}
use persona.Text.Compare.{Bytes, equal, equal_iff, has_prefix, trim_space}
use persona.Text.Split.{split, join}
use persona.Text.Filepath
use persona.Text.Filepath.Parts.{IsPart, parts_of-IsPart}
use persona.Text.Filepath.Clean.{parts_of-clean, is_abs-clean}
use persona.Text.Filepath.Joined.{
  behind_common-lem, behind_common-All, split-joined, parts_of-join_path, parts_of-join_nothing,
  join_path-is_abs, target_parts-abs,
}
use persona.View.Paths

-- The directory of git is behind the mount where it is in the one that is mounted.
pub record IsMirrored (git_dir mount_root source found : Bytes) : Type 0 where
  pub rest : List Bytes
  pub inside : Filepath.parts_of git_dir ≡ Filepath.parts_of source ++ rest
  pub behind : Filepath.parts_of found ≡ Filepath.parts_of mount_root ++ rest

-- a path of names does not stand for the directory itself
join-dot_ne :
    (part : Bytes) (parts : List Bytes)
    → All IsPart (part ∷ parts)
    → equal (join b'/' (part ∷ parts)) Filepath.dot ≡ false
unfolding split
join-dot_ne part parts (h, hs) = elim (Bool-cases (equal (join b'/' (part ∷ parts)) Filepath.dot)) [
  | inl same ↦ absurd (
      h.no_dot (
        cc (
          sym (split-joined part parts (h, hs))
          ∙ ap (split b'/') ((equal_iff (join b'/' (part ∷ parts)) Filepath.dot).0 same))))
  | inr other ↦ other
]

leads_out-join : (parts : List Bytes) → Paths.leads_out (join b'/' (Filepath.dots ∷ parts)) ≡ true
unfolding join equal has_prefix
leads_out-join [] = refl
leads_out-join (part ∷ parts) = refl

module _ (common mount_root source found : Bytes) where
  -- a relative path that is planned does not go up, and has the parts that are left
  planned-rel_parts :
      (bs ts : List Bytes)
      → Filepath.is_abs mount_root ≡ true
      → All IsPart ts
      → Paths.planned common mount_root (Filepath.rel_parts (bs, ts)) ≡ ok (source, found)
      → (bs ≡ [])
        × (source ≡ common)
        × (Filepath.parts_of found ≡ Filepath.parts_of mount_root ++ ts)
  unfolding join equal has_prefix
  planned-rel_parts [] [] e a h =
      (refl, cc h, ap Filepath.parts_of (cc h) ∙ parts_of-join_nothing mount_root e)
  planned-rel_parts [] (t ∷ ts) e a h = elim (Bool-cases (Paths.leads_out (join b'/' (t ∷ ts)))) [
    | inl out ↦ absurd (cc (rw out at h))
    | inr stays ↦
        let k = rw (stays, join-dot_ne t ts a) at h in
        (refl, cc k, ap Filepath.parts_of (cc k) ∙ parts_of-join_path mount_root t ts e a)
  ]
  planned-rel_parts (b ∷ bs) [] e a h = absurd (cc (rw (leads_out-join (Filepath.ups bs)) at h))
  planned-rel_parts (b ∷ bs) (t ∷ ts) e a h = elim (Bool-cases (equal b Filepath.dots)) [
    | inl up ↦ absurd (cc (rw up at h))
    | inr name ↦ absurd (cc (rw (name, leads_out-join (Filepath.ups bs ++ t ∷ ts)) at h))
  ]

planned-IsMirrored :
    (git_dir mount_root common source found : Bytes)
    → Filepath.is_abs git_dir ≡ true
    → Filepath.is_abs mount_root ≡ true
    → Filepath.is_abs common ≡ true
    → Paths.planned common mount_root (Filepath.rel common git_dir) ≡ ok (source, found)
    → IsMirrored git_dir mount_root source found
unfolding Filepath.rel equal has_prefix
planned-IsMirrored git_dir mount_root common source found g m e h =
    elim (Bool-cases (equal (Filepath.clean git_dir) (Filepath.clean common))) [
      | inl same ↦
          let k = rw same at h in
          record {
            rest = [];
            inside =
                sym (parts_of-clean git_dir g)
                ∙ ap Filepath.parts_of
                    ((equal_iff (Filepath.clean git_dir) (Filepath.clean common)).0 same)
                ∙ parts_of-clean common e
                ∙ ap Filepath.parts_of (cc k)
                ∙ sym (append-nil (Filepath.parts_of source));
            behind = ap Filepath.parts_of (cc k) ∙ sym (append-nil (Filepath.parts_of mount_root));
          }
      | inr other ↦
          let ts = Filepath.parts_of git_dir in
          let k =
            rw (other, is_abs-clean common e, is_abs-clean git_dir g, target_parts-abs git_dir g) at
              h in
          let (up, here, below) =
            planned-rel_parts common mount_root source found
              (Filepath.behind_common (Filepath.parts_of common) ts).0
              (Filepath.behind_common (Filepath.parts_of common) ts).1 m
              (behind_common-All IsPart (Filepath.parts_of common) ts (parts_of-IsPart git_dir g))
              k in
          record {
            rest = (Filepath.behind_common (Filepath.parts_of common) ts).1;
            inside =
                behind_common-lem (Filepath.parts_of common) ts up
                ∙ ap
                    (λ x.
                      Filepath.parts_of x
                      ++ (Filepath.behind_common (Filepath.parts_of common) ts).1)
                    (sym here);
            behind = below;
          }
    ]

cleaned-is_abs :
    (path common : Bytes)
    → Filepath.is_abs path ≡ true
    → ◌≡◌ {A = Result Bytes Bytes} (ok (Filepath.clean path)) (ok common)
    → Filepath.is_abs common ≡ true
cleaned-is_abs path common e h =
    let same : Filepath.clean path ≡ common = cc in
    subst (λ x. Filepath.is_abs x ≡ true) same (is_abs-clean path e)

common_of-is_abs :
    (git_dir : Bytes) (content : Option Bytes) (common : Bytes)
    → Filepath.is_abs git_dir ≡ true
    → Paths.common_of git_dir content ≡ ok common
    → Filepath.is_abs common ≡ true
common_of-is_abs git_dir none common e h = cleaned-is_abs git_dir common e h
common_of-is_abs git_dir (some content) common e h =
    elim (Bool-cases (equal (trim_space content) [])) [
      | inl empty ↦ absurd (cc (rw empty at h))
      | inr named ↦ elim (Bool-cases (Filepath.is_abs (trim_space content))) [
        | inl far ↦ cleaned-is_abs (trim_space content) common far (rw (named, far) at h)
        | inr near ↦
            cleaned-is_abs (Filepath.join_path (git_dir ∷ trim_space content ∷ [])) common
              (join_path-is_abs git_dir (trim_space content) e) (rw (named, near) at h)
      ]
    ]

-- If `planGitDirMount` has a plan for a directory of git and a mount root that are absolute, whatever
-- the file commondir says, then the names that lead from the directory that is mounted to that of git
-- lead from the mount root to where the operations look for it: it is that directory, and none beside
-- the mount.
pub plan_git_dir_mount-IsMirrored :
    (git_dir mount_root source found : Bytes) (read : Result Bytes (Option Bytes))
    → Filepath.is_abs git_dir ≡ true
    → Filepath.is_abs mount_root ≡ true
    → Paths.plan_git_dir_mount git_dir mount_root read ≡ ok (source, found)
    → IsMirrored git_dir mount_root source found
unfolding Paths.plan_git_dir_mount Paths.resolve_git_common_dir
plan_git_dir_mount-IsMirrored git_dir mount_root source found read g m h =
    let (common, resolved, rest) =
      >>=-eq-ok _ (λ x. Paths.planned x mount_root (Filepath.rel x git_dir)) h in
    let (content, taken, named) = >>=-eq-ok read (Paths.common_of git_dir) resolved in
    planned-IsMirrored git_dir mount_root common source found g m
      (common_of-is_abs git_dir content common g named) rest
