-- ===== src/Roots/Owner/Owned.antt =====
-- Which trees are removed.
use persona.Base.{
  ℕ, ◌≡◌, ◌≢◌, refl, sym, subst, ap, ◌∙◌, inl, inr, Bool, true, false, not, ◌||◌, List, [], ◌∷◌,
  ◌++◌, append_assoc, All, Bool-cases, arith, Result, ok, err, >>-eq-ok,
}
use persona.Text.Compare.{Bytes, codes, equal, equal_iff}
use persona.Text.Split.{split, join}
use persona.Text.Filepath
use persona.Text.Filepath.Parts.{IsPart, split-append, clean_parts-append, backwards-onto}
use persona.Text.Filepath.Relative.{is_abs-clean_false}
use persona.Text.Filepath.Clean.{split_file-is_abs, parts_of-dir, parts_of-clean, is_abs-clean}
use persona.Roots.Owner

abbrev inside : Bytes → Bytes
inside git_dir = git_dir ++ b'/' ∷ codes "persona/sessions"

sessions_root-inside :
    (c : ℕ) (s : Bytes) → Owner.sessions_root (c ∷ s) ≡ Filepath.clean (inside (c ∷ s))
unfolding Filepath.join_path join equal
sessions_root-inside c s = refl

parts_of-inside :
    (path : Bytes)
    → Filepath.is_abs path ≡ true
    → Filepath.is_abs (inside path) ≡ true
    → Filepath.parts_of (inside path)
      ≡ Filepath.parts_of path ++ codes "persona" ∷ codes "sessions" ∷ []
unfolding Filepath.parts_of Filepath.clean_parts Filepath.clean_part split equal
parts_of-inside path e k =
    rw (e, k, split-append b'/' path (codes "persona/sessions"))
      (ap (λ st. Filepath.backwards st [])
          (clean_parts-append true [] (split b'/' path) (codes "persona" ∷ codes "sessions" ∷ []))
        ∙ backwards-onto (Filepath.clean_parts true [] (split b'/' path)) []
            (codes "persona" ∷ codes "sessions" ∷ []))

-- the parts of the directory of all sessions
sessions_root-parts :
    (git_dir : Bytes)
    → Filepath.is_abs git_dir ≡ true
    → Filepath.parts_of (Owner.sessions_root git_dir)
      ≡ Filepath.parts_of git_dir ++ codes "persona" ∷ codes "sessions" ∷ []
sessions_root-parts [] e = absurd (cc e)
sessions_root-parts (c ∷ s) e =
    rw (sessions_root-inside c s) (parts_of-clean (inside (c ∷ s)) e ∙ parts_of-inside (c ∷ s) e e)

-- A relative directory has a relative path of the sessions.
sessions_root-is_abs :
    (git_dir : Bytes)
    → Filepath.is_abs git_dir ≡ false
    → Filepath.is_abs (Owner.sessions_root git_dir) ≡ false
unfolding Filepath.join_path join equal
sessions_root-is_abs [] e = is_abs-clean_false (codes "persona/sessions") refl
sessions_root-is_abs (c ∷ s) e = is_abs-clean_false (inside (c ∷ s)) e

pub record IsOwned (fs : Owner.Files) (git_dir root : Bytes) : Type 0 where
  pub id : Bytes
  pub name : IsPart id
  pub absolute : Filepath.is_abs root ≡ true
  pub place :
      Filepath.parts_of root
      ≡ Filepath.parts_of git_dir ++ codes "persona" ∷ codes "sessions" ∷ id ∷ []
  pub real : fs.lstat (Filepath.clean root) ≡ Owner.directory
  pub repository : fs.lstat git_dir ≡ Owner.directory
  pub marker :
      fs.read_file (Filepath.join_path (Filepath.clean root ∷ Owner.owner_file ∷ []))
      ≡ ok (id ++ b'\n' ∷ [])

clean-is_abs :
    (path : Bytes) → Filepath.is_abs (Filepath.clean path) ≡ true → Filepath.is_abs path ≡ true
clean-is_abs path h = elim (Bool-cases (Filepath.is_abs path)) [
  | inl abs ↦ abs
  | inr other ↦ absurd (cc (is_abs-clean_false path other))
]

dir-is_abs :
    (path : Bytes) → Filepath.is_abs path ≡ true → Filepath.is_abs (Filepath.dir path) ≡ true
unfolding Filepath.dir
dir-is_abs path h = is_abs-clean (Filepath.split_file path).0 (split_file-is_abs path h).1

clean-top :
    (path : Bytes)
    → Filepath.is_abs path ≡ true
    → Filepath.parts_of path ≡ []
    → Filepath.clean path ≡ codes "/"
unfolding Filepath.clean join
clean-top path e h = rw (e, h) refl

dir-top : Filepath.parts_of (Filepath.dir (codes "/")) ≡ []
unfolding Filepath.clean Filepath.dir Filepath.split_file Filepath.parts_of split
    Filepath.clean_parts Filepath.clean_part equal join
dir-top = refl

-- where a direct child of the directory of the sessions is
module _ (git_dir root : Bytes) (e : Filepath.is_abs (Filepath.clean root) ≡ true)
    (d : Filepath.dir (Filepath.clean root) ≡ Filepath.clean (Owner.sessions_root git_dir)) where
  sessions-is_abs : Filepath.is_abs (Owner.sessions_root git_dir) ≡ true
  sessions-is_abs =
      clean-is_abs (Owner.sessions_root git_dir)
        (subst (λ p. Filepath.is_abs p ≡ true) d (dir-is_abs (Filepath.clean root) e))

  git_dir-is_abs : Filepath.is_abs git_dir ≡ true
  git_dir-is_abs = elim (Bool-cases (Filepath.is_abs git_dir)) [
    | inl abs ↦ abs
    | inr other ↦ absurd (cc (sessions_root-is_abs git_dir other, sessions-is_abs))
  ]

  dir-parts :
      Filepath.parts_of (Filepath.dir (Filepath.clean root))
      ≡ Filepath.parts_of git_dir ++ codes "persona" ∷ codes "sessions" ∷ []
  dir-parts =
      ap Filepath.parts_of d
      ∙ parts_of-clean (Owner.sessions_root git_dir) sessions-is_abs
      ∙ sessions_root-parts git_dir git_dir-is_abs

  root_not_top : Filepath.parts_of root ≢ []
  root_not_top h = not_append (Filepath.parts_of git_dir) (
      sym dir-parts
      ∙ ap (λ p. Filepath.parts_of (Filepath.dir p)) (clean-top root (clean-is_abs root e) h)
      ∙ dir-top)
    where
      not_append : (xs : List Bytes) → xs ++ codes "persona" ∷ codes "sessions" ∷ [] ≢ []
      not_append [] q = cc q
      not_append (x ∷ xs) q = cc q

  child-place :
      (Filepath.parts_of root
        ≡ Filepath.parts_of git_dir
          ++ codes "persona" ∷ codes "sessions" ∷ Filepath.base (Filepath.clean root) ∷ [])
      × IsPart (Filepath.base (Filepath.clean root))
  child-place = placed (Filepath.parts_of root) refl
    where
      placed :
          (parts : List Bytes)
          → Filepath.parts_of root ≡ parts
          → (Filepath.parts_of root
              ≡ Filepath.parts_of git_dir
                ++ codes "persona" ∷ codes "sessions" ∷ Filepath.base (Filepath.clean root) ∷ [])
            × IsPart (Filepath.base (Filepath.clean root))
      placed [] h = absurd (root_not_top h)
      placed (first ∷ rest) h =
          let (place, name) = parts_of-dir root first rest (clean-is_abs root e) h in
          (
            place
                ∙ ap (λ ps. ps ++ Filepath.base (Filepath.clean root) ∷ []) dir-parts
                ∙ append_assoc (Filepath.parts_of git_dir) (codes "persona" ∷ codes "sessions" ∷ [])
                    (Filepath.base (Filepath.clean root) ∷ []),
            name,
          )

node_error-directory :
    (n : Owner.Node) (why : Owner.OwnerError) → Owner.node_error n why ≡ ok tt → n ≡ Owner.directory
node_error-directory Owner.directory why h = refl
node_error-directory Owner.missing why h = absurd (cc h)
node_error-directory (Owner.unreadable text) why h = absurd (cc h)
node_error-directory Owner.symlink why h = absurd (cc h)
node_error-directory Owner.special why h = absurd (cc h)
node_error-directory (Owner.regular size) why h = absurd (cc h)

all_directories-All :
    (fs : Owner.Files) (paths : List Bytes)
    → Owner.all_directories fs paths ≡ ok tt
    → All (λ path. fs.lstat path ≡ Owner.directory) paths
unfolding Owner.all_directories
all_directories-All fs [] h = tt
all_directories-All fs (path ∷ paths) h =
    let (first, rest) = >>-eq-ok _ _ h in
    (
      node_error-directory (fs.lstat path) Owner.not_directory first,
      all_directories-All fs paths rest,
    )

marker_text-lem :
    (id : Bytes) (r : Result Bytes Bytes)
    → Owner.marker_text id r ≡ ok tt
    → r ≡ ok (id ++ b'\n' ∷ [])
marker_text-lem id (err text) h = absurd (cc h)
marker_text-lem id (ok content) h = ground (arith, equal_iff content (id ++ b'\n' ∷ []))

pub validate_root-IsOwned :
    (fs : Owner.Files) (git_dir root : Bytes)
    → Owner.validate_root fs git_dir root ≡ ok tt
    → IsOwned fs git_dir root
unfolding Owner.validate_root Owner.validate_clean_root Owner.validate_marker
validate_root-IsOwned fs git_dir root h =
    elim (Bool-cases (
      not (Filepath.is_abs (Filepath.clean root))
      || not (
          equal (Filepath.dir (Filepath.clean root))
            (Filepath.clean (Owner.sessions_root git_dir))))) [
              | inl refused ↦ absurd (cc (rw refused at h))
              | inr child ↦
                  let e : Filepath.is_abs (Filepath.clean root) ≡ true = ground arith in
                  let d : Filepath.dir (Filepath.clean root)
                      ≡ Filepath.clean (Owner.sessions_root git_dir) =
                    (equal_iff _ _).0 (ground arith) in
                  let (dirs, marked) = >>-eq-ok _ _ (rw child at h) in
                  let (size, text) = >>-eq-ok _ _ marked in
                  let (place, name) = child-place git_dir root e d in
                  let (repository, (persona, (parent, (real, _)))) =
                    all_directories-All fs _ dirs in
                  record {
                    id = Filepath.base (Filepath.clean root);
                    name = name;
                    absolute = clean-is_abs root e;
                    place = place;
                    real = real;
                    repository = repository;
                    marker = marker_text-lem _ _ text;
                  }
            ]

-- `RemoveAll` removes a tree only if it is the root of the session, an absolute path whose parts are
-- those of the repository's directory, then "persona", "sessions" and one name that is neither empty
-- nor "." nor ".." and has no slash; the root and the repository's directory are directories and no
-- symbolic links, the marker in the root has just the name, and no mount is found.
pub remove_all-IsOwned :
    (fs : Owner.Files) (mounted : Result Bytes Bool) (s : Owner.Session) (tree : Bytes)
    → Owner.remove_all fs mounted s ≡ ok tree
    → (tree ≡ s.root) × (mounted ≡ ok false) × IsOwned fs s.git_dir s.root
unfolding Owner.remove_all
remove_all-IsOwned fs mounted s tree h =
    let (valid, rest) = >>-eq-ok _ _ h in
    let (same, unmounted) = removed mounted rest in
    (same, unmounted, validate_root-IsOwned fs s.git_dir s.root valid)
  where
    removed :
        (m : Result Bytes Bool)
        → Owner.unless_mounted s.root m ≡ ok tree
        → (tree ≡ s.root) × (m ≡ ok false)
    removed (err text) k = absurd (cc k)
    removed (ok true) k = absurd (cc k)
    removed (ok false) k = (cc, refl)
