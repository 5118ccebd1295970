-- ===== src/Text/Filepath/Clean.antt =====
-- A cleaned path, and its last name.
use persona.Base.{
  ℕ, ◌≡◌, ◌≢◌, refl, sym, subst, ap, ◌∙◌, inl, inr, Bool, true, false, not, ◌&&◌, List, [], ◌∷◌,
  ◌++◌, All, ◌==◌, Bool-cases, arith, if◌then◌else◌, All-map,
}
use persona.Text.Compare.{Bytes, equal, equal_iff}
use persona.Text.Split.{split, push_head, join}
use persona.Text.Filepath
use persona.Text.Filepath.Parts.{
  IsPart, NoSlash, split-join, clean_parts-kept, clean_parts-append, backwards_twice,
  parts_of-IsPart,
}

part-NoSlash : (part : Bytes) → IsPart part → NoSlash part
part-NoSlash part h = h.no_slash

parts_of-rendered :
    (parts : List Bytes)
    → All IsPart parts
    → Filepath.parts_of (Filepath.rendered true parts) ≡ parts
unfolding Filepath.parts_of Filepath.clean_parts Filepath.clean_part split join equal
parts_of-rendered [] h = refl
parts_of-rendered (part ∷ parts) h =
    rw (split-join part parts (All-map IsPart NoSlash (part ∷ parts) part-NoSlash h)) (
      ap (λ st. Filepath.backwards st []) (clean_parts-kept true [] (part ∷ parts) h)
      ∙ backwards_twice (part ∷ parts) [])

-- Cleaning a path keeps its parts.
pub parts_of-clean :
    (path : Bytes)
    → Filepath.is_abs path ≡ true
    → Filepath.parts_of (Filepath.clean path) ≡ Filepath.parts_of path
unfolding Filepath.clean
parts_of-clean path e = rw e (parts_of-rendered (Filepath.parts_of path) (parts_of-IsPart path e))

pub is_abs-clean :
    (path : Bytes) → Filepath.is_abs path ≡ true → Filepath.is_abs (Filepath.clean path) ≡ true
unfolding Filepath.clean
is_abs-clean path e = rw e refl

pub split-clean :
    (path part : Bytes) (parts : List Bytes)
    → Filepath.is_abs path ≡ true
    → Filepath.parts_of path ≡ part ∷ parts
    → split b'/' (Filepath.clean path) ≡ [] ∷ part ∷ parts
unfolding Filepath.clean split
split-clean path part parts e h =
    rw (e, h)
      (ap (◌∷◌ []) (
        split-join part parts
          (All-map IsPart NoSlash (part ∷ parts) part-NoSlash (rw h at (parts_of-IsPart path e)))))

-- the last slash of a path
split_file-none :
    (s : Bytes) → (Filepath.split_file s).0 ≡ [] → split b'/' s ≡ (Filepath.split_file s).1 ∷ []
unfolding Filepath.split_file split
split_file-none [] h = refl
split_file-none (c ∷ s) h = elim (Bool-cases (not (equal (Filepath.split_file s).0 []))) [
  | inl more ↦ absurd (cc (rw more at h))
  | inr last ↦ elim (Bool-cases (c == b'/')) [
    | inl slash ↦ absurd (cc (rw (last, slash) at h))
    | inr other ↦
        rw (last, other, split_file-none s (ground (arith, equal_iff (Filepath.split_file s).0 [])))
          refl
  ]
]

pub record Cut (s : Bytes) : Type 0 where
  pub first : Bytes
  pub front : List Bytes
  pub before : split b'/' (Filepath.split_file s).0 ≡ first ∷ (front ++ [] ∷ [])
  pub whole : split b'/' s ≡ first ∷ (front ++ (Filepath.split_file s).1 ∷ [])

pub split_file-Cut : (s : Bytes) → (Filepath.split_file s).0 ≢ [] → Cut s
unfolding Filepath.split_file split
split_file-Cut [] h = absurd (h refl)
split_file-Cut (c ∷ s) h = elim (Bool-cases (not (equal (Filepath.split_file s).0 []))) [
  | inl more ↦
      let rest = split_file-Cut s (λ q. ground (arith, equal_iff (Filepath.split_file s).0 [])) in
      elim (Bool-cases (c == b'/')) [
        | inl slash ↦ record {
          first = [];
          front = rest.first ∷ rest.front;
          before = rw (more, slash) (ap (◌∷◌ []) rest.before);
          whole = rw (more, slash) (ap (◌∷◌ []) rest.whole);
        }
        | inr other ↦ record {
          first = c ∷ rest.first;
          front = rest.front;
          before = rw (more, other) (ap (push_head c) rest.before);
          whole = rw (more, other) (ap (push_head c) rest.whole);
        }
      ]
  | inr last ↦ elim (Bool-cases (c == b'/')) [
    | inl slash ↦ record {
      first = [];
      front = [];
      before = rw (last, slash) (rw slash refl);
      whole =
          rw (last, slash)
            (ap (◌∷◌ [])
              (split_file-none s (ground (arith, equal_iff (Filepath.split_file s).0 []))));
    }
    | inr other ↦ absurd (h (rw (last, other) refl))
  ]
]

pub split_file-is_abs :
    (s : Bytes)
    → Filepath.is_abs s ≡ true
    → ((Filepath.split_file s).0 ≢ []) × (Filepath.is_abs (Filepath.split_file s).0 ≡ true)
unfolding Filepath.split_file
split_file-is_abs [] e = absurd (cc e)
split_file-is_abs (c ∷ s) e = elim (Bool-cases (not (equal (Filepath.split_file s).0 []))) [
  | inl more ↦ rw more (λ q. cc q, e)
  | inr last ↦ rw (last, e) (λ q. cc q, e)
]

pub split_file-append : (s : Bytes) → (Filepath.split_file s).0 ++ (Filepath.split_file s).1 ≡ s
unfolding Filepath.split_file
split_file-append [] = refl
split_file-append (c ∷ s) = elim (Bool-cases (not (equal (Filepath.split_file s).0 []))) [
  | inl more ↦ rw more (ap (◌∷◌ c) (split_file-append s))
  | inr last ↦
      let e : (Filepath.split_file s).0 ≡ [] =
        ground (arith, equal_iff (Filepath.split_file s).0 []) in
      elim (Bool-cases (c == b'/')) [
        | inl slash ↦ rw (last, slash) (ap (◌∷◌ c) (rw e at (split_file-append s)))
        | inr other ↦ rw (last, other) (ap (◌∷◌ c) (rw e at (split_file-append s)))
      ]
]

split_file-behind :
    (c : ℕ) (s : Bytes)
    → s ≢ []
    → (Filepath.split_file s).1 ≡ []
    → (Filepath.split_file (c ∷ s)).1 ≡ []
unfolding Filepath.split_file
split_file-behind c s h e = elim (Bool-cases (not (equal (Filepath.split_file s).0 []))) [
  | inl more ↦ rw more e
  | inr last ↦
      let a : (Filepath.split_file s).0 ≡ [] =
        ground (arith, equal_iff (Filepath.split_file s).0 []) in
      absurd (h (sym (split_file-append s) ∙ ap (λ x. x ++ (Filepath.split_file s).1) a ∙ e))
]

-- a path whose last name is not empty has no slash behind it
trim_slashes-file : (s : Bytes) → (Filepath.split_file s).1 ≢ [] → Filepath.trim_slashes s ≡ s
unfolding Filepath.split_file Filepath.trim_slashes equal
trim_slashes-file [] h = absurd (h refl)
trim_slashes-file (c ∷ []) h = elim (Bool-cases (c == b'/')) [
  | inl slash ↦ absurd (h (rw slash refl))
  | inr other ↦ rw other refl
]
trim_slashes-file (c ∷ d ∷ s) h = rw (trim_slashes-file (d ∷ s) (behind h)) (kept (c == b'/'))
  where
    kept : (b : Bool) → (if b && false then [] else c ∷ d ∷ s) ≡ c ∷ d ∷ s
    kept true = refl
    kept false = refl

    behind : (Filepath.split_file (c ∷ d ∷ s)).1 ≢ [] → (Filepath.split_file (d ∷ s)).1 ≢ []
    behind k q = k (split_file-behind c (d ∷ s) (λ r. cc r) q)

base-file :
    (s : Bytes) → (Filepath.split_file s).1 ≢ [] → Filepath.base s ≡ (Filepath.split_file s).1
unfolding Filepath.base
base-file [] h = absurd (h (unfold Filepath.split_file in refl))
base-file (c ∷ s) h =
    rw (trim_slashes-file (c ∷ s) h) (ground (arith, equal_iff (Filepath.split_file (c ∷ s)).1 []))

parts_of-front :
    (s : Bytes) (front : List Bytes)
    → Filepath.is_abs s ≡ true
    → All IsPart front
    → split b'/' s ≡ [] ∷ (front ++ [] ∷ [])
    → Filepath.parts_of s ≡ front
unfolding Filepath.parts_of Filepath.clean_parts Filepath.clean_part equal
parts_of-front s front e h p =
    rw (e, p)
      (ap (λ st. Filepath.backwards st [])
          (clean_parts-append true [] ([] ∷ front) ([] ∷ []) ∙ clean_parts-kept true [] front h)
        ∙ backwards_twice front [])

All-front : (P : Bytes → Type 0) (xs ys : List Bytes) → All P (xs ++ ys) → All P xs × All P ys
All-front P [] ys h = (tt, h)
All-front P (x ∷ xs) ys (h, hs) = let (a, b) = All-front P xs ys hs in ((h, a), b)

-- The parts of a cleaned path are those of its directory and its last name.
pub parts_of-dir :
    (path first : Bytes) (rest : List Bytes)
    → Filepath.is_abs path ≡ true
    → Filepath.parts_of path ≡ first ∷ rest
    → (Filepath.parts_of path
        ≡ Filepath.parts_of (Filepath.dir (Filepath.clean path))
          ++ Filepath.base (Filepath.clean path) ∷ [])
      × IsPart (Filepath.base (Filepath.clean path))
unfolding Filepath.dir
parts_of-dir path first rest e h =
    let root = Filepath.clean path in
    let (found, abs) = split_file-is_abs root (is_abs-clean path e) in
    let k = split_file-Cut root found in
    let same : k.first ∷ (k.front ++ (Filepath.split_file root).1 ∷ []) ≡ [] ∷ first ∷ rest =
      sym k.whole ∙ split-clean path first rest e h in
    let tail : k.front ++ (Filepath.split_file root).1 ∷ [] ≡ Filepath.parts_of path = cc in
    let (names, name) =
      All-front IsPart k.front ((Filepath.split_file root).1 ∷ [])
        (subst (All IsPart) (sym tail) (parts_of-IsPart path e)) in
    let b = base-file root name.0.filled in
    let nothing : k.first ≡ [] = cc in
    let front =
      parts_of-front (Filepath.split_file root).0 k.front abs names
        (k.before ∙ ap (λ x. x ∷ (k.front ++ [] ∷ [])) nothing) in
    (
      rw (parts_of-clean (Filepath.split_file root).0 abs, front, b) (sym tail),
      subst IsPart (sym b) name.0,
    )
