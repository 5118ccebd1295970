-- ===== src/Text/Filepath/Joined.antt =====
-- Paths that are joined, and what two paths share.
use persona.Base.{
  ◌≡◌, ◌≢◌, refl, sym, ap, ◌∙◌, inl, inr, true, List, [], ◌∷◌, ◌++◌, append-nil, All, All-map,
  Bool-cases,
}
use persona.Text.Compare.{Bytes, equal, equal_iff}
use persona.Text.Split.{split, join}
use persona.Text.Filepath
use persona.Text.Filepath.Parts.{
  IsPart, NoSlash, split-append, split-join, clean_parts-kept, clean_parts-append, backwards_twice,
  backwards-onto,
}
use persona.Text.Filepath.Clean.{parts_of-clean, is_abs-clean}

-- What stands behind two lists without what they share.
pub behind_common-lem :
    (bs ts : List Bytes)
    → (Filepath.behind_common bs ts).0 ≡ []
    → ts ≡ bs ++ (Filepath.behind_common bs ts).1
behind_common-lem [] ts h = refl
behind_common-lem (b ∷ bs) [] h = absurd (cc h)
behind_common-lem (b ∷ bs) (t ∷ ts) h = elim (Bool-cases (equal t b)) [
  | inl same ↦ rw same (
      let e : t ≡ b = (equal_iff t b).0 same in
      ap (λ x. x ∷ ts) e ∙ ap (◌∷◌ b) (behind_common-lem bs ts (rw same at h)))
  | inr other ↦ absurd (cc (rw other at h))
]

pub behind_common-All :
    (P : Bytes → Type 0) (bs ts : List Bytes) → All P ts → All P (Filepath.behind_common bs ts).1
behind_common-All P [] ts h = h
behind_common-All P (b ∷ bs) [] h = tt
behind_common-All P (b ∷ bs) (t ∷ ts) (h, hs) = elim (Bool-cases (equal t b)) [
  | inl same ↦ rw same (behind_common-All P bs ts hs)
  | inr other ↦ rw other (h, hs)
]

part-NoSlash : (part : Bytes) → IsPart part → NoSlash part
part-NoSlash part h = h.no_slash

pub split-joined :
    (part : Bytes) (parts : List Bytes)
    → All IsPart (part ∷ parts)
    → split b'/' (join b'/' (part ∷ parts)) ≡ part ∷ parts
split-joined part parts h =
    split-join part parts (All-map IsPart NoSlash (part ∷ parts) part-NoSlash h)

-- A path with a slash between has the parts of both.
parts_of-append :
    (root part : Bytes) (parts : List Bytes)
    → Filepath.is_abs root ≡ true
    → All IsPart (part ∷ parts)
    → Filepath.parts_of (root ++ b'/' ∷ join b'/' (part ∷ parts))
      ≡ Filepath.parts_of root ++ part ∷ parts
unfolding Filepath.parts_of
parts_of-append [] part parts e h = absurd (cc e)
parts_of-append (c ∷ s) part parts e h =
    let st = Filepath.clean_parts true [] (split b'/' (c ∷ s)) in
    rw (e, split-append b'/' (c ∷ s) (join b'/' (part ∷ parts)), split-joined part parts h)
      (ap (λ x. Filepath.backwards x [])
          (clean_parts-append true [] (split b'/' (c ∷ s)) (part ∷ parts)
            ∙ clean_parts-kept true st (part ∷ parts) h)
        ∙ backwards_twice (part ∷ parts) st
        ∙ backwards-onto st [] (part ∷ parts))

join-ne : (part : Bytes) (parts : List Bytes) → part ≢ [] → join b'/' (part ∷ parts) ≢ []
unfolding join
join-ne [] parts h e = h refl
join-ne (c ∷ part) [] h e = cc e
join-ne (c ∷ part) (next ∷ parts) h e = cc e

pub parts_of-join_path :
    (root part : Bytes) (parts : List Bytes)
    → Filepath.is_abs root ≡ true
    → All IsPart (part ∷ parts)
    → Filepath.parts_of (Filepath.join_path (root ∷ join b'/' (part ∷ parts) ∷ []))
      ≡ Filepath.parts_of root ++ part ∷ parts
unfolding Filepath.join_path equal join
parts_of-join_path [] part parts e h = absurd (cc e)
parts_of-join_path (c ∷ s) part parts e (h, hs) =
    filled (join b'/' (part ∷ parts)) (join-ne part parts h.filled)
      (parts_of-append (c ∷ s) part parts e (h, hs))
  where
    filled :
        (path : Bytes)
        → path ≢ []
        → Filepath.parts_of ((c ∷ s) ++ b'/' ∷ path) ≡ Filepath.parts_of (c ∷ s) ++ part ∷ parts
        → Filepath.parts_of (Filepath.joined (Filepath.filled ((c ∷ s) ∷ path ∷ [])))
          ≡ Filepath.parts_of (c ∷ s) ++ part ∷ parts
    filled [] n k = absurd (n refl)
    filled (d ∷ path) n k = parts_of-clean ((c ∷ s) ++ b'/' ∷ d ∷ path) e ∙ k

pub parts_of-join_nothing :
    (root : Bytes)
    → Filepath.is_abs root ≡ true
    → Filepath.parts_of (Filepath.join_path (root ∷ [] ∷ [])) ≡ Filepath.parts_of root ++ []
unfolding Filepath.join_path join equal
parts_of-join_nothing [] e = absurd (cc e)
parts_of-join_nothing (c ∷ s) e =
    parts_of-clean (c ∷ s) e ∙ sym (append-nil (Filepath.parts_of (c ∷ s)))

-- a clean path that begins with a slash is not "."
pub target_parts-abs :
    (path : Bytes)
    → Filepath.is_abs path ≡ true
    → Filepath.target_parts path ≡ Filepath.parts_of path
target_parts-abs path e = elim (Bool-cases (equal (Filepath.clean path) Filepath.dot)) [
  | inl same ↦ absurd (
      cc (
        sym (is_abs-clean path e)
        ∙ ap Filepath.is_abs ((equal_iff (Filepath.clean path) Filepath.dot).0 same)))
  | inr other ↦ rw other refl
]

pub join_path-is_abs :
    (root path : Bytes)
    → Filepath.is_abs root ≡ true
    → Filepath.is_abs (Filepath.join_path (root ∷ path ∷ [])) ≡ true
unfolding Filepath.join_path join equal
join_path-is_abs [] path e = absurd (cc e)
join_path-is_abs (c ∷ s) [] e = is_abs-clean (c ∷ s) e
join_path-is_abs (c ∷ s) (d ∷ path) e = is_abs-clean ((c ∷ s) ++ b'/' ∷ d ∷ path) e
