-- ===== src/Text/Filepath/Parts.antt =====
-- The parts of a path that begins with a slash.
use persona.Base.{
  ℕ, ◌≡◌, ◌≢◌, refl, inl, inr, Bool, true, false, ◌||◌, List, [], ◌∷◌, ◌++◌, All, ◌==◌, ==_refl,
  Bool-cases, arith,
}
use persona.Text.Compare.{Bytes, equal, equal_iff, contains_byte}
use persona.Text.Split.{split, push_head, join}
use persona.Text.Filepath

-- a name that stands for itself
pub record IsPart (part : Bytes) : Type 0 where
  pub filled : part ≢ []
  pub no_dot : part ≢ Filepath.dot
  pub no_dots : part ≢ Filepath.dots
  pub no_slash : contains_byte part b'/' ≡ false

abbrev pub NoSlash : Bytes → Type 0
NoSlash part = contains_byte part b'/' ≡ false

push_head-NoSlash :
    (c : ℕ) (parts : List Bytes)
    → (c == b'/') ≡ false
    → All NoSlash parts
    → All NoSlash (push_head c parts)
unfolding contains_byte
push_head-NoSlash c [] e h = (ground arith, tt)
push_head-NoSlash c (part ∷ parts) e (h, hs) = (ground arith, hs)

pub split-NoSlash : (s : Bytes) → All NoSlash (split b'/' s)
unfolding split contains_byte
split-NoSlash [] = (refl, tt)
split-NoSlash (c ∷ s) = elim (Bool-cases (c == b'/')) [
  | inl slash ↦ rw slash (refl, split-NoSlash s)
  | inr other ↦ rw other (push_head-NoSlash c (split b'/' s) other (split-NoSlash s))
]

push_head-append :
    (c : ℕ) (parts more : List Bytes)
    → parts ≢ []
    → push_head c (parts ++ more) ≡ push_head c parts ++ more
push_head-append c [] more h = absurd (h refl)
push_head-append c (part ∷ parts) more h = refl

push_head-ne : (c : ℕ) (parts : List Bytes) → push_head c parts ≢ []
push_head-ne c [] e = cc e
push_head-ne c (part ∷ parts) e = cc e

pub split-ne : (sep : ℕ) (s : Bytes) → split sep s ≢ []
unfolding split
split-ne sep [] e = cc e
split-ne sep (c ∷ s) e = elim (Bool-cases (c == sep)) [
  | inl here ↦ absurd (cc (rw here at e))
  | inr other ↦ push_head-ne c (split sep s) (rw other at e)
]

pub split-append : (sep : ℕ) (s t : Bytes) → split sep (s ++ sep ∷ t) ≡ split sep s ++ split sep t
unfolding split
split-append sep [] t = rw (==_refl sep) refl
split-append sep (c ∷ s) t = elim (Bool-cases (c == sep)) [
  | inl here ↦ rw (here, split-append sep s t) refl
  | inr other ↦
      rw (other, split-append sep s t)
        (push_head-append c (split sep s) (split sep t) (split-ne sep s))
]

pub split-part : (part : Bytes) → NoSlash part → split b'/' part ≡ part ∷ []
unfolding split contains_byte
split-part [] h = refl
split-part (c ∷ part) h = elim (Bool-cases (c == b'/')) [
  | inl slash ↦ absurd (cc (rw slash at h))
  | inr other ↦ rw (other, split-part part (rw other at h)) refl
]

pub split-join :
    (part : Bytes) (parts : List Bytes)
    → All NoSlash (part ∷ parts)
    → split b'/' (join b'/' (part ∷ parts)) ≡ part ∷ parts
unfolding join
split-join part [] (h, hs) = split-part part h
split-join part (other ∷ parts) (h, hs) =
    rw
      (
        split-append b'/' part (join b'/' (other ∷ parts)),
        split-part part h,
        split-join other parts hs,
      )
      refl

-- a part that is passed over, and one that is kept
clean_part-kept :
    (rooted : Bool) (st : List Bytes) (part : Bytes)
    → IsPart part
    → Filepath.clean_part rooted st part ≡ part ∷ st
unfolding Filepath.clean_part
clean_part-kept rooted st part h = ground (
  arith,
  equal_iff part [],
  equal_iff part Filepath.dot,
  equal_iff part Filepath.dots,
  h.filled,
  h.no_dot,
  h.no_dots,
)

pub clean_parts-kept :
    (rooted : Bool) (st parts : List Bytes)
    → All IsPart parts
    → Filepath.clean_parts rooted st parts ≡ Filepath.backwards parts st
unfolding Filepath.clean_parts
clean_parts-kept rooted st [] h = refl
clean_parts-kept rooted st (part ∷ parts) (h, hs) =
    rw (clean_part-kept rooted st part h) (clean_parts-kept rooted (part ∷ st) parts hs)

pub clean_parts-append :
    (rooted : Bool) (st parts more : List Bytes)
    → Filepath.clean_parts rooted st (parts ++ more)
      ≡ Filepath.clean_parts rooted (Filepath.clean_parts rooted st parts) more
unfolding Filepath.clean_parts
clean_parts-append rooted st [] more = refl
clean_parts-append rooted st (part ∷ parts) more =
    clean_parts-append rooted (Filepath.clean_part rooted st part) parts more

parent-IsPart : (st : List Bytes) → All IsPart st → All IsPart (Filepath.parent true st)
parent-IsPart [] h = tt
parent-IsPart (part ∷ st) (h, hs) = elim (Bool-cases (equal part Filepath.dots)) [
  | inl up ↦ absurd (h.no_dots ((equal_iff part Filepath.dots).0 up))
  | inr name ↦ rw name hs
]

clean_part-IsPart :
    (st : List Bytes) (part : Bytes)
    → All IsPart st
    → NoSlash part
    → All IsPart (Filepath.clean_part true st part)
unfolding Filepath.clean_part
clean_part-IsPart st part h e = elim (Bool-cases (equal part [] || equal part Filepath.dot)) [
  | inl nothing ↦ rw nothing h
  | inr name ↦ elim (Bool-cases (equal part Filepath.dots)) [
    | inl up ↦ rw (name, up) (parent-IsPart st h)
    | inr other ↦
        rw (name, other)
          (
            record {
              filled = λ q. ground (arith, equal_iff part []);
              no_dot = λ q. ground (arith, equal_iff part Filepath.dot);
              no_dots = λ q. ground (arith, equal_iff part Filepath.dots);
              no_slash = e;
            },
            h,
          )
  ]
]

clean_parts-IsPart :
    (st parts : List Bytes)
    → All IsPart st
    → All NoSlash parts
    → All IsPart (Filepath.clean_parts true st parts)
unfolding Filepath.clean_parts
clean_parts-IsPart st [] h e = h
clean_parts-IsPart st (part ∷ parts) h (e, es) =
    clean_parts-IsPart (Filepath.clean_part true st part) parts (clean_part-IsPart st part h e) es

pub backwards-append :
    (st more onto : List Bytes)
    → Filepath.backwards (st ++ more) onto ≡ Filepath.backwards more (Filepath.backwards st onto)
backwards-append [] more onto = refl
backwards-append (part ∷ st) more onto = backwards-append st more (part ∷ onto)

pub backwards-onto :
    (st onto more : List Bytes)
    → Filepath.backwards st (onto ++ more) ≡ Filepath.backwards st onto ++ more
backwards-onto [] onto more = refl
backwards-onto (part ∷ st) onto more = backwards-onto st (part ∷ onto) more

pub backwards_twice :
    (st onto : List Bytes)
    → Filepath.backwards (Filepath.backwards st onto) [] ≡ Filepath.backwards onto st
backwards_twice [] onto = refl
backwards_twice (part ∷ st) onto = backwards_twice st (part ∷ onto)

pub backwards-All :
    (P : Bytes → Type 0) (st onto : List Bytes)
    → All P st
    → All P onto
    → All P (Filepath.backwards st onto)
backwards-All P [] onto h k = k
backwards-All P (part ∷ st) onto (h, hs) k = backwards-All P st (part ∷ onto) hs (h, k)

-- the parts of a path that begins with a slash are names
pub parts_of-IsPart :
    (path : Bytes) → Filepath.is_abs path ≡ true → All IsPart (Filepath.parts_of path)
unfolding Filepath.parts_of
parts_of-IsPart path e = rw e (
    backwards-All IsPart (Filepath.clean_parts true [] (split b'/' path)) []
      (clean_parts-IsPart [] (split b'/' path) tt (split-NoSlash path)) tt)
