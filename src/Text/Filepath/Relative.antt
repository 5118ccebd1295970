-- ===== src/Text/Filepath/Relative.antt =====
-- A path that does not begin with a slash.
use persona.Base.{
  ◌≡◌, ◌≢◌, refl, inl, inr, Bool, true, false, ◌||◌, List, [], ◌∷◌, All, Bool-cases, arith,
}
use persona.Text.Compare.{Bytes, equal, equal_iff, contains_byte}
use persona.Text.Split.{split, join}
use persona.Text.Filepath
use persona.Text.Filepath.Parts.{NoSlash, split-NoSlash, backwards-All}

abbrev IsWord : Bytes → Type 0
IsWord part = (part ≢ []) × NoSlash part

dots-IsWord : IsWord Filepath.dots
unfolding contains_byte
dots-IsWord = (λ e. cc e, refl)

parent-IsWord :
    (rooted : Bool) (st : List Bytes) → All IsWord st → All IsWord (Filepath.parent rooted st)
parent-IsWord true [] h = tt
parent-IsWord false [] h = (dots-IsWord, tt)
parent-IsWord rooted (part ∷ st) (h, hs) = elim (Bool-cases (equal part Filepath.dots)) [
  | inl up ↦ rw up (dots-IsWord, (h, hs))
  | inr name ↦ rw name hs
]

clean_part-IsWord :
    (rooted : Bool) (st : List Bytes) (part : Bytes)
    → All IsWord st
    → NoSlash part
    → All IsWord (Filepath.clean_part rooted st part)
unfolding Filepath.clean_part
clean_part-IsWord rooted st part h e =
    elim (Bool-cases (equal part [] || equal part Filepath.dot)) [
      | inl nothing ↦ rw nothing h
      | inr name ↦ elim (Bool-cases (equal part Filepath.dots)) [
        | inl up ↦ rw (name, up) (parent-IsWord rooted st h)
        | inr other ↦ rw (name, other) ((λ q. ground (arith, equal_iff part []), e), h)
      ]
    ]

clean_parts-IsWord :
    (rooted : Bool) (st parts : List Bytes)
    → All IsWord st
    → All NoSlash parts
    → All IsWord (Filepath.clean_parts rooted st parts)
unfolding Filepath.clean_parts
clean_parts-IsWord rooted st [] h e = h
clean_parts-IsWord rooted st (part ∷ parts) h (e, es) =
    clean_parts-IsWord rooted (Filepath.clean_part rooted st part) parts
      (clean_part-IsWord rooted st part h e) es

rendered-is_abs :
    (parts : List Bytes)
    → All IsWord parts
    → Filepath.is_abs (Filepath.rendered false parts) ≡ false
unfolding join contains_byte
rendered-is_abs [] h = refl
rendered-is_abs ([] ∷ parts) ((filled, no_slash), hs) = absurd (filled refl)
rendered-is_abs ((c ∷ part) ∷ []) ((filled, no_slash), hs) = ground arith
rendered-is_abs ((c ∷ part) ∷ next ∷ parts) ((filled, no_slash), hs) = ground arith

-- Cleaning keeps it without a slash at its front.
pub is_abs-clean_false :
    (path : Bytes) → Filepath.is_abs path ≡ false → Filepath.is_abs (Filepath.clean path) ≡ false
unfolding Filepath.clean Filepath.parts_of
is_abs-clean_false path e = rw e (
    rendered-is_abs _ (
      backwards-All IsWord (Filepath.clean_parts false [] (split b'/' path)) []
        (clean_parts-IsWord false [] (split b'/' path) tt (split-NoSlash path)) tt))
