-- ===== src/Gitx/Program/Lists.antt =====
-- The lists that git writes with a zero byte behind each name are read back.
use persona.Base.{◌≡◌, ◌≢◌, refl, ap, ◌∙◌, false, List, [], ◌∷◌, ◌++◌, All, ◌==◌}
use persona.Text.Compare.{Bytes}
use persona.Text.Split.{split}
use persona.Gitx.Program

-- a name that git can write: it is not empty and has no zero byte
pub record IsName (name : Bytes) : Type 0 where
  pub filled : name ≢ []
  pub no_zero : All (λ c. (c == 0) ≡ false) name

-- the names, each with a zero byte behind it
abbrev pub null_list : List Bytes → Bytes
null_list [] = []
null_list (name ∷ names) = name ++ (0 ∷ null_list names)

split-name :
    (name rest : Bytes)
    → All (λ c. (c == 0) ≡ false) name
    → split 0 (name ++ (0 ∷ rest)) ≡ name ∷ split 0 rest
unfolding split
split-name [] rest h = refl
split-name (c ∷ name) rest (other, h) = rw (other, split-name name rest h) refl

nonempty-name :
    (name : Bytes) (names : List Bytes)
    → name ≢ []
    → Program.nonempty (name ∷ names) ≡ name ∷ Program.nonempty names
nonempty-name [] names h = absurd (h refl)
nonempty-name (c ∷ name) names h = refl

nonempty-split :
    (names : List Bytes) → All IsName names → Program.nonempty (split 0 (null_list names)) ≡ names
unfolding split
nonempty-split [] h = refl
nonempty-split (name ∷ names) (n, h) =
    rw
      (
        split-name name (null_list names) n.no_zero,
        nonempty-name name (split 0 (null_list names)) n.filled,
      )
      (ap (◌∷◌ name) (nonempty-split names h))

split_null_list-nonempty : (s : Bytes) → Program.split_null_list s ≡ Program.nonempty (split 0 s)
unfolding Program.split_null_list split
split_null_list-nonempty [] = refl
split_null_list-nonempty (c ∷ s) = refl

-- `splitNullList` gives back the names of which git has written each with a zero byte behind it, if
-- none of them is empty or has a zero byte.
pub split_null_list-null_list :
    (names : List Bytes) → All IsName names → Program.split_null_list (null_list names) ≡ names
split_null_list-null_list names h =
    split_null_list-nonempty (null_list names) ∙ nonempty-split names h
