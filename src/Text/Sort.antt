-- ===== src/Text/Sort.antt =====
-- `sort.Strings`: the names in the order of their bytes.
use persona.Base.{
  ◌↔◌, inl, inr, Bool, true, false, ◌&&◌, ◌||◌, List, [], ◌∷◌, Has, ltb, ◌==◌, Bool-cases,
  if◌then◌else◌,
}
use persona.Text.Compare.{Bytes}

-- `a <= b`
unfoldable pub not_above : Bytes → Bytes → Bool
not_above [] b = true
not_above (c ∷ a) [] = false
not_above (c ∷ a) (d ∷ b) = ltb c d || (c == d && not_above a b)

unfoldable pub insert : Bytes → List Bytes → List Bytes
insert name [] = name ∷ []
insert name (other ∷ names) =
    let rest = insert name names in
    if not_above name other then name ∷ other ∷ names else other ∷ rest

unfoldable pub sort : List Bytes → List Bytes
sort [] = []
sort (name ∷ names) = insert name (sort names)

Has-insert :
    (x name : Bytes) (names : List Bytes) → Has x (insert name names) ↔ Has x (name ∷ names)
unfolding insert
Has-insert x name [] = (λ h. h, λ h. h)
Has-insert x name (other ∷ names) = elim (Bool-cases (not_above name other)) [
  | inl first ↦ rw first (λ h. h, λ h. h)
  | inr later ↦
      let (out, back) = Has-insert x name names in
      rw later (
        λ h. elim h [
          | inl e ↦ inr (inl e)
          | inr m ↦ elim (out m) [ inl e ↦ inl e | inr k ↦ inr (inr k) ]
        ],
        λ h. elim h [
          | inl e ↦ inr (back (inl e))
          | inr m ↦ elim m [ inl e ↦ inl e | inr k ↦ inr (back (inr k)) ]
        ],
      )
]

-- Sorting keeps the names.
pub Has-sort : (x : Bytes) (names : List Bytes) → Has x (sort names) ↔ Has x names
unfolding sort
Has-sort x [] = (λ h. h, λ h. h)
Has-sort x (name ∷ names) =
    let (out, back) = Has-insert x name (sort names) in
    let (out2, back2) = Has-sort x names in
    (
      λ h. elim (out h) [ inl e ↦ inl e | inr m ↦ inr (out2 m) ],
      λ h. back (elim h [ inl e ↦ inl e | inr m ↦ inr (back2 m) ]),
    )
