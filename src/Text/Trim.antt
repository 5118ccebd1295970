-- ===== src/Text/Trim.antt =====
-- Trimming twice is trimming once.
use persona.Base.{ℕ, ◌≡◌, refl, inl, inr, Bool, false, [], ◌∷◌, Bool-cases}
use persona.Text.Compare

module _ (p : ℕ → Bool) where
  keep_last_twice :
      (c : ℕ) (s : Compare.Bytes)
      → Compare.trim_right p s ≡ s
      → Compare.trim_right p (Compare.keep_last p c s) ≡ Compare.keep_last p c s
  unfolding Compare.trim_right Compare.keep_last
  keep_last_twice c [] e = elim (Bool-cases (p c)) [ inl t ↦ rw t | inr f ↦ rw (f, f) ]
  keep_last_twice c (d ∷ s) e = rw e

  trim_right_idem :
      (s : Compare.Bytes) → Compare.trim_right p (Compare.trim_right p s) ≡ Compare.trim_right p s
  unfolding Compare.trim_right
  trim_right_idem [] = refl
  trim_right_idem (c ∷ s) = keep_last_twice c (Compare.trim_right p s) (trim_right_idem s)

  -- the text is empty, or its first byte is kept
  abbrev Starts : Compare.Bytes → Type 0
  Starts [] = Unit
  Starts (c ∷ s) = p c ≡ false

  trim_left-Starts : (s : Compare.Bytes) → Starts (Compare.trim_left_func p s)
  unfolding Compare.trim_left_func
  trim_left-Starts [] = tt
  trim_left-Starts (c ∷ s) = elim (Bool-cases (p c)) [
    | inl t ↦ rw t (trim_left-Starts s)
    | inr f ↦ rw f f
  ]

  keep_last-Starts : (c : ℕ) (s : Compare.Bytes) → p c ≡ false → Starts (Compare.keep_last p c s)
  unfolding Compare.keep_last
  keep_last-Starts c [] f = rw f f
  keep_last-Starts c (d ∷ s) f = f

  trim_right-Starts : (s : Compare.Bytes) → Starts s → Starts (Compare.trim_right p s)
  unfolding Compare.trim_right
  trim_right-Starts [] h = tt
  trim_right-Starts (c ∷ s) h = keep_last-Starts c (Compare.trim_right p s) h

  trim_left_same : (s : Compare.Bytes) → Starts s → Compare.trim_left_func p s ≡ s
  unfolding Compare.trim_left_func
  trim_left_same [] h = refl
  trim_left_same (c ∷ s) h = rw h

  pub trim_func_idem :
      (s : Compare.Bytes) → Compare.trim_func p (Compare.trim_func p s) ≡ Compare.trim_func p s
  unfolding Compare.trim_func
  trim_func_idem s =
      let t = Compare.trim_left_func p s in
      rw (trim_left_same (Compare.trim_right p t) (trim_right-Starts t (trim_left-Starts s)))
        (trim_right_idem t)

pub trim_space_idem :
    (s : Compare.Bytes) → Compare.trim_space (Compare.trim_space s) ≡ Compare.trim_space s
unfolding Compare.trim_space
trim_space_idem s = trim_func_idem Compare.is_space s
