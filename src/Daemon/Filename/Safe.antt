-- ===== src/Daemon/Filename/Safe.antt =====
-- What a safe name is made of, and what trimming does to it.
use persona.Base.{
  ℕ, zero, suc, ◌≤◌, ◌≡◌, refl, ap, ◌∙◌, Bool, false, List, [], ◌∷◌, All, length, Bool-cases, inl,
  inr, arith,
}
use persona.Text.Compare.{Bytes, trim_func, trim_left_func, trim_right, keep_last}
use persona.Daemon.Filename

-- the bytes of a safe name
abbrev pub IsSafe : Bytes → Type 0
IsSafe s = All (λ c. Filename.safe_rune c ≡ c) s

safe_rune-safe : (r : ℕ) → Filename.safe_rune (Filename.safe_rune r) ≡ Filename.safe_rune r
safe_rune-safe r = ground arith

pub safe_runes-IsSafe : (k : ℕ) (s : List ℕ) → IsSafe (Filename.safe_runes k s)
unfolding Filename.safe_runes
safe_runes-IsSafe zero s = tt
safe_runes-IsSafe (suc k) [] = tt
safe_runes-IsSafe (suc k) (r ∷ s) = (safe_rune-safe r, safe_runes-IsSafe k s)

pub length-safe_runes : (k : ℕ) (s : List ℕ) → length (Filename.safe_runes k s) ≤ k
unfolding Filename.safe_runes
length-safe_runes zero s = omega arith
length-safe_runes (suc k) [] = omega arith
length-safe_runes (suc k) (r ∷ s) = omega (arith, length-safe_runes k s)

pub safe_runes_same : (k : ℕ) (s : Bytes) → IsSafe s → length s ≤ k → Filename.safe_runes k s ≡ s
unfolding Filename.safe_runes
safe_runes_same zero [] h l = refl
safe_runes_same zero (c ∷ s) h l = absurd (omega arith)
safe_runes_same (suc k) [] h l = refl
safe_runes_same (suc k) (c ∷ s) (e, h) l =
    ap (λ x. x ∷ Filename.safe_runes k s) e ∙ ap (◌∷◌ c) (safe_runes_same k s h (omega arith))

module _ (p : ℕ → Bool) where
  keep_last-IsSafe :
      (c : ℕ) (s : Bytes) → Filename.safe_rune c ≡ c → IsSafe s → IsSafe (keep_last p c s)
  unfolding keep_last
  keep_last-IsSafe c [] e h = elim (Bool-cases (p c)) [ inl t ↦ rw t tt | inr f ↦ rw f (e, tt) ]
  keep_last-IsSafe c (d ∷ s) e h = (e, h)

  pub trim_right-IsSafe : (s : Bytes) → IsSafe s → IsSafe (trim_right p s)
  unfolding trim_right
  trim_right-IsSafe [] h = tt
  trim_right-IsSafe (c ∷ s) (e, h) = keep_last-IsSafe c (trim_right p s) e (trim_right-IsSafe s h)

  pub trim_left_func-IsSafe : (s : Bytes) → IsSafe s → IsSafe (trim_left_func p s)
  unfolding trim_left_func
  trim_left_func-IsSafe [] h = tt
  trim_left_func-IsSafe (c ∷ s) (e, h) = elim (Bool-cases (p c)) [
    | inl t ↦ rw t (trim_left_func-IsSafe s h)
    | inr f ↦ rw f (e, h)
  ]

  length-keep_last : (c : ℕ) (s : Bytes) → length (keep_last p c s) ≤ suc (length s)
  unfolding keep_last
  length-keep_last c [] = elim (Bool-cases (p c)) [
    | inl t ↦ rw t (omega arith)
    | inr f ↦ rw f (omega arith)
  ]
  length-keep_last c (d ∷ s) = omega arith

  pub length-trim_right : (s : Bytes) → length (trim_right p s) ≤ length s
  unfolding trim_right
  length-trim_right [] = omega arith
  length-trim_right (c ∷ s) =
      omega (arith, length-keep_last c (trim_right p s), length-trim_right s)

  pub length-trim_left_func : (s : Bytes) → length (trim_left_func p s) ≤ length s
  unfolding trim_left_func
  length-trim_left_func [] = omega arith
  length-trim_left_func (c ∷ s) = elim (Bool-cases (p c)) [
    | inl t ↦ rw t (omega (arith, length-trim_left_func s))
    | inr f ↦ rw f (omega arith)
  ]

  -- where nothing is to be trimmed
  trim_right_same : (s : Bytes) → All (λ c. p c ≡ false) s → trim_right p s ≡ s
  unfolding trim_right keep_last
  trim_right_same [] h = refl
  trim_right_same (c ∷ []) (f, h) = rw f refl
  trim_right_same (c ∷ d ∷ s) (f, h) = rw (trim_right_same (d ∷ s) h) refl

  pub trim_func_same : (s : Bytes) → All (λ c. p c ≡ false) s → trim_func p s ≡ s
  unfolding trim_func trim_left_func
  trim_func_same [] h = trim_right_same [] h
  trim_func_same (c ∷ s) (f, h) = rw f (trim_right_same (c ∷ s) (f, h))
