-- ===== src/Text/Search.antt =====
-- `bytes.Contains` and `strings.Contains`: a text in a text; and the last bytes of a text.
use persona.Base.{
  ℕ, zero, suc, ◌+◌, ◌-◌, ◌≤◌, ◌<◌, ◌≡◌, refl, sym, ap, ◌∙◌, Bool, true, false, ◌||◌, [], ◌∷◌, ◌++◌,
  append-nil, arith, length, length-append, take, length-take, drop, dec_le, ◌==◌, ◌&&◌,
}
use persona.Text.Compare.{Bytes, has_prefix}

unfoldable pub contains : Bytes → Bytes → Bool
contains [] m = has_prefix [] m
contains (c ∷ s) m = has_prefix (c ∷ s) m || contains s m

abbrev pub tail : ℕ → Bytes → Bytes
tail n s = drop (length s - n) s

-- only as many bytes of a text matter as the prefix has
has_prefix-take :
    (m x p : Bytes) (n : ℕ)
    → length m ≤ length x + n
    → has_prefix (x ++ p) m ≡ has_prefix (x ++ take n p) m
unfolding has_prefix
has_prefix-take [] x p n h = refl
has_prefix-take (d ∷ m) (c ∷ x) p n h = ap (◌&&◌ (c == d)) (has_prefix-take m x p n (omega arith))
has_prefix-take (d ∷ m) [] [] (suc n) h = refl
has_prefix-take (d ∷ m) [] (c ∷ p) (suc n) h =
    ap (◌&&◌ (c == d)) (has_prefix-take m [] p n (omega arith))
has_prefix-take (d ∷ m) [] p zero h = absurd (omega arith)

has_prefix-long : (m x p : Bytes) → length m ≤ length x → has_prefix (x ++ p) m ≡ has_prefix x m
has_prefix-long m x p h =
    has_prefix-take m x p 0 (omega arith) ∙ ap (λ s. has_prefix s m) (append-nil x)

has_prefix-append_true : (m x p : Bytes) → has_prefix x m ≡ true → has_prefix (x ++ p) m ≡ true
unfolding has_prefix
has_prefix-append_true [] x p h = refl
has_prefix-append_true (d ∷ m) [] p h = absurd (cc h)
has_prefix-append_true (d ∷ m) (c ∷ x) p h = ground (arith, has_prefix-append_true m x p)

has_prefix-short : (m s : Bytes) → length s < length m → has_prefix s m ≡ false
unfolding has_prefix
has_prefix-short [] s h = absurd (omega arith)
has_prefix-short (d ∷ m) [] h = refl
has_prefix-short (d ∷ m) (c ∷ s) h = ground (arith, has_prefix-short m s (omega arith))

contains-short : (m s : Bytes) → length s < length m → contains s m ≡ false
unfolding contains
contains-short m [] h = has_prefix-short m [] h
contains-short m (c ∷ s) h =
    rw (has_prefix-short m (c ∷ s) h, contains-short m s (omega arith)) refl

pub tail-cons : (n c : ℕ) (s : Bytes) → n ≤ length s → tail n (c ∷ s) ≡ tail n s
tail-cons n c s h = ap (λ k. drop k (c ∷ s)) (one_more (length s) n h)
  where
    one_more : (a b : ℕ) → b ≤ a → suc a - b ≡ suc (a - b)
    one_more a b h = omega arith

pub tail-all : (n : ℕ) (s : Bytes) → length s ≤ n → tail n s ≡ s
tail-all n s h = ap (λ k. drop k s) (nothing (length s) n h)
  where
    nothing : (a b : ℕ) → a ≤ b → a - b ≡ 0
    nothing a b h = omega arith

pub tail-append : (n : ℕ) (w p : Bytes) → tail n (w ++ p) ≡ tail n (tail n w ++ p)
tail-append n [] p = ap (λ s. tail n (s ++ p)) (sym (tail-all n [] (omega arith)))
tail-append n (c ∷ w) p = elim (dec_le (length (c ∷ w)) n) [
  | yes short ↦ ap (λ s. tail n (s ++ p)) (sym (tail-all n (c ∷ w) short))
  | no long ↦
      tail-cons n c (w ++ p) (omega (arith, length-append w p))
      ∙ tail-append n w p
      ∙ ap (λ s. tail n (s ++ p)) (sym (tail-cons n c w (omega arith)))
]

pub tail-append_long : (n : ℕ) (w p : Bytes) → n ≤ length p → tail n (w ++ p) ≡ tail n p
tail-append_long n [] p h = refl
tail-append_long n (c ∷ w) p h =
    tail-cons n c (w ++ p) (omega (arith, length-append w p)) ∙ tail-append_long n w p h

or_false : (a : Bool) → (a || false) ≡ a
or_false a = ground arith

or_last : (a w p t : Bool) → (a || ((w || p) || t)) ≡ ((w || p) || (a || t))
or_last a w p t = ground arith

or_first : (a w p t : Bool) → (a || ((w || p) || t)) ≡ (((a || w) || p) || t)
or_first a w p t = ground arith

-- A text of n + 1 bytes occurs in a text in two parts if it does in one of them, or in the last n
-- bytes of the one with the first n bytes of the other.
pub contains-append :
    (m w p : Bytes) (n : ℕ)
    → length m ≡ suc n
    → contains (w ++ p) m ≡ (contains w m || contains p m || contains (tail n w ++ take n p) m)
unfolding contains
contains-append m [] p n h =
    rw
      (
        has_prefix-short m [] (omega (arith, h)),
        tail-all n [] (omega arith),
        contains-short m (take n p) (omega (arith, h, length-take n p)),
      )
      (sym (or_false (contains p m)))
contains-append m (c ∷ w) p n h = elim (dec_le (length (c ∷ w)) n) [
  | yes short ↦
      rw
        (
          tail-all n (c ∷ w) short,
          contains-append m w p n h,
          tail-all n w (omega arith),
          has_prefix-take m (c ∷ w) p n (omega (arith, h)),
          has_prefix-short m (c ∷ w) (omega (arith, h)),
        )
        (or_last _ (contains w m) (contains p m) (contains (w ++ take n p) m))
  | no long ↦
      rw
        (
          tail-cons n c w (omega arith),
          contains-append m w p n h,
          has_prefix-long m (c ∷ w) p (omega (arith, h)),
        )
        (or_first _ (contains w m) (contains p m) _)
]
