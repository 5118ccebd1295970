-- ===== src/Base/Integers.antt =====
-- Integers, as far as the sources test their sign and compare them.
use Prim.Native.Nat.{ℕ, zero, suc, compare, Ordering}
use mathlib.Core.Path.{◌≡◌}
use mathlib.Core.Logic.{◌↔◌}
use mathlib.Core.Bool.{Bool, true, false}
use native.Mathlib.Omega.{arith}

-- `negsuc n` is -(n + 1).
pub data ℤ : Type 0 where
  pos : ℕ → ℤ
  negsuc : ℕ → ℤ

abbrev pub is_negative : ℤ → Bool
is_negative (pos n) = false
is_negative (negsuc n) = true

-- `0 < z`
abbrev pub is_positive : ℤ → Bool
is_positive (pos zero) = false
is_positive (pos (suc n)) = true
is_positive (negsuc n) = false

abbrev pub same_ℤ : ℤ → ℤ → Bool
same_ℤ (pos n) (pos m) = elim (compare n m) [ Ordering.eq ↦ true | _ ↦ false ]
same_ℤ (negsuc n) (negsuc m) = elim (compare n m) [ Ordering.eq ↦ true | _ ↦ false ]
same_ℤ (pos n) (negsuc m) = false
same_ℤ (negsuc n) (pos m) = false

pub same_ℤ_iff : (z w : ℤ) → (same_ℤ z w ≡ true) ↔ (z ≡ w)
same_ℤ_iff (pos n) (pos m) = ground arith
same_ℤ_iff (negsuc n) (negsuc m) = ground arith
same_ℤ_iff (pos n) (negsuc m) = ground arith
same_ℤ_iff (negsuc n) (pos m) = ground arith
