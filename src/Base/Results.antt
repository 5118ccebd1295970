-- ===== src/Base/Results.antt =====
-- Go's pair `(value, err)`: a value, or an error and no value.
use mathlib.Core.Path.{◌≡◌, refl}
use mathlib.Core.Logic.{◌⊎◌, inl, inr}

pub data Result {ℓ} (E : Type 0) (A : Type ℓ) : Type ℓ where
  ok : A → Result E A
  err : E → Result E A

module _ {E : Type 0} where
  infixl 5 ◌>>=◌ ◌>>◌
  abbrev pub ◌>>=◌ {ℓ κ} : {A : Type ℓ} {B : Type κ} → Result E A → (A → Result E B) → Result E B
  err why >>= k = err why
  ok v >>= k = k v

  abbrev pub ◌>>◌ {κ} : {B : Type κ} → Result E (Unit {0}) → Result E B → Result E B
  first >> second = first >>= λ _. second

  -- The first error of a sequence is its error.
  pub >>=-eq-ok {ℓ κ} :
      {A : Type ℓ} {B : Type κ} (first : Result E A) (k : A → Result E B) {w : B}
      → first >>= k ≡ ok w
      → (v : A) × (first ≡ ok v) × (k v ≡ ok w)
  >>=-eq-ok (err why) k h = cc
  >>=-eq-ok (ok v) k h = (v, refl, h)

  pub >>-eq-ok {κ} :
      {B : Type κ} (first : Result E (Unit {0})) (second : Result E B) {w : B}
      → first >> second ≡ ok w
      → (first ≡ ok tt) × (second ≡ ok w)
  >>-eq-ok (err why) second h = (cc, cc)
  >>-eq-ok (ok tt) second h = (refl, h)

  pub Result-cases {ℓ} :
      {A : Type ℓ} (r : Result E A) → ((v : A) × (r ≡ ok v)) ⊎ ((why : E) × (r ≡ err why))
  Result-cases (err why) = inr (why, refl)
  Result-cases (ok v) = inl (v, refl)
