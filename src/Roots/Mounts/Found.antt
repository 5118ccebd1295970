-- ===== src/Roots/Mounts/Found.antt =====
-- Mounts are found by the lines that the kernel writes.
use persona.Base.{
  ℕ, ◌≡◌, ◌≢◌, refl, sym, ap, ◌∙◌, Bool, true, false, ◌||◌, List, [], ◌∷◌, ◌++◌, All, ◌==◌, ==_iff,
  Bool-cases, inl, inr, if◌then◌else◌,
}
use persona.Text.Compare.{Bytes, codes, has_prefix, is_space}
use persona.Roots.Mounts

-- how the kernel writes a byte of a path
abbrev pub escape : ℕ → Bytes
escape c =
    if c == b' '
    then codes "\\040"
    else if c == b'\t'
    then codes "\\011"
    else if c == b'\n'
    then codes "\\012"
    else if c == b'\\'
    then codes "\\134"
    else c ∷ []

abbrev pub encode : Bytes → Bytes
encode [] = []
encode (c ∷ s) = escape c ++ encode s

special : (c d : ℕ) (s : Bytes) → (c == d) ≡ true → d ∷ s ≡ c ∷ s
special c d s e = ap (λ x. x ∷ s) (sym ((==_iff c d).0 e))

decode-plain :
    (c : ℕ) (s : Bytes) → (c == b'\\') ≡ false → Mounts.decode (c ∷ s) ≡ c ∷ Mounts.decode s
unfolding Mounts.decode_from Mounts.replaced Mounts.escaped_at has_prefix
decode-plain c s h = rw h refl

decode-escape : (c : ℕ) (s : Bytes) → Mounts.decode (escape c ++ s) ≡ c ∷ Mounts.decode s
unfolding Mounts.decode_from Mounts.replaced Mounts.escaped_at has_prefix
decode-escape c s = elim (Bool-cases (c == b' ')) [
  | inl space ↦ rw space (special c b' ' (Mounts.decode s) space)
  | inr h1 ↦ elim (Bool-cases (c == b'\t')) [
    | inl tab ↦ rw (h1, tab) (special c b'\t' (Mounts.decode s) tab)
    | inr h2 ↦ elim (Bool-cases (c == b'\n')) [
      | inl newline ↦ rw (h1, h2, newline) (special c b'\n' (Mounts.decode s) newline)
      | inr h3 ↦ elim (Bool-cases (c == b'\\')) [
        | inl slash ↦ rw (h1, h2, h3, slash) (special c b'\\' (Mounts.decode s) slash)
        | inr h4 ↦ rw (h1, h2, h3, h4) (decode-plain c s h4)
      ]
    ]
  ]
]

pub decode-encode : (s : Bytes) → Mounts.decode (encode s) ≡ s
unfolding Mounts.decode_from
decode-encode [] = refl
decode-encode (c ∷ s) = decode-escape c (encode s) ∙ ap (◌∷◌ c) (decode-encode s)

-- a field of a line: not empty, and without white space
pub record IsWord (w : Bytes) : Type 0 where
  pub filled : w ≢ []
  pub solid : All (λ c. is_space c ≡ false) w

-- a mount as the kernel writes it: four words, the mount point, and the rest of the line
pub record Mount : Type 0 where
  pub id : Bytes
  pub parent : Bytes
  pub device : Bytes
  pub source : Bytes
  pub point : Bytes
  pub rest : Bytes

abbrev pub mount_line : Mount → Bytes
mount_line m =
    m.id
    ++ b' '
      ∷ (m.parent
          ++ b' ' ∷ (m.device ++ b' ' ∷ (m.source ++ b' ' ∷ (encode m.point ++ b' ' ∷ m.rest))))

-- The mount point is not empty, and the white space in it is what the kernel escapes.
pub record IsMount (m : Mount) : Type 0 where
  pub id : IsWord m.id
  pub parent : IsWord m.parent
  pub device : IsWord m.device
  pub source : IsWord m.source
  pub point : IsWord (encode m.point)

-- whether one of the mounts is at the path or below it
abbrev pub any_below : Bytes → List Mount → Bool
any_below root [] = false
any_below root (m ∷ ms) = Mounts.is_at_or_below root m.point || any_below root ms
