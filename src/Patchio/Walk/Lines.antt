-- ===== src/Patchio/Walk/Lines.antt =====
-- What a walk means: the callback over all lines of a patch that is small enough.
use persona.Base.{
  ℕ, ◌+◌, ◌≤◌, ◌<◌, ◌≡◌, refl, sym, ap, ◌∙◌, ◌↔◌, inl, inr, false, List, [], ◌∷◌, ◌++◌, Result, ok,
  err, ◌>>=◌, arith, length, dec_le, fun_ext, le→leb, leb→le, lt→leb_false, take_all, length-take,
  length-append, leb, ◌==◌, if◌then◌else◌, Bool-cases, >>=-eq-ok,
}
use persona.Text.Compare.{Bytes}
use persona.Patchio.Errors.{PatchError, read_failed}
use persona.Patchio.Walk.{
  max_patch_bytes, check_patch_size, Reader, limit_reader, cons_line, lines, walk_lines,
  walk_patch_lines,
}

-- the lines, one behind the other
abbrev pub concat_lines : List Bytes → Bytes
concat_lines [] = []
concat_lines (l ∷ ls) = l ++ concat_lines ls

concat_lines-cons_line :
    (c : ℕ) (ls : List Bytes) → concat_lines (cons_line c ls) ≡ c ∷ concat_lines ls
concat_lines-cons_line c [] = refl
concat_lines-cons_line c (l ∷ ls) = refl

pub concat_lines-lines : (s : Bytes) → concat_lines (lines s) ≡ s
unfolding lines
concat_lines-lines [] = refl
concat_lines-lines (c ∷ s) = elim (Bool-cases (c == 10)) [
  | inl newline ↦ rw newline (ap (◌∷◌ c) (concat_lines-lines s))
  | inr other ↦ rw other (concat_lines-cons_line c (lines s) ∙ ap (◌∷◌ c) (concat_lines-lines s))
]

pub limit_reader_small : (m : ℕ) (r : Reader) → length r.content ≤ m → limit_reader (m + 1) r ≡ r
unfolding limit_reader
limit_reader_small m r h = rw (
  take_all (m + 1) r.content (omega arith),
  lt→leb_false (m + 1) (length r.content) (omega arith),
)

pub limit_reader_large :
    (m : ℕ) (r : Reader) → m < length r.content → length (limit_reader (m + 1) r).content ≡ m + 1
unfolding limit_reader
limit_reader_large m r h = omega (arith, length-take (m + 1) r.content)

module _ {ℓ} {S : Type ℓ} (fn : S → Bytes → Result PatchError S) where
  -- the callback over the lines, with no limit
  abbrev pub fold_lines : S → List Bytes → Result PatchError S
  fold_lines s [] = ok s
  fold_lines s (l ∷ ls) = fn s l >>= λ t. fold_lines t ls

  walk_lines_small :
      (ls : List Bytes) (size : ℕ) (s : S)
      → size + length (concat_lines ls) ≤ max_patch_bytes
      → walk_lines fn size s ls ≡ fold_lines s ls
  unfolding walk_lines check_patch_size
  walk_lines_small [] size s h = refl
  walk_lines_small (l ∷ ls) size s h =
      let total = length-append l (concat_lines ls) in
      rw (le→leb (size + length l) max_patch_bytes (omega arith)) (
        ap (λ k. fn s l >>= k)
          (fun_ext (λ t. walk_lines_small ls (size + length l) t (omega arith))))

  walk_lines_fits :
      (ls : List Bytes) (size : ℕ) (s t : S)
      → size ≤ max_patch_bytes
      → walk_lines fn size s ls ≡ ok t
      → size + length (concat_lines ls) ≤ max_patch_bytes
  unfolding walk_lines check_patch_size
  walk_lines_fits [] size s t h e = omega arith
  walk_lines_fits (l ∷ ls) size s t h e =
      elim (Bool-cases (leb (size + length l) max_patch_bytes)) [
        | inl fits ↦
            let (u, _, later) =
              >>=-eq-ok (fn s l) (λ t. walk_lines fn (size + length l) t ls) (rw fits at e) in
            let fits_later =
              walk_lines_fits ls (size + length l) u t
                (leb→le (size + length l) max_patch_bytes fits) later in
            omega (arith, length-append l (concat_lines ls))
        | inr large ↦ absurd (ground arith)
      ]

  -- A walk succeeds exactly if the patch is at most 16 MiB long, the reader does not fail, and the
  -- callback accepts every line in turn; its final state is then the callback's.
  pub walk_patch_lines_iff :
      (s t : S) (r : Reader)
      → (walk_patch_lines fn s r ≡ ok t) ↔ (
          (length r.content ≤ max_patch_bytes)
          × (r.fails ≡ false)
          × (fold_lines s (lines r.content) ≡ ok t))
  unfolding walk_patch_lines
  walk_patch_lines_iff s t r = (only_if, if_)
    where
      limited : Reader
      limited = limit_reader (max_patch_bytes + 1) r

      -- a longer patch is refused, since the walk takes one byte more than is allowed
      small_enough :
          (u : S)
          → walk_lines fn 0 s (lines limited.content) ≡ ok u
          → length r.content ≤ max_patch_bytes
      small_enough u walked = elim (dec_le (length r.content) max_patch_bytes) [
        | yes small ↦ small
        | no large ↦ absurd (
            omega (
              arith,
              limit_reader_large max_patch_bytes r (omega arith),
              ap length (concat_lines-lines limited.content),
              walk_lines_fits (lines limited.content) 0 s u (omega arith) walked,
            ))
      ]

      whole :
          length r.content ≤ max_patch_bytes
          → 0 + length (concat_lines (lines r.content)) ≤ max_patch_bytes
      whole small = omega (arith, ap length (concat_lines-lines r.content))

      only_if :
          walk_patch_lines fn s r ≡ ok t
          → (length r.content ≤ max_patch_bytes)
            × (r.fails ≡ false)
            × (fold_lines s (lines r.content) ≡ ok t)
      only_if e =
          let (u, walked, ended) =
            >>=-eq-ok (walk_lines fn 0 s (lines limited.content))
              (λ t. if limited.fails then err read_failed else ok t) e in
          let small = small_enough u walked in
          let same = limit_reader_small max_patch_bytes r small in
          let walked' = rw same at walked in
          let ended' = rw same at ended in
          let folded = sym (walk_lines_small (lines r.content) 0 s (whole small)) ∙ walked' in
          (small, ground arith, folded ∙ ground arith)

      if_ :
          (length r.content ≤ max_patch_bytes)
            × (r.fails ≡ false)
            × (fold_lines s (lines r.content) ≡ ok t)
          → walk_patch_lines fn s r ≡ ok t
      if_ (small, sound, e) = rw (
        limit_reader_small max_patch_bytes r small,
        walk_lines_small (lines r.content) 0 s (whole small),
        e,
        sound,
      )
