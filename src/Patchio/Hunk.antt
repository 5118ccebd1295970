-- ===== src/Patchio/Hunk.antt =====
-- `patchHunk` and `parseHunkHeader`: `@@ -pos,count +pos,count @@`.
use persona.Base.{
  ℕ, ◌&&◌, List, [], ◌∷◌, Option, none, some, ◌==◌, if◌then◌else◌, Result, ok, err, ◌>>=◌,
}
use persona.Text.Compare.{Bytes, codes, equal}
use persona.Text.Split.{split_n}
use persona.Text.Number.{parse_uint}
use persona.Patchio.Errors.{
  PatchError, bad_hunk_header, bad_hunk_range, bad_hunk_position, bad_hunk_count,
}

-- The lines of the old and of the new file that the hunk still has to bring.
pub record Hunk : Type 0 where
  pub old : ℕ
  pub new : ℕ

abbrev pub no_hunk : Hunk
no_hunk = record { old = 0; new = 0 }

or_fail {ℓ} : {A : Type ℓ} → Option A → PatchError → Result PatchError A
or_fail none e = err e
or_fail (some a) e = ok a

-- the parts of a range, split at commas
hunk_count : List Bytes → Result PatchError ℕ
unfolding or_fail
hunk_count [] = err bad_hunk_position
hunk_count (pos ∷ []) = do _ ← or_fail (parse_uint 10 63 pos) bad_hunk_position; ok 1
hunk_count (pos ∷ count ∷ []) = do
  _ ← or_fail (parse_uint 10 63 pos) bad_hunk_position
  or_fail (parse_uint 10 63 count) bad_hunk_count
hunk_count (pos ∷ count ∷ _ ∷ _) = err bad_hunk_range

-- one round of the loop: the count of `field`, which begins with `prefix`
hunk_range : ℕ → Bytes → Result PatchError ℕ
unfolding hunk_count
hunk_range prefix [] = err bad_hunk_range
hunk_range prefix (c ∷ []) = err bad_hunk_range
hunk_range prefix (c ∷ d ∷ s) =
    if c == prefix then hunk_count (split_n b',' 3 (d ∷ s)) else err bad_hunk_range

hunk_fields : List Bytes → Result PatchError Hunk
unfolding hunk_range
hunk_fields (first ∷ old ∷ new ∷ last ∷ _) =
    if equal first (codes "@@") && equal last (codes "@@")
    then (do o ← hunk_range b'-' old; n ← hunk_range b'+' new; ok (record { old = o; new = n }))
    else err bad_hunk_header
hunk_fields _ = err bad_hunk_header

unfoldable pub parse_hunk_header : Bytes → Result PatchError Hunk
unfolding hunk_fields
parse_hunk_header line = hunk_fields (split_n b' ' 5 line)
