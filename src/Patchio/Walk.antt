-- ===== src/Patchio/Walk.antt =====
-- `CheckPatchSize` and `walkPatchLines`: a patch is read line by line, up to a size.
pub mod Lines
use persona.Base.{
  ℕ, zero, suc, ◌+◌, ◌*◌, ◌≡◌, refl, Bool, true, false, List, [], ◌∷◌, ◌++◌, Option, none, some,
  Result, ok, err, ◌>>=◌, ◌>>◌, length, take, leb, ◌==◌, if◌then◌else◌,
}
use persona.Text.Compare.{Bytes}
use persona.Patchio.Errors.{PatchError, size_limit, read_failed}

abbrev pub max_patch_bytes : ℕ
max_patch_bytes = 16 * 1024 * 1024

unfoldable pub check_patch_size : ℕ → Result PatchError (Unit {0})
check_patch_size size = if leb size max_patch_bytes then ok tt else err size_limit

-- An `io.Reader`: the bytes that it gives, and whether it then fails instead of ending.
pub record Reader : Type 0 where
  pub content : Bytes
  pub fails : Bool

-- `io.LimitReader`: the end comes after `n` bytes, and hides what the reader has behind them.
unfoldable pub limit_reader : ℕ → Reader → Reader
limit_reader n r = record {
  content = take n r.content;
  fails = if leb n (length r.content) then false else r.fails;
}

abbrev cons_line : ℕ → List Bytes → List Bytes
cons_line c [] = (c ∷ []) ∷ []
cons_line c (l ∷ ls) = (c ∷ l) ∷ ls

-- What `ReadBytes('\n')` returns in turn: each line with its newline, the last perhaps without.
unfoldable pub lines : Bytes → List Bytes
lines [] = []
lines (c ∷ s) = let rest = lines s in if c == 10 then (c ∷ []) ∷ rest else cons_line c rest

-- The loop. `fn` is the callback, with the variables that it writes as its state.
unfoldable pub walk_lines {ℓ} :
    {S : Type ℓ} → (S → Bytes → Result PatchError S) → ℕ → S → List Bytes → Result PatchError S
walk_lines fn size s [] = ok s
walk_lines fn size s (line ∷ rest) =
    check_patch_size (size + length line)
    >> (fn s line >>= λ t. walk_lines fn (size + length line) t rest)

-- the error of the reader comes when the lines before it are dealt with
unfoldable pub walk_patch_lines {ℓ} :
    {S : Type ℓ} → (S → Bytes → Result PatchError S) → S → Reader → Result PatchError S
unfolding walk_lines
walk_patch_lines fn s r =
    let limited = limit_reader (max_patch_bytes + 1) r in
    walk_lines fn 0 s (lines limited.content) >>= λ t.
    if limited.fails then err read_failed else ok t
