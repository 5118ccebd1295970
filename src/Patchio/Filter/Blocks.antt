-- ===== src/Patchio/Filter/Blocks.antt =====
-- The filter, said by the blocks of the patch: each is left out whole or written whole.
use persona.Base.{
  ◌≤◌, ◌≡◌, ◌≢◌, refl, sym, ap, ◌∙◌, Bool, true, false, List, [], ◌∷◌, ◌++◌, ok, ◌>>=◌, inl, inr,
  >>=-eq-ok, arith, length, if◌then◌else◌, Bool-cases, append_assoc, append-nil,
}
use mathlib.Core.List.{concat-ne-nil}
use persona.Text.Compare.{Bytes}
use persona.Patchio.Quoting.{trim_line}
use persona.Patchio.Walk.{Reader, lines, max_patch_bytes}
use persona.Patchio.Walk.Lines.{fold_lines, walk_patch_lines_iff}
use persona.Patchio.Block.{Block, empty_block, begin_patch_block, append_patch_block_line}
use persona.Patchio.Filter

-- The lines before the first `diff --git` line, and the blocks, each from such a line to the next.
abbrev pub group : List Bytes → List Bytes × List (List Bytes)
group [] = ([], [])
group (l ∷ ls) =
    let rest = group ls in
    if Filter.is_diff_line (trim_line l) then ([], (l ∷ rest.0) ∷ rest.1) else (l ∷ rest.0, rest.1)

abbrev pub extend : Block → List Bytes → Block
extend b [] = b
extend b (l ∷ ls) = extend (append_patch_block_line b l (trim_line l)) ls

-- what the lines of a block say of its file
abbrev pub block_of : List Bytes → Block
block_of [] = empty_block
block_of (l ∷ ls) = extend (begin_patch_block l) ls

append-lines :
    (b : Block) (l raw : Bytes) → (append_patch_block_line b l raw).lines ≡ b.lines ++ l ∷ []
unfolding append_patch_block_line
append-lines b l raw = ground arith

extend-lines : (ls : List Bytes) (b : Block) → (extend b ls).lines ≡ b.lines ++ ls
extend-lines [] b = sym (append-nil b.lines)
extend-lines (l ∷ ls) b =
    extend-lines ls (append_patch_block_line b l (trim_line l))
    ∙ rw (append-lines b l (trim_line l)) (append_assoc b.lines (l ∷ []) ls)

begin-lines : (l : Bytes) → (begin_patch_block l).lines ≡ l ∷ []
unfolding begin_patch_block
begin-lines l = refl

begin-ne : (l : Bytes) → (begin_patch_block l).lines ≢ []
begin-ne l e = cc (begin-lines l)

append-ne : (b : Block) (l : Bytes) → (append_patch_block_line b l (trim_line l)).lines ≢ []
append-ne b l e = concat-ne-nil l b.lines (sym (append-lines b l (trim_line l)) ∙ e)

block_of-lines : (ls : List Bytes) → (block_of ls).lines ≡ ls
block_of-lines [] = refl
block_of-lines (l ∷ ls) = extend-lines ls (begin_patch_block l) ∙ rw (begin-lines l)

module _ (skip : Block → Bool) where
  abbrev pub kept_lines : List Bytes → List Bytes
  kept_lines g = if skip (block_of g) then [] else g

  abbrev pub skipped_path : List Bytes → List Bytes
  skipped_path g = if skip (block_of g) then (block_of g).path ∷ [] else []

  -- the blocks that are written, and the paths of the others
  abbrev pub kept : List (List Bytes) → List Bytes
  kept [] = []
  kept (g ∷ gs) = kept_lines g ++ kept gs

  abbrev pub skipped_paths : List (List Bytes) → List Bytes
  skipped_paths [] = []
  skipped_paths (g ∷ gs) = skipped_path g ++ skipped_paths gs

  abbrev flush : Filter.State → Filter.State
  flush s = record s {
    skipped = s.skipped ++ (if skip s.current then s.current.path ∷ [] else []);
    out = s.out ++ (if skip s.current then [] else s.current.lines);
  }

  -- the blocks behind the current one
  abbrev flush_all : Filter.State → List (List Bytes) → Filter.State
  flush_all s [] = flush s
  flush_all s (g ∷ gs) = flush_all (record (flush s) { current = block_of g }) gs

  flush-out :
      (s : Filter.State) (g : List Bytes)
      → s.current ≡ block_of g
      → (flush s).out ≡ s.out ++ kept_lines g
  flush-out s g e = rw (e, block_of-lines g)

  flush-skipped :
      (s : Filter.State) (g : List Bytes)
      → s.current ≡ block_of g
      → (flush s).skipped ≡ s.skipped ++ skipped_path g
  flush-skipped s g e = rw e

  flush_all-out :
      (gs : List (List Bytes)) (s : Filter.State) (g : List Bytes)
      → s.current ≡ block_of g
      → (flush_all s gs).out ≡ s.out ++ kept (g ∷ gs)
  flush_all-out [] s g e = rw append-nil (flush-out s g e)
  flush_all-out (h ∷ gs) s g e =
      flush_all-out gs (record (flush s) { current = block_of h }) h refl
      ∙ ap (λ o. o ++ kept (h ∷ gs)) (flush-out s g e)
      ∙ append_assoc s.out (kept_lines g) (kept (h ∷ gs))

  flush_all-skipped :
      (gs : List (List Bytes)) (s : Filter.State) (g : List Bytes)
      → s.current ≡ block_of g
      → (flush_all s gs).skipped ≡ s.skipped ++ skipped_paths (g ∷ gs)
  flush_all-skipped [] s g e = rw append-nil (flush-skipped s g e)
  flush_all-skipped (h ∷ gs) s g e =
      flush_all-skipped gs (record (flush s) { current = block_of h }) h refl
      ∙ ap (λ o. o ++ skipped_paths (h ∷ gs)) (flush-skipped s g e)
      ∙ append_assoc s.skipped (skipped_path g) (skipped_paths (h ∷ gs))

module _ (accepts : List Bytes → Bytes → Bool) (skip : Block → Bool)
    (all_accepted : (out : List Bytes) (line : Bytes) → accepts out line ≡ true) where
  has_lines-ne : (ls : List Bytes) → ls ≢ [] → Filter.has_lines ls ≡ true
  unfolding Filter.has_lines
  has_lines-ne [] h = absurd (h refl)
  has_lines-ne (l ∷ ls) h = refl

  write_lines-append : (ls out : List Bytes) → Filter.write_lines accepts out ls ≡ ok (out ++ ls)
  unfolding Filter.write_lines
  write_lines-append [] out = ap ok (sym (append-nil out))
  write_lines-append (l ∷ ls) out =
      rw (all_accepted out l)
        (write_lines-append ls (out ++ l ∷ []) ∙ ap ok (append_assoc out (l ∷ []) ls))

  abbrev live : Block → List Bytes → List Bytes → Filter.State
  live b skipped out = record { seen_diff = true; current = b; skipped = skipped; out = out }

  flush_current-flush :
      (b : Block) (sk o : List Bytes)
      → b.lines ≢ []
      → Filter.flush_current accepts skip (live b sk o) ≡ ok (flush skip (live b sk o))
  unfolding Filter.flush_current
  flush_current-flush b sk o some_ = elim (Bool-cases (skip b)) [
    | inl left_out ↦ rw (has_lines-ne b.lines some_, left_out, append-nil o)
    | inr written ↦
        rw (has_lines-ne b.lines some_, written, write_lines-append b.lines o, append-nil sk)
  ]

  -- from a state with a current block
  fold-flush_all :
      (ls : List Bytes) (b : Block) (sk o : List Bytes)
      → b.lines ≢ []
      → (fold_lines (Filter.filter_line accepts skip) (live b sk o) ls
          >>= Filter.finish_filter accepts skip)
        ≡ ok (flush_all skip (live (extend b (group ls).0) sk o) (group ls).1)
  unfolding Filter.filter_line Filter.finish_filter
  fold-flush_all [] b sk o some_ = flush_current-flush b sk o some_
  fold-flush_all (l ∷ ls) b sk o some_ = elim (Bool-cases (Filter.is_diff_line (trim_line l))) [
    | inl starts ↦
        let s = flush skip (live b sk o) in
        rw (starts, flush_current-flush b sk o some_)
          (fold-flush_all ls (begin_patch_block l) s.skipped s.out (begin-ne l))
    | inr goes_on ↦
        rw goes_on
          (fold-flush_all ls (append_patch_block_line b l (trim_line l)) sk o (append-ne b l))
  ]

  -- before the first `diff --git` line
  fold_preamble :
      (ls : List Bytes)
      → (t : Filter.State) × ((fold_lines (Filter.filter_line accepts skip) Filter.start ls
            >>= Filter.finish_filter accepts skip)
          ≡ ok t)
        × (t.skipped ≡ skipped_paths skip (group ls).1)
        × (t.out ≡ kept skip (group ls).1)
  unfolding Filter.filter_line Filter.finish_filter
  fold_preamble [] = (Filter.start, refl, refl, refl)
  fold_preamble (l ∷ ls) = elim (Bool-cases (Filter.is_diff_line (trim_line l))) [
    | inl starts ↦
        let first = live (block_of (l ∷ (group ls).0)) [] [] in
        rw starts (
          flush_all skip first (group ls).1,
          (fold-flush_all ls (begin_patch_block l) [] [] (begin-ne l)),
          flush_all-skipped skip (group ls).1 first (l ∷ (group ls).0) refl,
          flush_all-out skip (group ls).1 first (l ∷ (group ls).0) refl,
        )
    | inr before ↦ rw before (fold_preamble ls)
  ]

  -- If the patch is at most 16 MiB long, its reader does not fail and the writer takes every line,
  -- then the filter succeeds: it writes the lines of the blocks that are not to be skipped, in
  -- order and unchanged, drops what stands before the first block, and returns the paths of the
  -- blocks that are skipped.
  pub filter_blocks :
      (r : Reader)
      → length r.content ≤ max_patch_bytes
      → r.fails ≡ false
      → (t : Filter.State) × (Filter.filter_existing_new_files accepts skip r ≡ ok t)
        × (t.skipped ≡ skipped_paths skip (group (lines r.content)).1)
        × (t.out ≡ kept skip (group (lines r.content)).1)
  unfolding Filter.filter_existing_new_files
  filter_blocks r small sound =
      let (t, done, skipped, out) = fold_preamble (lines r.content) in
      let (u, folded, finished) =
        >>=-eq-ok (fold_lines (Filter.filter_line accepts skip) Filter.start (lines r.content))
          (Filter.finish_filter accepts skip) done in
      (
        t,
        rw
            ((walk_patch_lines_iff (Filter.filter_line accepts skip) Filter.start u r).1
              (small, sound, folded))
            finished,
        skipped,
        out,
      )
