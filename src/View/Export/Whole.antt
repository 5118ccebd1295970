-- ===== src/View/Export/Whole.antt =====
-- What an export writes if it all fits, and what it does if it does not.
use persona.Base.{
  ◌+◌, ◌<◌, ◌≤◌, ◌≡◌, refl, sym, ap, subst, ◌∙◌, Bool, List, [], ◌∷◌, ◌++◌, append_assoc,
  append-nil, Option, none, some, Result, ok, err, length, length-append, take_all, le→leb,
  lt→leb_false, ==_refl, arith, ℤ,
}
use persona.Text.Compare.{Bytes}
use persona.Patchio.Walk.{max_patch_bytes, check_patch_size}
use persona.Patchio.Errors.{size_limit}
use persona.Gitx.Program.{exited}
use persona.View.Export

-- a writer that takes everything
abbrev pub takes_all : Export.Sink
takes_all out p = (length p, none)

abbrev pub text : List Bytes → Bytes
text [] = []
text (p ∷ ps) = p ++ text ps

abbrev pub grown : Export.Limited → Bytes → Export.Limited
grown w more = record { out = w.out ++ more; bytes = w.bytes + length more }

grown-grown : (w : Export.Limited) (p q : Bytes) → grown (grown w p) q ≡ grown w (p ++ q)
grown-grown w p q = λ i. record { out = append_assoc w.out p q i; bytes = sum i }
  where
    sum : (w.bytes + length p) + length q ≡ w.bytes + length (p ++ q)
    sum = omega (arith, length-append {0} p q)

grown_nothing : (w : Export.Limited) → w ≡ grown w []
grown_nothing w =
    let e : w.out ≡ w.out ++ [] = sym (append-nil w.out) in
    let f : w.bytes ≡ w.bytes + 0 = omega arith in λ i. record { out = e i; bytes = f i }

limited_write-fits :
    (p : Bytes) (w : Export.Limited)
    → w.bytes + length p ≤ max_patch_bytes
    → Export.limited_write takes_all p w ≡ (grown w p, none)
unfolding Export.limited_write check_patch_size
limited_write-fits p w h =
    rw (le→leb _ _ h, take_all (length p) p (omega arith), ==_refl (length p)) refl

limited_write-large :
    (p : Bytes) (w : Export.Limited)
    → max_patch_bytes < w.bytes + length p
    → Export.limited_write takes_all p w ≡ (w, some (Export.too_large size_limit))
unfolding Export.limited_write check_patch_size
limited_write-large p w h = rw (lt→leb_false _ _ h) refl

copy_pieces-fits :
    (ps : List Bytes) (w : Export.Limited)
    → w.bytes + length (text ps) ≤ max_patch_bytes
    → Export.copy_pieces takes_all ps w ≡ (grown w (text ps), none)
unfolding Export.copy_pieces
copy_pieces-fits [] w h = ap (λ v. (v, none)) (grown_nothing w)
copy_pieces-fits (p ∷ ps) w h =
    rw (limited_write-fits p w (omega (arith, length-append {0} p (text ps)))) (
      copy_pieces-fits ps (grown w p) (omega (arith, length-append {0} p (text ps)))
      ∙ ap (λ v. (v, none)) (grown-grown w p (text ps)))

-- the pieces up to one that does not fit
copy_pieces-stops :
    (ps : List Bytes) (p : Bytes) (more : List Bytes) (w : Export.Limited)
    → w.bytes + length (text ps) ≤ max_patch_bytes
    → max_patch_bytes < w.bytes + length (text ps) + length p
    → Export.copy_pieces takes_all (ps ++ p ∷ more) w
      ≡ (grown w (text ps), some (Export.too_large size_limit))
unfolding Export.copy_pieces
copy_pieces-stops [] p more w h k =
    rw (limited_write-large p w (omega arith))
      (ap (λ v. (v, some (Export.too_large size_limit))) (grown_nothing w))
copy_pieces-stops (q ∷ ps) p more w h k =
    rw (limited_write-fits q w (omega (arith, length-append {0} q (text ps)))) (
      copy_pieces-stops ps p more (grown w q) (omega (arith, length-append {0} q (text ps)))
        (omega (arith, length-append {0} q (text ps)))
      ∙ ap (λ v. (v, some (Export.too_large size_limit))) (grown-grown w q (text ps)))

abbrev pub diff_text : Export.NewDiff → Bytes
diff_text Export.vanished = []
diff_text (Export.broken why) = []
diff_text (Export.diffed r) = text r.pieces

abbrev pub entry_text : Export.Entry → Export.NewDiff → Bytes
entry_text Export.gone d = []
entry_text Export.special d = []
entry_text (Export.unreadable why) d = []
entry_text Export.ordinary d = diff_text d

-- the diffs of new files, of those that are there and are files or symbolic links
abbrev pub new_text : Export.ExportCalls → List Bytes → Bytes
new_text c [] = []
new_text c (path ∷ paths) = entry_text (c.lstat path) (c.diff_new path) ++ new_text c paths

and_then-eq-none :
    (r : Export.Limited × Option Export.ExportError)
    (onward : Export.Limited → Export.Limited × Option Export.ExportError) (w : Export.Limited)
    → Export.and_then r onward ≡ (w, none)
    → (v : Export.Limited) × (r ≡ (v, none)) × (onward v ≡ (w, none))
and_then-eq-none (v, none) onward w h = (v, refl, h)
and_then-eq-none (v, some why) onward w h = absurd (cc (ap (λ x. x.1) h))

git_diff-fits :
    (r : Export.DiffRun) (w v : Export.Limited)
    → w.bytes + length (text r.pieces) ≤ max_patch_bytes
    → Export.git_diff_to_writer takes_all r w ≡ (v, none)
    → v ≡ grown w (text r.pieces)
unfolding Export.git_diff_to_writer
git_diff-fits r w v h k = sym (ap (λ x. x.0) k) ∙ ap (λ x. x.0) (copy_pieces-fits r.pieces w h)

new_entry-fits :
    (c : Export.ExportCalls) (path : Bytes) (e : Export.Entry) (d : Export.NewDiff)
    (w v : Export.Limited)
    → c.sink ≡ takes_all
    → c.diff_new path ≡ d
    → w.bytes + length (entry_text e d) ≤ max_patch_bytes
    → Export.new_entry c path e w ≡ (v, none)
    → v ≡ grown w (entry_text e d)
new_entry-fits c path Export.gone d w v s q h k = sym (ap (λ x. x.0) k) ∙ grown_nothing w
new_entry-fits c path Export.special d w v s q h k = sym (ap (λ x. x.0) k) ∙ grown_nothing w
new_entry-fits c path (Export.unreadable why) d w v s q h k = absurd (cc (ap (λ x. x.1) k))
new_entry-fits c path Export.ordinary d w v s q h k =
    diffs d h (subst (λ x. Export.new_file c.sink x w ≡ (v, none)) q k)
  where
    diffs :
        (x : Export.NewDiff)
        → w.bytes + length (diff_text x) ≤ max_patch_bytes
        → Export.new_file c.sink x w ≡ (v, none)
        → v ≡ grown w (diff_text x)
    diffs Export.vanished b m = sym (ap (λ y. y.0) m) ∙ grown_nothing w
    diffs (Export.broken why) b m = absurd (cc (ap (λ y. y.1) m))
    diffs (Export.diffed r) b m =
        git_diff-fits r w v b (subst (λ z. Export.git_diff_to_writer z r w ≡ (v, none)) s m)

export_new-fits :
    (c : Export.ExportCalls) (paths : List Bytes) (w v : Export.Limited)
    → c.sink ≡ takes_all
    → w.bytes + length (new_text c paths) ≤ max_patch_bytes
    → Export.export_new c paths w ≡ (v, none)
    → v ≡ grown w (new_text c paths)
unfolding Export.export_new
export_new-fits c [] w v s h k = sym (ap (λ x. x.0) k) ∙ grown_nothing w
export_new-fits c (path ∷ paths) w v s h k =
    let first = entry_text (c.lstat path) (c.diff_new path) in
    let sum : length (first ++ new_text c paths) ≡ length first + length (new_text c paths) =
      length-append {0} first (new_text c paths) in
    let (u, now, onward) =
      and_then-eq-none (Export.new_entry c path (c.lstat path) w) (Export.export_new c paths) v k in
    let e = new_entry-fits c path (c.lstat path) (c.diff_new path) w u s refl (omega arith) now in
    let b : u.bytes ≡ w.bytes + length first = ap (λ x. x.bytes) e in
    export_new-fits c paths u v s (omega arith) onward
    ∙ ap (λ x. grown x (new_text c paths)) e
    ∙ grown-grown w first (new_text c paths)

-- If an export has no error, the writer takes everything and all of it is at most 16 MiB, then what is
-- written is the difference to the base, without the patch and its lock file, and behind it the
-- differences of the untracked files that are there and are no special files, the paths sorted and
-- without those of the patch, of its lock file and below .git.
pub export_patch-whole :
    (c : Export.ExportCalls) (patch_in_repo : Bool) (patch_rel : Bytes) (most : ℤ)
    (initial paths : List Bytes) (head : Export.DiffRun) (w : Export.Limited)
    → c.sink ≡ takes_all
    → c.diff_head (Export.patch_state_rel_paths patch_in_repo patch_rel) ≡ ok head
    → c.list_untracked ≡ ok paths
    → length (
        text head.pieces
        ++ new_text c
            (Export.to_export paths (Export.patch_state_rel_paths patch_in_repo patch_rel)))
      ≤ max_patch_bytes
    → Export.export_patch c patch_in_repo patch_rel most initial ≡ (w, none)
    → w.out
      ≡ text head.pieces
        ++ new_text c
            (Export.to_export paths (Export.patch_state_rel_paths patch_in_repo patch_rel))
unfolding Export.export_patch Export.export_views
export_patch-whole c patch_in_repo patch_rel most initial paths head w s d u fits h =
    begun c.snapshot (Export.check_ignored c most initial) h
  where
    exact : List Bytes
    exact = Export.patch_state_rel_paths patch_in_repo patch_rel

    views :
        Export.and_then
            (Export.diff_to c.sink (c.diff_head exact) Export.start)
            (Export.export_untracked c exact c.list_untracked)
          ≡ (w, none)
        → w.out ≡ text head.pieces ++ new_text c (Export.to_export paths exact)
    views k =
        let (v, first, onward) =
          and_then-eq-none (Export.diff_to c.sink (c.diff_head exact) Export.start)
            (Export.export_untracked c exact c.list_untracked) w k in
        let sum : length (text head.pieces ++ new_text c (Export.to_export paths exact))
            ≡ length (text head.pieces) + length (new_text c (Export.to_export paths exact)) =
          length-append {0} (text head.pieces) (new_text c (Export.to_export paths exact)) in
        let e : v ≡ grown Export.start (text head.pieces) =
          git_diff-fits head Export.start v (omega arith) (
            subst (λ z. Export.git_diff_to_writer z head Export.start ≡ (v, none)) s
              (subst (λ z. Export.diff_to c.sink z Export.start ≡ (v, none)) d first)) in
        let b : v.bytes ≡ 0 + length (text head.pieces) = ap (λ x. x.bytes) e in
        let news =
          export_new-fits c (Export.to_export paths exact) v w s (omega arith)
            (subst (λ z. Export.export_untracked c exact z v ≡ (w, none)) u onward) in
        ap (λ x. x.out) news ∙ ap (λ x. x.out ++ new_text c (Export.to_export paths exact)) e

    begun :
        (o : Option Bytes) (r : Result Export.ExportError (Unit {0}))
        → Export.when_snapshot o (Export.when_same r (Export.export_views c exact)) ≡ (w, none)
        → w.out ≡ text head.pieces ++ new_text c (Export.to_export paths exact)
    begun (some why) r k = absurd (cc (ap (λ x. x.1) k))
    begun none (err why) k = absurd (cc (ap (λ x. x.1) k))
    begun none (ok x) k = views k

-- If the difference of a new file comes in pieces of which one would exceed 16 MiB, and git ends with
-- 1, as it does for files that differ, then the export goes on without an error: only the pieces
-- before that one are written, and the file is cut off or missing in the patch.
pub export_new-loses :
    (c : Export.ExportCalls) (path : Bytes) (paths ps more : List Bytes) (p : Bytes)
    (w : Export.Limited)
    → c.sink ≡ takes_all
    → c.lstat path ≡ Export.ordinary
    → c.diff_new path ≡ Export.diffed (record { pieces = ps ++ p ∷ more; exit = exited 1 })
    → w.bytes + length (text ps) ≤ max_patch_bytes
    → max_patch_bytes < w.bytes + length (text ps) + length p
    → Export.export_new c (path ∷ paths) w ≡ Export.export_new c paths (grown w (text ps))
unfolding Export.export_new Export.git_diff_to_writer
export_new-loses c path paths ps more p w s l d fits large =
    simp (l, d, s, copy_pieces-stops ps p more w fits large)
