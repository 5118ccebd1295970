-- ===== src/Tests/Views.antt =====
-- A view with two new files, and one with an ignored file.
use persona.Base.{
  ◌*◌, ◌≡◌, ◌↔◌, Has, refl, inl, inr, arith, true, false, [], ◌∷◌, ◌++◌, List, none, ok, pos,
}
use persona.Text.Compare.{Bytes, codes, equal, has_prefix}
use persona.Gitx.Program.{succeeded, exited}
use persona.Patchio.Walk.{max_patch_bytes}
use persona.View.Export
use persona.View.Export.Whole.{
  takes_all, text, new_text, grown, export_patch-whole, export_new-loses,
}
use persona.View.Export.Ignored.{export_patch-Ignored, WithinLimit}
use persona.View.Masks
use persona.View.Masks.Mounted.{IsKept, mask_ignored_files-IsKept}
use persona.View.Masks.Guarded.{IsGuarded, mask_ignored_files-IsGuarded}
use persona.View.Child

abbrev pub exports : Export.ExportCalls
exports = record {
  snapshot = none;
  list_ignored = ok (codes "i" ∷ []);
  diff_head = λ excluded. ok (record { pieces = codes "d" ∷ []; exit = succeeded });
  list_untracked = ok (codes "b" ∷ codes "a" ∷ codes "p.lock" ∷ []);
  lstat = λ path. Export.ordinary;
  diff_new = λ path. Export.diffed (record { pieces = path ∷ []; exit = exited 1 });
  sink = takes_all;
}

test_export_patch :
    Export.export_patch exports true (codes "p") (pos 2) (codes "i" ∷ [])
    ≡ (record { out = codes "dab"; bytes = 3 }, none)
unfolding persona.Text.Sort.sort persona.Patchio.Untracked.filter_untracked_paths
    Export.patch_state_rel_paths equal has_prefix persona.Patchio.Quoting.drop_last
    persona.Text.Sort.insert persona.Text.Sort.not_above Export.export_patch Export.check_ignored
    Export.check_ignored_limit Export.outside persona.Gitx.Clean.has Export.export_views
    Export.git_diff_to_writer Export.copy_pieces Export.limited_write
    persona.Patchio.Walk.check_patch_size Export.export_new
test_export_patch = refl

abbrev done : Export.Limited
done = record { out = codes "dab"; bytes = 3 }

test_to_export :
    Export.to_export
      (codes "b" ∷ codes "a" ∷ codes "p.lock" ∷ [])
      (Export.patch_state_rel_paths true (codes "p"))
    ≡ codes "a" ∷ codes "b" ∷ []
unfolding persona.Text.Sort.sort persona.Patchio.Untracked.filter_untracked_paths
    Export.patch_state_rel_paths equal has_prefix persona.Patchio.Quoting.drop_last
    persona.Text.Sort.insert persona.Text.Sort.not_above
test_to_export = refl

export_patch-whole_example :
    codes "dab"
    ≡ text (codes "d" ∷ [])
      ++ new_text exports (
          Export.to_export
            (codes "b" ∷ codes "a" ∷ codes "p.lock" ∷ [])
            (Export.patch_state_rel_paths true (codes "p")))
export_patch-whole_example =
    export_patch-whole exports true (codes "p") (pos 2) (codes "i" ∷ [])
      (codes "b" ∷ codes "a" ∷ codes "p.lock" ∷ [])
      (record { pieces = codes "d" ∷ []; exit = succeeded }) done refl refl refl
      (rw test_to_export (omega arith)) test_export_patch

abbrev full : Export.Limited
full = record { out = []; bytes = max_patch_bytes }

-- the export goes on to the next file
export_new-loses_example :
    Export.export_new exports (codes "a" ∷ codes "b" ∷ []) full
    ≡ Export.export_new exports (codes "b" ∷ []) (grown full (text []))
export_new-loses_example =
    export_new-loses exports (codes "a") (codes "b" ∷ []) [] [] (codes "a") full refl refl refl
      (omega arith) (omega arith)

export_patch-Ignored_example :
    (now : List Bytes) × (exports.list_ignored ≡ ok now)
    × WithinLimit (pos 2) now
    × WithinLimit (pos 2) (codes "i" ∷ [])
    × ((path : Bytes) → Has path (codes "i" ∷ []) ↔ Has path now)
export_patch-Ignored_example =
    export_patch-Ignored exports true (codes "p") (pos 2) (codes "i" ∷ []) done (λ e. cc e)
      test_export_patch

abbrev pub no_backing : Masks.BackingCalls
no_backing = record { exists = false; stat = none; create = none; close = none; mkdir = none }

abbrev pub masks : Masks.MaskCalls
masks = record {
  list_ignored = ok (codes "i" ∷ []);
  lstat = λ target. Masks.other;
  bind = λ target. Masks.bound;
  remount_ro = λ target. none;
  backing = λ target. no_backing;
  digest = λ target. codes "0123456789abcdef";
  mask_path = λ target kind file dir. none;
}

mask_ignored_files-IsKept_example :
    IsKept
      (Masks.mask_ignored_files masks
        (codes "masked")
        (pos 2)
        (codes "/r")
        (codes "/f")
        (codes "/d")).0
mask_ignored_files-IsKept_example =
    mask_ignored_files-IsKept masks (codes "masked") (pos 2) (codes "/r") (codes "/f") (codes "/d")

test_within_limit : Export.within_limit (pos 2) masks.list_ignored ≡ ok (codes "i" ∷ [])
unfolding Export.check_ignored_limit
test_within_limit = refl

test_mask_ignored_files :
    (Masks.mask_ignored_files masks
      (codes "readonly")
      (pos 2)
      (codes "/r")
      (codes "/f")
      (codes "/d")).0.error
    ≡ none
unfolding Masks.mask_ignored_files Export.check_ignored_limit equal Masks.mask_all
test_mask_ignored_files = refl

mask_ignored_files-IsGuarded_example :
    ((Masks.mask_ignored_files masks
        (codes "readonly")
        (pos 2)
        (codes "/r")
        (codes "/f")
        (codes "/d")).1
      ≡ codes "i" ∷ [])
    × IsGuarded masks
        (codes "/r")
        (codes "/f")
        (codes "/d")
        (Masks.mask_ignored_files masks
          (codes "readonly")
          (pos 2)
          (codes "/r")
          (codes "/f")
          (codes "/d")).0
        (codes "i" ∷ [])
        (codes "readonly")
mask_ignored_files-IsGuarded_example =
    mask_ignored_files-IsGuarded masks (codes "readonly") (pos 2) (codes "/r") (codes "/f")
      (codes "/d") (codes "i" ∷ []) (λ e. cc e) (inr (inl refl)) test_within_limit
      test_mask_ignored_files

abbrev pub child : Child.ChildCalls
child = record {
  start = none;
  wait = Child.exited 11;
  terminate = Child.sent;
  probe = λ i. Child.sent;
  probe_again = λ i. Child.gone;
  now = λ i. 10 * i;
}

test_run_command : Child.run_command child (codes "make" ∷ []) ≡ (241, Child.killed true)
unfolding Child.run_command Child.end_group Child.probe_all Child.probe_killed
test_run_command = refl
