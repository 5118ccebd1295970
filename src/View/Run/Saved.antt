-- ===== src/View/Run/Saved.antt =====
-- What a run without an error has done.
use persona.Base.{
  ◌≡◌, refl, sym, subst, inl, inr, Bool, true, false, List, [], ◌∷◌, ◌++◌, Option, none, some,
  Result, ok, err, Bool-cases, if◌then◌else◌,
}
use persona.Text.Compare.{Bytes, codes, equal}
use persona.View.Failure
use persona.View.Apply.{apply_patch_store}
use persona.View.Masks
use persona.View.Masks.{mask_ignored_files}
use persona.View.Child.{run_command}
use persona.View.Export.{export_patch}
use persona.View.Run

-- A property of the end holds behind a call if it holds behind its failure and, once the call has
-- succeeded, behind what follows.
pub attempt-lem {ℓ κ} :
    {E : Type ℓ} (P : Run.Outcome → Type κ) (e : Option E) (why : Failure.Failure)
    (st : List Run.Undo) (targets : List Bytes) (onward : Run.Outcome)
    → P (Run.broke why st targets)
    → (e ≡ none → P onward)
    → P (Run.attempt e why st targets onward)
unfolding Run.attempt
attempt-lem P none why st targets onward b k = k refl
attempt-lem P (some x) why st targets onward b k = b

abbrev pub masks_of : Run.RunCalls → Run.Options → Masks.Masks × List Bytes
masks_of c o =
    mask_ignored_files c.masks o.ignored_mode o.ignored_max c.repo_root c.empty_files c.empty_dirs

-- The patch was applied, the command has run, and what it changed was exported and written.
pub record IsSaved (c : Run.RunCalls) (o : Run.Options) (r : Run.Outcome) : Type 0 where
  pub saved : r.saved ≡ true
  pub code : r.child_code ≡ (run_command c.child o.command).0
  pub applied : (apply_patch_store c.apply o.apply_mode).error ≡ none
  pub masked : (masks_of c o).0.error ≡ none
  pub exported :
      (export_patch c.export c.patch_in_repo c.patch_rel o.ignored_max (masks_of c o).1).1 ≡ none
  pub written : c.write ≡ none

module _ (c : Run.RunCalls) (o : Run.Options) where
  record SavedUnless (r : Run.Outcome) : Type 0 where
    pub fine : r.error ≡ none → IsSaved c o r

  broke-SavedUnless :
      (why : Failure.Failure) (st : List Run.Undo) (targets : List Bytes)
      → SavedUnless (Run.broke why st targets)
  broke-SavedUnless why st targets = record { fine = λ h. absurd (cc h) }

  attempt-SavedUnless {ℓ} :
      {E : Type ℓ} (e : Option E) (why : Failure.Failure) (st : List Run.Undo)
      (targets : List Bytes) (onward : Run.Outcome)
      → (e ≡ none → SavedUnless onward)
      → SavedUnless (Run.attempt e why st targets onward)
  attempt-SavedUnless e why st targets onward k =
      attempt-lem SavedUnless e why st targets onward (broke-SavedUnless why st targets) k

  module _ (applied : (apply_patch_store c.apply o.apply_mode).error ≡ none)
      (masked : (masks_of c o).0.error ≡ none) where
    save-SavedUnless :
        (commands git_mask : List Bytes) (st : List Run.Undo) (targets : List Bytes)
        → SavedUnless (
            Run.save c o commands git_mask
              (masks_of c o).1
              st
              targets
              (run_command c.child o.command).0)
    unfolding Run.save
    save-SavedUnless commands git_mask st targets =
        attempt-SavedUnless _ _ st targets _ (λ unmasked.
          attempt-SavedUnless _ _ st targets _ (λ temp.
            attempt-SavedUnless _ _ st targets _ (λ exported.
              attempt-SavedUnless _ _ st targets _ (λ rewound.
                attempt-SavedUnless _ _ st targets _ (λ written. record {
                  fine = λ h. record {
                    saved = refl;
                    code = refl;
                    applied = applied;
                    masked = masked;
                    exported = exported;
                    written = written;
                  };
                })))))

    mask_git-SavedUnless :
        (commands : List Bytes) (st : List Run.Undo) (targets : List Bytes)
        → SavedUnless (Run.mask_git_then c o commands (masks_of c o).1 st targets)
    unfolding Run.mask_git_then
    mask_git-SavedUnless commands st targets = elim (Bool-cases c.git_there) [
      | inl there ↦ simp there (
          attempt-SavedUnless c.mask_git _ st targets _ (λ fine.
            save-SavedUnless commands (Run.git_path c.repo_root ∷ []) st
              (targets ++ Run.git_path c.repo_root ∷ [])))
      | inr no_git ↦ simp no_git (save-SavedUnless commands [] st targets)
    ]

    mask_patch-SavedUnless :
        (commands paths : List Bytes) (st : List Run.Undo) (targets : List Bytes)
        → SavedUnless (Run.mask_patch_then c o commands (masks_of c o).1 paths st targets)
    unfolding Run.mask_patch_then
    mask_patch-SavedUnless commands [] st targets = mask_git-SavedUnless commands st targets
    mask_patch-SavedUnless commands (path ∷ paths) st targets =
        attempt-SavedUnless (c.mask_patch path) _ st targets _
          (λ fine. mask_patch-SavedUnless commands paths st (targets ++ path ∷ []))

  with_view-SavedUnless : (st : List Run.Undo) → SavedUnless (Run.with_view c o st)
  unfolding Run.with_view
  with_view-SavedUnless st =
      attempt-SavedUnless (apply_patch_store c.apply o.apply_mode).error _
        (Run.leave ∷ Run.unmount_masks ∷ st) [] _
        (λ applied.
          attempt-SavedUnless (masks_of c o).0.error _ (Run.leave ∷ Run.unmount_masks ∷ st)
            (masks_of c o).0.targets _
            (λ masked.
              mask_patch-SavedUnless applied masked (Run.command_masks c) (Run.command_masks c)
                (Run.leave ∷ Run.unmount_masks ∷ st) (masks_of c o).0.targets))

  demand-SavedUnless :
      (b : Bool) (why : Failure.Failure) (st : List Run.Undo) (targets : List Bytes)
      (onward : Run.Outcome)
      → SavedUnless onward
      → SavedUnless (Run.demand b why st targets onward)
  unfolding Run.demand
  demand-SavedUnless true why st targets onward k = k
  demand-SavedUnless false why st targets onward k = broke-SavedUnless why st targets

  setup_mounts-SavedUnless :
      (st : List Run.Undo) (onward : List Run.Undo → Run.Outcome)
      → ((su : List Run.Undo) → SavedUnless (onward su))
      → SavedUnless (Run.setup_mounts c st onward)
  unfolding Run.setup_mounts
  setup_mounts-SavedUnless st onward k = attempt-SavedUnless _ _ _ _ _ (λ external.
      attempt-SavedUnless _ _ _ _ _ (λ dirs. attempt-SavedUnless _ _ _ _ _ (λ files.
        attempt-SavedUnless _ _ _ _ _ (λ temp. attempt-SavedUnless _ _ _ _ _ (λ planned.
          attempt-SavedUnless _ _ _ _ _ (λ made. attempt-SavedUnless _ _ _ _ _ (λ gitdir.
            demand-SavedUnless _ _ _ _ _ (
              attempt-SavedUnless _ _ _ _ _ (λ base. attempt-SavedUnless _ _ _ _ _ (λ view. k (
                Run.unmount_view ∷ Run.unmount_base ∷ Run.unmount_gitdir ∷ Run.remove_external
                ∷ st)))))))))))

  with_base-SavedUnless : (st : List Run.Undo) → SavedUnless (Run.with_base c o st)
  unfolding Run.with_base
  with_base-SavedUnless st = attempt-SavedUnless _ _ _ _ _ (λ unshared.
      attempt-SavedUnless _ _ _ _ _
        (λ private. setup_mounts-SavedUnless st (Run.with_view c o) with_view-SavedUnless))

  if_clean-SavedUnless :
      (r : Result Bytes Bool) (st : List Run.Undo) (onward : Run.Outcome)
      → SavedUnless onward
      → SavedUnless (Run.if_clean r st onward)
  if_clean-SavedUnless (err why) st onward k = broke-SavedUnless _ st []
  if_clean-SavedUnless (ok false) st onward k = broke-SavedUnless _ st []
  if_clean-SavedUnless (ok true) st onward k = k

  if-SavedUnless :
      (b : Bool) (r s : Run.Outcome)
      → SavedUnless r
      → SavedUnless s
      → SavedUnless (if b then r else s)
  if-SavedUnless true r s h k = h
  if-SavedUnless false r s h k = k

  prepare_base-SavedUnless : (st : List Run.Undo) → SavedUnless (Run.prepare_base c o st)
  unfolding Run.prepare_base
  prepare_base-SavedUnless st = attempt-SavedUnless _ _ _ _ _ (λ resolved.
      if-SavedUnless (Run.is_repo o) _ _
        (if-SavedUnless o.allow_dirty _ _ (with_base-SavedUnless st)
          (if_clean-SavedUnless _ st (Run.with_base c o st) (with_base-SavedUnless st)))
        (if-SavedUnless (equal o.base_mode (codes "worktree")) _ _
          (attempt-SavedUnless _ _ _ _ _
            (λ added. with_base-SavedUnless (Run.remove_worktree ∷ st)))
          (broke-SavedUnless _ st [])))

  run_on_thread-SavedUnless : SavedUnless (Run.run_on_thread c o)
  unfolding Run.run_on_thread
  run_on_thread-SavedUnless = attempt-SavedUnless _ _ _ _ _ (λ h1.
      attempt-SavedUnless _ _ _ _ _ (λ h2. attempt-SavedUnless _ _ _ _ _ (λ h3.
        attempt-SavedUnless _ _ _ _ _ (λ h4. attempt-SavedUnless _ _ _ _ _ (λ h5.
          attempt-SavedUnless _ _ _ _ _ (λ h6.
            attempt-SavedUnless _ _ _ _ _
              (λ h7. attempt-SavedUnless _ _ _ _ _ (λ h8. prepare_base-SavedUnless _))))))))

-- the end with the deferred function
finish_with-fine :
    (undone : Bool) (r : Run.Outcome)
    → (Run.finish_with undone r).error ≡ none
    → (undone ≡ true) × (r.error ≡ none) × (Run.finish_with undone r ≡ r)
finish_with-fine true r h = (refl, h, refl)
finish_with-fine false r h = absurd (failed r.error refl)
  where
    failed : (e : Option Failure.Failure) → r.error ≡ e → ⊥
    failed none q = cc (simp q at h)
    failed (some why) q = cc (simp q at h)

pub run_with_options-IsSaved :
    (c : Run.RunCalls) (cleanup : Run.Undo → Option Bytes) (o : Run.Options)
    → (Run.run_with_options c cleanup o).error ≡ none
    → IsSaved c o (Run.run_with_options c cleanup o)
      × (Run.all_undone cleanup
            (Failure.should_remove_session o.keep_session none)
            (Run.run_with_options c cleanup o).stack
          ≡ true)
unfolding Run.run_with_options
run_with_options-IsSaved c cleanup o h =
    let r : Run.Outcome = Run.run_on_thread c o in
    let (undone, fine, same) =
      finish_with-fine
        (Run.all_undone cleanup (Failure.should_remove_session o.keep_session r.error) r.stack) r
        h in
    let saved = (run_on_thread-SavedUnless c o).fine fine in
    (
      subst (IsSaved c o) (sym same) saved,
      subst
          (λ x.
            Run.all_undone cleanup (Failure.should_remove_session o.keep_session none) x.stack
            ≡ true)
          (sym same)
          (subst
            (λ e.
              Run.all_undone cleanup (Failure.should_remove_session o.keep_session e) r.stack
              ≡ true)
            fine undone),
    )
