-- ===== src/View/Apply/Took.antt =====
-- What git has got of a patch that was read.
use persona.Base.{
  ◌≤◌, ◌≡◌, ◌⊎◌, refl, sym, ap, subst, ◌∙◌, inl, inr, true, false, not, ◌||◌, List, [], ◌∷◌, All,
  Option, none, some, Result, ok, err, Bool-cases, length, arith,
}
use persona.Text.Compare.{Bytes, equal, equal_iff}
use persona.Patchio.Errors.{PatchError}
use persona.Patchio.Walk.{lines, max_patch_bytes}
use persona.Patchio.Validate.{validate_patch}
use persona.Patchio.Block.{should_skip_new_file_block}
use persona.Patchio.Block.Skip.{IsPresent, should_skip_sound}
use persona.Patchio.Filter.Blocks.{group, block_of, kept, filter_blocks}
use persona.View.Apply

abbrev pub blocks : Bytes → List (List Bytes)
blocks content = (group (lines content)).1

-- the lines of the blocks whose files the work tree does not have yet
abbrev pub rest_of : Apply.ApplyCalls → Bytes → Bytes
rest_of c content = Apply.joined (kept (should_skip_new_file_block c.tree) (blocks content))

abbrev pub LeftOutIsPresent : Apply.ApplyCalls → Bytes → Type 0
LeftOutIsPresent c content =
    All
      (λ g.
        (should_skip_new_file_block c.tree (block_of g) ≡ false) ⊎ IsPresent c.tree (block_of g))
      (blocks content)

-- git took the patch, or the rest of it in which the new files that are there already are missing
pub data Took (c : Apply.ApplyCalls) (mode content : Bytes) : List Bytes → Type 0 where
  all_of_it : c.apply content ≡ none → Took c mode content (content ∷ [])
  all_present :
      (e : Apply.GitError)
      → c.apply content ≡ some e
      → Apply.is_strict mode ≡ true
      → Apply.is_already_exists_error e ≡ true
      → LeftOutIsPresent c content
      → rest_of c content ≡ []
      → Took c mode content (content ∷ [])
  the_rest :
      (e : Apply.GitError)
      → c.apply content ≡ some e
      → Apply.is_strict mode ≡ true
      → Apply.is_already_exists_error e ≡ true
      → LeftOutIsPresent c content
      → c.apply_again (rest_of c content) ≡ none
      → Took c mode content (content ∷ rest_of c content ∷ [])

kept_or_skipped :
    (c : Apply.ApplyCalls) (gs : List (List Bytes))
    → All
        (λ g.
          (should_skip_new_file_block c.tree (block_of g) ≡ false) ⊎ IsPresent c.tree (block_of g))
        gs
kept_or_skipped c [] = tt
kept_or_skipped c (g ∷ gs) = (
  elim (Bool-cases (should_skip_new_file_block c.tree (block_of g))) [
    | inl skipped ↦ inr (should_skip_sound c.tree (block_of g) skipped)
    | inr stays ↦ inl stays
  ],
  kept_or_skipped c gs,
)

refusal-none : (o : Option Apply.GitError) → Apply.refusal o ≡ none → o ≡ none
refusal-none none h = refl
refusal-none (some e) h = absurd (cc h)

module _ (c : Apply.ApplyCalls) (mode content : Bytes) where
  retry_filtered-Took :
      (e : Apply.GitError) (skipped : List Bytes) (filtered : Bytes)
      → c.apply content ≡ some e
      → filtered ≡ rest_of c content
      → (Apply.retry_filtered c mode content e skipped filtered).error ≡ none
      → Took c mode content (Apply.retry_filtered c mode content e skipped filtered).given
  unfolding Apply.retry_filtered
  retry_filtered-Took e [] filtered a r h = absurd (cc h)
  retry_filtered-Took e (path ∷ paths) filtered a r h =
      elim (Bool-cases (not (Apply.is_strict mode) || not (Apply.is_already_exists_error e))) [
        | inl no_retry ↦ absurd (cc (rw no_retry at h))
        | inr again ↦
            let strict : Apply.is_strict mode ≡ true = ground arith in
            let exists : Apply.is_already_exists_error e ≡ true = ground arith in
            let left_out = kept_or_skipped c (blocks content) in
            elim (Bool-cases (equal filtered [])) [
              | inl empty ↦
                  rw (again, empty)
                    (all_present e a strict exists left_out
                      (sym r ∙ (equal_iff filtered []).0 empty))
              | inr more ↦
                  let k : Apply.refusal (c.apply_again filtered) ≡ none = rw (again, more) at h in
                  rw (again, more, r)
                    (the_rest e a strict exists left_out
                      (subst (λ x. c.apply_again x ≡ none) r (refusal-none _ k)))
            ]
      ]

  behind_filter-Took :
      (e : Apply.GitError) (told : PatchError → Apply.ApplyError)
      → c.apply content ≡ some e
      → length content ≤ max_patch_bytes
      → (Apply.behind_filter c mode content e told (Apply.filtered_of c content)).error ≡ none
      → Took c mode content
          (Apply.behind_filter c mode content e told (Apply.filtered_of c content)).given
  behind_filter-Took e told a small h =
      let (t, done, skipped, out) =
        filter_blocks (λ out line. true) (should_skip_new_file_block c.tree) (λ out line. refl)
          (Apply.whole content) small refl in
      rw done (
        retry_filtered-Took e t.skipped (Apply.joined t.out) a (ap Apply.joined out) (rw done at h))

  pub behind_apply-Took :
      (told : Apply.GitError → PatchError → Apply.ApplyError) (o : Option Apply.GitError)
      → c.apply content ≡ o
      → length content ≤ max_patch_bytes
      → (Apply.behind_apply c mode content told o).error ≡ none
      → Took c mode content (Apply.behind_apply c mode content told o).given
  behind_apply-Took told none a small h = all_of_it a
  behind_apply-Took told (some e) a small h = behind_filter-Took e (told e) a small h

-- what a snapshot of the patch came to
pub data Snapshot (c : Apply.ApplyCalls) (mode content : Bytes) : List Bytes → Type 0 where
  empty : content ≡ [] → Snapshot c mode content []
  valid :
      {given : List Bytes}
      → validate_patch (Apply.whole content) ≡ ok tt
      → Took c mode content given
      → Snapshot c mode content given

pub when_valid-none :
    (r : Result PatchError (Unit {0})) (onward : Apply.Applied)
    → (Apply.when_valid r onward).error ≡ none
    → (r ≡ ok tt) × (Apply.when_valid r onward ≡ onward)
when_valid-none (err why) onward h = absurd (cc h)
when_valid-none (ok tt) onward h = (refl, refl)

when_current-none :
    (o : Option Bytes) (onward : Apply.Applied)
    → (Apply.when_current o onward).error ≡ none
    → Apply.when_current o onward ≡ onward
when_current-none (some text) onward h = absurd (cc h)
when_current-none none onward h = refl

pub apply_snapshot-Snapshot :
    (c : Apply.ApplyCalls) (mode content : Bytes)
    → length content ≤ max_patch_bytes
    → (Apply.apply_snapshot c mode content).error ≡ none
    → Snapshot c mode content (Apply.apply_snapshot c mode content).given
unfolding Apply.apply_snapshot
apply_snapshot-Snapshot c mode content small h = elim (Bool-cases (equal content [])) [
  | inl none_there ↦ rw none_there (empty ((equal_iff content []).0 none_there))
  | inr some_there ↦
      let told : Apply.GitError → PatchError → Apply.ApplyError = λ e why. Apply.bad_patch why in
      let onward : Apply.Applied = Apply.behind_apply c mode content told (c.apply content) in
      let (v, same) =
        when_valid-none _ (Apply.when_current c.context onward) (rw some_there at h) in
      let k : (Apply.when_current c.context onward).error ≡ none =
        sym (ap (λ x. x.error) same) ∙ (rw some_there at h) in
      let same2 = when_current-none c.context onward k in
      let m : onward.error ≡ none = sym (ap (λ x. x.error) same2) ∙ k in
      rw some_there (
        valid v (
          subst (λ x. Took c mode content x.given) (sym (same ∙ same2))
            (behind_apply-Took c mode content told (c.apply content) refl small m)))
]
