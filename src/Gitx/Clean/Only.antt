-- ===== src/Gitx/Clean/Only.antt =====
-- When a work tree passes as clean.
use persona.Base.{
  ◌≡◌, refl, ap, ◌==◌, ◌↔◌, inl, inr, Bool, true, false, List, [], ◌∷◌, Has, All, Result, ok, err,
  ◌>>=◌, Bool-cases, arith,
}
use persona.Text.Compare.{Bytes, equal_iff}
use persona.Gitx.Program
use persona.Gitx.Program.{Program}
use persona.Gitx.Clean

pub has_iff : (set : List Bytes) (path : Bytes) → (Clean.has set path ≡ true) ↔ Has path set
unfolding Clean.has
has_iff [] path = (λ e. absurd (cc e), λ h. elim h [ ])
has_iff (other ∷ set) path = ground (arith, equal_iff other path, has_iff set path)

any_outside_iff :
    (set paths : List Bytes)
    → (Clean.any_outside set paths ≡ false) ↔ All (λ path. Has path set) paths
unfolding Clean.any_outside
any_outside_iff set [] = (λ e. tt, λ h. refl)
any_outside_iff set (path ∷ paths) = ground (arith, has_iff set path, any_outside_iff set paths)

all_clean_iff :
    (d c u : Result Program.Failed Bool)
    → (Clean.all_clean d c u ≡ ok true) ↔ ((d ≡ ok true) × (c ≡ ok true) × (u ≡ ok false))
unfolding Clean.all_clean
all_clean_iff (err why) c u = ground arith
all_clean_iff (ok false) c u = ground arith
all_clean_iff (ok true) (err why) u = ground arith
all_clean_iff (ok true) (ok false) u = ground arith
all_clean_iff (ok true) (ok true) (err why) = ground arith
all_clean_iff (ok true) (ok true) (ok true) = ground arith
all_clean_iff (ok true) (ok true) (ok false) = ground arith

quiet_iff : (e : Program.Exit) → (Program.quiet_of e ≡ ok true) ↔ (e ≡ Program.succeeded)
quiet_iff Program.succeeded = (λ e. refl, λ e. refl)
quiet_iff (Program.exited code) = elim (Bool-cases (code == 1)) [
  | inl one ↦ rw one (ground arith)
  | inr other ↦ rw other (ground arith)
]
quiet_iff Program.not_run = ground arith

untracked_iff :
    (set : List Bytes) (stdout : Bytes) (e : Program.Exit)
    → ((do
      out ← Program.output_of stdout e
      ok (Clean.any_outside set (Program.split_null_list out)))
        ≡ ok false)
      ↔ ((e ≡ Program.succeeded) × All (λ path. Has path set) (Program.split_null_list stdout))
untracked_iff set stdout Program.succeeded = (
  λ h. (refl, (any_outside_iff set (Program.split_null_list stdout)).0 (cc h)),
  λ h. ap ok ((any_outside_iff set (Program.split_null_list stdout)).1 h.1),
)
untracked_iff set stdout (Program.exited code) = ground arith
untracked_iff set stdout Program.not_run = ground arith

-- `IsCleanExceptUntracked` says yes exactly if git has no difference to the index, none between the
-- index and the commit, and no untracked path but those of the list.
pub is_clean_except_untracked_iff :
    (git : Program) (ignored : List Bytes)
    → (Clean.is_clean_except_untracked git ignored ≡ ok true) ↔ (
        ((git Clean.diff_args).exit ≡ Program.succeeded)
        × ((git Clean.diff_cached_args).exit ≡ Program.succeeded)
        × ((git Clean.ls_args).exit ≡ Program.succeeded)
        × All
            (λ path. Has path (Program.trimmed ignored))
            (Program.split_null_list (git Clean.ls_args).stdout))
unfolding Clean.is_clean_except_untracked Program.run_quiet Clean.has_untracked_except
    Program.git_output_bytes
is_clean_except_untracked_iff git ignored =
    let all =
      all_clean_iff (Program.run_quiet git Clean.diff_args)
        (Program.run_quiet git Clean.diff_cached_args) (Clean.has_untracked_except git ignored) in
    let diff = quiet_iff (git Clean.diff_args).exit in
    let cached = quiet_iff (git Clean.diff_cached_args).exit in
    let untracked =
      untracked_iff (Program.trimmed ignored) (git Clean.ls_args).stdout (git Clean.ls_args).exit in
    (
      λ h.
          let (d, c, u) = all.0 h in
          let (ran, inside) = untracked.0 u in (diff.0 d, cached.0 c, ran, inside),
      λ h. all.1 (diff.1 h.0, cached.1 h.1, untracked.1 (h.2, h.3)),
    )
