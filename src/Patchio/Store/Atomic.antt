-- ===== src/Patchio/Store/Atomic.antt =====
-- The patch file is replaced at once or not at all, whatever fails and whenever the machine stops.
use persona.Base.{ℕ, ◌+◌, ◌≤◌, ◌≡◌, refl, false, none, ok, length, arith}
use persona.Patchio.Walk.{Reader, max_patch_bytes, limit_reader, check_patch_size}
use persona.Patchio.Walk.Lines.{limit_reader_small}
use persona.Replacing
use persona.Replacing.Atomic
use persona.Patchio.Store

-- every call succeeds
pub record IsSmooth (c : Store.Calls) : Type 0 where
  pub open_dir : c.dir_is_nil ≡ false
  pub random : c.random ≡ none
  pub created : c.open_temp ≡ none
  pub wrote : c.write_error ≡ none
  pub owned : c.fchown ≡ none
  pub moded : c.fchmod ≡ none
  pub synced : c.fsync ≡ none
  pub closed : c.close_temp ≡ none
  pub renamed : c.rename_temp ≡ none
  pub synced_dir : c.fsync_dir ≡ none

commit_smooth :
    (c : Store.Calls) (target : Store.Target)
    → IsSmooth c
    → (Store.commit_atomic_temp_file c target).error ≡ none
unfolding Store.commit_atomic_temp_file Store.commit_finished
commit_smooth c target s = ground arith

small_size : (m n : ℕ) → m ≡ max_patch_bytes → n ≤ m → check_patch_size n ≡ ok tt
unfolding check_patch_size
small_size m n e h = ground arith

copied_smooth :
    (m : ℕ) (c : Store.Calls) (r : Reader) (target : Store.Target)
    → m ≡ max_patch_bytes
    → IsSmooth c
    → length r.content ≤ m
    → r.fails ≡ false
    → (Store.copied c target (limit_reader (m + 1) r) none).error ≡ none
unfolding Store.copied Store.checked
copied_smooth m c r target e s small sound =
    rw (limit_reader_small m r small, sound, small_size m (length r.content) e small)
      (commit_smooth c target s)

-- `writeFileAt` has no error if its calls have none, the target is a regular file or absent, and the
-- text is read whole and is at most 16 MiB long.
pub write_file_at-completes :
    (c : Store.Calls) (r : Reader) {target : Store.Target}
    → IsSmooth c
    → Store.stat_atomic_target c.stat ≡ ok target
    → length r.content ≤ max_patch_bytes
    → r.fails ≡ false
    → (Store.write_file_at c r).error ≡ none
unfolding Store.write_file_at Store.opened Store.temp_opened
write_file_at-completes c r {target} s found small sound =
    simp (s.open_dir, found, s.random, s.created, s.wrote)
      (copied_smooth max_patch_bytes c r target refl s small sound)
