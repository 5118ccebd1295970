-- ===== src/Daemon/Create/Stages.antt =====
-- What the stages of the creation of a session make, and the order of the cleanup stack.
use persona.Base.{
  ℕ, ◌≤◌, ◌<◌, ◌≡◌, ◌⊎◌, inl, inr, Bool, true, false, ◌&&◌, not, List, [], ◌∷◌, Option, none, some,
  Result, ok, err, Bool-cases, pos, arith, if◌then◌else◌,
}
use persona.Text.Compare.{Bytes, codes, equal}
use persona.Daemon.Config.{Config}
use persona.Daemon.Metadata.{Meta}
use persona.Daemon.Session.{Session, View}
use persona.Daemon.Create

-- Later functions stand on what earlier ones release.
abbrev pub rank : Create.Undo → ℕ
rank Create.close_checkpoint = 0
rank Create.remove_root = 1
rank Create.remove_worktree = 2
rank Create.remove_external = 3
rank Create.unmount_gitdir = 4
rank Create.unmount_base = 5
rank Create.unmount_view = 6
rank Create.unmount_masks = 7

-- the ranks fall, from below the number on
abbrev pub Falls : ℕ → List Create.Undo → Type 0
Falls k [] = Unit
Falls k (u ∷ us) = (rank u < k) × Falls (rank u) us

pub Falls-le : (k m : ℕ) (st : List Create.Undo) → k ≤ m → Falls k st → Falls m st
Falls-le k m [] h f = tt
Falls-le k m (u ∷ us) h (l, f) = (omega arith, f)

-- a session as it is made, before anything of the metadata but its base is put back
pub record IsFresh (c : Create.CreateCalls) (session_key : Bytes) (config : Config)
    (prior : Option Meta) (s : Session) : Type 0 where
  pub key : s.key ≡ session_key
  pub options : s.config ≡ config
  pub oid :
      (s.base_oid ≡ c.resolved)
      ⊎ ((meta : Meta) × (prior ≡ some meta) × (s.base_oid ≡ meta.base_oid))
  pub checksum : s.patch_checksum ≡ c.checksum
  pub idle : s.busy ≡ false
  pub group : s.busy_exec_pgid ≡ pos 0
  pub start : s.busy_exec_start ≡ []
  pub going : s.closed ≡ false

module _ (P : Session → Type 0) where
  -- how it may end
  abbrev pub Ends : Create.Made → Type 0
  Ends (Create.made s st) = P s × Falls 8 st
  Ends (Create.broke why st) = Falls 8 st

  pub attempt-Ends :
      (o : Option Bytes) (st : List Create.Undo) (m : Create.Made)
      → Falls 8 st
      → Ends m
      → Ends (Create.attempt o st m)
  attempt-Ends none st m f e = e
  attempt-Ends (some why) st m f e = f

  pub attempt_value-Ends :
      {A : Type 0} (r : Result Bytes A) (st : List Create.Undo) (k : A → Create.Made)
      → Falls 8 st
      → ((v : A) → Ends (k v))
      → Ends (Create.attempt_value r st k)
  attempt_value-Ends (ok v) st k f e = e v
  attempt_value-Ends (err why) st k f e = f

  pub demand-Ends :
      (b : Bool) (st : List Create.Undo) (why : Bytes) (m : Create.Made)
      → Falls 8 st
      → Ends m
      → Ends (Create.demand b st why m)
  demand-Ends true st why m f e = e
  demand-Ends false st why m f e = f

  when-Ends : (b : Bool) (m k : Create.Made) → Ends m → Ends k → Ends (if b then m else k)
  when-Ends true m k e f = e
  when-Ends false m k e f = f

  module _ (c : Create.CreateCalls) (view : View) where
    -- the sessions of a plan
    abbrev pub Makes : Create.Plan → Type 0
    Makes p =
        (external : Bytes) (listed : List Bytes) → P (Create.new_session c view p external listed)

    finish_view-Ends :
        (p : Create.Plan) (external : Bytes) (st : List Create.Undo)
        → Makes p
        → Falls 7 st
        → Ends (Create.finish_view c view p external st)
    unfolding Create.finish_view
    finish_view-Ends p external st h f =
        let st1 = Create.unmount_masks ∷ st in
        let g : Falls 8 st1 = (omega arith, f) in
        attempt-Ends (if Create.is_reuse p.reused then none else c.apply_patch) st1 _ g (
          attempt_value-Ends (Create.ignored_candidates c p.config.ignored_max) st1 _ g (λ listed.
            attempt-Ends c.mask_patch st1 _ g (
              attempt-Ends c.mask_git st1 _ g (
                attempt-Ends c.retain_base st1 _ g (
                  attempt-Ends (if p.is_new then c.save_new else none) st1 _ g
                    (h external listed, g))))))

    setup_mounts-Ends :
        (st : List Create.Undo) (k : Bytes → List Create.Undo → Create.Made)
        → Falls 3 st
        → ((external : Bytes) (st1 : List Create.Undo) → Falls 7 st1 → Ends (k external st1))
        → Ends (Create.setup_mounts c st k)
    unfolding Create.setup_mounts
    setup_mounts-Ends st k f e =
        attempt_value-Ends c.make_external st _ (Falls-le 3 8 st (omega arith) f) (λ external.
          attempt-Ends c.make_directories _ _ (omega arith, f)
            (attempt-Ends c.mount_gitdir _ _ (omega arith, f)
              (attempt-Ends c.mount_base _ _ (omega arith, (omega arith, f))
                (attempt-Ends c.mount_view _ _ (omega arith, (omega arith, (omega arith, f)))
                  (e external _ (omega arith, (omega arith, (omega arith, (omega arith, f)))))))))

    mount_view_of-Ends :
        (p : Create.Plan) (st : List Create.Undo)
        → Makes p
        → Falls 3 st
        → Ends (Create.mount_view_of c view p st)
    unfolding Create.mount_view_of
    mount_view_of-Ends p st h f =
        attempt-Ends (if Create.is_reuse p.reused then none else c.write_owner) st _
          (Falls-le 3 8 st (omega arith) f)
          (setup_mounts-Ends st _ f (λ external st1 f1.
            attempt-Ends c.write_external_owner st1 _ (Falls-le 7 8 st1 (omega arith) f1)
              (finish_view-Ends p external st1 h f1)))

    base_of-Ends :
        (p : Create.Plan) (st : List Create.Undo) (m : Create.Made)
        → Falls 8 st
        → Ends m
        → Ends (Create.base_of c p st m)
    unfolding Create.base_of
    base_of-Ends p st m f e = elim (Bool-cases (Create.is_reuse p.reused)) [
      | inl again ↦ simp again (
          attempt-Ends c.validate_owner st _ f (
            demand-Ends (Create.is_worktree p.config) st _ _ f
              (attempt-Ends c.validate_recovery_base st m f e)))
      | inr anew ↦ simp anew (attempt-Ends c.prepare_base st m f e)
    ]

    check_head-Ends :
        (config : Config) (pinned : Bytes) (st : List Create.Undo) (m : Create.Made)
        → Falls 8 st
        → Ends m
        → Ends (Create.check_head c config pinned st m)
    unfolding Create.check_head
    check_head-Ends config pinned st m f e =
        when-Ends (not (equal pinned []) && equal config.base_mode (codes "repo")) _ m
          (attempt_value-Ends c.head st _ f
            (λ current. demand-Ends (equal current pinned) st _ m f e))
          e

    pub with_base-Ends :
        (p : Create.Plan) (pinned : Bytes) (st : List Create.Undo)
        → Makes (record p { base_oid = if Create.is_reuse p.reused then pinned else c.resolved })
        → Falls 2 st
        → Ends (Create.with_base c view p pinned st)
    unfolding Create.with_base
    with_base-Ends p pinned st h f =
        check_head-Ends p.config pinned st _ (Falls-le 2 8 st (omega arith) f) (
          base_of-Ends p st _ (Falls-le 2 8 st (omega arith) f)
            (mount_view_of-Ends _ _ h (worktree (Create.is_worktree p.config))))
      where
        worktree : (b : Bool) → Falls 3 (if b then Create.remove_worktree ∷ st else st)
        worktree true = (omega arith, f)
        worktree false = Falls-le 2 3 st (omega arith) f
