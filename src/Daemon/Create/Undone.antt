-- ===== src/Daemon/Create/Undone.antt =====
-- What the creation of a session makes, and the order of what is undone.
use persona.Base.{
  ◌≡◌, refl, inl, inr, Bool, true, false, not, List, [], ◌∷◌, Option, none, some, arith,
}
use persona.Text.Compare.{Bytes}
use persona.Daemon.Config.{Config}
use persona.Daemon.Metadata.{Meta}
use persona.Daemon.Session.{View}
use persona.Daemon.Create
use persona.Daemon.Create.Stages.{
  Falls, Falls-le, IsFresh, Ends, attempt-Ends, attempt_value-Ends, demand-Ends, with_base-Ends,
}

module _ (c : Create.CreateCalls) (view : View) (key : Bytes) (config : Config) where
  new_root-Ends :
      (prior : Option Meta) (root : Bytes) (new : Bool) (st : List Create.Undo)
      → Falls 2 st
      → Ends
          (IsFresh c key config prior)
          (Create.with_root c view (Create.plan key config root none new) prior st)
  unfolding Create.with_root
  new_root-Ends none root new st f =
      attempt_value-Ends (IsFresh c key config none) c.load_patch_base st _
        (Falls-le 2 8 st (omega arith) f)
        (λ pinned.
          with_base-Ends (IsFresh c key config none) c view (Create.plan key config root none new)
            pinned st
            (λ external listed. record {
              key = refl;
              options = refl;
              oid = inl refl;
              checksum = refl;
              idle = refl;
              group = refl;
              start = refl;
              going = refl;
            })
            f)
  new_root-Ends (some prior) root new st f =
      demand-Ends (IsFresh c key config (some prior)) _ st _ _ (Falls-le 2 8 st (omega arith) f) (
        with_base-Ends (IsFresh c key config (some prior)) c view
          (Create.plan key config root none new) prior.base_oid st
          (λ external listed. record {
            key = refl;
            options = refl;
            oid = inl refl;
            checksum = refl;
            idle = refl;
            group = refl;
            start = refl;
            going = refl;
          })
          f)

  old_root-Ends :
      (prior : Meta) (root : Bytes) (st : List Create.Undo)
      → Falls 2 st
      → Ends
          (IsFresh c key config (some prior))
          (Create.with_root c view (Create.plan key config root (some prior) false) (some prior) st)
  unfolding Create.with_root
  old_root-Ends prior root st f =
      demand-Ends (IsFresh c key config (some prior)) _ st _ _ (Falls-le 2 8 st (omega arith) f) (
        with_base-Ends (IsFresh c key config (some prior)) c view
          (Create.plan key config root (some prior) false) prior.base_oid st
          (λ external listed. record {
            key = refl;
            options = refl;
            oid = inr (prior, refl, refl);
            checksum = refl;
            idle = refl;
            group = refl;
            start = refl;
            going = refl;
          })
          f)

  with_checkpoint-Ends :
      (prior : Option Meta) (dirty : Bool)
      → Create.is_dirty prior ≡ dirty
      → Ends (IsFresh c key config prior) (Create.with_checkpoint c view key config prior dirty)
  unfolding Create.with_checkpoint
  with_checkpoint-Ends none true d = absurd (cc d)
  with_checkpoint-Ends (some prior) true d =
      let P = IsFresh c key config (some prior) in
      let st = Create.close_checkpoint ∷ [] in
      let f : Falls 8 st = (omega arith, tt) in
      attempt_value-Ends P c.open_root st _ f (λ root.
        attempt_value-Ends P c.has_mounts st _ f (λ mounted.
          demand-Ends P (not mounted) st _ _ f
            (old_root-Ends prior root (Create.remove_root ∷ st) (omega arith, (omega arith, tt)))))
  with_checkpoint-Ends prior false d =
      let P = IsFresh c key config prior in
      let st = Create.close_checkpoint ∷ [] in
      let f : Falls 8 st = (omega arith, tt) in
      attempt_value-Ends P c.create_root st _ f (λ root.
        new_root-Ends prior root (not (Create.is_reuse prior)) (Create.remove_root ∷ st)
          (omega arith, (omega arith, tt)))

  pub create_session-Ends :
      (prior : Option Meta)
      → Ends (IsFresh c key config prior) (Create.create_session c view key config prior)
  unfolding Create.create_session
  create_session-Ends prior =
      let P = IsFresh c key config prior in
      attempt-Ends P c.open_checkpoint [] _ tt (
        demand-Ends P (Create.fits_checkpoint c.checksum prior) (Create.close_checkpoint ∷ []) _ _
          (omega arith, tt) (with_checkpoint-Ends prior (Create.is_dirty prior) refl))
