-- ===== src/Daemon/Restore/Restored.antt =====
-- A session that is put back is valid again.
use persona.Base.{
  ℕ, ◌>>◌, ◌≤◌, ◌≡◌, refl, sym, ap, ◌∙◌, subst, ◌⊎◌, inl, inr, Bool, true, false, ◌||◌, not, [],
  Option, none, some, Result, ok, >>-eq-ok, arith,
}
use persona.Text.Compare.{Bytes, equal}
use persona.Daemon.Config.{build_daemon_session_config, config_values}
use persona.Daemon.Metadata
use persona.Daemon.Metadata.{Meta, MetaError}
use persona.Daemon.Calls.{Calls, Fault}
use persona.Daemon.Session
use persona.Daemon.Session.Invariant.{IsValid, IsSaved, Counted, Plain}
use persona.Daemon.Session.Preserved.{persist_session-IsValid, valid}
use persona.Daemon.Create
use persona.Daemon.Create.Stages.{IsFresh, Ends}
use persona.Daemon.Create.Undone.{create_session-Ends}
use persona.Daemon.Restore

-- what the validation of metadata says of a session
record IsSound (meta : Meta) : Type 0 where
  pub key : Metadata.is_key meta.session_key ≡ true
  pub options :
      Metadata.check_options meta.config (build_daemon_session_config (config_values meta.config))
      ≡ ok tt
  pub not_ahead : meta.last_durable_generation ≤ meta.generation
  pub clean : meta.dirty ≡ false → meta.generation ≡ meta.last_durable_generation
  pub oid : (equal meta.base_oid [] || Metadata.is_base_oid meta.base_oid) ≡ true

refuse_passed : (test : Bool) (why : MetaError) → Metadata.refuse test why ≡ ok tt → test ≡ false
refuse_passed test why h = ground (arith, h)

generations_passed :
    (generation durable : ℕ) (dirty : Bool)
    → Metadata.check_generations generation durable dirty ≡ ok tt
    → (durable ≤ generation) × (dirty ≡ false → generation ≡ durable)
unfolding Metadata.check_generations
generations_passed generation durable dirty h = ground (arith, h)

digests_passed :
    (meta : Meta)
    → Metadata.check_digests meta ≡ ok tt
    → (equal meta.base_oid [] || Metadata.is_base_oid meta.base_oid) ≡ true
unfolding Metadata.check_digests
digests_passed meta h = ground (arith, h)

all_passed :
    (a b c d e f : Result MetaError (Unit {0}))
    → a >> b >> c >> d >> e >> f ≡ ok tt
    → (b ≡ ok tt) × (c ≡ ok tt) × (d ≡ ok tt) × (f ≡ ok tt)
all_passed a b c d e f h =
    let (h5, f_ok) = >>-eq-ok (a >> b >> c >> d >> e) f h in
    let (h4, e_ok) = >>-eq-ok (a >> b >> c >> d) e h5 in
    let (h3, d_ok) = >>-eq-ok (a >> b >> c) d h4 in
    let (h2, c_ok) = >>-eq-ok (a >> b) c h3 in
    let (a_ok, b_ok) = >>-eq-ok a b h2 in (b_ok, c_ok, d_ok, f_ok)

key_passed : (b : Bool) → Metadata.refuse (not b) Metadata.invalid_key ≡ ok tt → b ≡ true
key_passed true h = refl
key_passed false h = absurd (cc h)

meta-IsSound : (meta : Meta) → Metadata.validate_meta meta ≡ ok tt → IsSound meta
unfolding Metadata.validate_meta
meta-IsSound meta h =
    let (key, options, generations, digests) =
      all_passed
        (Metadata.refuse (not (Metadata.is_supported meta.schema_version))
          Metadata.unsupported_schema)
        (Metadata.refuse (not (Metadata.is_key meta.session_key)) Metadata.invalid_key)
        (Metadata.check_options meta.config
          (build_daemon_session_config (config_values meta.config)))
        (Metadata.check_generations meta.generation meta.last_durable_generation meta.dirty)
        (Metadata.check_group meta.busy_exec_pgid meta.busy_exec_start meta.dirty)
        (Metadata.check_digests meta) h in
    let (ahead, same) =
      generations_passed meta.generation meta.last_durable_generation meta.dirty generations in
    record {
      key = key_passed (Metadata.is_key meta.session_key) key;
      options = options;
      not_ahead = ahead;
      clean = same;
      oid = digests_passed meta digests;
    }

-- what the session needs besides the metadata: digests of the patch file and of the base
pub record IsDigested (c : Create.CreateCalls) : Type 0 where
  pub checksum : Metadata.is_checksum c.checksum ≡ true
  pub resolved : (equal c.resolved [] || Metadata.is_base_oid c.resolved) ≡ true

module _ (c : Create.CreateCalls) (meta : Meta) where
  base-oid :
      (oid : Bytes)
      → IsDigested c
      → IsSound meta
      → (oid ≡ c.resolved) ⊎ ((m : Meta) × (some meta ≡ some m) × (oid ≡ m.base_oid))
      → (equal oid [] || Metadata.is_base_oid oid) ≡ true
  base-oid oid d m (inl e) =
      subst (λ o. (equal o [] || Metadata.is_base_oid o) ≡ true) (sym e) d.resolved
  base-oid oid d m (inr (n, same, e)) =
      subst (λ o. (equal o [] || Metadata.is_base_oid o) ≡ true)
        (sym (e ∙ ap (λ (x : Meta). x.base_oid) (sym (inner meta n same)))) m.oid
    where
      inner : (a b : Meta) → some a ≡ some b → a ≡ b
      inner a b e = cc e

  put_back-Plain :
      (now : ℕ) (bump : Bool) (s : Session.Session)
      → IsDigested c
      → IsSound meta
      → IsFresh c meta.session_key meta.config (some meta) s
      → Plain (Restore.put_back now meta bump s)
  put_back-Plain now bump s d m f = record {
    key = subst (λ k. Metadata.is_key k ≡ true) (sym f.key) m.key;
    options =
        subst
          (λ o. Metadata.check_options o (build_daemon_session_config (config_values o)) ≡ ok tt)
          (sym f.options) m.options;
    oid = base-oid s.base_oid d m f.oid;
    checksum = subst (λ k. Metadata.is_checksum k ≡ true) (sym f.checksum) d.checksum;
  }

  put_back-Counted :
      (n now : ℕ) (bump : Bool) (s : Session.Session)
      → meta.generation ≤ n
      → IsSound meta
      → IsFresh c meta.session_key meta.config (some meta) s
      → Counted n (Restore.put_back now meta bump s)
  put_back-Counted n now bump s small m f = record {
    bounded = small;
    not_ahead = m.not_ahead;
    clean = m.clean;
    held = λ busy. absurd (cc (busy, f.idle));
    idle = λ e. (f.group, f.start);
    grouped = inl (f.group, f.start);
  }

-- the slot behind the creation
installed-IsValid :
    (n : ℕ) (calls : Calls) (c : Create.CreateCalls) (meta : Meta) (bump : Bool) (m : Create.Made)
    (t : Session.Slot)
    → meta.generation ≤ n
    → IsDigested c
    → IsSound meta
    → IsSaved t.disk
    → Ends (IsFresh c meta.session_key meta.config (some meta)) m
    → (Restore.install calls meta bump m t).1 ≡ ok tt
    → IsValid n (Restore.install calls meta bump m t).0
unfolding Restore.install
installed-IsValid n calls c meta bump (Create.broke why st) t small d sound saved ends h =
    absurd (cc h)
installed-IsValid n calls c meta bump (Create.made s st) t small d sound saved (f, falls) h =
    published-IsValid _ (
      persist_session-IsValid n calls
        (Restore.put_session (Restore.put_back calls.now meta bump s) t)
        (valid (put_back-Plain c meta calls.now bump s d sound f)
          (put_back-Counted c meta n calls.now bump s small sound f) saved))
  where
    published-IsValid :
        (r : Session.Slot × Option Fault) → IsValid n r.0 → IsValid n (Restore.published r).0
    published-IsValid (u, none) v = v
    published-IsValid (u, some g) v = v

unrefused-IsValid :
    (n : ℕ) (calls : Calls) (rc : Restore.RestoreCalls) (meta : Meta) (bump : Bool)
    (o : Option Restore.RestoreFailure) (t : Session.Slot)
    → IsSound meta
    → meta.generation ≤ n
    → IsDigested rc.create
    → IsSaved t.disk
    → (Restore.unless_refused calls rc meta bump o t).1 ≡ ok tt
    → IsValid n (Restore.unless_refused calls rc meta bump o t).0
unfolding Restore.unless_refused
unrefused-IsValid n calls rc meta bump (some why) t sound small d saved h = absurd (cc h)
unrefused-IsValid n calls rc meta bump none t sound small d saved h =
    installed-IsValid n calls rc.create meta bump _ t small d sound saved
      (create_session-Ends rc.create rc.view meta.session_key meta.config (some meta)) h

-- A session that `restoreSessionWithCheckpoint` puts back from metadata that pass their validation is
-- valid, with at most as many generations as they say, and so is the metadata file that it writes;
-- the patch file's digest is SHA-256, and git's ids of objects are ids.
pub restore_session-IsValid :
    (n : ℕ) (calls : Calls) (rc : Restore.RestoreCalls) (meta : Meta) (bump : Bool)
    (t : Session.Slot)
    → Metadata.validate_meta meta ≡ ok tt
    → meta.generation ≤ n
    → IsDigested rc.create
    → IsSaved t.disk
    → t.present ≡ false
    → (Restore.restore_session calls rc meta bump t).1 ≡ ok tt
    → IsValid n (Restore.restore_session calls rc meta bump t).0
unfolding Restore.restore_session
restore_session-IsValid n calls rc meta bump t sound small d saved new h = simp new (
    unrefused-IsValid n calls rc meta bump (Restore.refusal calls rc meta) t
      (meta-IsSound meta sound) small d saved (simp new at h))
