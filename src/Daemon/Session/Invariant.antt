-- ===== src/Daemon/Session/Invariant.antt =====
-- What holds of a session and of its metadata file, and what keeps it.
use persona.Base.{
  ℕ, ◌≤◌, ◌≡◌, refl, ◌⊎◌, inl, inr, Bool, true, false, ◌||◌, [], ◌∷◌, Option, none, some, ok, arith,
  ℤ, pos, negsuc, is_positive,
}
use persona.Text.Compare.{Bytes, equal}
use persona.Text.Number.{parse_uint}
use persona.Daemon.Config.{build_daemon_session_config, config_values, Config}
use persona.Daemon.Metadata
use persona.Daemon.Session

-- No execution group, or one with a start that can be read back.
abbrev pub IsGroup : ℤ → Bytes → Type 0
IsGroup group start =
    (group ≡ pos 0) × (start ≡ [])
    ⊎ (is_positive group ≡ true) × (Metadata.parses (parse_uint 10 64 start) ≡ true)

-- The counters and flags of a session with at most `n` generations: what is durable is not ahead,
-- a clean session has nothing unsaved, a busy one is dirty, and an idle one has no command.
pub record IsCounted (n generation durable : ℕ) (dirty busy : Bool) (group : ℤ) (start : Bytes)
    : Type 0 where
  pub bounded : generation ≤ n
  pub not_ahead : durable ≤ generation
  pub clean : dirty ≡ false → generation ≡ durable
  pub held : busy ≡ true → dirty ≡ true
  pub idle : busy ≡ false → (group ≡ pos 0) × (start ≡ [])
  pub grouped : IsGroup group start

abbrev pub Counted : ℕ → Session.Session → Type 0
Counted n s =
    IsCounted n s.generation s.last_durable_generation s.dirty s.busy s.busy_exec_pgid
      s.busy_exec_start

-- The fields that are set when a session is made, and the checksum.
pub record IsPlain (session_key : Bytes) (config : Config) (base_oid sum : Bytes) : Type 0 where
  pub key : Metadata.is_key session_key ≡ true
  pub options :
      Metadata.check_options config (build_daemon_session_config (config_values config)) ≡ ok tt
  pub oid : (equal base_oid [] || Metadata.is_base_oid base_oid) ≡ true
  pub checksum : Metadata.is_checksum sum ≡ true

abbrev pub Plain : Session.Session → Type 0
Plain s = IsPlain s.key s.config s.base_oid s.patch_checksum

abbrev pub IsSaved : Option Metadata.Meta → Type 0
IsSaved none = Unit
IsSaved (some meta) = Metadata.validate_meta meta ≡ ok tt

-- The session is as above, and the metadata file, if there is one, passes its validation.
pub record IsValid (n : ℕ) (t : Session.Slot) : Type 0 where
  pub plain : Plain t.session
  pub counted : Counted n t.session
  pub saved : IsSaved t.disk

group_lem :
    (group : ℤ) (start : Bytes) (dirty : Bool)
    → IsGroup group start
    → (dirty ≡ false → group ≡ pos 0)
    → Metadata.check_group group start dirty ≡ ok tt
unfolding Metadata.check_group equal parse_uint
group_lem group start dirty (inl (zero_, empty)) d = rw (zero_, empty) refl
group_lem (negsuc k) start dirty (inr (p, q)) d = cc
group_lem (pos k) [] dirty (inr (p, q)) d = cc
group_lem (pos k) (c ∷ start) true (inr (p, q)) d = ground arith
group_lem (pos k) (c ∷ start) false (inr (p, q)) d = ground arith

generations_lem :
    (generation durable : ℕ) (dirty : Bool)
    → durable ≤ generation
    → (dirty ≡ false → generation ≡ durable)
    → Metadata.check_generations generation durable dirty ≡ ok tt
unfolding Metadata.check_generations
generations_lem generation durable dirty le same = ground arith

is_checksum-ne : (sum : Bytes) → Metadata.is_checksum sum ≡ true → equal sum [] ≡ false
unfolding Metadata.is_checksum equal
is_checksum-ne [] h = ground arith
is_checksum-ne (c ∷ sum) h = refl

digests_lem :
    (s : Session.Session) → Plain s → Metadata.check_digests (Session.meta_snapshot s) ≡ ok tt
unfolding Metadata.check_digests
digests_lem s p = ground (arith, is_checksum-ne s.patch_checksum p.checksum)

-- The metadata of such a session is accepted by the validation that reading it back makes.
pub meta_snapshot-valid :
    (n : ℕ) (s : Session.Session)
    → Plain s
    → Counted n s
    → Metadata.validate_meta (Session.meta_snapshot s) ≡ ok tt
unfolding Metadata.validate_meta
meta_snapshot-valid n s p c =
    rw
      (
        p.key,
        p.options,
        generations_lem s.generation s.last_durable_generation s.dirty c.not_ahead c.clean,
        group_lem s.busy_exec_pgid s.busy_exec_start s.dirty c.grouped
            (λ d. (c.idle (ground arith)).0),
        digests_lem s p,
      )
      refl
