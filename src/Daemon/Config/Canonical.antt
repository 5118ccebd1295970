-- ===== src/Daemon/Config/Canonical.antt =====
-- The options that are accepted are in the form in which they are saved.
use persona.Base.{
  subst, ap, ◌∙◌, ◌≡◌, refl, ◌↔◌, sym, Bool, true, false, ◌&&◌, not, List, [], ◌∷◌, Result, ok, err,
  Result-cases, Bool-cases, inl, inr, arith, same_ℤ_iff, is_negative, if◌then◌else◌,
}
use persona.Text.Compare.{
  Bytes, codes, equal, equal_iff, equal_refl, trim_space, trim_func, trim_right, keep_last,
  trim_left_func, is_space,
}
use persona.Text.Trim.{trim_space_idem}
use persona.Daemon.Config

-- `parseEnum` looks at the trimmed input only.
parse_enum_trimmed :
    (e : Config.ConfigError) (items : List Bytes) (s t : Bytes)
    → trim_space s ≡ trim_space t
    → Config.parse_enum e items s ≡ Config.parse_enum e items t
unfolding Config.parse_enum
parse_enum_trimmed e [] s t same = refl
parse_enum_trimmed e (item ∷ items) s t same = rw (same, parse_enum_trimmed e items s t same) refl

parse_enum-ok :
    (e : Config.ConfigError) (items : List Bytes) (s : Bytes) {m : Bytes}
    → Config.parse_enum e items s ≡ ok m
    → m ≡ trim_space s
unfolding Config.parse_enum
parse_enum-ok e [] s h = cc
parse_enum-ok e (item ∷ items) s h = elim (Bool-cases (equal (trim_space s) item)) [
  | inl t ↦ ground (arith, equal_iff (trim_space s) item)
  | inr f ↦ parse_enum-ok e items s (rw f at h)
]

parse_enum_again :
    (e : Config.ConfigError) (items : List Bytes) (s : Bytes) {m : Bytes}
    → Config.parse_enum e items s ≡ ok m
    → Config.parse_enum e items m ≡ ok m
parse_enum_again e items s {m} h =
    parse_enum_trimmed e items m s (ap trim_space (parse_enum-ok e items s h) ∙ trim_space_idem s)
    ∙ h

or_head_again :
    (s : Bytes)
    → trim_space s ≡ s
    → Config.or_head (trim_space (Config.or_head s)) ≡ Config.or_head s
unfolding Config.or_head trim_space trim_func trim_right keep_last trim_left_func is_space
or_head_again [] h = refl
or_head_again (c ∷ s) h = ap Config.or_head h

abbrev base_modes : List Bytes
base_modes = Config.base_repo ∷ Config.base_worktree ∷ []

abbrev ignored_modes : List Bytes
ignored_modes = Config.ignored_transparent ∷ Config.ignored_readonly ∷ Config.ignored_masked ∷ []

abbrev apply_modes : List Bytes
apply_modes = Config.apply_strict ∷ Config.apply_reject ∷ []

-- what the function does once the three modes are read
abbrev result : Config.FlagValues → Bytes → Bytes → Bytes → Config.Config
result values mode ignored apply = record {
  base_mode = mode;
  base_ref = Config.or_head (trim_space values.base_ref);
  allow_dirty = values.allow_dirty;
  ignored_mode = ignored;
  ignored_max = values.ignored_max;
  apply_mode = apply;
}

abbrev checked : Config.FlagValues → Bytes → Bytes → Bytes → Result Config.ConfigError Config.Config
checked values mode ignored apply =
    let ref = Config.or_head (trim_space values.base_ref) in
    if equal mode Config.base_repo && not (equal ref (codes "HEAD"))
    then err Config.base_ref_in_repo_mode
    else if is_negative values.ignored_max
    then err Config.negative_ignored_max
    else ok (result values mode ignored apply)

checked-result :
    (values : Config.FlagValues) (mode ignored apply : Bytes) {c : Config.Config}
    → checked values mode ignored apply ≡ ok c
    → result values mode ignored apply ≡ c
checked-result values mode ignored apply h = ground arith

build-checked :
    (values : Config.FlagValues) {mode ignored apply : Bytes}
    → Config.parse_enum Config.invalid_base_mode base_modes values.base_mode ≡ ok mode
    → Config.parse_enum Config.invalid_ignored_mode ignored_modes values.ignored_mode ≡ ok ignored
    → Config.parse_enum Config.invalid_apply_mode apply_modes values.apply_mode ≡ ok apply
    → Config.build_daemon_session_config values ≡ checked values mode ignored apply
unfolding Config.build_daemon_session_config
build-checked values {mode} {ignored} {apply} e f g =
    elim (Bool-cases (
      equal mode Config.base_repo
      && not (equal (Config.or_head (trim_space values.base_ref)) (codes "HEAD")))) [
        | inl bad ↦ rw (e, f, g, bad) refl
        | inr fine ↦ elim (Bool-cases (is_negative values.ignored_max)) [
          | inl bad ↦ rw (e, f, g, fine, bad) refl
          | inr enough ↦ rw (e, f, g, fine, enough) refl
        ]
      ]

-- The values of the result are the ones that the checks saw.
again_lem :
    (values : Config.FlagValues) (mode ignored apply : Bytes) {c : Config.Config}
    → Config.parse_enum Config.invalid_base_mode base_modes values.base_mode ≡ ok mode
    → Config.parse_enum Config.invalid_ignored_mode ignored_modes values.ignored_mode ≡ ok ignored
    → Config.parse_enum Config.invalid_apply_mode apply_modes values.apply_mode ≡ ok apply
    → checked values mode ignored apply ≡ ok c
    → Config.build_daemon_session_config (Config.config_values c) ≡ ok c
again_lem values mode ignored apply {c} e f g h =
    let r = result values mode ignored apply in
    let again =
      build-checked (Config.config_values r)
        (parse_enum_again Config.invalid_base_mode base_modes values.base_mode e)
        (parse_enum_again Config.invalid_ignored_mode ignored_modes values.ignored_mode f)
        (parse_enum_again Config.invalid_apply_mode apply_modes values.apply_mode g) in
    subst (λ d. Config.build_daemon_session_config (Config.config_values d) ≡ ok d)
      (checked-result values mode ignored apply h)
      (again
        ∙ rw (or_head_again (trim_space values.base_ref) (trim_space_idem values.base_ref))
            (h ∙ ap ok (sym (checked-result values mode ignored apply h))))

-- Options that `buildDaemonSessionConfig` returns are canonical: given as flags again, as
-- `validateDaemonSessionMeta` does, they are accepted and returned unchanged.
pub build_daemon_session_config_again :
    (values : Config.FlagValues) {c : Config.Config}
    → Config.build_daemon_session_config values ≡ ok c
    → Config.build_daemon_session_config (Config.config_values c) ≡ ok c
unfolding Config.build_daemon_session_config
build_daemon_session_config_again values {c} h =
    elim (Result-cases (Config.parse_enum Config.invalid_base_mode base_modes values.base_mode)) [
      | inr (why, e) ↦ absurd (cc (rw e at h))
      | inl (mode, e) ↦
          elim (Result-cases
            (Config.parse_enum Config.invalid_ignored_mode ignored_modes values.ignored_mode)) [
              | inr (why, f) ↦ absurd (ground (arith, rw (e, f) at h))
              | inl (ignored, f) ↦
                  elim (Result-cases
                    (Config.parse_enum Config.invalid_apply_mode apply_modes values.apply_mode)) [
                      | inr (why, g) ↦ absurd (ground (arith, rw (e, f, g) at h))
                      | inl (apply, g) ↦
                          again_lem values mode ignored apply e f g
                            (sym (build-checked values e f g) ∙ h)
                    ]
            ]
    ]

same_bool_iff : (a b : Bool) → (Config.same_bool a b ≡ true) ↔ (a ≡ b)
same_bool_iff true b = ground arith
same_bool_iff false b = ground arith

-- Options are the same as themselves.
pub same_config_refl : (c : Config.Config) → Config.same_config c c ≡ true
unfolding Config.same_config
same_config_refl c = ground (
  arith,
  equal_refl c.base_mode,
  equal_refl c.base_ref,
  (same_bool_iff c.allow_dirty c.allow_dirty).1 refl,
  equal_refl c.ignored_mode,
  (same_ℤ_iff c.ignored_max c.ignored_max).1 refl,
  equal_refl c.apply_mode,
)
