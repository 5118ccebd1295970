-- ===== src/Daemon/Status/Fields.antt =====
-- The status line is read rightly whatever the name of the command is.
use persona.Base.{
  ℕ, ◌≡◌, refl, sym, is_positive, inl, inr, true, false, ℤ, List, [], ◌∷◌, ◌++◌, Option, none, some,
  arith, ltb, length, Bool-cases, Option-cases,
}
use persona.Text.Compare.{Bytes, contains_byte, has_prefix}
use persona.Text.Number.{parse_uint, atoi}
use persona.Daemon.Group.{Stat}
use persona.Daemon.Metadata.{parses}
use persona.Daemon.Status

after_last-none : (s : Bytes) → contains_byte s b')' ≡ false → Status.after_last s ≡ none
unfolding Status.after_last contains_byte
after_last-none [] h = refl
after_last-none (c ∷ s) h = rw (after_last-none s (ground arith)) (ground arith)

after_last-append :
    (s t : Bytes) {rest : Bytes}
    → Status.after_last t ≡ some rest
    → Status.after_last (s ++ t) ≡ some rest
unfolding Status.after_last
after_last-append [] t h = h
after_last-append (c ∷ s) t h = rw (after_last-append s t h) refl

after_last-mark :
    (rest : Bytes)
    → contains_byte rest b')' ≡ false
    → Status.after_last (b')' ∷ b' ' ∷ rest) ≡ some rest
unfolding Status.after_last has_prefix
after_last-mark rest h = rw (after_last-none rest h) refl

-- If no closing parenthesis follows the last `) `, then the line is read by the fields behind it,
-- whatever stands before, such as a command name with parentheses and spaces.
pub parse_execution_process-append :
    (before rest : Bytes)
    → contains_byte rest b')' ≡ false
    → Status.parse_execution_process (before ++ b')' ∷ b' ' ∷ rest)
      ≡ Status.stat_fields (Status.fields rest)
unfolding Status.parse_execution_process
parse_execution_process-append before rest h =
    rw (after_last-append before (b')' ∷ b' ' ∷ rest) (after_last-mark rest h)) refl

stat_of-start :
    (state start : Bytes) (parent group : Option ℤ) (n : Option ℕ) {p : Stat}
    → Status.stat_of state start parent group n ≡ some p
    → (p.start ≡ start) × (parses n ≡ true)
unfolding Status.stat_of
stat_of-start state start (some parent) (some group) (some n) h = (ground arith, refl)
stat_of-start state start (some parent) (some group) none h = absurd (cc h)
stat_of-start state start (some parent) none n h = absurd (cc h)
stat_of-start state start none group n h = absurd (cc h)

stat_fields-start :
    (words : List Bytes) {p : Stat}
    → Status.stat_fields words ≡ some p
    → parses (parse_uint 10 64 p.start) ≡ true
unfolding Status.stat_fields
stat_fields-start words h = elim (Bool-cases (ltb (length words) 20)) [
  | inl few ↦ absurd (cc (rw few at h))
  | inr enough ↦
      let (same, number) =
        stat_of-start (Status.field 0 words) (Status.field 19 words) (atoi (Status.field 1 words))
          (atoi (Status.field 2 words)) (parse_uint 10 64 (Status.field 19 words))
          (rw enough at h) in
      rw same number
]

start_of_lem :
    (words : List Bytes) {p : Stat}
    → Status.stat_fields words ≡ some p
    → Status.start_of words ≡ p.start
unfolding Status.stat_fields Status.start_of
start_of_lem words h = elim (Bool-cases (ltb (length words) 20)) [
  | inl few ↦ absurd (cc (rw few at h))
  | inr enough ↦
      let (same, number) =
        stat_of-start (Status.field 0 words) (Status.field 19 words) (atoi (Status.field 1 words))
          (atoi (Status.field 2 words)) (parse_uint 10 64 (Status.field 19 words))
          (rw enough at h) in
      elim (Option-cases (parse_uint 10 64 (Status.field 19 words))) [
        | inl e ↦ absurd (cc (rw e at number))
        | inr (n, e) ↦ rw (enough, e) (sym same)
      ]
]

-- The start time of a process whose status line is read is a number of 64 bits, and it is the one
-- that `processStartTime` gives for it.
pub parse_execution_process-start :
    (pid : ℤ) (line : Bytes) {p : Stat}
    → is_positive pid ≡ true
    → Status.parse_execution_process line ≡ some p
    → (parses (parse_uint 10 64 p.start) ≡ true)
      × (Status.process_start_time_of pid (some line) ≡ p.start)
unfolding Status.parse_execution_process Status.process_start_time_of
parse_execution_process-start pid line positive h = elim (Option-cases (Status.after_last line)) [
  | inl e ↦ absurd (cc (rw e at h))
  | inr (rest, e) ↦ (
    stat_fields-start (Status.fields rest) (rw e at h),
    rw (positive, e) (start_of_lem (Status.fields rest) (rw e at h)),
  )
]
