-- ===== src/Daemon/Status.antt =====
-- `parseExecutionProcess` and `processStartTime`: the status line that /proc has of a process.
pub mod Fields
use persona.Base.{
  ℕ, zero, suc, Bool, true, false, ◌&&◌, List, [], ◌∷◌, ◌++◌, Option, none, some, ltb, ◌==◌, ℤ,
  is_positive, length, drop, if◌then◌else◌,
}
use persona.Text.Compare.{Bytes, codes, has_prefix, is_space}
use persona.Text.Number.{parse_uint, atoi}
use persona.Daemon.Group.{Stat}

-- what stands behind the last `) `, by `strings.LastIndex`
unfoldable pub after_last : Bytes → Option Bytes
after_last [] = none
after_last (c ∷ s) = elim (after_last s) [
  | some rest ↦ some rest
  | none ↦ if c == b')' && has_prefix s (codes " ") then some (drop 1 s) else none
]

unfoldable pub emit : Bytes → List Bytes → List Bytes
emit [] words = words
emit (c ∷ word) words = (c ∷ word) ∷ words

unfoldable pub fields_in : Bytes → Bytes → List Bytes
fields_in word [] = emit word []
fields_in word (c ∷ s) =
    let ended = emit word (fields_in [] s) in
    let onward = fields_in (word ++ c ∷ []) s in if is_space c then ended else onward

-- `strings.Fields`
unfoldable pub fields : Bytes → List Bytes
unfolding emit fields_in
fields s = fields_in [] s

unfoldable pub field : ℕ → List Bytes → Bytes
field n [] = []
field zero (word ∷ words) = word
field (suc n) (word ∷ words) = field n words

-- the three numbers, each with its own error
unfoldable pub stat_of : Bytes → Bytes → Option ℤ → Option ℤ → Option ℕ → Option Stat
stat_of state start (some parent) (some group) (some n) =
    some (record { parent = parent; group = group; state = state; start = start })
stat_of state start (some parent) (some group) none = none
stat_of state start (some parent) none n = none
stat_of state start none group n = none

unfoldable pub stat_fields : List Bytes → Option Stat
stat_fields words =
    if ltb (length words) 20
    then none
    else stat_of (field 0 words) (field 19 words) (atoi (field 1 words)) (atoi (field 2 words))
        (parse_uint 10 64 (field 19 words))

stat_behind : Option Bytes → Option Stat
stat_behind none = none
stat_behind (some rest) = stat_fields (fields rest)

-- `none` is an error
unfoldable pub parse_execution_process : Bytes → Option Stat
unfolding stat_behind
parse_execution_process line = stat_behind (after_last line)

unfoldable pub start_of : List Bytes → Bytes
start_of words =
    if ltb (length words) 20
    then []
    else elim (parse_uint 10 64 (field 19 words)) [ none ↦ [] | some n ↦ field 19 words ]

start_behind : Option Bytes → Bytes
start_behind none = []
start_behind (some rest) = start_of (fields rest)

start_time : Option Bytes → Bytes
start_time none = []
start_time (some line) = start_behind (after_last line)

-- `processStartTime` with what reading the status line of the process gives
unfoldable pub process_start_time_of : ℤ → Option Bytes → Bytes
unfolding start_behind start_time
process_start_time_of pid line = if is_positive pid then start_time line else []
