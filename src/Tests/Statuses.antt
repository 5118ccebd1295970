-- ===== src/Tests/Statuses.antt =====
-- The theorems on status lines, at one whose command name has a parenthesis.
use persona.Base.{◌≡◌, refl, ◌++◌, ◌∷◌, true, some, pos}
use persona.Text.Compare
use persona.Text.Compare.{Bytes, codes}
use persona.Text.Number
use persona.Daemon.Group.{Stat}
use persona.Daemon.Metadata.{parses}
use persona.Daemon.Status
use persona.Daemon.Status.Fields.{parse_execution_process-append, parse_execution_process-start}

abbrev behind : Bytes
behind = codes "S 40 41 41 0 -1 4194560 1 2 3 4 5 6 7 8 20 0 1 0 78 9\n"

abbrev line : Bytes
line = codes "41 (odd) name" ++ b')' ∷ b' ' ∷ behind

abbrev stat : Stat
stat = record { parent = pos 40; group = pos 41; state = codes "S"; start = codes "78" }

test_parse_execution_process-append :
    Status.parse_execution_process line ≡ Status.stat_fields (Status.fields behind)
unfolding Compare.contains_byte
test_parse_execution_process-append =
    parse_execution_process-append (codes "41 (odd) name") behind refl

test_parse : Status.parse_execution_process line ≡ some stat
unfolding Status.parse_execution_process Status.after_last Compare.has_prefix Status.stat_fields
    Status.fields Compare.is_space Status.stat_of Number.atoi Status.field Number.parse_uint
test_parse = refl

test_parse_execution_process-start :
    (parses (Number.parse_uint 10 64 stat.start) ≡ true)
    × (Status.process_start_time_of (pos 41) (some line) ≡ stat.start)
test_parse_execution_process-start = parse_execution_process-start (pos 41) line refl test_parse
