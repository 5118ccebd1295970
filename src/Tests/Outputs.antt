-- ===== src/Tests/Outputs.antt =====
-- The theorems on the output of git, for one that comes in two parts.
use persona.Base.{◌≡◌, ◌≤◌, refl, true, List, [], ◌∷◌, length}
use persona.Text.Compare
use persona.Text.Compare.{Bytes, codes}
use persona.Text.Search.{contains}
use persona.Gitx.Output
use persona.Gitx.Output.Kept.{concat, write_all-whole, write_all-bounded}

abbrev parts : List Bytes
parts = codes "error: x: already exists in wor" ∷ codes "king directory" ∷ []

test_found : (Output.write_all parts Output.no_output).already_exists ≡ true
unfolding Output.write_all Output.write Output.note Output.found_after contains Compare.has_prefix
    Output.last_after
test_found = refl

write_all-whole_example :
    ((Output.write_all parts Output.no_output).already_exists
      ≡ contains (concat parts) Output.exists_message)
    × (Output.truncate_output (Output.write_all parts Output.no_output).buffer
        ≡ Output.truncate_output (concat parts))
write_all-whole_example = write_all-whole parts

test_write_all-bounded :
    (length (Output.write_all parts Output.no_output).buffer ≤ 513)
    × (length (Output.truncate_output (Output.write_all parts Output.no_output).buffer) ≤ 527)
test_write_all-bounded = write_all-bounded parts
