-- ===== src/Tests/Bases.antt =====
-- The theorems on git's answers, for a git that knows no commit on its branch.
use persona.Base.{◌≡◌, ◌↔◌, refl, true, false, ◌||◌, [], ◌∷◌, ◌++◌, ok, if◌then◌else◌, All, Has}
use persona.Text.Compare
use persona.Text.Compare.{Bytes, codes}
use persona.Gitx.Program
use persona.Gitx.Program.{Program}
use persona.Gitx.Program.Lists.{IsName, null_list, split_null_list-null_list}
use persona.Gitx.Clean
use persona.Gitx.Clean.Only.{is_clean_except_untracked_iff}
use persona.Gitx.Base
use persona.Gitx.Base.Resolved.{Source, resolve_base_oid-Source}

abbrev empty_tree : Bytes
empty_tree = codes "4b825dc642cb6eb9a060e54bf8d69288fbee4904"

abbrev says : Bytes → Program.Reply
says text = record { stdout = text; exit = Program.succeeded }

abbrev refuses : Program.Reply
refuses = record { stdout = []; exit = Program.exited 1 }

abbrev answer : Bytes → Program.Reply
answer command =
    if Compare.equal command (codes "hash-object")
    then says (empty_tree ++ b'\n' ∷ [])
    else if Compare.equal command (codes "symbolic-ref")
    then says (codes "refs/heads/main\n")
    else if Compare.equal command (codes "ls-files")
    then says (codes "a\0")
    else if Compare.equal command (codes "rev-parse") || Compare.equal command (codes "show-ref")
    then refuses
    else says []

abbrev git : Program
git [] = refuses
git (command ∷ args) = answer command

test_resolve : Base.resolve_base_oid [] [] git false false (codes "HEAD") ≡ ok empty_tree
unfolding Base.resolve_base_oid Program.git_output_bytes Program.with_dir_args Compare.equal
    Base.is_object_id Base.resolve_unborn Base.empty_tree_oid Compare.trim_space Compare.trim_func
    Compare.trim_right Compare.trim_left_func Compare.is_space Compare.keep_last
test_resolve = refl

resolve_base_oid-Source_example : Source [] [] git (codes "HEAD") empty_tree
resolve_base_oid-Source_example =
    resolve_base_oid-Source [] [] git (codes "HEAD") false false empty_tree test_resolve

abbrev spaced : Bytes
spaced = codes "a b"

spaced-IsName : IsName spaced
spaced-IsName = record { filled = λ e. cc e; no_zero = (refl, (refl, (refl, tt))) }

test_split_null_list : Program.split_null_list (null_list (codes "a b" ∷ [])) ≡ codes "a b" ∷ []
test_split_null_list = split_null_list-null_list (codes "a b" ∷ []) (spaced-IsName, tt)

is_clean_except_untracked_iff_example :
    (Clean.is_clean_except_untracked git (codes "a" ∷ []) ≡ ok true) ↔ (
      ((git Clean.diff_args).exit ≡ Program.succeeded)
      × ((git Clean.diff_cached_args).exit ≡ Program.succeeded)
      × ((git Clean.ls_args).exit ≡ Program.succeeded)
      × All
          (λ path. Has path (Program.trimmed (codes "a" ∷ [])))
          (Program.split_null_list (git Clean.ls_args).stdout))
is_clean_except_untracked_iff_example = is_clean_except_untracked_iff git (codes "a" ∷ [])
