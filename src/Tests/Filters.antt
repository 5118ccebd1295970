-- ===== src/Tests/Filters.antt =====
-- The theorems on skipped files and on untracked paths, at concrete inputs.
use persona.Base.{◌≡◌, refl, ◌↔◌, true, false, [], ◌∷◌, some, ok, arith, Has}
use persona.Text.Compare
use persona.Text.Number
use persona.Text.Split
use persona.Patchio.Paths
use persona.Patchio.Quoting
use persona.Patchio.Hunk
use persona.Text.Compare.{Bytes, codes}
use persona.Patchio.Walk.{Reader, lines}
use persona.Patchio.Block
use persona.Patchio.Block.Skip.{IsPresent, should_skip_sound}
use persona.Patchio.Filter
use persona.Patchio.Filter.Blocks.{group, skipped_paths, kept, filter_blocks}
use persona.Patchio.Untracked.{IsExcluded, filter_untracked_paths, filter_untracked_paths_iff}

-- `x` as a new file of one line
abbrev new_x : Block.Block
new_x = record {
  lines =
      codes "diff --git a/x b/x\n"
      ∷ codes "new file mode 100755\n"
      ∷ codes "--- /dev/null\n"
      ∷ codes "+++ b/x\n"
      ∷ codes "@@ -0,0 +1 @@\n"
      ∷ codes "+hi\n"
      ∷ [];
  path = codes "x";
  is_new = true;
  is_binary = false;
  mode = codes "100755";
  in_body = true;
}

abbrev tree : Block.WorkTree
tree = record {
  lstat = λ path. some (record { is_dir = false; is_regular = true; perm = 0o755; size = 3 });
  open_file = λ path. some (record { is_regular = true; content = codes "hi\n" });
}

test_should_skip : Block.should_skip_new_file_block tree new_x ≡ true
unfolding Block.should_skip_new_file_block Block.skip_present Block.mode_fits Block.parse_file_mode
    Block.is_ok Block.size_fits Block.measure Block.measure_line Block.starts_added
    Block.added_content Block.file_matches Block.compare_lines Compare.equal Number.parse_uint
    Compare.trim_space Compare.trim_func Compare.trim_right Compare.trim_left_func Compare.is_space
    Compare.keep_last Paths.check_path Compare.has_prefix Paths.check_part Compare.lower
    Quoting.trim_line Hunk.parse_hunk_header Split.split_n
test_should_skip = refl

should_skip_sound_example : IsPresent tree new_x
should_skip_sound_example = should_skip_sound tree new_x test_should_skip

abbrev new_x_patch : Reader
new_x_patch = record {
  content =
      codes
        "lead\ndiff --git a/x b/x\nnew file mode 100755\n--- /dev/null\n+++ b/x\n@@ -0,0 +1 @@\n+hi\n";
  fails = false;
}

filter_blocks_example :
    (t : Filter.State) × (Filter.filter_existing_new_files
        (λ out line. true)
        (Block.should_skip_new_file_block tree)
        new_x_patch
      ≡ ok t)
    × (t.skipped
        ≡ skipped_paths
            (Block.should_skip_new_file_block tree)
            (group (lines new_x_patch.content)).1)
    × (t.out ≡ kept (Block.should_skip_new_file_block tree) (group (lines new_x_patch.content)).1)
filter_blocks_example =
    filter_blocks (λ out line. true) (Block.should_skip_new_file_block tree) (λ out line. refl)
      new_x_patch (omega arith) refl

test_filter_untracked_paths_iff :
    Has
      (codes "a/b")
      (filter_untracked_paths (codes "a/b" ∷ codes "c/d" ∷ []) (codes "c/" ∷ []) (codes "e" ∷ []))
    ↔ (Has (codes "a/b") (codes "a/b" ∷ codes "c/d" ∷ [])
        × ¬ IsExcluded (codes "c/" ∷ []) (codes "e" ∷ []) (codes "a/b"))
test_filter_untracked_paths_iff =
    filter_untracked_paths_iff (codes "c/" ∷ []) (codes "e" ∷ []) (codes "a/b" ∷ codes "c/d" ∷ [])
      (codes "a/b")
