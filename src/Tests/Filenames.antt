-- ===== src/Tests/Filenames.antt =====
-- The theorem on the names of metadata files, for a key with runes that are not safe.
use persona.Base.{◌≡◌, refl, true}
use persona.Text.Compare
use persona.Text.Compare.{Bytes, codes}
use persona.Text.Hex.{is_hex, is_lower}
use persona.Daemon.Filename
use persona.Daemon.Filename.Listed.{valid_daemon_meta_filename-meta_filename}

abbrev digest : Bytes
digest = codes "0123456789abcdef"

test_hex : is_hex digest ≡ true
unfolding is_hex
test_hex = refl

test_lower : is_lower digest ≡ true
unfolding is_lower Compare.equal Compare.lower
test_lower = refl

test_name : Filename.daemon_safe_name (codes " a/b c. ") ≡ codes "a-b-c"
unfolding Filename.daemon_safe_name Compare.trim_func Compare.trim_right Compare.trim_left_func
    Filename.safe_runes Compare.trim_space Compare.is_space Compare.keep_last
test_name = refl

test_valid_daemon_meta_filename-meta_filename :
    Filename.valid_daemon_meta_filename (Filename.meta_filename (codes " a/b c. ") digest) ≡ true
test_valid_daemon_meta_filename-meta_filename =
    valid_daemon_meta_filename-meta_filename (codes " a/b c. ") digest test_hex test_lower refl
