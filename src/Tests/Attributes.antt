-- ===== src/Tests/Attributes.antt =====
-- The check of the attributes, for a file that is gone.
use persona.Base.{◌≡◌, refl, true, [], ◌∷◌, none, ok}
use persona.Text.Compare.{Bytes, codes, equal}
use persona.Gitx.Clean.{has}
use persona.Text.Split.{split}
use persona.Gitx.Attributes
use persona.Gitx.Attributes.Harmless.{Stored, check_storage_attributes-Stored}

abbrev attributes : Bytes
attributes = codes "x\0text\0set\0"

abbrev calls : Attributes.AttributeCalls
calls = record {
  check_attr = ok attributes;
  lstat = λ path. Attributes.gone;
  raw_blob_matches = λ path size object. ok true;
  changed = ok [];
}

test_check_storage_attributes :
    Attributes.check_storage_attributes calls none (codes "x" ∷ []) ≡ ok tt
unfolding Attributes.check_storage_attributes Attributes.check_fields split Attributes.without_zero
    equal has
test_check_storage_attributes = refl

check_storage_attributes-Stored_example :
    Stored calls none (split 0 (Attributes.without_zero attributes))
check_storage_attributes-Stored_example =
    check_storage_attributes-Stored calls none (codes "x") [] attributes refl
      test_check_storage_attributes
