-- ===== src/Tests/Mountinfos.antt =====
-- The theorem on the lines of mountinfo, for a mount below a directory with a space in its name.
use persona.Base.{◌≡◌, refl, true, [], ◌∷◌}
use persona.Text.Compare.{codes, equal, has_prefix}
use persona.Roots.Mounts
use persona.Roots.Mounts.Found.{Mount, any_below}

abbrev overlay : Mount
overlay = record {
  id = codes "36";
  parent = codes "35";
  device = codes "0:31";
  source = codes "/";
  point = codes "/my repo/view";
  rest = codes "rw - overlay";
}

test_below : any_below (codes "/my repo") (overlay ∷ []) ≡ true
unfolding Mounts.is_at_or_below equal has_prefix
test_below = refl
