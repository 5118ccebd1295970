-- ===== src/Text/Filepath.antt =====
-- What the sources use of package path/filepath, for the slashes of Linux.
pub mod Parts
pub mod Clean
pub mod Relative
pub mod Joined
use persona.Base.{
  Bool, true, false, not, ◌&&◌, ◌||◌, List, [], ◌∷◌, ◌++◌, Option, none, some, ◌==◌, if◌then◌else◌,
}
use persona.Text.Compare.{Bytes, codes, equal}
use persona.Text.Split.{split, join}

abbrev pub dot : Bytes
dot = codes "."

abbrev pub dots : Bytes
dots = codes ".."

abbrev pub is_abs : Bytes → Bool
is_abs [] = false
is_abs (c ∷ s) = c == b'/'

-- the parts that are left, the last first
abbrev pub parent : Bool → List Bytes → List Bytes
parent rooted [] = if rooted then [] else dots ∷ []
parent rooted (part ∷ st) = if equal part dots then dots ∷ part ∷ st else st

unfoldable pub clean_part : Bool → List Bytes → Bytes → List Bytes
clean_part rooted st part =
    if equal part [] || equal part dot
    then st
    else if equal part dots
    then parent rooted st
    else part ∷ st

unfoldable pub clean_parts : Bool → List Bytes → List Bytes → List Bytes
clean_parts rooted st [] = st
clean_parts rooted st (part ∷ parts) = clean_parts rooted (clean_part rooted st part) parts

abbrev pub backwards : List Bytes → List Bytes → List Bytes
backwards [] onto = onto
backwards (part ∷ st) onto = backwards st (part ∷ onto)

-- the parts of the cleaned path
unfoldable pub parts_of : Bytes → List Bytes
parts_of path = backwards (clean_parts (is_abs path) [] (split b'/' path)) []

abbrev pub rendered : Bool → List Bytes → Bytes
rendered true parts = b'/' ∷ join b'/' parts
rendered false [] = dot
rendered false (part ∷ parts) = join b'/' (part ∷ parts)

-- `Clean`
unfoldable pub clean : Bytes → Bytes
clean path = rendered (is_abs path) (parts_of path)

abbrev pub filled : List Bytes → List Bytes
filled [] = []
filled (part ∷ parts) = if equal part [] then filled parts else part ∷ filled parts

abbrev pub joined : List Bytes → Bytes
joined [] = []
joined (part ∷ parts) = clean (join b'/' (part ∷ parts))

-- `Join`
unfoldable pub join_path : List Bytes → Bytes
join_path parts = joined (filled parts)

-- a path up to its last slash, and what stands behind it
unfoldable pub split_file : Bytes → Bytes × Bytes
split_file [] = ([], [])
split_file (c ∷ s) =
    let rest = split_file s in
    if not (equal rest.0 [])
    then (c ∷ rest.0, rest.1)
    else if c == b'/'
    then (c ∷ [], rest.1)
    else ([], c ∷ rest.1)

-- `Dir`
unfoldable pub dir : Bytes → Bytes
dir path = clean (split_file path).0

unfoldable pub trim_slashes : Bytes → Bytes
trim_slashes [] = []
trim_slashes (c ∷ s) =
    let rest = trim_slashes s in if c == b'/' && equal rest [] then [] else c ∷ rest

-- `Base`
unfoldable pub base : Bytes → Bytes
base [] = dot
base (c ∷ s) =
    let file = (split_file (trim_slashes (c ∷ s))).1 in if equal file [] then codes "/" else file

-- what is left of two lists behind the parts that they share
abbrev pub behind_common : List Bytes → List Bytes → List Bytes × List Bytes
behind_common [] ts = ([], ts)
behind_common (b ∷ bs) [] = (b ∷ bs, [])
behind_common (b ∷ bs) (t ∷ ts) = if equal t b then behind_common bs ts else (b ∷ bs, t ∷ ts)

abbrev pub ups : List Bytes → List Bytes
ups [] = []
ups (b ∷ bs) = dots ∷ ups bs

-- a path that goes up for the parts of the base that are left; one of them that is ".." cannot be
-- undone, but is only looked at where the paths differ
abbrev pub rel_parts : List Bytes × List Bytes → Option Bytes
rel_parts ([], ts) = some (join b'/' ts)
rel_parts (b ∷ bs, []) = some (join b'/' (ups (b ∷ bs)))
rel_parts (b ∷ bs, t ∷ ts) =
    if equal b dots then none else some (join b'/' (ups (b ∷ bs) ++ t ∷ ts))

-- the parts of the other path, of which "." is one
abbrev pub target_parts : Bytes → List Bytes
target_parts path = if equal (clean path) dot then dot ∷ [] else parts_of path

-- `Rel`
unfoldable pub rel : Bytes → Bytes → Option Bytes
rel basepath targpath =
    if equal (clean targpath) (clean basepath)
    then some dot
    else if is_abs (clean basepath)
    then (if is_abs (clean targpath)
        then rel_parts (behind_common (parts_of basepath) (target_parts targpath))
        else none)
    else if is_abs (clean targpath)
    then none
    else rel_parts (behind_common (parts_of basepath) (target_parts targpath))
