-- ===== src/Gitx/Output.antt =====
-- `boundedOutput` and `truncateOutput`: what is kept of the output of git.
pub mod Kept
use persona.Base.{
  ℕ, suc, ◌+◌, ◌-◌, Bool, true, false, ◌||◌, List, [], ◌∷◌, ◌++◌, length, take, drop, ltb, leb,
  if◌then◌else◌,
}
use persona.Text.Compare.{Bytes, codes}
use persona.Text.Search.{contains}

abbrev pub max_err_output : ℕ
max_err_output = 512

abbrev pub exists_message : Bytes
exists_message = codes "already exists in working directory"

pub record BoundedOutput : Type 0 where
  pub buffer : Bytes
  pub last : Bytes
  pub already_exists : Bool

abbrev pub no_output : BoundedOutput
no_output = record { buffer = []; last = []; already_exists = false }

-- the last bytes that are kept, for a message and more output
unfoldable pub last_after : Bytes → Bytes → Bytes → Bytes
last_after message last p =
    let n = length message - 1 in
    let both = last ++ p in
    if leb n (length p)
    then drop (length p - n) p
    else if leb (length message) (length both)
    then drop (length both - n) both
    else both

-- whether the message is found in more output
unfoldable pub found_after : Bytes → Bytes → Bytes → Bool
found_after message last p =
    contains p message || contains (last ++ take (length message - 1) p) message

unfoldable pub note : Bytes → Bytes → BoundedOutput → BoundedOutput
note message p b = if b.already_exists then b else record b {
  last = last_after message b.last p;
  already_exists = found_after message b.last p;
}

unfoldable pub buffer_after : ℕ → Bytes → Bytes → Bytes
buffer_after limit buffer p =
    let remaining = limit + 1 - length buffer in
    if ltb 0 remaining
    then buffer ++ (if ltb remaining (length p) then take remaining p else p)
    else buffer

-- `Write`, which always takes all of the bytes
unfoldable pub write : Bytes → BoundedOutput → BoundedOutput × ℕ
write p b = (
  record (note exists_message p b) {
    buffer = buffer_after max_err_output (note exists_message p b).buffer p;
  },
  length p,
)

-- the calls of `Write` that a program's output makes
unfoldable pub write_all : List Bytes → BoundedOutput → BoundedOutput
write_all [] b = b
write_all (p ∷ ps) b = write_all ps (write p b).0

unfoldable pub truncate_output : Bytes → Bytes
truncate_output msg =
    if leb (length msg) max_err_output
    then msg
    else take max_err_output msg ++ codes "... (truncated)"
