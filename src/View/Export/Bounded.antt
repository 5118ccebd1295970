-- ===== src/View/Export/Bounded.antt =====
-- What an export writes is what it counts.
use persona.Base.{◌≤◌, ◌≡◌, length}
use persona.Text.Compare.{Bytes}
use persona.Patchio.Walk.{max_patch_bytes}
use persona.View.Export

-- a writer takes at most what it is given, as package io demands
abbrev pub IsWriter : Export.Sink → Type 0
IsWriter sink = (out p : Bytes) → (sink out p).0 ≤ length p

-- the count is the length of what is written, and within the limit
pub record IsCounted (w : Export.Limited) : Type 0 where
  pub counted : w.bytes ≡ length w.out
  pub within : w.bytes ≤ max_patch_bytes
