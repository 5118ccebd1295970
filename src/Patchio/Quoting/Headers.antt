-- ===== src/Patchio/Quoting/Headers.antt =====
-- The name in a `---` or `+++` line that git wrote is read back.
use persona.Base.{ℕ, ◌≡◌, false, ◌⊎◌, ◌==◌}

-- neither a tab nor a carriage return
abbrev IsText : ℕ → Type 0
IsText c = (c == 9 ≡ false) × (c == b'\r' ≡ false)

-- a letter that `sanitizePatchPath` drops with the slash behind it
abbrev IsSide : ℕ → Type 0
IsSide x = (x ≡ b'a') ⊎ (x ≡ b'b')
