-- ===== src/Patchio.antt =====
-- internal/patchio/patchio.go: reading, validating, filtering and storing patches.
pub mod Errors
pub mod Paths
pub mod Quoting
pub mod Hunk
pub mod Walk
pub mod DiffHeader
pub mod Validate
pub mod Block
pub mod Filter
pub mod Untracked
pub mod Store
