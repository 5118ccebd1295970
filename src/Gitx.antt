-- ===== src/Gitx.antt =====
-- internal/gitx/git.go: what persona does around the git program.
pub mod Output
pub mod Program
pub mod Clean
pub mod Base
pub mod Attributes
pub mod Environment
