-- ===== src/View.antt =====
-- cmd/persona: the view of a repository in which a command runs, and what is saved of it.
pub mod Export
pub mod Apply
pub mod Masks
pub mod Child
pub mod Failure
pub mod Paths
pub mod Run
