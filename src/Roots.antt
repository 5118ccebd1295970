-- ===== src/Roots.antt =====
-- internal/session/session.go: the directories of a session.
pub mod Mounts
pub mod Owner
pub mod Create
