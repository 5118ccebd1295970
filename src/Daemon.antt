-- ===== src/Daemon.antt =====
-- cmd/persona/daemon.go and its companions: the daemon that keeps a view of a patch mounted.
pub mod Config
pub mod Metadata
pub mod MetaFile
pub mod Filename
pub mod Gate
pub mod Group
pub mod Cleanup
pub mod Status
pub mod Calls
pub mod Session
pub mod Stored
pub mod Create
pub mod Shutdown
pub mod Restore
