-- ===== src/Tests.antt =====
-- The theorems at concrete inputs, and runs of the definitions, one module for each package.
mod Texts
mod Headers
mod Outputs
mod Attributes
mod Bases
mod Restores
mod Mountinfos
mod Environments
mod Filenames
mod Patches
mod Filters
mod Sessions
mod Gates
mod Groups
mod Roots
mod Views
mod Runs
mod Statuses
mod Cleanups
mod Files
