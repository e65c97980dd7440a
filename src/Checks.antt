-- ===== src/Checks.antt =====
-- The checks of the repository: scripts/check_*.py.
pub mod Docs
pub mod Packages
pub mod Snapshot
pub mod Consumer
pub mod Operations
