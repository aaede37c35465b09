-- ===== src/Locks.antt =====
-- litehive/state/lock_manager.py, daemon/registry.py: lock files of the runner and the daemon.
pub mod Files
pub mod Manager
pub mod Daemon
pub mod Exclusion
pub mod Overlap
pub mod Samples
