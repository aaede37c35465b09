-- ===== src/Lifecycle/Deltas.antt =====
-- litehive/domain/lifecycle_deltas.py: the effects of the rules.
pub mod Patch
pub mod Tracking
pub mod Failure
pub mod Effects
