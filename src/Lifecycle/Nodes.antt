-- ===== src/Lifecycle/Nodes.antt =====
-- litehive/lifecycle/nodes: what the nodes answer when the runner visits them.
pub mod System
pub mod Hook
pub mod Agent
pub mod Engines
pub mod Attempts
pub mod Visits
pub mod Resolved
pub mod Samples
pub mod Returns
pub mod Streak
pub mod Resuming
