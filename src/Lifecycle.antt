-- ===== src/Lifecycle.antt =====
-- litehive/lifecycle: the pipeline's state machine.
pub mod Events
pub mod State
pub mod Deltas
pub mod Guards
pub mod Transitions
pub mod Rules
pub mod Stages
pub mod Sessions
pub mod Runner
pub mod Nodes
pub mod Samples
