-- ===== src/Tasks.antt =====
-- litehive/tasks: which task runs next, and what its failures and its dependencies allow.
pub mod FailedRuns
pub mod Normalization
pub mod Eligibility
pub mod Graph
pub mod Dependencies
pub mod Mutations
pub mod Queue
pub mod Selection
pub mod Runnable
pub mod Dequeue
pub mod Gate
pub mod Samples
pub mod Examples
