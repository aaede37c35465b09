-- ===== src/Tasks/Selection.antt =====
-- litehive/tasks/queue_selection.py: which task runs next.
pub mod Normalize
pub mod Ranking
pub mod Resolve
pub mod Scanning
pub mod Restoring
pub mod Order
pub mod Ready
