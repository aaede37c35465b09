-- ===== src/Tasks/Graph.antt =====
-- litehive/tasks/queue_eligibility.py (`_dependency_reaches_task`), queue_selection.py
-- (`_dependent_task_count`): the two walks of a graph with a stack and a set of seen nodes.
pub mod Walks
pub mod Paths
pub mod Work
pub mod Soundness
