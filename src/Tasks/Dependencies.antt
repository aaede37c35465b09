-- ===== src/Tasks/Dependencies.antt =====
-- litehive/tasks/queue_eligibility.py: the tasks that a task waits for (`_task_blockers`), and the
-- dependencies it may be given (`TaskDependencyValidator`, `_dependency_reaches_task`).
use litehive.Base.{
  ℕ, ◌+◌, Bool, true, false, Option, none, some, is_some, List, [], ◌∷◌, ◌++◌, elem, ◌==◌,
  if◌then◌else◌,
}
use litehive.Base.Text.{Text, lit, text_eq}
use litehive.Base.Dict.{Dict, lookup}
use litehive.Domain.Status.{status_value, pipeline_value}
use litehive.Domain.Task.{TaskRecord}
use litehive.Tasks.Eligibility.{is_task_completed}
use litehive.Tasks.Graph.Walks.{reaches_walk, work}
pub mod Validation
pub mod Blockers

-- `tasks_by_id.get(id)` and its `depends_on`; a missing task has none.
abbrev depends : Option TaskRecord → List Text
depends none = []
depends (some t) = t.depends_on

unfoldable pub dependencies_of : Dict Text TaskRecord → Text → List Text
dependencies_of tasks id = depends (lookup id tasks)

abbrev pub ids {ℓ} : {A : Type ℓ} → Dict Text A → List Text
ids [] = []
ids ((id, a) ∷ rest) = id ∷ ids rest

abbrev pub answered : Option Bool → Bool
answered none = false
answered (some b) = b

-- The fuel is enough for every walk from one task.
unfoldable pub walk_fuel : Dict Text TaskRecord → ℕ
walk_fuel tasks = 2 + work (dependencies_of tasks) (ids tasks) []

unfoldable pub dependency_reaches_task : Text → Text → Dict Text TaskRecord → Bool
unfolding walk_fuel
dependency_reaches_task task_id dependency_id tasks =
    answered
      (reaches_walk (dependencies_of tasks) task_id (walk_fuel tasks) (dependency_id ∷ []) [])

-- The `ValueError`s of `TaskDependencyValidator.validate`.
pub data DependencyError : Type 0 where
  on_itself not_found cycle : Text → DependencyError

unfoldable pub error_message : Text → DependencyError → Text
unfolding lit
error_message task (DependencyError.on_itself d) =
    lit "Task " ++ (task ++ lit " cannot depend on itself")
error_message task (DependencyError.not_found d) = lit "Task " ++ (d ++ lit " not found")
error_message task (DependencyError.cycle d) =
    lit "Task " ++ (task ++ (lit " dependency cycle detected via " ++ d))

-- The checks of one dependency, and the loop, which skips one that it has checked.
unfoldable pub check_dependency : Text → Dict Text TaskRecord → Text → Option DependencyError
unfolding dependency_reaches_task
check_dependency task_id tasks d =
    if d == task_id
    then some (DependencyError.on_itself d)
    else if is_some (lookup d tasks)
    then (if dependency_reaches_task task_id d tasks then some (DependencyError.cycle d) else none)
    else some (DependencyError.not_found d)

abbrev first_error : Option DependencyError → Option DependencyError → Option DependencyError
first_error none rest = rest
first_error (some e) rest = some e

unfoldable pub validate_from :
    Text → Dict Text TaskRecord → List Text → List Text → Option DependencyError
unfolding check_dependency
validate_from task_id tasks seen [] = none
validate_from task_id tasks seen (d ∷ depends_on) =
    let rest = validate_from task_id tasks (if elem d seen then seen else d ∷ seen) depends_on in
    if elem d seen then rest else first_error (check_dependency task_id tasks d) rest

unfoldable pub validate : Text → List Text → Dict Text TaskRecord → Option DependencyError
unfolding validate_from
validate task_id depends_on tasks = validate_from task_id tasks [] depends_on

-- What one dependency adds to the blockers.
unfoldable pub blocker : Text → Option TaskRecord → List Text
unfolding lit status_value pipeline_value is_task_completed
blocker id none = (id ++ lit " (missing)") ∷ []
blocker id (some t) =
    if is_task_completed t
    then []
    else (t.id
        ++ (lit " ("
            ++ (status_value t.status
                ++ (lit "/" ++ (pipeline_value t.pipeline_status ++ lit ")")))))
      ∷ []

unfoldable pub blockers_from : Dict Text TaskRecord → List Text → List Text → List Text
unfolding blocker
blockers_from tasks seen [] = []
blockers_from tasks seen (id ∷ depends_on) =
    let rest = blockers_from tasks (if elem id seen then seen else id ∷ seen) depends_on in
    if elem id seen then rest else blocker id (lookup id tasks) ++ rest

unfoldable pub task_blockers : TaskRecord → Dict Text TaskRecord → List Text
unfolding blockers_from
task_blockers t tasks = blockers_from tasks [] t.depends_on
