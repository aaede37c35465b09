-- ===== src/Tasks/Queue/Guard.antt =====
-- litehive/state/locking.py (`WorkspaceMutationGuard.ensure_future_task_mutation_allowed`): the tasks
-- that an order must leave alone, since a runner uses them.
use litehive.Base.{
  Bool, true, false, not, ◌&&◌, ◌||◌, Option, none, some, List, [], ◌∷◌, ◌==◌, if◌then◌else◌,
}
use litehive.Base.Text.{Text, lit, text_eq}
use litehive.Base.Dict.{Dict, lookup}
use litehive.Domain.Task.{TaskRecord, WorkspaceState}
use litehive.Tasks.Eligibility.{is_task_eligible_for_execution}
use litehive.Tasks.Dequeue.{tasks_by_id, active_task_markers, executing}

-- `set(markers) == {marker}`, of markers that are there.
abbrev pub only : Text → List Text → Bool
only marker [] = true
only marker (m ∷ ms) = let rest = only marker ms in m == marker && rest

abbrev pub idle_slot : Option TaskRecord → Bool
idle_slot none = false
idle_slot (some t) = not (is_task_eligible_for_execution t) && not (executing t)

abbrev pub idle_progress : Option TaskRecord → Bool
idle_progress none = false
idle_progress (some t) = not (executing t)

-- Markers that do not mean that a runner uses the task.
unfoldable pub is_excused : List Text → Option TaskRecord → Bool
unfolding lit
is_excused markers task =
    only (lit "workspace.active_task_id") markers && idle_slot task
    || only (lit "task.status=in_progress") markers && idle_progress task

-- The task with its markers, if it is marked and they are not excused.
unfoldable pub conflict_of :
    Dict Text (List Text) → Dict Text TaskRecord → Text → Option (List Text)
unfolding is_excused
conflict_of markers tasks task_id = elim (lookup task_id markers) [
  | none ↦ none
  | some ms ↦ if is_excused ms (lookup task_id tasks) then none else some ms
]

abbrev pub with_conflict : Text → Option (List Text) → Dict Text (List Text) → Dict Text (List Text)
with_conflict task_id none others = others
with_conflict task_id (some markers) others = (task_id, markers) ∷ others

unfoldable pub conflicts_in :
    Dict Text (List Text) → Dict Text TaskRecord → List Text → Dict Text (List Text)
unfolding conflict_of
conflicts_in markers tasks [] = []
conflicts_in markers tasks (id ∷ ids) =
    with_conflict id (conflict_of markers tasks id) (conflicts_in markers tasks ids)

-- The conflicts of an order on these tasks; it is allowed if there are none.
unfoldable pub conflicts : WorkspaceState → List TaskRecord → List Text → Dict Text (List Text)
unfolding conflicts_in active_task_markers tasks_by_id
conflicts state tasks ids =
    conflicts_in (active_task_markers state tasks) (tasks_by_id tasks []) ids
