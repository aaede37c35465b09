-- ===== src/Tasks/Dequeue.antt =====
-- litehive/tasks/queue_selection.py: the runner takes its next task (`_dequeue_next_task_selection`),
-- if no two tasks claim to be active (`_validate_single_active_task_impl`).
use litehive.Base.{
  ℕ, suc, Bool, true, false, not, ◌&&◌, ◌||◌, Option, none, some, is_some, List, [], ◌∷◌, ◌++◌,
  elem, length, ◌==◌, leb, filter, if◌then◌else◌,
}
use litehive.Base.Text.{Text, lit, text_eq}
use litehive.Base.Dict.{Dict, lookup, insert}
use litehive.Domain.Common.{PipelineStatus}
use litehive.Domain.Status.{
  TaskStatus, TaskExecutionStatus, execution_value, is_queued, is_in_progress, is_interrupted,
  is_flagged, at_done,
}
use litehive.Domain.Task.{TaskRecord, WorkspaceState}
use litehive.Tasks.FailedRuns.{nonempty, values}
use litehive.Tasks.Eligibility.{
  is_task_eligible_for_execution, needs_manual_intervention, is_recovery_budget_exhausted,
  auto_recovery_stage_for_flagged_task, active_task,
}
use litehive.Tasks.Mutations.{reset_task_for_recovery, is_active}
use litehive.Tasks.Selection.Normalize.{normalize_stale_pipeline_statuses}
use litehive.Tasks.Selection.Resolve.{BlockedTask, Resolved, resolve_next_task_from_snapshot}
pub mod Keys
pub mod Got
pub mod Taking

-- `{task.id: task for task in tasks}`.
unfoldable pub tasks_by_id : List TaskRecord → Dict Text TaskRecord → Dict Text TaskRecord
tasks_by_id [] d = d
tasks_by_id (t ∷ ts) d = tasks_by_id ts (insert t.id t d)

abbrev pub or_nil : Option (List Text) → List Text
or_nil none = []
or_nil (some xs) = xs

-- `markers.setdefault(id, []).append(marker)`.
abbrev pub mark : Bool → Text → Text → Dict Text (List Text) → Dict Text (List Text)
mark b id marker d = if b then insert id (or_nil (lookup id d) ++ marker ∷ []) d else d

abbrev pub executing : TaskRecord → Bool
executing t = t.runtime.pipeline.execution_status == execution_value TaskExecutionStatus.running

abbrev pub claims_slot : Option TaskRecord → Bool
claims_slot none = false
claims_slot (some t) = is_task_eligible_for_execution t || executing t

abbrev pub claims_progress : TaskRecord → Bool
claims_progress t =
    is_in_progress t.status && not (at_done t.pipeline_status) && is_task_eligible_for_execution t

unfoldable pub mark_tasks : List TaskRecord → Dict Text (List Text) → Dict Text (List Text)
unfolding lit execution_value
mark_tasks [] d = d
mark_tasks (t ∷ ts) d = mark_tasks ts (
    mark (executing t) t.id (lit "runtime.pipeline.execution_status=running")
      (mark (claims_progress t) t.id (lit "task.status=in_progress") d))

abbrev pub slot_marker : Option Text → Bool → Dict Text (List Text)
slot_marker none claimed = []
slot_marker (some id) claimed = mark claimed id (lit "workspace.active_task_id") []

unfoldable pub active_task_markers : WorkspaceState → List TaskRecord → Dict Text (List Text)
unfolding mark_tasks lit tasks_by_id
active_task_markers state tasks = mark_tasks tasks (
    slot_marker state.active_task_id
      (claims_slot (active_task state.active_task_id (tasks_by_id tasks []))))

unfoldable pub single_active : WorkspaceState → List TaskRecord → Bool
unfolding active_task_markers
single_active state tasks = leb (length (active_task_markers state tasks)) 1

-- The first queued id that names neither a task nor, in the store, the intent of one.
unfoldable pub missing_intent : (Text → Bool) → Dict Text TaskRecord → List Text → Option Text
missing_intent has_intent tasks [] = none
missing_intent has_intent tasks (id ∷ ids) =
    let rest = missing_intent has_intent tasks ids in
    if is_some (lookup id tasks) || has_intent id then rest else some id

-- `recovered` is the stage that a flagged task was sent back to, with a recovery report and a reset
-- of its lifecycle row; `saved` says whether the state is written.
pub record Dequeued : Type 0 where
  pub task : Option TaskRecord
  pub blocked : List BlockedTask
  pub state : WorkspaceState
  pub recovered : Option PipelineStatus
  pub saved : Bool

pub data Dequeue : Type 0 where
  conflict : Dict Text (List Text) → Dequeue
  launch_failure : Text → Dequeue
  dequeued : Dequeued → Dequeue

-- The task pinned as active, out of the queue.
abbrev pub pinned : WorkspaceState → TaskRecord → WorkspaceState
pinned state t = if is_active state.active_task_id t.id then state else record state {
  active_task_id = some t.id;
  queue = filter (λ id. not (id == t.id)) state.queue;
}

abbrev pub begun : TaskRecord → TaskRecord
begun t =
    if is_queued t.status || is_interrupted t.status
    then record t { status = TaskStatus.in_progress }
    else t

abbrev pub recovered_at : TaskRecord → PipelineStatus → Text → TaskRecord
recovered_at t stage now = reset_task_for_recovery t TaskStatus.queued stage false now

abbrev pub unpinned : WorkspaceState → Text → WorkspaceState
unpinned state id = record state {
  active_task_id = if is_active state.active_task_id id then none else state.active_task_id;
}

-- What `if mutated:` does to the chosen task, in the state where it is pinned.
unfoldable pub take_task : TaskRecord → WorkspaceState → List BlockedTask → Text → Dequeued
unfolding needs_manual_intervention is_recovery_budget_exhausted
    auto_recovery_stage_for_flagged_task reset_task_for_recovery
take_task t state blocked now =
    if is_flagged t.status
    then (if needs_manual_intervention t || is_recovery_budget_exhausted t
        then record {
          task = none;
          blocked = blocked;
          state = unpinned state t.id;
          recovered = none;
          saved = true;
        }
        else record {
          task = some (begun (recovered_at t (auto_recovery_stage_for_flagged_task t) now));
          blocked = blocked;
          state = state;
          recovered = some (auto_recovery_stage_for_flagged_task t);
          saved = true;
        })
    else record {
      task = some (begun t);
      blocked = blocked;
      state = state;
      recovered = none;
      saved = true;
    }

unfoldable pub dequeue_chosen : Option TaskRecord → Resolved → Bool → Text → Dequeued
unfolding take_task
dequeue_chosen none r normalized now = record {
  task = none;
  blocked = r.blocked;
  state = r.state;
  recovered = none;
  saved = r.mutated || normalized;
}
dequeue_chosen (some t) r normalized now =
    if r.mutated || normalized || not (is_active r.state.active_task_id t.id)
    then take_task t (pinned r.state t) r.blocked now
    else record {
      task = some t;
      blocked = r.blocked;
      state = r.state;
      recovered = none;
      saved = false;
    }

abbrev pub launched : Option Text → Dequeued → Dequeue
launched none d = Dequeue.dequeued d
launched (some id) d = Dequeue.launch_failure id

-- From the state and the tasks as they are loaded under the workspace's locks.
unfoldable pub dequeue_next_task_selection :
    (Text → Bool) → WorkspaceState → List TaskRecord → Text → Dequeue
unfolding single_active missing_intent tasks_by_id dequeue_chosen normalize_stale_pipeline_statuses
    resolve_next_task_from_snapshot
dequeue_next_task_selection has_intent state tasks now =
    let by_id = tasks_by_id tasks [] in
    let (normal, changed) = normalize_stale_pipeline_statuses state by_id now in
    let r = resolve_next_task_from_snapshot normal state in
    if not (single_active state tasks)
    then Dequeue.conflict (active_task_markers state tasks)
    else launched (missing_intent has_intent by_id state.queue)
        (dequeue_chosen r.chosen r (nonempty changed) now)
