-- ===== src/Tasks/Selection/Normalize.antt =====
-- litehive/tasks/queue_selection.py: queued tasks whose stage is stale go back to the backlog
-- (`_normalize_stale_pipeline_statuses`), and unfinished tasks that fell off the queue come back to
-- its front (`restore_missing_queued_tasks`).
use litehive.Base.{
  Bool, false, not, ◌||◌, Option, some, is_some, List, [], ◌∷◌, ◌++◌, elem, if◌then◌else◌,
}
use litehive.Base.Text.{Text, lit, text_eq}
use litehive.Base.Dict.{Dict}
use litehive.Domain.Common.{PipelineStatus}
use litehive.Domain.Status.{pipeline_value, is_queued, is_in_progress, at_backlog}
use litehive.Domain.Task.{TaskRecord, WorkspaceState}
use litehive.Tasks.Eligibility.{
  names, task_has_resume_marker, live_active_pipeline_stage, is_task_eligible_for_execution,
  resumable_queue_stage,
}
use litehive.Tasks.Mutations.{idle_stage_state, repointed, is_active}

-- The tests of the loop: the task is not active, and claims a stage that nothing vouches for.
unfoldable pub is_stale : WorkspaceState → Option Text → TaskRecord → Bool
unfolding pipeline_value task_has_resume_marker
is_stale state active_stage t =
    if is_active state.active_task_id t.id
    then false
    else if at_backlog t.pipeline_status
    then false
    else if names active_stage (pipeline_value t.pipeline_status)
    then false
    else if not (is_queued t.status)
    then false
    else not (task_has_resume_marker t)

unfoldable pub sent_to_backlog : Text → TaskRecord → TaskRecord
unfolding idle_stage_state lit
sent_to_backlog now t = record t {
  pipeline_status = PipelineStatus.backlog;
  runtime = record t.runtime {
    pipeline = record t.runtime.pipeline {
      current_stage = idle_stage_state now (some (lit "backlog"));
      updated_at = some now;
      last_outcome = repointed t.runtime.pipeline.last_outcome (lit "backlog");
    };
  };
}

unfoldable pub normalize_all :
    (TaskRecord → Bool) → Text → Dict Text TaskRecord → Dict Text TaskRecord × List TaskRecord
unfolding sent_to_backlog
normalize_all stale now [] = ([], [])
normalize_all stale now ((id, t) ∷ rest) =
    let (tasks, mutated) = normalize_all stale now rest in
    if stale t
    then ((id, sent_to_backlog now t) ∷ tasks, sent_to_backlog now t ∷ mutated)
    else ((id, t) ∷ tasks, mutated)

-- The tasks afterwards, and those that were changed.
unfoldable pub normalize_stale_pipeline_statuses :
    WorkspaceState → Dict Text TaskRecord → Text → Dict Text TaskRecord × List TaskRecord
unfolding normalize_all is_stale live_active_pipeline_stage
normalize_stale_pipeline_statuses state tasks now =
    let active_stage = live_active_pipeline_stage state tasks in
    normalize_all (is_stale state active_stage) now tasks

unfoldable pub is_missing : Option Text → List Text → Text → TaskRecord → Bool
unfolding is_task_eligible_for_execution resumable_queue_stage
is_missing active queued_ids id t =
    if not (is_task_eligible_for_execution t)
    then false
    else if is_active active id || elem id queued_ids
    then false
    else is_in_progress t.status || is_some (resumable_queue_stage t)

-- `restored_front`, from the ids that are queued or restored already.
unfoldable pub restored_from : Option Text → List Text → Dict Text TaskRecord → List Text
unfolding is_missing
restored_from active queued_ids [] = []
restored_from active queued_ids ((id, t) ∷ rest) =
    let missing = is_missing active queued_ids id t in
    let later = restored_from active (if missing then id ∷ queued_ids else queued_ids) rest in
    if missing then id ∷ later else later

-- The state with its queue, and the ids that were put in front of it.
unfoldable pub restore_missing_queued_tasks :
    WorkspaceState → Dict Text TaskRecord → WorkspaceState × List Text
unfolding restored_from
restore_missing_queued_tasks state tasks =
    let front = restored_from state.active_task_id state.queue tasks in
    (record state { queue = front ++ state.queue }, front)
