-- ===== src/Tasks/Eligibility.antt =====
-- litehive/tasks/queue_eligibility.py: whether a task may run, and where it would resume.
use litehive.Base.{
  Bool, true, false, not, ◌&&◌, ◌||◌, Option, none, some, List, [], ◌∷◌, leb, elem, ◌==◌,
  if◌then◌else◌, or_else,
}
use litehive.Base.Text.{Text, lit, text_eq, truthy}
use litehive.Base.Dict.{Dict, lookup}
use litehive.Domain.Common.{TaskStage, PipelineStatus}
use litehive.Domain.Status.{
  TaskExecutionStatus, execution_value, RuntimeStageStatus, marker_value, TaskOutcomeKind,
  pipeline_value, stage_value, is_queued, is_in_progress, is_interrupted, is_flagged, is_done,
  at_backlog, at_commit, at_done,
}
use litehive.Domain.Runtime.{RuntimeStageState, RuntimeInterruptionState}
use litehive.Domain.Task.{TaskRecord, WorkspaceState}
use litehive.Tasks.FailedRuns.{has_blocking_failed_run_history}
use litehive.Tasks.Normalization.{implementation_entry_stage}

-- `_TERMINAL_EXECUTION_STATUSES`.
unfoldable pub terminal_execution_statuses : List Text
unfolding execution_value
terminal_execution_statuses =
    execution_value TaskExecutionStatus.done
    ∷ execution_value TaskExecutionStatus.cancelled
    ∷ execution_value TaskExecutionStatus.failed
    ∷ execution_value TaskExecutionStatus.blocked
    ∷ execution_value TaskExecutionStatus.interrupted
    ∷ []

-- `_TRUSTED_STAGE_MARKER_STATUSES`.
unfoldable pub trusted_stage_marker_statuses : List Text
unfolding marker_value lit
trusted_stage_marker_statuses =
    marker_value RuntimeStageStatus.idle
    ∷ lit "paused"
    ∷ marker_value RuntimeStageStatus.interrupted
    ∷ marker_value RuntimeStageStatus.running
    ∷ []

-- `_TERMINAL_OUTCOME_KINDS`.
abbrev pub terminal_outcome_kind : Option TaskOutcomeKind → Bool
terminal_outcome_kind none = false
terminal_outcome_kind (some TaskOutcomeKind.closed) = true
terminal_outcome_kind (some TaskOutcomeKind.duplicate) = true
terminal_outcome_kind (some TaskOutcomeKind.deferred) = true
terminal_outcome_kind (some TaskOutcomeKind.wont_do) = true
terminal_outcome_kind (some _) = false

-- The member of `_RESUMABLE_PIPELINE_STAGES`, which are all stages, that is spelled as the text.
unfoldable pub normalize_resumable_stage_name : Option Text → Option TaskStage
unfolding stage_value
normalize_resumable_stage_name none = none
normalize_resumable_stage_name (some stage) =
    if stage == stage_value TaskStage.grooming
    then some TaskStage.grooming
    else if stage == stage_value TaskStage.implementing
    then some TaskStage.implementing
    else if stage == stage_value TaskStage.testing
    then some TaskStage.testing
    else if stage == stage_value TaskStage.accepting
    then some TaskStage.accepting
    else if stage == stage_value TaskStage.commit_to_git
    then some TaskStage.commit_to_git
    else none

-- The first candidate that names a stage.
unfoldable pub first_stage : List (Option Text) → Option TaskStage
unfolding normalize_resumable_stage_name
first_stage [] = none
first_stage (candidate ∷ candidates) =
    or_else (normalize_resumable_stage_name candidate) (first_stage candidates)

abbrev pub trusted : RuntimeStageState → Bool
trusted stage = elem stage.status trusted_stage_marker_statuses

abbrev pub marker_candidate : RuntimeStageState → List (Option Text)
marker_candidate stage = if trusted stage then stage.stage ∷ [] else []

abbrev pub resume_hint : Option RuntimeInterruptionState → Option Text
resume_hint none = none
resume_hint (some i) = i.resume_stage

abbrev pub status_hint : Option RuntimeInterruptionState → Option Text
status_hint none = none
status_hint (some i) = i.pipeline_status

unfoldable pub resumable_queue_stage : TaskRecord → Option TaskStage
unfolding first_stage pipeline_value trusted_stage_marker_statuses
resumable_queue_stage t = first_stage (
    some (pipeline_value t.pipeline_status)
    ∷ resume_hint t.runtime.execution.interruption
    ∷ status_hint t.runtime.execution.interruption
    ∷ marker_candidate t.runtime.pipeline.current_stage)

abbrev pub is_running : RuntimeStageState → Bool
is_running stage = stage.status == marker_value RuntimeStageStatus.running

unfoldable pub resumable_running_stage : TaskRecord → Option TaskStage
unfolding resumable_queue_stage normalize_resumable_stage_name marker_value
resumable_running_stage t =
    let current = t.runtime.pipeline.current_stage in
    if is_running current
    then or_else (normalize_resumable_stage_name current.stage) (resumable_queue_stage t)
    else resumable_queue_stage t

abbrev pub reason_in : Option Text → List Text → Bool
reason_in none reasons = false
reason_in (some r) reasons = elem r reasons

unfoldable pub manual_reasons : List Text
unfolding lit
manual_reasons =
    lit "hook_reject_loop"
    ∷ lit "merge_failed"
    ∷ lit "rejection_loop_detected"
    ∷ lit "semantic_reject"
    ∷ lit "time_budget_exceeded"
    ∷ []

unfoldable pub exhausted_reasons : List Text
unfolding lit
exhausted_reasons =
    lit "crash_budget_exhausted" ∷ lit "recovery_budget_exhausted" ∷ lit "recovery_failed" ∷ []

unfoldable pub needs_manual_intervention : TaskRecord → Bool
unfolding manual_reasons
needs_manual_intervention t =
    has_blocking_failed_run_history t
    || is_flagged t.status && (leb 3 t.flag_count || reason_in t.flag_reason manual_reasons)

unfoldable pub is_recovery_budget_exhausted : TaskRecord → Bool
unfolding exhausted_reasons
is_recovery_budget_exhausted t = is_flagged t.status && reason_in t.flag_reason exhausted_reasons

unfoldable pub should_requeue_commit_stage_task : TaskRecord → Bool
should_requeue_commit_stage_task t =
    at_commit t.pipeline_status
    && (is_queued t.status || is_in_progress t.status || is_interrupted t.status)

unfoldable pub has_terminal_execution_status : TaskRecord → Bool
unfolding terminal_execution_statuses
has_terminal_execution_status t =
    elem t.runtime.pipeline.execution_status terminal_execution_statuses

unfoldable pub has_terminal_outcome_kind : TaskRecord → Bool
has_terminal_outcome_kind t = terminal_outcome_kind t.runtime.pipeline.last_outcome.kind

abbrev pub names : Option Text → Text → Bool
names none text = false
names (some stage) text = stage == text

abbrev pub interruption_at : Option RuntimeInterruptionState → Text → Bool
interruption_at none stage = false
interruption_at (some i) stage = names i.resume_stage stage || names i.pipeline_status stage

unfoldable pub task_has_resume_marker : TaskRecord → Bool
unfolding pipeline_value trusted_stage_marker_statuses
task_has_resume_marker t =
    let stage = pipeline_value t.pipeline_status in
    let current = t.runtime.pipeline.current_stage in
    if names current.stage stage && trusted current
    then true
    else interruption_at t.runtime.execution.interruption stage

unfoldable pub is_task_eligible_for_execution : TaskRecord → Bool
unfolding has_terminal_execution_status has_terminal_outcome_kind needs_manual_intervention
    is_recovery_budget_exhausted
is_task_eligible_for_execution t =
    if has_blocking_failed_run_history t
    then false
    else if has_terminal_execution_status t
    then false
    else if has_terminal_outcome_kind t
    then false
    else if at_done t.pipeline_status
    then false
    else if needs_manual_intervention t
    then false
    else if is_recovery_budget_exhausted t
    then false
    else if is_queued t.status || is_in_progress t.status || is_flagged t.status
    then true
    else if is_interrupted t.status
    then true
    else false

unfoldable pub auto_recovery_stage_for_flagged_task : TaskRecord → PipelineStatus
unfolding implementation_entry_stage
auto_recovery_stage_for_flagged_task t =
    if at_commit t.pipeline_status
    then PipelineStatus.commit_to_git
    else implementation_entry_stage t

unfoldable pub is_task_completed : TaskRecord → Bool
is_task_completed t = is_done t.status && at_done t.pipeline_status

unfoldable pub is_interrupted_task : TaskRecord → Bool
unfolding is_task_eligible_for_execution
is_interrupted_task t =
    is_task_eligible_for_execution t
    && (is_in_progress t.status || not (at_backlog t.pipeline_status))

-- `current_stage.stage or active_task.pipeline_status`.
abbrev pub stage_label : Option Text → PipelineStatus → Text
stage_label none p = pipeline_value p
stage_label (some stage) p = if truthy stage then stage else pipeline_value p

abbrev pub live_stage : Option TaskRecord → Option Text
live_stage none = none
live_stage (some t) =
    let current = t.runtime.pipeline.current_stage in
    if t.runtime.pipeline.execution_status == execution_value TaskExecutionStatus.running
      || is_running current
    then some (stage_label current.stage t.pipeline_status)
    else none

abbrev pub active_task : Option Text → Dict Text TaskRecord → Option TaskRecord
active_task none tasks = none
active_task (some id) tasks = lookup id tasks

unfoldable pub live_active_pipeline_stage : WorkspaceState → Dict Text TaskRecord → Option Text
unfolding execution_value marker_value pipeline_value
live_active_pipeline_stage state tasks = live_stage (active_task state.active_task_id tasks)
