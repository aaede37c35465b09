-- ===== src/Domain/Status.antt =====
-- litehive/domain/common.py, outcomes.py: what a task, its run and its stage marker can be, and why
-- it ended. The members are strings: they compare by their value.
use litehive.Base.{Bool, true, false}
use litehive.Base.Text.{Text, lit}
use litehive.Domain.Common.{TaskStage, PipelineStatus}

pub data TaskStatus : Type 0 where
  queued in_progress interrupted parked done : TaskStatus
  closed flagged : TaskStatus

-- `TaskStatus.value`.
unfoldable pub status_value : TaskStatus → Text
unfolding lit
status_value TaskStatus.queued = lit "queued"
status_value TaskStatus.in_progress = lit "in_progress"
status_value TaskStatus.interrupted = lit "interrupted"
status_value TaskStatus.parked = lit "parked"
status_value TaskStatus.done = lit "done"
status_value TaskStatus.closed = lit "closed"
status_value TaskStatus.flagged = lit "flagged"

pub data TaskExecutionStatus : Type 0 where
  idle running paused queued interrupted : TaskExecutionStatus
  done cancelled failed blocked flagged : TaskExecutionStatus

-- `TaskExecutionStatus.value`.
unfoldable pub execution_value : TaskExecutionStatus → Text
unfolding lit
execution_value TaskExecutionStatus.idle = lit "idle"
execution_value TaskExecutionStatus.running = lit "running"
execution_value TaskExecutionStatus.paused = lit "paused"
execution_value TaskExecutionStatus.queued = lit "queued"
execution_value TaskExecutionStatus.interrupted = lit "interrupted"
execution_value TaskExecutionStatus.done = lit "done"
execution_value TaskExecutionStatus.cancelled = lit "cancelled"
execution_value TaskExecutionStatus.failed = lit "failed"
execution_value TaskExecutionStatus.blocked = lit "blocked"
execution_value TaskExecutionStatus.flagged = lit "flagged"

pub data RuntimeStageStatus : Type 0 where
  idle running interrupted completed failed : RuntimeStageStatus

-- `RuntimeStageStatus.value`.
unfoldable pub marker_value : RuntimeStageStatus → Text
unfolding lit
marker_value RuntimeStageStatus.idle = lit "idle"
marker_value RuntimeStageStatus.running = lit "running"
marker_value RuntimeStageStatus.interrupted = lit "interrupted"
marker_value RuntimeStageStatus.completed = lit "completed"
marker_value RuntimeStageStatus.failed = lit "failed"

pub data TaskOutcomeKind : Type 0 where
  done closed flagged blocked interrupted : TaskOutcomeKind
  cancelled wont_do deferred duplicate : TaskOutcomeKind

-- `TaskOutcomeKind.value`.
unfoldable pub outcome_value : TaskOutcomeKind → Text
unfolding lit
outcome_value TaskOutcomeKind.done = lit "done"
outcome_value TaskOutcomeKind.closed = lit "closed"
outcome_value TaskOutcomeKind.flagged = lit "flagged"
outcome_value TaskOutcomeKind.blocked = lit "blocked"
outcome_value TaskOutcomeKind.interrupted = lit "interrupted"
outcome_value TaskOutcomeKind.cancelled = lit "cancelled"
outcome_value TaskOutcomeKind.wont_do = lit "wont_do"
outcome_value TaskOutcomeKind.deferred = lit "deferred"
outcome_value TaskOutcomeKind.duplicate = lit "duplicate"

pub data TaskCloseReason : Type 0 where
  done wont_do deferred duplicate : TaskCloseReason

-- `TaskCloseReason.value`.
unfoldable pub close_value : TaskCloseReason → Text
unfolding lit
close_value TaskCloseReason.done = lit "done"
close_value TaskCloseReason.wont_do = lit "wont_do"
close_value TaskCloseReason.deferred = lit "deferred"
close_value TaskCloseReason.duplicate = lit "duplicate"

pub data OutcomeReasonCode : Type 0 where
  verdict_fail verdict_reject verdict_blocked hallucinated_completion missing_acceptance_criteria :
      OutcomeReasonCode
  retry_limit_exhausted stage_retry_limit_exhausted execution_interrupted execution_cancelled
        stage_exception :
      OutcomeReasonCode
  unsupported_verdict merge_conflict task_done task_closed : OutcomeReasonCode

-- `OutcomeReasonCode.value`.
unfoldable pub code_value : OutcomeReasonCode → Text
unfolding lit
code_value OutcomeReasonCode.verdict_fail = lit "verdict_fail"
code_value OutcomeReasonCode.verdict_reject = lit "verdict_reject"
code_value OutcomeReasonCode.verdict_blocked = lit "verdict_blocked"
code_value OutcomeReasonCode.hallucinated_completion = lit "hallucinated_completion"
code_value OutcomeReasonCode.missing_acceptance_criteria = lit "missing_acceptance_criteria"
code_value OutcomeReasonCode.retry_limit_exhausted = lit "retry_limit_exhausted"
code_value OutcomeReasonCode.stage_retry_limit_exhausted = lit "stage_retry_limit_exhausted"
code_value OutcomeReasonCode.execution_interrupted = lit "execution_interrupted"
code_value OutcomeReasonCode.execution_cancelled = lit "execution_cancelled"
code_value OutcomeReasonCode.stage_exception = lit "stage_exception"
code_value OutcomeReasonCode.unsupported_verdict = lit "unsupported_verdict"
code_value OutcomeReasonCode.merge_conflict = lit "merge_conflict"
code_value OutcomeReasonCode.task_done = lit "task_done"
code_value OutcomeReasonCode.task_closed = lit "task_closed"

-- `PipelineStatus.value`.
unfoldable pub pipeline_value : PipelineStatus → Text
unfolding lit
pipeline_value PipelineStatus.backlog = lit "backlog"
pipeline_value PipelineStatus.grooming = lit "grooming"
pipeline_value PipelineStatus.implementing = lit "implementing"
pipeline_value PipelineStatus.testing = lit "testing"
pipeline_value PipelineStatus.accepting = lit "accepting"
pipeline_value PipelineStatus.commit_to_git = lit "commit_to_git"
pipeline_value PipelineStatus.done = lit "done"
pipeline_value PipelineStatus.flagged = lit "flagged"

-- `TaskStage.value`.
unfoldable pub stage_value : TaskStage → Text
unfolding lit
stage_value TaskStage.grooming = lit "grooming"
stage_value TaskStage.implementing = lit "implementing"
stage_value TaskStage.testing = lit "testing"
stage_value TaskStage.accepting = lit "accepting"
stage_value TaskStage.commit_to_git = lit "commit_to_git"

-- `TaskCloseReason.outcome_reason_code`.
unfoldable pub outcome_reason_code : TaskCloseReason → OutcomeReasonCode
outcome_reason_code TaskCloseReason.done = OutcomeReasonCode.task_done
outcome_reason_code _ = OutcomeReasonCode.task_closed

-- `TaskCloseReason.task_close_label`.
unfoldable pub task_close_label : TaskCloseReason → Text
unfolding lit
task_close_label TaskCloseReason.done = lit "Task already satisfied."
task_close_label TaskCloseReason.wont_do = lit "Task closed as won't do."
task_close_label TaskCloseReason.deferred = lit "Task deferred."
task_close_label TaskCloseReason.duplicate = lit "Task closed as duplicate."

-- `==` with the member that the name says.
abbrev pub is_queued : TaskStatus → Bool
is_queued TaskStatus.queued = true
is_queued _ = false

abbrev pub is_in_progress : TaskStatus → Bool
is_in_progress TaskStatus.in_progress = true
is_in_progress _ = false

abbrev pub is_interrupted : TaskStatus → Bool
is_interrupted TaskStatus.interrupted = true
is_interrupted _ = false

abbrev pub is_parked : TaskStatus → Bool
is_parked TaskStatus.parked = true
is_parked _ = false

abbrev pub is_done : TaskStatus → Bool
is_done TaskStatus.done = true
is_done _ = false

abbrev pub is_closed : TaskStatus → Bool
is_closed TaskStatus.closed = true
is_closed _ = false

abbrev pub is_flagged : TaskStatus → Bool
is_flagged TaskStatus.flagged = true
is_flagged _ = false

abbrev pub at_backlog : PipelineStatus → Bool
at_backlog PipelineStatus.backlog = true
at_backlog _ = false

abbrev pub at_commit : PipelineStatus → Bool
at_commit PipelineStatus.commit_to_git = true
at_commit _ = false

abbrev pub at_done : PipelineStatus → Bool
at_done PipelineStatus.done = true
at_done _ = false
