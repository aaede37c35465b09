-- ===== src/Domain/Task.antt =====
-- litehive/domain/task.py: a task, its two halves in storage, and the state of a workspace.
use litehive.Base.{ℕ, Bool, false, ◌||◌, Option, none, some, List, if◌then◌else◌}
use litehive.Base.Text.{Text, lit, truthy}
use litehive.Base.Json.{Fields}
use litehive.Domain.Common.{PipelineMode, PipelineStatus}
use litehive.Domain.Status.{
  TaskStatus, OutcomeReasonCode, code_value, is_queued, is_in_progress, is_interrupted, is_parked,
  at_done,
}
use litehive.Domain.Runtime.{TaskRuntime}

pub record TaskRetryPolicy : Type 0 where
  pub max_retries : Option ℕ
  pub stage_retry_limit : Option ℕ
  pub rejection_loop_limit : Option ℕ

pub data CreationSource : Type 0 where
  manual agent follow_up : CreationSource

pub record TaskCreationSource : Type 0 where
  pub source : CreationSource
  pub task_id : Option Text
  pub stage : Option Text
  pub role : Option Text
  pub rationale : Text
  pub blocking : Bool

pub record TaskIntentGitSettings : Type 0 where
  pub auto_commit : Bool
  pub commit_message : Option Text

pub record TaskStateGitSettings : Type 0 where
  pub commit_sha : Option Text
  pub checkpoint_attempts : ℕ
  pub worktree_path : Option Text

pub record GitSettings : Type 0 where
  pub auto_commit : Bool
  pub commit_message : Option Text
  pub commit_sha : Option Text
  pub checkpoint_attempts : ℕ
  pub worktree_path : Option Text

unfoldable pub to_intent_git_settings : GitSettings → TaskIntentGitSettings
to_intent_git_settings g = record { auto_commit = g.auto_commit; commit_message = g.commit_message }

unfoldable pub to_state_git_settings : GitSettings → TaskStateGitSettings
to_state_git_settings g = record {
  commit_sha = g.commit_sha;
  checkpoint_attempts = g.checkpoint_attempts;
  worktree_path = g.worktree_path;
}

-- `git.model_copy(update=state.to_git_updates())`.
unfoldable pub with_git_updates : GitSettings → TaskStateGitSettings → GitSettings
with_git_updates g state = record g {
  commit_sha = state.commit_sha;
  checkpoint_attempts = state.checkpoint_attempts;
  worktree_path = state.worktree_path;
}

pub record TaskIntentRecord : Type 0 where
  pub id : Text
  pub slug : Text
  pub title : Text
  pub created_at : Text
  pub pipeline_mode : PipelineMode
  pub priority : Text
  pub depends_on : List Text
  pub goal : Text
  pub acceptance_criteria : List Text
  pub constraints : List Text
  pub plan : List Text
  pub git : TaskIntentGitSettings
  pub created_from : Option TaskCreationSource

pub record TaskStateRecord : Type 0 where
  pub model : Option Text
  pub status : TaskStatus
  pub close_reason : Option Text
  pub flag_reason : Option Text
  pub flag_count : ℕ
  pub pipeline_status : PipelineStatus
  pub updated_at : Text
  pub subagents : List Fields
  pub git : TaskStateGitSettings
  pub retry_policy : TaskRetryPolicy
  pub runtime : TaskRuntime

pub record TaskRecord : Type 0 where
  pub id : Text
  pub slug : Text
  pub title : Text
  pub depends_on : List Text
  pub model : Option Text
  pub pipeline_mode : PipelineMode
  pub status : TaskStatus
  pub close_reason : Option Text
  pub flag_reason : Option Text
  pub flag_count : ℕ
  pub pipeline_status : PipelineStatus
  pub priority : Text
  pub created_at : Text
  pub updated_at : Text
  pub goal : Text
  pub acceptance_criteria : List Text
  pub constraints : List Text
  pub plan : List Text
  pub subagents : List Fields
  pub git : GitSettings
  pub retry_policy : TaskRetryPolicy
  pub created_from : Option TaskCreationSource
  pub runtime : TaskRuntime

pub record UnmergedWorktree : Type 0 where
  pub task_id : Text
  pub worktree_path : Text

pub record WorkspaceState : Type 0 where
  pub active_task_id : Option Text
  pub queue : List Text
  pub pool_stop_reason : Option Text
  pub consecutive_task_failures : ℕ
  pub next_task_number : ℕ
  pub unmerged_worktrees : List UnmergedWorktree

-- The text of an optional reason, where the empty one counts as missing (`a or b`).
abbrev pub given : Option Text → Text → Text
given none other = other
given (some t) other = if truthy t then t else other

-- What `canonicalize_task_terminal_state` leaves as the close reason.
unfoldable pub close_reason_for : TaskStatus → Option Text → Option OutcomeReasonCode → Option Text
unfolding lit code_value
close_reason_for TaskStatus.closed reason (some code) = some (given reason (code_value code))
close_reason_for TaskStatus.closed reason none = some (given reason (lit "unknown"))
close_reason_for TaskStatus.done reason code = some (given reason (lit "done"))
close_reason_for _ reason code = none

unfoldable pub flag_reason_for : TaskStatus → Option Text → Option Text
flag_reason_for TaskStatus.closed reason = none
flag_reason_for TaskStatus.done reason = none
flag_reason_for _ reason = reason

unfoldable pub canonicalize_task_terminal_state : TaskRecord → TaskRecord
unfolding close_reason_for flag_reason_for
canonicalize_task_terminal_state t = record t {
  close_reason =
      close_reason_for t.status t.close_reason t.runtime.pipeline.last_outcome.reason_code;
  flag_reason = flag_reason_for t.status t.flag_reason;
}

-- `TaskRecord.is_pool_pending`, `is_resumable`.
unfoldable pub is_pool_pending : TaskRecord → Bool
is_pool_pending t =
    if at_done t.pipeline_status then false else is_queued t.status || is_in_progress t.status

unfoldable pub is_resumable : TaskRecord → Bool
is_resumable t =
    if at_done t.pipeline_status then false else is_interrupted t.status || is_parked t.status
