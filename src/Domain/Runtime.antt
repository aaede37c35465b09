-- ===== src/Domain/Runtime.antt =====
-- litehive/domain/runtime.py: what a task carries about its runs. A value of the engine library
-- (a subagent record, a continuation) and a report's diagnostics are the JSON object they serialise
-- to, which the code below only passes on.
use litehive.Base.{ℕ, Bool, false, Option, none, List, []}
use litehive.Base.Text.{Text}
use litehive.Base.Dict.{Dict}
use litehive.Base.Json.{Fields, end}
use litehive.Domain.Status.{
  TaskExecutionStatus, execution_value, RuntimeStageStatus, marker_value, TaskOutcomeKind,
  OutcomeReasonCode,
}

pub record RuntimeGitState : Type 0 where
  pub commit_sha : Option Text
  pub worktree_path : Option Text

-- `status` is a member of `RuntimeStageStatus` or any other string.
pub record RuntimeStageState : Type 0 where
  pub stage : Option Text
  pub status : Text
  pub started_at : Option Text
  pub updated_at : Option Text
  pub duration_seconds : ℕ

pub record RuntimeEngineSwitch : Type 0 where
  pub stage : Text
  pub from_engine : Text
  pub to_engine : Text
  pub reason : Text
  pub happened_at : Text

pub record RuntimeHookRejectFingerprint : Type 0 where
  pub point : Text
  pub command : Text
  pub description : Text
  pub fingerprint : Text

pub record RuntimeRecoveryOutcome : Type 0 where
  pub origin_stage : Option Text
  pub trigger_event_kind : Text
  pub fingerprint : Text
  pub classification : Option Text
  pub budget_key : Text
  pub recovery_verdict : Text
  pub disposition : Text
  pub reason_code : Option Text
  pub message : Text
  pub created_at : Option Text

pub record RuntimeFailedRunRecord : Type 0 where
  pub stage : Text
  pub failure_shape : Text
  pub count : ℕ
  pub first_at : Option Text
  pub latest_at : Option Text
  pub last_reason : Text
  pub source : Option Text
  pub classification : Option Text
  pub retry_limit : Option ℕ
  pub failed_reason : Option Text
  pub operator_override_count : ℕ
  pub last_operator_override_at : Option Text

pub record TaskOutcomeState : Type 0 where
  pub kind : Option TaskOutcomeKind
  pub stage : Option Text
  pub reason_code : Option OutcomeReasonCode
  pub reason : Text
  pub failure_classification : Option Text
  pub failure_diagnostics : Fields
  pub follow_up_task_id : Option Text
  pub retry_count : ℕ
  pub retry_limit : ℕ
  pub recorded_at : Option Text

pub data InterruptionSource : Type 0 where
  runner subagent : InterruptionSource

pub record RuntimeInterruptionState : Type 0 where
  pub source : InterruptionSource
  pub stage : Option Text
  pub pipeline_status : Option Text
  pub resume_stage : Option Text
  pub reason : Text
  pub summary : Text
  pub interrupted_at : Option Text
  pub detected_at : Option Text
  pub run_started_at : Option Text
  pub stage_started_at : Option Text
  pub subagent : Option Fields

-- `execution_status` is a member of `TaskExecutionStatus` or any other string.
pub record PipelineRuntime : Type 0 where
  pub git : RuntimeGitState
  pub execution_status : Text
  pub run_started_at : Option Text
  pub updated_at : Option Text
  pub retry_count : ℕ
  pub retry_limit : ℕ
  pub current_stage : RuntimeStageState
  pub consecutive_same_hook_rejects : ℕ
  pub last_hook_reject_fingerprint : Option RuntimeHookRejectFingerprint
  pub hook_reject_recovery_invoked : Bool
  pub recovery_history : List RuntimeRecoveryOutcome
  pub failed_run_history : Dict Text RuntimeFailedRunRecord
  pub last_outcome : TaskOutcomeState

pub record ExecutionRuntime : Type 0 where
  pub active_subagent : Option Fields
  pub interruption : Option RuntimeInterruptionState
  pub last_engine_switch : Option RuntimeEngineSwitch

pub record TaskRuntime : Type 0 where
  pub pipeline : PipelineRuntime
  pub execution : ExecutionRuntime

-- The defaults of the fields.
abbrev pub new_outcome : TaskOutcomeState
new_outcome = record {
  kind = none;
  stage = none;
  reason_code = none;
  reason = [];
  failure_classification = none;
  failure_diagnostics = end;
  follow_up_task_id = none;
  retry_count = 0;
  retry_limit = 0;
  recorded_at = none;
}

abbrev pub new_stage_state : Option Text → Text → Option Text → Option Text → RuntimeStageState
new_stage_state stage status started_at updated_at = record {
  stage = stage;
  status = status;
  started_at = started_at;
  updated_at = updated_at;
  duration_seconds = 0;
}

unfoldable pub new_runtime : TaskRuntime
unfolding execution_value marker_value
new_runtime = record {
  pipeline = record {
    git = record { commit_sha = none; worktree_path = none };
    execution_status = execution_value TaskExecutionStatus.idle;
    run_started_at = none;
    updated_at = none;
    retry_count = 0;
    retry_limit = 0;
    current_stage = new_stage_state none (marker_value RuntimeStageStatus.idle) none none;
    consecutive_same_hook_rejects = 0;
    last_hook_reject_fingerprint = none;
    hook_reject_recovery_invoked = false;
    recovery_history = [];
    failed_run_history = [];
    last_outcome = new_outcome;
  };
  execution = record { active_subagent = none; interruption = none; last_engine_switch = none };
}

-- `TaskRuntime.for_storage`.
unfoldable pub for_storage : TaskRuntime → Option Text → Option Text → TaskRuntime
for_storage r commit_sha worktree_path = record r {
  pipeline = record r.pipeline {
    git = record { commit_sha = commit_sha; worktree_path = worktree_path };
  };
}
