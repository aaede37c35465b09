-- ===== src/Lifecycle/State.antt =====
-- litehive/lifecycle/persistence.py, types.py: the state of one task's run.
use litehive.Base.{
  ℕ, Bool, true, false, not, Option, none, some, List, [], ◌∷◌, ◌++◌, drop, ◌==◌, map,
  if◌then◌else◌,
}
use litehive.Base.Text.{Text, lit, text_eq}
use litehive.Base.Dict.{Dict}
use litehive.Domain.Common.{PipelineMode, PipelineState, value}
use litehive.Domain.Recovery.{Source, RecoveryTrigger, RecoveryOutcome, budget_key}

pub data FailedReason : Type 0 where
  hook_reject_loop rejection_loop_detected semantic_reject recovery_exhausted : FailedReason
  recovery_budget_hit recovery_crashed recovery_missing_target_stage : FailedReason
  pre_exec_recovery_failed operator_abandoned time_budget_exceeded : FailedReason
  unrecoverable_error : FailedReason

-- `FailedReason.value`.
unfoldable pub reason_value : FailedReason → Text
unfolding lit
reason_value hook_reject_loop = lit "hook_reject_loop"
reason_value rejection_loop_detected = lit "rejection_loop_detected"
reason_value semantic_reject = lit "semantic_reject"
reason_value recovery_exhausted = lit "recovery_exhausted"
reason_value recovery_budget_hit = lit "recovery_budget_hit"
reason_value recovery_crashed = lit "recovery_crashed"
reason_value recovery_missing_target_stage = lit "recovery_missing_target_stage"
reason_value pre_exec_recovery_failed = lit "pre_exec_recovery_failed"
reason_value operator_abandoned = lit "operator_abandoned"
reason_value time_budget_exceeded = lit "time_budget_exceeded"
reason_value unrecoverable_error = lit "unrecoverable_error"

pub record Limits : Type 0 where
  pub stage_retry_limit : ℕ
  pub same_hook_reject_limit : ℕ
  pub rejection_loop_limit : ℕ
  pub same_engine_retry_limit : ℕ
  pub overall_retry_limit : ℕ
  pub grace_period_seconds : ℕ

abbrev pub default_limits : Limits
default_limits = record {
  stage_retry_limit = 3;
  same_hook_reject_limit = 3;
  rejection_loop_limit = 3;
  same_engine_retry_limit = 3;
  overall_retry_limit = 30;
  grace_period_seconds = 120;
}

pub record LastReport : Type 0 where
  pub files_changed : ℕ
  pub tests_added : ℕ
  pub changed_files : List Text
  pub test_results : List Text
  pub hook_ok : Bool

abbrev pub default_report : LastReport
default_report = record {
  files_changed = 0;
  tests_added = 0;
  changed_files = [];
  test_results = [];
  hook_ok = false;
}

pub record HookRejectFingerprint : Type 0 where
  pub point : Text
  pub command : Text
  pub description : Text
  pub fingerprint : Text

pub record LastRejection : Type 0 where
  pub source : Source
  pub reason : Text
  pub raised_at_phase : PipelineState
  pub classification : Option Text

pub record MergeContext : Type 0 where
  pub conflict_files : List Text
  pub merge_attempt : ℕ

pub record CommitResult : Type 0 where
  pub head_sha : Text
  pub reason : Option Text

pub record RejectionLoop : Type 0 where
  pub rejection_stage : PipelineState
  pub retry_target_stage : PipelineState
  pub count : ℕ

pub record FailedRunRecord : Type 0 where
  pub stage : PipelineState
  pub failure_shape : Text
  pub count : ℕ
  pub first_at : Option Text
  pub latest_at : Option Text
  pub last_reason : Text
  pub source : Option Source
  pub classification : Option Text
  pub retry_limit : Option ℕ
  pub failed_reason : Option Text
  pub operator_override_count : ℕ
  pub last_operator_override_at : Option Text

unfoldable pub failed_run_key : PipelineState → Text → Text
failed_run_key stage failure_shape = value stage ++ (lit ":" ++ failure_shape)

unfoldable pub record_key : FailedRunRecord → Text
unfolding failed_run_key
record_key r = failed_run_key r.stage r.failure_shape

pub record TaskState : Type 0 where
  pub task_id : Text
  pub stage : PipelineState
  pub pipeline_mode : PipelineMode
  pub entry_stage : Option PipelineState
  pub stage_retry : Dict PipelineState ℕ
  pub active_recovery_trigger : Option RecoveryTrigger
  pub recovery_history : List RecoveryOutcome
  pub recovery_budget_history_start : ℕ
  pub pre_exec_recovery_attempt : ℕ
  pub agent_elapsed_tenths : ℕ
  pub merge_context : Option MergeContext
  pub commit_result : Option CommitResult
  pub last_report : LastReport
  pub last_rejection_by_stage : Dict PipelineState LastRejection
  pub failed_run_history : Dict Text FailedRunRecord
  pub rejection_loop : Option RejectionLoop
  pub consecutive_same_hook_rejects : ℕ
  pub last_hook_reject_fingerprint : Option HookRejectFingerprint
  pub hook_reject_recovery_invoked : Bool
  pub failed_reason : Option FailedReason
  pub failed_message : Option Text
  pub recovery_failure_explanation : Option Text
  pub limits : Limits

-- `TaskState(task_id=…, stage=…, pipeline_mode=…, entry_stage=…, limits=…)`.
abbrev pub new_state :
    Text → PipelineState → PipelineMode → Option PipelineState → Limits → TaskState
new_state task_id stage mode entry_stage limits = record {
  task_id = task_id;
  stage = stage;
  pipeline_mode = mode;
  entry_stage = entry_stage;
  stage_retry = [];
  active_recovery_trigger = none;
  recovery_history = [];
  recovery_budget_history_start = 0;
  pre_exec_recovery_attempt = 0;
  agent_elapsed_tenths = 0;
  merge_context = none;
  commit_result = none;
  last_report = default_report;
  last_rejection_by_stage = [];
  failed_run_history = [];
  rejection_loop = none;
  consecutive_same_hook_rejects = 0;
  last_hook_reject_fingerprint = none;
  hook_reject_recovery_invoked = false;
  failed_reason = none;
  failed_message = none;
  recovery_failure_explanation = none;
  limits = limits;
}

-- `recovery_history[recovery_budget_history_start:]`.
abbrev pub budget_recovery_history : TaskState → List RecoveryOutcome
budget_recovery_history s = drop s.recovery_budget_history_start s.recovery_history

abbrev pub outcome_keys : List RecoveryOutcome → List Text
outcome_keys outcomes = map (λ o. budget_key o.trigger) outcomes

unfoldable pub window_unconsumed_for : List RecoveryOutcome → Text → Bool
window_unconsumed_for [] candidate_key = true
window_unconsumed_for (o ∷ os) candidate_key =
    if budget_key o.trigger == candidate_key then false else window_unconsumed_for os candidate_key

-- `trigger.reason_code == "hook_reject_loop"`.
abbrev pub is_hook_loop : Option Text → Bool
is_hook_loop none = false
is_hook_loop (some code) = code == lit "hook_reject_loop"

unfoldable pub recovery_budget_available : TaskState → RecoveryTrigger → Bool
recovery_budget_available s t =
    if is_hook_loop t.reason_code
    then not s.hook_reject_recovery_invoked
    else window_unconsumed_for (budget_recovery_history s) (budget_key t)
