-- ===== src/Lifecycle/Deltas/Patch.antt =====
-- litehive/domain/lifecycle_deltas.py: the patch that an effect returns.
use litehive.Base.{ℕ, Bool, false, Option, none}
use litehive.Base.Text.{Text}
use litehive.Domain.Common.{PipelineState}
use litehive.Domain.Recovery.{RecoveryTrigger, RecoveryOutcome}
use litehive.Lifecycle.Events.{Event}
use litehive.Lifecycle.State.{
  FailedReason, HookRejectFingerprint, LastRejection, MergeContext, RejectionLoop, FailedRunRecord,
  TaskState,
}

pub record StateDelta : Type 0 where
  pub inc_stage_retry : Option PipelineState
  pub reset_stage_retry : Option PipelineState
  pub set_active_recovery_trigger : Option RecoveryTrigger
  pub clear_active_recovery_trigger : Bool
  pub append_recovery_outcome : Option RecoveryOutcome
  pub inc_pre_exec_recovery_attempt : Bool
  pub set_merge_context : Option MergeContext
  pub clear_merge_context : Bool
  pub set_last_rejection : Option (PipelineState × LastRejection)
  pub set_rejection_loop : Option RejectionLoop
  pub clear_rejection_loop : Bool
  pub set_consecutive_same_hook_rejects : Option ℕ
  pub set_last_hook_reject_fingerprint : Option HookRejectFingerprint
  pub clear_hook_reject_tracking : Bool
  pub set_hook_reject_recovery_invoked : Option Bool
  pub failed_reason : Option FailedReason
  pub failed_message : Option Text
  pub set_recovery_failure_explanation : Option Text
  pub clear_recovery_failure_explanation : Bool
  pub record_failed_run : Option FailedRunRecord

abbrev pub empty_delta : StateDelta
empty_delta = record {
  inc_stage_retry = none;
  reset_stage_retry = none;
  set_active_recovery_trigger = none;
  clear_active_recovery_trigger = false;
  append_recovery_outcome = none;
  inc_pre_exec_recovery_attempt = false;
  set_merge_context = none;
  clear_merge_context = false;
  set_last_rejection = none;
  set_rejection_loop = none;
  clear_rejection_loop = false;
  set_consecutive_same_hook_rejects = none;
  set_last_hook_reject_fingerprint = none;
  clear_hook_reject_tracking = false;
  set_hook_reject_recovery_invoked = none;
  failed_reason = none;
  failed_message = none;
  set_recovery_failure_explanation = none;
  clear_recovery_failure_explanation = false;
  record_failed_run = none;
}

-- An effect reads the clock (`utcnow()`, its first argument), the state and the event.
abbrev pub EffectFn : Type 0
EffectFn = Text → TaskState → Event → StateDelta
