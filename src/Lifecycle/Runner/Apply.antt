-- ===== src/Lifecycle/Runner/Apply.antt =====
-- litehive/lifecycle/runner.py: a patch applied to the state (`_apply_delta`,
-- `_record_failed_run`, `_clear_hook_reject_tracking`).
use litehive.Base.{
  ℕ, ◌+◌, Bool, false, Option, none, some, List, [], ◌∷◌, ◌++◌, if◌then◌else◌, or_else,
}
use litehive.Base.Text.{Text, text_eq}
use litehive.Base.Dict.{Dict, lookup, insert, pop}
use litehive.Domain.Common.{PipelineState, state_eq}
use litehive.Lifecycle.State.{LastRejection, FailedRunRecord, record_key, TaskState}
use litehive.Lifecycle.Deltas.Patch.{StateDelta}
use litehive.Lifecycle.Deltas.Failure.{retries, truthy_or}

-- `x if patch is None else patch`.
abbrev pub or_keep {ℓ} : {A : Type ℓ} → Option A → A → A
or_keep none old = old
or_keep (some new) old = new

-- Of a field that a patch can set or clear, in the source's order: first set, then cleared.
abbrev pub set_then_clear {ℓ} : {A : Type ℓ} → Option A → Bool → Option A → Option A
set_then_clear new clear old = if clear then none else or_else new old

abbrev pub clear_then_set {ℓ} : {A : Type ℓ} → Bool → Option A → Option A → Option A
clear_then_set clear new old = or_else new (if clear then none else old)

abbrev pub bump : Option PipelineState → TaskState → Dict PipelineState ℕ
bump none s = s.stage_retry
bump (some stage) s = insert stage (retries s stage + 1) s.stage_retry

abbrev pub reset : Option PipelineState → Dict PipelineState ℕ → Dict PipelineState ℕ
reset none m = m
reset (some stage) m = pop stage m

abbrev pub appended {ℓ} : {A : Type ℓ} → List A → Option A → List A
appended xs none = xs
appended xs (some x) = xs ++ x ∷ []

abbrev noted :
    Option (PipelineState × LastRejection)
    → Dict PipelineState LastRejection
    → Dict PipelineState LastRejection
noted none m = m
noted (some (stage, rejection)) m = insert stage rejection m

-- The row for a failure shape that has failed before.
abbrev pub merged : Option FailedRunRecord → FailedRunRecord → FailedRunRecord
merged none r = r
merged (some old) r = record r {
  count = old.count + 1;
  first_at = truthy_or old.first_at r.first_at;
  operator_override_count = old.operator_override_count;
  last_operator_override_at = old.last_operator_override_at;
}

unfoldable pub record_failed_run :
    FailedRunRecord → Dict Text FailedRunRecord → Dict Text FailedRunRecord
record_failed_run r history =
    insert (record_key r) (merged (lookup (record_key r) history) r) history

abbrev pub recorded : Option FailedRunRecord → Dict Text FailedRunRecord → Dict Text FailedRunRecord
recorded none m = m
recorded (some r) m = record_failed_run r m

unfoldable pub clear_hook_reject_tracking : TaskState → Bool → TaskState
clear_hook_reject_tracking s clear_recovery_invoked = record s {
  consecutive_same_hook_rejects = 0;
  last_hook_reject_fingerprint = none;
  hook_reject_recovery_invoked =
      if clear_recovery_invoked then false else s.hook_reject_recovery_invoked;
}

unfoldable pub apply_delta : TaskState → StateDelta → TaskState
apply_delta s d = record s {
  stage_retry = reset d.reset_stage_retry (bump d.inc_stage_retry s);
  active_recovery_trigger =
      set_then_clear d.set_active_recovery_trigger d.clear_active_recovery_trigger
        s.active_recovery_trigger;
  recovery_history = appended s.recovery_history d.append_recovery_outcome;
  pre_exec_recovery_attempt =
      if d.inc_pre_exec_recovery_attempt
      then s.pre_exec_recovery_attempt + 1
      else s.pre_exec_recovery_attempt;
  merge_context = set_then_clear d.set_merge_context d.clear_merge_context s.merge_context;
  last_rejection_by_stage = noted d.set_last_rejection s.last_rejection_by_stage;
  rejection_loop = clear_then_set d.clear_rejection_loop d.set_rejection_loop s.rejection_loop;
  consecutive_same_hook_rejects =
      or_keep d.set_consecutive_same_hook_rejects
        (if d.clear_hook_reject_tracking then 0 else s.consecutive_same_hook_rejects);
  last_hook_reject_fingerprint =
      clear_then_set d.clear_hook_reject_tracking d.set_last_hook_reject_fingerprint
        s.last_hook_reject_fingerprint;
  hook_reject_recovery_invoked =
      or_keep d.set_hook_reject_recovery_invoked s.hook_reject_recovery_invoked;
  failed_reason = or_else d.failed_reason s.failed_reason;
  failed_message = or_else d.failed_message s.failed_message;
  recovery_failure_explanation =
      clear_then_set d.clear_recovery_failure_explanation d.set_recovery_failure_explanation
        s.recovery_failure_explanation;
  failed_run_history = recorded d.record_failed_run s.failed_run_history;
}
