-- ===== src/Lifecycle/Deltas/Effects.antt =====
-- litehive/domain/lifecycle_deltas.py: the effects that the rules name.
use litehive.Base.{
  ℕ, ◌+◌, Bool, true, false, not, ◌&&◌, ◌||◌, Option, none, some, [], ◌++◌, if◌then◌else◌, ◌==◌,
}
use litehive.Base.Text.{Text, lit}
use litehive.Domain.Common.{PipelineState, StageKey, state_eq, value, pipeline_stage_key, key_beq}
use litehive.Domain.Recovery.{RecoveryTrigger, RecoveryDisposition, RecoveryOutcome}
use litehive.Lifecycle.Events.{Event, DispositionHint, failure_message}
use litehive.Lifecycle.State.{FailedReason, reason_value, LastRejection, TaskState, is_hook_loop}
use litehive.Lifecycle.Deltas.Patch.{StateDelta, empty_delta, EffectFn}
use litehive.Lifecycle.Deltas.Tracking.{
  rejection_from_event, hook_reject_loop_detected, hook_reject_delta, rejection_loop_delta,
}
use litehive.Lifecycle.Deltas.Failure.{
  retry_counter_stage, stage_retry_exhausted_record, recovery_trigger_from_event,
  recovery_verdict_for_terminal_event, recovery_failure_explanation,
}

-- The hook tracking of another patch, copied into this one.
abbrev with_hook : StateDelta → StateDelta → StateDelta
with_hook h d = record d {
  set_consecutive_same_hook_rejects = h.set_consecutive_same_hook_rejects;
  set_last_hook_reject_fingerprint = h.set_last_hook_reject_fingerprint;
  clear_hook_reject_tracking = h.clear_hook_reject_tracking;
  set_hook_reject_recovery_invoked = h.set_hook_reject_recovery_invoked;
}

abbrev with_loop : StateDelta → StateDelta → StateDelta
with_loop l d = record d {
  set_rejection_loop = l.set_rejection_loop;
  clear_rejection_loop = l.clear_rejection_loop;
}

abbrev at_stage : PipelineState → Option LastRejection → Option (PipelineState × LastRejection)
at_stage stage none = none
at_stage stage (some r) = some (stage, r)

unfoldable pub enter_recovery : EffectFn
enter_recovery now s e =
    with_hook (hook_reject_delta s e (if hook_reject_loop_detected s e then some true else none))
      (record empty_delta {
        set_active_recovery_trigger = some (recovery_trigger_from_event s e);
        clear_rejection_loop = true;
        clear_recovery_failure_explanation = true;
      })

unfoldable pub enter_pre_exec_recovery : EffectFn
enter_pre_exec_recovery now s e = record empty_delta { inc_pre_exec_recovery_attempt = true }

abbrev resume_label : Option PipelineState → Text
resume_label none = []
resume_label (some s) = value s

abbrev is_done : Option PipelineState → Bool
is_done none = false
is_done (some s) = s == PipelineState.done

abbrev has_key : Option StageKey → Bool
has_key none = false
has_key (some k) = true

made_progress : Option PipelineState → Option PipelineState → Bool
made_progress origin resume =
    let target = pipeline_stage_key resume in
    is_done resume || has_key target && not (key_beq target (pipeline_stage_key origin))

abbrev hook_loop_trigger : Option RecoveryTrigger → Bool
hook_loop_trigger none = false
hook_loop_trigger (some t) = is_hook_loop t.reason_code

abbrev origin_of : Option RecoveryTrigger → Option PipelineState
origin_of none = none
origin_of (some t) = t.origin_stage

unfoldable pub hook_recovery_made_progress : Option RecoveryTrigger → Event → Bool
unfolding made_progress pipeline_stage_key
hook_recovery_made_progress trigger (Event.recovery_succeeded resume hint) =
    hook_loop_trigger trigger && made_progress (origin_of trigger) resume
hook_recovery_made_progress trigger _ = false

unfoldable pub hint_value : DispositionHint → Text
unfolding lit
hint_value DispositionHint.resume = lit "resume"
hint_value DispositionHint.advance = lit "advance"
hint_value DispositionHint.done = lit "done"

abbrev pub disposition_of : DispositionHint → RecoveryDisposition
disposition_of DispositionHint.resume = RecoveryDisposition.resumed
disposition_of DispositionHint.advance = RecoveryDisposition.advanced
disposition_of DispositionHint.done = RecoveryDisposition.completed

unfoldable pub success_outcome : Text → Option RecoveryTrigger → Event → Option RecoveryOutcome
success_outcome now (some t) (Event.recovery_succeeded resume hint) = some (record {
  trigger = t;
  recovery_verdict = hint_value hint;
  disposition = disposition_of hint;
  reason_code = none;
  message = lit "Recovery " ++ (hint_value hint ++ (lit "d task via " ++ resume_label resume));
  created_at = now;
})
success_outcome now _ _ = none

unfoldable pub record_recovery_success : EffectFn
unfolding success_outcome
record_recovery_success now s e =
    let trigger = s.active_recovery_trigger in
    let preserve = hook_loop_trigger trigger && not (hook_recovery_made_progress trigger e) in
    record empty_delta {
      reset_stage_retry = retry_counter_stage (origin_of trigger);
      clear_active_recovery_trigger = true;
      append_recovery_outcome = success_outcome now trigger e;
      clear_hook_reject_tracking = not preserve;
      set_hook_reject_recovery_invoked = some preserve;
      clear_rejection_loop = true;
      clear_recovery_failure_explanation = true;
    }

unfoldable pub rejection_tracking_delta :
    TaskState → Event → PipelineState → Bool → Option PipelineState → StateDelta
rejection_tracking_delta s e stage increment_retry target =
    with_hook (hook_reject_delta s e (some false)) (
      with_loop (rejection_loop_delta s e target) (record empty_delta {
        inc_stage_retry = if increment_retry then some stage else none;
        set_last_rejection = at_stage stage (rejection_from_event s e);
      }))

unfoldable pub inc_stage_retry : PipelineState → Option PipelineState → EffectFn
unfolding rejection_tracking_delta
inc_stage_retry stage target now s e = rejection_tracking_delta s e stage true target

unfoldable pub remember_rejection : PipelineState → Option PipelineState → EffectFn
unfolding rejection_tracking_delta
remember_rejection stage target now s e = rejection_tracking_delta s e stage false target

abbrev reject_reason : Event → Text
reject_reason (Event.reject source reason classification metadata) = reason
reject_reason _ = []

unfoldable pub fail_rejection_loop : PipelineState → PipelineState → EffectFn
fail_rejection_loop stage target now s e =
    with_loop (rejection_loop_delta s e (some target)) (record empty_delta {
      set_last_rejection = at_stage stage (rejection_from_event s e);
      failed_reason = some FailedReason.rejection_loop_detected;
      failed_message = some (reject_reason e);
    })

unfoldable pub stash_conflict_files : EffectFn
stash_conflict_files now s (Event.merge_conflict_detected files) =
    let attempt : ℕ = elim s.merge_context [ none ↦ 0 | some m ↦ m.merge_attempt ] in
    record empty_delta {
      set_merge_context = some (record { conflict_files = files; merge_attempt = attempt + 1 });
    }
stash_conflict_files now s _ = empty_delta

abbrev hook_part : TaskState → Event → StateDelta
hook_part s (Event.reject source reason classification metadata) =
    hook_reject_delta s (Event.reject source reason classification metadata) none
hook_part s _ = empty_delta

-- The trigger that a failure ends, if the task is recovering.
abbrev ended_trigger : TaskState → Option RecoveryTrigger
ended_trigger s = if s.stage == PipelineState.recovering then s.active_recovery_trigger else none

terminated : Text → FailedReason → Event → Option RecoveryTrigger → Option RecoveryOutcome
terminated now reason e none = none
terminated now reason e (some t) = some (record {
  trigger = t;
  recovery_verdict = recovery_verdict_for_terminal_event e reason;
  disposition = RecoveryDisposition.terminated;
  reason_code = some (reason_value reason);
  message = failure_message e;
  created_at = now;
})

explained : FailedReason → Event → Option RecoveryTrigger → Option Text
explained reason e none = none
explained reason e (some t) = some (recovery_failure_explanation t reason (failure_message e))

unfoldable pub fail : FailedReason → EffectFn
unfolding terminated explained
fail reason now s e = with_hook (hook_part s e) (record empty_delta {
  set_last_rejection = at_stage s.stage (rejection_from_event s e);
  failed_reason = some reason;
  failed_message = some (failure_message e);
  record_failed_run = stage_retry_exhausted_record now s e reason (failure_message e);
  append_recovery_outcome = terminated now reason e (ended_trigger s);
  clear_active_recovery_trigger = s.stage == PipelineState.recovering;
  clear_rejection_loop = true;
  set_recovery_failure_explanation = explained reason e (ended_trigger s);
})

unfoldable pub exhaust_recovery_budget : EffectFn
exhaust_recovery_budget now s e =
    let t = recovery_trigger_from_event s e in
    let reason = FailedReason.recovery_budget_hit in
    record empty_delta {
      failed_reason = some reason;
      failed_message = some t.message;
      append_recovery_outcome = some (record {
        trigger = t;
        recovery_verdict = lit "budget_hit";
        disposition = RecoveryDisposition.terminated;
        reason_code = some (reason_value reason);
        message = t.message;
        created_at = now;
      });
      set_recovery_failure_explanation = some (recovery_failure_explanation t reason t.message);
      clear_rejection_loop = true;
    }
