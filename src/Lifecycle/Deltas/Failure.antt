-- ===== src/Lifecycle/Deltas/Failure.antt =====
-- litehive/domain/lifecycle_deltas.py: what identifies a failure, its trigger and its record.
use litehive.Base.{ℕ, Bool, true, false, Option, none, some, ◌++◌, take, ltb, if◌then◌else◌}
use litehive.Base.Text.{Text, lit, truthy, strip, lower, split_join, text_eq}
use litehive.Base.Dict.{lookup}
use litehive.Base.Json.{Value, Fields, get, as_str, value_truthy, of_option}
use litehive.Domain.Common.{
  PipelineState, StageKey, state_eq, value, pipeline_stage_key, retry_counter_state,
}
use litehive.Domain.Recovery.{
  Source, source_value, kind_value, FailureFingerprint, RecoveryTrigger, fingerprint_budget_key,
  origin_label, parse_blocked_on_follow_up_reason,
}
use litehive.Lifecycle.Events.{
  Event, class_of, class_name, trigger_event_kind, failure_message, failure_source,
  failure_diagnostics, terminal_recovery_verdict,
}
use litehive.Lifecycle.State.{
  FailedReason, reason_value, HookRejectFingerprint, FailedRunRecord, TaskState,
}
use litehive.Lifecycle.Deltas.Tracking.{hook_fingerprint_from_event, hook_reject_loop_detected}

-- `text or fallback`.
abbrev non_empty_or : Text → Text → Text
non_empty_or fallback s = if truthy s then s else fallback

unfoldable pub normalized_failure_text : Text → Text
normalized_failure_text s = non_empty_or (lit "unknown") (take 160 (split_join (lower s)))

-- A text that is not blank.
abbrev pub solid : Option Text → Option Text
solid none = none
solid (some s) = if truthy (strip s) then some s else none

-- `v or text`, for a value out of the metadata.
abbrev pub value_or : Value → Option Text → Value
value_or v s = if value_truthy v then v else of_option s

abbrev truthy_option : Option Text → Bool
truthy_option none = false
truthy_option (some s) = truthy s

-- The first solid text of classification and reason code, or the reason.
abbrev pub shape_text : Option Text → Option Text → Text → Text
shape_text none none reason = reason
shape_text none (some code) reason = code
shape_text (some c) code reason = c

abbrev pub reject_shape : Option HookRejectFingerprint → Source → Text → Text
reject_shape none source detail = source_value source ++ (lit ":" ++ normalized_failure_text detail)
reject_shape (some h) source detail = lit "hook:" ++ normalized_failure_text h.fingerprint

unfoldable pub event_failure_shape : Event → Text
event_failure_shape (Event.reject source reason classification metadata) =
    let label =
      if truthy_option classification
      then of_option classification
      else get (lit "verdict_classification") metadata in
    reject_shape (hook_fingerprint_from_event (Event.reject source reason classification metadata))
      source
      (shape_text (solid (as_str label)) (solid (as_str (get (lit "reason_code") metadata))) reason)
event_failure_shape (Event.stage_retry_limit_hit stage) = lit "system:stage_retry_limit"
event_failure_shape e = normalized_failure_text (class_name (class_of e))

abbrev counter_for : PipelineState → Option StageKey → Option PipelineState
counter_for origin none = none
counter_for origin (some (StageKey.stage t)) = some (retry_counter_state t)
counter_for origin (some (StageKey.phase s)) = some origin

unfoldable pub retry_counter_stage : Option PipelineState → Option PipelineState
unfolding pipeline_stage_key retry_counter_state
retry_counter_stage none = none
retry_counter_stage (some s) = counter_for s (pipeline_stage_key (some s))

-- `state.stage_retry.get(stage, 0)`.
abbrev pub count_of : Option ℕ → ℕ
count_of none = 0
count_of (some n) = n

unfoldable pub retries : TaskState → PipelineState → ℕ
retries s stage = count_of (lookup stage s.stage_retry)

abbrev is_semantic_reject : FailedReason → Bool
is_semantic_reject FailedReason.semantic_reject = true
is_semantic_reject _ = false

abbrev reject_source : Event → Option Source
reject_source (Event.reject source reason classification metadata) = some source
reject_source _ = none

abbrev reject_classification : Event → Option Text
reject_classification (Event.reject source reason classification metadata) = classification
reject_classification _ = none

unfoldable pub record_at :
    Text → TaskState → Event → FailedReason → Text → Option PipelineState → Option FailedRunRecord
record_at now s e failed_reason message none = none
record_at now s e failed_reason message (some counter) =
    if ltb (retries s counter) s.limits.stage_retry_limit
    then none
    else some (record {
      stage = counter;
      failure_shape = event_failure_shape e;
      count = 1;
      first_at = some now;
      latest_at = some now;
      last_reason = message;
      source = reject_source e;
      classification = reject_classification e;
      retry_limit = some s.limits.stage_retry_limit;
      failed_reason = some (reason_value failed_reason);
      operator_override_count = 0;
      last_operator_override_at = none;
    })

unfoldable pub stage_retry_exhausted_record :
    Text → TaskState → Event → FailedReason → Text → Option FailedRunRecord
unfolding record_at
stage_retry_exhausted_record now s e failed_reason message =
    if is_semantic_reject failed_reason
    then record_at now s e failed_reason message (retry_counter_stage (some s.stage))
    else none

abbrev stripped : Option Text → Option Text
stripped none = none
stripped (some s) = if truthy (strip s) then some (strip s) else none

unfoldable pub reason_code_from_event : TaskState → Event → Option Text
reason_code_from_event s (Event.reject source reason classification metadata) =
    if hook_reject_loop_detected s (Event.reject source reason classification metadata)
    then some (lit "hook_reject_loop")
    else stripped (as_str (value_or (get (lit "reason_code") metadata) classification))
reason_code_from_event s _ = none

abbrev one_field : Text → Text → Fields
one_field key v = Fields.field key (Value.str v) Fields.end

fingerprint_of_hook : HookRejectFingerprint → FailureFingerprint
fingerprint_of_hook h = record {
  fingerprint = h.fingerprint;
  classification = some (lit "hook_reject");
  diagnostics = Fields.field (lit "point") (Value.str h.point) (
      Fields.field (lit "command") (Value.str h.command)
        (one_field (lit "description") h.description));
}

-- `a or b`, for two texts that may be missing.
abbrev pub truthy_or : Option Text → Option Text → Option Text
truthy_or a b = if truthy_option a then a else b

fingerprint_of_event : TaskState → Event → FailureFingerprint
fingerprint_of_event s (Event.reject source reason classification metadata) =
    let code = reason_code_from_event s (Event.reject source reason classification metadata) in
    let fallback = some (source_value source ++ lit "_reject") in
    record {
      fingerprint = source_value source ++ (lit ":" ++ reason);
      classification = truthy_or classification (truthy_or code fallback);
      diagnostics = one_field (lit "source") (source_value source);
    }
fingerprint_of_event s (Event.crash exc_type message) = record {
  fingerprint = exc_type ++ (lit ":" ++ message);
  classification = some exc_type;
  diagnostics = one_field (lit "exc_type") exc_type;
}
fingerprint_of_event s (Event.blocked reason) = record {
  fingerprint = lit "blocked:" ++ reason;
  classification = some (lit "blocked");
  diagnostics = Fields.end;
}
fingerprint_of_event s Event.timeout = record {
  fingerprint = lit "timeout";
  classification = some (lit "timeout");
  diagnostics = Fields.end;
}
fingerprint_of_event s (Event.stage_retry_limit_hit stage) = record {
  fingerprint = lit "stage_retry_limit:" ++ value stage;
  classification = some (lit "stage_retry_limit");
  diagnostics = one_field (lit "stage") (value stage);
}
fingerprint_of_event s Event.overall_retry_limit_hit = record {
  fingerprint = lit "retry_limit";
  classification = some (lit "retry_limit");
  diagnostics = Fields.end;
}
fingerprint_of_event s e = record {
  fingerprint = lower (class_name (class_of e));
  classification = none;
  diagnostics = Fields.end;
}

unfoldable pub fingerprint_from_event : TaskState → Event → FailureFingerprint
unfolding fingerprint_of_event fingerprint_of_hook
fingerprint_from_event s e = elim (hook_fingerprint_from_event e) [
  | none ↦ fingerprint_of_event s e
  | some h ↦ fingerprint_of_hook h
]

unfoldable pub recovery_trigger_from_event : TaskState → Event → RecoveryTrigger
recovery_trigger_from_event s e = record {
  origin_stage = some s.stage;
  trigger_event_kind = trigger_event_kind e;
  failure_fingerprint = fingerprint_from_event s e;
  source = failure_source e;
  reason_code = reason_code_from_event s e;
  message = failure_message e;
  diagnostics = failure_diagnostics e;
}

abbrev verdict_or : Text → Option Text → Text
verdict_or fallback none = fallback
verdict_or fallback (some verdict) = verdict

unfoldable pub recovery_verdict_for_terminal_event : Event → FailedReason → Text
recovery_verdict_for_terminal_event e reason =
    verdict_or (reason_value reason) (terminal_recovery_verdict e)

suffix : Text → Text
suffix message = if truthy message then lit ": " ++ message else lit "."

explanation_for : RecoveryTrigger → Text → FailedReason → Text → Text
explanation_for t subject FailedReason.recovery_budget_hit message =
    lit "Recovery budget exhausted for `"
    ++ (subject
        ++ (lit "` after repeated `"
            ++ (kind_value t.trigger_event_kind
                ++ (lit "` failures with fingerprint `"
                    ++ (fingerprint_budget_key t.failure_fingerprint ++ lit "`.")))))
explanation_for t subject FailedReason.recovery_crashed message =
    lit "Recovery agent crashed while handling `" ++ (subject ++ (lit "`" ++ suffix message))
explanation_for t subject _ message =
    lit "Recovery could not restore a runnable path for `"
    ++ (subject ++ (lit "`" ++ suffix message))

unfoldable pub recovery_failure_explanation : RecoveryTrigger → FailedReason → Text → Text
unfolding explanation_for suffix
recovery_failure_explanation t reason message =
    let subject = origin_label (lit "unknown stage") t.origin_stage in
    elim (parse_blocked_on_follow_up_reason (some message)) [
      | none ↦ explanation_for t subject reason message
      | some follow_up ↦
          lit "Recovery attributed `"
          ++ (subject
              ++ (lit "` to unrelated breakage and blocked the current task on follow-up `"
                  ++ (follow_up ++ lit "`.")))
    ]
