-- ===== src/Lifecycle/Deltas/Tracking.antt =====
-- litehive/domain/lifecycle_deltas.py: the streak of rejects by one hook, and the loop of rejects
-- by testing and accepting.
use litehive.Base.{
  ℕ, ◌+◌, Bool, true, false, ◌&&◌, Option, none, some, [], leb, if◌then◌else◌, ◌==◌,
}
use litehive.Base.Text.{Text, lit, truthy, text_eq}
use litehive.Base.Json.{Fields, get, as_int, as_str, as_dict}
use litehive.Domain.Common.{
  PipelineState, TaskStage, StageKey, state_eq, pipeline_stage_key, key_state,
}
use litehive.Domain.Recovery.{agent, hook}
use litehive.Lifecycle.Events.{Event}
use litehive.Lifecycle.State.{HookRejectFingerprint, LastRejection, RejectionLoop, TaskState}
use litehive.Lifecycle.Deltas.Patch.{StateDelta, empty_delta}

unfoldable pub rejection_from_event : TaskState → Event → Option LastRejection
rejection_from_event s (Event.reject source reason classification metadata) = some (record {
  source = source;
  reason = reason;
  raised_at_phase = s.stage;
  classification = classification;
})
rejection_from_event s _ = none

-- A text under a key; what is no text reads as the empty one.
abbrev pub text_of : Option Text → Text
text_of none = []
text_of (some s) = s

abbrev pub text_field : Text → Fields → Text
text_field key m = text_of (as_str (get key m))

unfoldable pub hook_fingerprint : Option Fields → Option HookRejectFingerprint
hook_fingerprint none = none
hook_fingerprint (some h) =
    let point = text_field (lit "point") h in
    let command = text_field (lit "command") h in
    let fingerprint = text_field (lit "fingerprint") h in
    if truthy point && truthy command && truthy fingerprint
    then some (record {
      point = point;
      command = command;
      description = text_field (lit "description") h;
      fingerprint = fingerprint;
    })
    else none

unfoldable pub hook_fingerprint_from_event : Event → Option HookRejectFingerprint
unfolding hook_fingerprint
hook_fingerprint_from_event (Event.reject hook reason classification metadata) =
    hook_fingerprint (as_dict (get (lit "hook") metadata))
hook_fingerprint_from_event _ = none

abbrev at_least : ℕ → Option ℕ → Bool
at_least limit none = false
at_least limit (some n) = leb limit n

unfoldable pub hook_reject_loop_detected : TaskState → Event → Bool
hook_reject_loop_detected s (Event.reject hook reason classification metadata) =
    at_least s.limits.same_hook_reject_limit
      (as_int (get (lit "consecutive_same_hook_rejects") metadata))
hook_reject_loop_detected s _ = false

-- `state.last_hook_reject_fingerprint` is there and carries this fingerprint.
abbrev pub same_fingerprint : Option HookRejectFingerprint → Text → Bool
same_fingerprint none f = false
same_fingerprint (some last) f = last.fingerprint == f

abbrev bool_or : Bool → Option Bool → Bool
bool_or d none = d
bool_or d (some b) = b

unfoldable pub hook_delta_for : TaskState → Option HookRejectFingerprint → Option Bool → StateDelta
hook_delta_for s none recovery_invoked = record empty_delta {
  clear_hook_reject_tracking = true;
  set_hook_reject_recovery_invoked = some (bool_or false recovery_invoked);
}
hook_delta_for s (some f) recovery_invoked = record empty_delta {
  set_consecutive_same_hook_rejects = some (
      if same_fingerprint s.last_hook_reject_fingerprint f.fingerprint
      then s.consecutive_same_hook_rejects + 1
      else 1);
  set_last_hook_reject_fingerprint = some f;
  set_hook_reject_recovery_invoked = some (bool_or s.hook_reject_recovery_invoked recovery_invoked);
}

unfoldable pub hook_reject_delta : TaskState → Event → Option Bool → StateDelta
unfolding hook_delta_for
hook_reject_delta s e recovery_invoked =
    hook_delta_for s (hook_fingerprint_from_event e) recovery_invoked

-- The task stage of a loop's reject, if its target is implementing.
loop_stage : Option StageKey → Option StageKey → Option PipelineState
loop_stage (some (StageKey.stage TaskStage.testing))
      (some (StageKey.stage TaskStage.implementing)) =
    some PipelineState.testing
loop_stage (some (StageKey.stage TaskStage.accepting))
      (some (StageKey.stage TaskStage.implementing)) =
    some PipelineState.accepting
loop_stage _ _ = none

abbrev next_count : Option RejectionLoop → PipelineState → ℕ
next_count none at = 1
next_count (some l) at =
    if l.rejection_stage == at && l.retry_target_stage == PipelineState.implementing
    then l.count + 1
    else 1

loop_at : TaskState → Option PipelineState → Option RejectionLoop
loop_at s none = none
loop_at s (some at) = some (record {
  rejection_stage = at;
  retry_target_stage = PipelineState.implementing;
  count = next_count s.rejection_loop at;
})

unfoldable pub next_rejection_loop : TaskState → Event → Option PipelineState → Option RejectionLoop
unfolding loop_stage loop_at pipeline_stage_key
next_rejection_loop s (Event.reject agent reason classification metadata) target =
    loop_at s (loop_stage (pipeline_stage_key (some s.stage)) (pipeline_stage_key target))
next_rejection_loop s _ target = none

abbrev loop_reaches : ℕ → Option RejectionLoop → Bool
loop_reaches limit none = false
loop_reaches limit (some l) = leb limit l.count

unfoldable pub rejection_loop_detected : TaskState → Event → Option PipelineState → Bool
rejection_loop_detected s e target =
    loop_reaches s.limits.rejection_loop_limit (next_rejection_loop s e target)

abbrev pub loop_delta : Option RejectionLoop → StateDelta
loop_delta none = record empty_delta { clear_rejection_loop = true }
loop_delta (some l) = record empty_delta { set_rejection_loop = some l }

unfoldable pub rejection_loop_delta : TaskState → Event → Option PipelineState → StateDelta
rejection_loop_delta s e target = loop_delta (next_rejection_loop s e target)

abbrev names_stage : Option StageKey → PipelineState → Bool
names_stage none s = false
names_stage (some k) s = elim (key_state k) [ none ↦ false | some t ↦ t == s ]

unfoldable pub clear_completed_rejection_loop : Text → TaskState → Event → StateDelta
unfolding pipeline_stage_key
clear_completed_rejection_loop now s e = elim s.rejection_loop [
  | none ↦ empty_delta
  | some l ↦
      if names_stage (pipeline_stage_key (some s.stage)) l.rejection_stage
      then record empty_delta { clear_rejection_loop = true }
      else empty_delta
]
