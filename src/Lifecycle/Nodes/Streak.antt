-- ===== src/Lifecycle/Nodes/Streak.antt =====
-- litehive/lifecycle/nodes/hook.py, litehive/domain/lifecycle_deltas.py: the streak of rejects by
-- one hook, as the node reports it and as the patch stores it.
use litehive.Base.{Bool, true, ◌≡◌, refl, Option, some, leb}
use litehive.Base.Text.{lit, truthy, text_eq, text_beq}
use litehive.Base.Json.{get}
use litehive.Domain.Common.{PipelineState, value}
use litehive.Lifecycle.State.{TaskState, HookRejectFingerprint}
use litehive.Lifecycle.Deltas.Tracking.{
  hook_fingerprint_from_event, hook_fingerprint, hook_reject_loop_detected, hook_reject_delta,
  hook_delta_for,
}
use litehive.Lifecycle.Nodes.Hook.{
  HookSpec, Failed, hook_reject, hook_identity, hook_fields, hook_description, same_hook_rejects,
}

abbrev fingerprint_of : PipelineState → HookSpec → HookRejectFingerprint
fingerprint_of point spec = record {
  point = value point;
  command = spec.command;
  description = hook_description spec;
  fingerprint = hook_identity point spec;
}

value-truthy : (p : PipelineState) → truthy (value p) ≡ true
unfolding value lit
value-truthy PipelineState.ready = refl
value-truthy _ = refl

identity-truthy : (p : PipelineState) (spec : HookSpec) → truthy (hook_identity p spec) ≡ true
unfolding value lit hook_identity
identity-truthy PipelineState.ready spec = refl
identity-truthy _ spec = refl

pub hook_reject-fingerprint :
    (point : PipelineState) (spec : HookSpec) (r : Failed) (s : TaskState)
    → truthy spec.command ≡ true
    → hook_fingerprint_from_event (hook_reject point spec r s) ≡ some (fingerprint_of point spec)
unfolding hook_reject hook_fingerprint_from_event hook_fingerprint hook_fields lit get text_beq
hook_reject-fingerprint point spec r s h =
    rw (value-truthy point, h, identity-truthy point spec) refl

counted :
    (point : PipelineState) (spec : HookSpec) (r : Failed) (s : TaskState)
    → hook_reject_loop_detected s (hook_reject point spec r s)
      ≡ leb s.limits.same_hook_reject_limit (same_hook_rejects s (hook_identity point spec))
unfolding hook_reject hook_reject_loop_detected get lit text_beq
counted point spec r s = refl

-- When a hook rejects whose command is not empty, the streak that the patch stores is the one that
-- the node counted into the event, and the circuit breaker trips exactly when that count reaches
-- the limit.
pub hook_reject-streak :
    (point : PipelineState) (spec : HookSpec) (r : Failed) (s : TaskState) (invoked : Option Bool)
    → truthy spec.command ≡ true
    → ((hook_reject_delta s (hook_reject point spec r s) invoked).set_consecutive_same_hook_rejects
        ≡ some (same_hook_rejects s (hook_identity point spec)))
      × (hook_reject_loop_detected s (hook_reject point spec r s)
          ≡ leb s.limits.same_hook_reject_limit (same_hook_rejects s (hook_identity point spec)))
unfolding hook_reject_delta hook_delta_for hook_reject_loop_detected same_hook_rejects
hook_reject-streak point spec r s invoked h =
    (rw (hook_reject-fingerprint point spec r s h) refl, counted point spec r s)
