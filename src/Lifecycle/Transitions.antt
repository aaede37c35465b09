-- ===== src/Lifecycle/Transitions.antt =====
-- litehive/lifecycle/transitions.py, stages.py: the rules' form and their evaluation.
pub mod First
use litehive.Base.{
  Bool, true, false, ◌&&◌, Option, none, some, List, [], ◌∷◌, ◌++◌, if◌then◌else◌, ◌==◌, elem,
}
use litehive.Base.Text.{Text}
use litehive.Domain.Common.{PipelineMode, PipelineState, state_eq}
use litehive.Domain.Recovery.{RecoveryTrigger}
use litehive.Lifecycle.Events.{Event, EventClass, is_instance}
use litehive.Lifecycle.State.{FailedReason, TaskState}
use litehive.Lifecycle.Deltas.Patch.{StateDelta, empty_delta, EffectFn}
use litehive.Lifecycle.Deltas.Effects.{fail, fail_rejection_loop, inc_stage_retry}
use litehive.Lifecycle.Guards.{
  Guard, hook_reject_loop_detected, rejection_loop_detected, stage_retries_exhausted,
  stage_retries_remaining,
}

-- The exceptions that a transition can raise.
pub data Failure : Type 0 where
  no_transition : PipelineState → Event → Failure
  type_error value_error : Failure

pub data Result (A : Type 0) : Type 0 where
  ok : A → Result A
  raise : Failure → Result A

infixl 5 ◌>>=◌
abbrev pub ◌>>=◌ : {A B : Type 0} → Result A → (A → Result B) → Result B
ok a >>= f = f a
raise x >>= f = raise x

-- `AGENT_STAGES + SYSTEM_STAGES`.
abbrev pub stages : List PipelineState
stages =
    PipelineState.grooming ∷ PipelineState.implementing ∷ PipelineState.testing
    ∷ PipelineState.accepting ∷ PipelineState.commit ∷ []

abbrev pub in_stages : PipelineState → Bool
in_stages s = elem s stages

-- A member of `STAGES` enters at `before_<stage>`; `commit` at itself. Only members come here.
unfoldable pub entry_phase : PipelineState → PipelineState
entry_phase PipelineState.grooming = PipelineState.before_grooming
entry_phase PipelineState.implementing = PipelineState.before_implementing
entry_phase PipelineState.testing = PipelineState.before_testing
entry_phase PipelineState.accepting = PipelineState.before_accepting
entry_phase s = s

-- `_entry_phase(s) if s in STAGES else s`.
abbrev pub resume_phase : PipelineState → PipelineState
resume_phase s = if in_stages s then entry_phase s else s

-- A rule's `from_state`: one stage, or a frozen set of them.
pub data StatePattern : Type 0 where
  one : PipelineState → StatePattern
  any_of : List PipelineState → StatePattern

-- A rule's `transition_to`: a stage, or a function of the state and the event.
pub data ToSpec : Type 0 where
  to_stage : PipelineState → ToSpec
  to_fn : (TaskState → Event → Result PipelineState) → ToSpec

pub record Rule : Type 0 where
  pub from_state : StatePattern
  pub on_event : EventClass
  pub transition_to : ToSpec
  pub when : Option Guard
  pub with_effect : Option EffectFn

pub record Transition : Type 0 where
  pub next : PipelineState
  pub delta : StateDelta
  pub rule : Rule

abbrev pub matches_from : StatePattern → PipelineState → Bool
matches_from (one s) current = s == current
matches_from (any_of ss) current = elem current ss

abbrev pub allows : Option Guard → TaskState → Event → Bool
allows none s e = true
allows (some g) s e = g s e

abbrev pub resolve_to : ToSpec → TaskState → Event → Result PipelineState
resolve_to (to_stage t) s e = ok t
resolve_to (to_fn f) s e = f s e

abbrev pub delta_of : Option EffectFn → EffectFn
delta_of none now s e = empty_delta
delta_of (some effect) now s e = effect now s e

-- The three tests of the loop in `evaluate`.
unfoldable pub applies : Rule → PipelineState → Event → TaskState → Bool
applies r current e s =
    matches_from r.from_state current && (is_instance e r.on_event && allows r.when s e)

unfoldable pub fire : Rule → Text → Event → TaskState → Result Transition
fire r now e s = do
  target ← resolve_to r.transition_to s e
  ok (record { next = target; delta = delta_of r.with_effect now s e; rule = r })

unfoldable pub evaluate : List Rule → Text → PipelineState → Event → TaskState → Result Transition
evaluate [] now current e s = raise (no_transition current e)
evaluate (r ∷ rs) now current e s =
    let rest = evaluate rs now current e s in if applies r current e s then fire r now e s else rest

resume_origin : Option RecoveryTrigger → Result PipelineState
resume_origin none = raise value_error
resume_origin (some t) = elim t.origin_stage [
  | none ↦ raise value_error
  | some origin ↦ if in_stages origin then ok (entry_phase origin) else raise value_error
]

unfoldable pub resume_from_origin : TaskState → Event → Result PipelineState
unfolding resume_origin
resume_from_origin s (Event.recovery_succeeded none hint) = resume_origin s.active_recovery_trigger
resume_from_origin s (Event.recovery_succeeded (some target) hint) =
    if target == PipelineState.done then ok PipelineState.done else ok (resume_phase target)
resume_from_origin s _ = raise type_error

unfoldable pub resume_from_pre_exec : TaskState → Event → Result PipelineState
resume_from_pre_exec s (Event.pre_exec_recovery_succeeded target) = ok (resume_phase target)
resume_from_pre_exec s _ = raise type_error

abbrev pub mode_entry : PipelineMode → PipelineState
mode_entry PipelineMode.single = PipelineState.before_implementing
mode_entry PipelineMode.full = PipelineState.before_grooming

abbrev pub entry_of : PipelineMode → Option PipelineState → PipelineState
entry_of mode none = mode_entry mode
entry_of mode (some target) = resume_phase target

unfoldable pub entry_from_worktree_sync : TaskState → Event → Result PipelineState
entry_from_worktree_sync s e = ok (entry_of s.pipeline_mode s.entry_stage)

abbrev pub reject_rule : PipelineState → PipelineState → Guard → EffectFn → Rule
reject_rule phase target when effect = record {
  from_state = one phase;
  on_event = EventClass.reject;
  transition_to = to_stage target;
  when = some when;
  with_effect = some effect;
}

-- The four rules that `retry_epoch_rules` emits for one phase.
abbrev pub phase_rules : PipelineState → PipelineState → PipelineState → FailedReason → List Rule
phase_rules counter phase target exhausted =
    reject_rule phase PipelineState.failed (rejection_loop_detected target)
      (fail_rejection_loop counter target)
    ∷ reject_rule phase PipelineState.failed hook_reject_loop_detected
        (fail FailedReason.hook_reject_loop)
    ∷ reject_rule phase target (stage_retries_remaining counter)
        (inc_stage_retry counter (some target))
    ∷ reject_rule phase PipelineState.failed (stage_retries_exhausted counter) (fail exhausted)
    ∷ []

unfoldable pub retry_epoch_rules :
    PipelineState → List PipelineState → PipelineState → FailedReason → List Rule
retry_epoch_rules counter [] target exhausted = []
retry_epoch_rules counter (phase ∷ phases) target exhausted =
    phase_rules counter phase target exhausted ++ retry_epoch_rules counter phases target exhausted
