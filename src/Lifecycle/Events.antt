-- ===== src/Lifecycle/Events.antt =====
-- litehive/lifecycle/events.py: the events that nodes return, and what a failure event says of
-- itself. Seconds are counted in tenths.
use litehive.Base.{
  ℕ, zero, suc, ◌≡◌, refl, sym, ap, ◌∙◌, nat_beq_iff, ◌/◌, ◌%◌, Bool, true, false, Option, none,
  some, List, [], ◌∷◌, ◌++◌, nat_beq, if◌then◌else◌, ◌==◌,
}
use litehive.Base.Text.{Text, lit, text_eq, decimal}
use litehive.Base.Json.{Value, Fields}
use litehive.Domain.Common.{PipelineState, value}
use litehive.Domain.Recovery.{Source, TriggerEventKind}

pub data DispositionHint : Type 0 where
  resume advance done : DispositionHint

-- `resume = none` stands for a blank resume target.
pub data Event : Type 0 where
  pass : Fields → Event
  hook_ok : List Text → Event
  clean_state needs_pre_exec_recovery : Event
  reject : (source : Source) (reason : Text) (classification : Option Text) → Fields → Event
  merge_conflict_detected : (conflict_files : List Text) → Event
  blocked : (reason : Text) → Event
  crash : (exc_type message : Text) → Event
  timeout : Event
  stage_retry_limit_hit : (stage : PipelineState) → Event
  overall_retry_limit_hit : Event
  task_time_budget_exceeded : (elapsed_tenths budget_tenths : ℕ) → Event
  recovery_succeeded : (resume : Option PipelineState) → DispositionHint → Event
  recovery_failed : (reason : Text) → Event
  recovery_budget_hit : Event
  pre_exec_recovery_succeeded : (resume_stage : PipelineState) → Event
  pre_exec_recovery_failed : (reason : Text) → Event
  pre_exec_recovery_budget_hit : Event

-- The subclasses of `Event`, as a rule's `on_event` names them.
pub data EventClass : Type 0 where
  pass hook_ok clean_state needs_pre_exec_recovery reject merge_conflict_detected : EventClass
  blocked crash timeout stage_retry_limit_hit overall_retry_limit_hit : EventClass
  task_time_budget_exceeded recovery_succeeded recovery_failed recovery_budget_hit : EventClass
  pre_exec_recovery_succeeded pre_exec_recovery_failed pre_exec_recovery_budget_hit : EventClass

-- `type(event)`.
abbrev pub class_of : Event → EventClass
class_of (pass _) = EventClass.pass
class_of (hook_ok _) = EventClass.hook_ok
class_of clean_state = EventClass.clean_state
class_of needs_pre_exec_recovery = EventClass.needs_pre_exec_recovery
class_of (reject _ _ _ _) = EventClass.reject
class_of (merge_conflict_detected _) = EventClass.merge_conflict_detected
class_of (blocked _) = EventClass.blocked
class_of (crash _ _) = EventClass.crash
class_of timeout = EventClass.timeout
class_of (stage_retry_limit_hit _) = EventClass.stage_retry_limit_hit
class_of overall_retry_limit_hit = EventClass.overall_retry_limit_hit
class_of (task_time_budget_exceeded _ _) = EventClass.task_time_budget_exceeded
class_of (recovery_succeeded _ _) = EventClass.recovery_succeeded
class_of (recovery_failed _) = EventClass.recovery_failed
class_of recovery_budget_hit = EventClass.recovery_budget_hit
class_of (pre_exec_recovery_succeeded _) = EventClass.pre_exec_recovery_succeeded
class_of (pre_exec_recovery_failed _) = EventClass.pre_exec_recovery_failed
class_of pre_exec_recovery_budget_hit = EventClass.pre_exec_recovery_budget_hit

abbrev pub class_index : EventClass → ℕ
class_index EventClass.pass = 0
class_index EventClass.hook_ok = 1
class_index EventClass.clean_state = 2
class_index EventClass.needs_pre_exec_recovery = 3
class_index EventClass.reject = 4
class_index EventClass.merge_conflict_detected = 5
class_index EventClass.blocked = 6
class_index EventClass.crash = 7
class_index EventClass.timeout = 8
class_index EventClass.stage_retry_limit_hit = 9
class_index EventClass.overall_retry_limit_hit = 10
class_index EventClass.task_time_budget_exceeded = 11
class_index EventClass.recovery_succeeded = 12
class_index EventClass.recovery_failed = 13
class_index EventClass.recovery_budget_hit = 14
class_index EventClass.pre_exec_recovery_succeeded = 15
class_index EventClass.pre_exec_recovery_failed = 16
class_index EventClass.pre_exec_recovery_budget_hit = 17

classes : List EventClass
classes =
    EventClass.pass ∷ EventClass.hook_ok ∷ EventClass.clean_state
    ∷ EventClass.needs_pre_exec_recovery ∷ EventClass.reject ∷ EventClass.merge_conflict_detected
    ∷ EventClass.blocked ∷ EventClass.crash ∷ EventClass.timeout ∷ EventClass.stage_retry_limit_hit
    ∷ EventClass.overall_retry_limit_hit ∷ EventClass.task_time_budget_exceeded
    ∷ EventClass.recovery_succeeded ∷ EventClass.recovery_failed ∷ EventClass.recovery_budget_hit
    ∷ EventClass.pre_exec_recovery_succeeded ∷ EventClass.pre_exec_recovery_failed
    ∷ EventClass.pre_exec_recovery_budget_hit ∷ []

nth : List EventClass → ℕ → EventClass
nth [] n = EventClass.pass
nth (c ∷ cs) zero = c
nth (c ∷ cs) (suc n) = nth cs n

nth-class_index : (c : EventClass) → nth classes (class_index c) ≡ c
unfolding nth classes
nth-class_index EventClass.pass = refl
nth-class_index _ = refl

-- `isinstance(event, pattern)`: the classes have no subclasses of their own.
abbrev pub is_instance : Event → EventClass → Bool
is_instance e c = nat_beq (class_index (class_of e)) (class_index c)

pub class_of-is_instance : (e : Event) (c : EventClass) → is_instance e c ≡ true → class_of e ≡ c
class_of-is_instance e c h =
    sym (nth-class_index (class_of e))
    ∙ ap (nth classes) ((nat_beq_iff _ _).0 h)
    ∙ nth-class_index c

-- `type(event).__name__`.
unfoldable pub class_name : EventClass → Text
unfolding lit
class_name EventClass.pass = lit "Pass"
class_name EventClass.hook_ok = lit "HookOk"
class_name EventClass.clean_state = lit "CleanState"
class_name EventClass.needs_pre_exec_recovery = lit "NeedsPreExecRecovery"
class_name EventClass.reject = lit "Reject"
class_name EventClass.merge_conflict_detected = lit "MergeConflictDetected"
class_name EventClass.blocked = lit "Blocked"
class_name EventClass.crash = lit "Crash"
class_name EventClass.timeout = lit "Timeout"
class_name EventClass.stage_retry_limit_hit = lit "StageRetryLimitHit"
class_name EventClass.overall_retry_limit_hit = lit "OverallRetryLimitHit"
class_name EventClass.task_time_budget_exceeded = lit "TaskTimeBudgetExceeded"
class_name EventClass.recovery_succeeded = lit "RecoverySucceeded"
class_name EventClass.recovery_failed = lit "RecoveryFailed"
class_name EventClass.recovery_budget_hit = lit "RecoveryBudgetHit"
class_name EventClass.pre_exec_recovery_succeeded = lit "PreExecRecoverySucceeded"
class_name EventClass.pre_exec_recovery_failed = lit "PreExecRecoveryFailed"
class_name EventClass.pre_exec_recovery_budget_hit = lit "PreExecRecoveryBudgetHit"

abbrev is_semantic : Option Text → Bool
is_semantic none = false
is_semantic (some c) = c == lit "semantic_reject"

unfoldable pub trigger_event_kind : Event → TriggerEventKind
trigger_event_kind (reject source reason classification metadata) =
    if is_semantic classification then TriggerEventKind.semantic_reject else TriggerEventKind.reject
trigger_event_kind (blocked _) = TriggerEventKind.blocked
trigger_event_kind (crash _ _) = TriggerEventKind.crash
trigger_event_kind timeout = TriggerEventKind.timeout
trigger_event_kind (stage_retry_limit_hit _) = TriggerEventKind.stage_retry_limit
trigger_event_kind overall_retry_limit_hit = TriggerEventKind.retry_limit
trigger_event_kind _ = TriggerEventKind.unknown

-- `f"{seconds:.1f}"`.
seconds : ℕ → Text
seconds t = decimal (t / 10) ++ (lit "." ++ decimal (t % 10))

unfoldable pub failure_message : Event → Text
unfolding seconds
failure_message (reject source reason classification metadata) = reason
failure_message (blocked reason) = reason
failure_message (crash exc_type message) = message
failure_message (stage_retry_limit_hit stage) =
    lit "Stage retry limit exhausted for " ++ value stage
failure_message overall_retry_limit_hit = lit "Overall retry limit exhausted"
failure_message (task_time_budget_exceeded elapsed budget) =
    lit "Task time budget exceeded before commit: "
    ++ (seconds elapsed ++ (lit "s elapsed, budget " ++ (seconds budget ++ lit "s")))
failure_message (recovery_failed reason) = reason
failure_message _ = []

unfoldable pub failure_source : Event → Option Source
failure_source (reject source reason classification metadata) = some source
failure_source _ = none

unfoldable pub failure_diagnostics : Event → Fields
failure_diagnostics (reject source reason classification metadata) = metadata
failure_diagnostics (crash exc_type message) =
    Fields.field (lit "exc_type") (Value.str exc_type) Fields.end
failure_diagnostics (stage_retry_limit_hit stage) =
    Fields.field (lit "stage") (Value.str (value stage)) Fields.end
failure_diagnostics _ = Fields.end

unfoldable pub terminal_recovery_verdict : Event → Option Text
terminal_recovery_verdict (crash exc_type message) = some (lit "crash")
terminal_recovery_verdict timeout = some (lit "timeout")
terminal_recovery_verdict (recovery_failed reason) = some (lit "failed")
terminal_recovery_verdict recovery_budget_hit = some (lit "budget_hit")
terminal_recovery_verdict _ = none
