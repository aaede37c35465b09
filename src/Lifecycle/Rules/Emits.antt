-- ===== src/Lifecycle/Rules/Emits.antt =====
-- litehive/lifecycle/nodes: the kinds of events that the node of each stage may return.
use litehive.Base.{Bool, true, false, ◌≡◌, List, [], ◌∷◌, ◌||◌}
use litehive.Base.Text.{Text}
use litehive.Domain.Common.{PipelineState}
use litehive.Lifecycle.Events.{Event, EventClass, is_instance}
use litehive.Lifecycle.State.{TaskState}
use litehive.Lifecycle.Transitions.{Result, ok, raise, Transition, evaluate}
use litehive.Lifecycle.Rules.{rules}

abbrev pub succeeds : Result Transition → Bool
succeeds (ok t) = true
succeeds (raise x) = false

-- The events that a hook stage's node returns.
abbrev pub hook_events : List EventClass
hook_events = EventClass.hook_ok ∷ EventClass.reject ∷ EventClass.crash ∷ EventClass.timeout ∷ []

abbrev pub agent_events : List EventClass
agent_events =
    EventClass.pass ∷ EventClass.reject ∷ EventClass.blocked ∷ EventClass.crash ∷ EventClass.timeout
    ∷ []

-- The classes of events that the node of a stage may return.
unfoldable pub emits : PipelineState → List EventClass
emits PipelineState.ready = EventClass.clean_state ∷ EventClass.needs_pre_exec_recovery ∷ []
emits PipelineState.worktree_sync =
    EventClass.pass ∷ EventClass.reject ∷ EventClass.crash ∷ EventClass.timeout ∷ []
emits PipelineState.recovering_pre_exec =
    EventClass.pre_exec_recovery_succeeded ∷ EventClass.pre_exec_recovery_failed
    ∷ EventClass.pre_exec_recovery_budget_hit ∷ EventClass.crash ∷ EventClass.timeout ∷ []
emits PipelineState.grooming = agent_events
emits PipelineState.implementing = agent_events
emits PipelineState.testing = agent_events
emits PipelineState.accepting = agent_events
emits PipelineState.commit =
    EventClass.pass ∷ EventClass.merge_conflict_detected ∷ EventClass.reject ∷ EventClass.crash
    ∷ EventClass.timeout ∷ []
emits PipelineState.merge_resolving = agent_events
emits PipelineState.recovering =
    EventClass.recovery_succeeded ∷ EventClass.recovery_failed ∷ EventClass.recovery_budget_hit
    ∷ EventClass.crash ∷ EventClass.timeout ∷ []
emits PipelineState.done = []
emits PipelineState.failed = []
emits _ = hook_events

abbrev pub is_one_of : Event → List EventClass → Bool
is_one_of e [] = false
is_one_of e (c ∷ cs) = is_instance e c || is_one_of e cs

abbrev pub Given : PipelineState → Event → Type 0
Given from e = is_one_of e (emits from) ≡ true

pub none_given : {A : Type 0} → false ≡ true → A
none_given h = cc

abbrev pub Moves : Text → PipelineState → Event → TaskState → Type 0
Moves now from e s = succeeds (evaluate rules now from e s) ≡ true
