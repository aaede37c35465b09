-- ===== src/Lifecycle/Runner/Loop.antt =====
-- litehive/lifecycle/runner.py: the loop of `run_task` and the time budget.
use litehive.Base.{
  ℕ, zero, suc, ◌+◌, ◌-◌, Bool, true, false, Option, none, some, List, ltb, if◌then◌else◌,
}
use litehive.Lifecycle.Events.{Event}
use litehive.Lifecycle.State.{TaskState}
use litehive.Lifecycle.Stages.{NodeType, node_type, is_terminal, commit_reached}
use litehive.Lifecycle.Transitions.{Rule, Failure, Result, ok, raise}
use litehive.Lifecycle.Runner.Step.{Env, Outcome, apply_transition}

unfoldable pub task_time_budget_event : Option ℕ → TaskState → Option Event
task_time_budget_event none s = none
task_time_budget_event (some budget) s =
    if commit_reached s.stage
    then none
    else if ltb s.agent_elapsed_tenths budget
    then none
    else some (Event.task_time_budget_exceeded s.agent_elapsed_tenths budget)

-- What the outside gives in one round: the event that the node returns, the clock before and after
-- it, what the transition reads, and whether a stop is requested then.
pub record Round : Type 0 where
  pub event : Event
  pub started_at : ℕ
  pub ended_at : ℕ
  pub env : Env
  pub stop_requested : Bool

-- `registry.get(stage).run(state)` and the clock, as a function of the round's number and the
-- state.
abbrev pub Outside : Type 0
Outside = ℕ → TaskState → Round

pub data RunResult : Type 0 where
  finished stopped : TaskState → RunResult
  raised : Failure → RunResult
  out_of_fuel : TaskState → RunResult

abbrev is_agent : NodeType → Bool
is_agent NodeType.agent = true
is_agent _ = false

-- `agent_elapsed_seconds += max(0.0, clock() - started_at)` around an agent's node.
unfoldable pub add_elapsed : TaskState → Round → TaskState
add_elapsed s r =
    if is_agent (node_type s.stage)
    then record s { agent_elapsed_tenths = s.agent_elapsed_tenths + (r.ended_at - r.started_at) }
    else s

-- One pass through the body of the `while` loop.
pub data Turn : Type 0 where
  go_on halt : TaskState → Turn
  error : Failure → Turn

abbrev pub after_budget : Result Outcome → Turn
after_budget (ok o) = go_on o.state
after_budget (raise x) = error x

abbrev pub after_node : Bool → Result Outcome → Turn
after_node stop (ok o) = if stop then halt o.state else go_on o.state
after_node stop (raise x) = error x

unfoldable pub turn_for : List Rule → Round → TaskState → Option Event → Turn
turn_for rules r s (some budget_event) = after_budget (apply_transition rules r.env s budget_event)
turn_for rules r s none =
    after_node r.stop_requested (apply_transition rules r.env (add_elapsed s r) r.event)

unfoldable pub turn : List Rule → Option ℕ → Round → TaskState → Turn
unfolding turn_for
turn rules budget r s = turn_for rules r s (task_time_budget_event budget s)

-- `run_task` on a loaded state, for at most `fuel` rounds; `n` counts the rounds made.
unfoldable pub run_task : List Rule → Option ℕ → Outside → ℕ → ℕ → TaskState → RunResult
run_task rules budget outside n zero s = if is_terminal s.stage then finished s else out_of_fuel s
run_task rules budget outside n (suc fuel) s = elim (is_terminal s.stage) [
  | true ↦ finished s
  | false ↦ elim (turn rules budget (outside n s) s) [
    | go_on s' ↦ run_task rules budget outside (n + 1) fuel s'
    | halt s' ↦ stopped s'
    | error x ↦ raised x
  ]
]
