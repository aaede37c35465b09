-- ===== src/Engines/Visits.antt =====
-- A visit of an agent's node (litehive/lifecycle/nodes/agent.py) with the selector of the
-- configuration (litehive/lifecycle/engines.py).
use litehive.Base.{ℕ, ◌≢◌, ◌≤◌, Option, List}
use litehive.Base.Text.{Text, text_eq}
use litehive.Domain.Task.{TaskRecord}
use litehive.Engines.{LitehiveConfig, Outside}
use litehive.Engines.Select.{EngineSelectionRequest, candidates}
use litehive.Engines.Usable.{selector, select-Selects}
use litehive.Lifecycle.Events.{Event}
use litehive.Lifecycle.Nodes.Agent.{AgentVerdict}
use litehive.Lifecycle.Nodes.Engines.{TurnEnd, AgentConfig, EngineEnd, run_agent}
use litehive.Lifecycle.Nodes.Attempts.{available}
use litehive.Lifecycle.Nodes.Visits.{run_agent-ends}

module _ {P : Type 0} (c : AgentConfig) (to_event : AgentVerdict → Option Event) (nudge : P → P)
    (run_turn : Text → ℕ → P → TurnEnd) where
  -- While the clock, the freezes and the probes stay as they are, a visit whose engines the
  -- configuration selects ends: fuel for the candidates that are not excluded is enough.
  run_agent-selector :
      (out : Outside) (task : TaskRecord) (config : LitehiveConfig)
      (request : EngineSelectionRequest) (prompt : P) (fuel : ℕ) (excluded : List Text)
      (last : Option Text)
      → available excluded (candidates task config request) ≤ fuel
      → run_agent c to_event nudge run_turn
          (selector out task config request)
          prompt
          fuel
          excluded
          last
        ≢ EngineEnd.out_of_fuel
  run_agent-selector out task config request prompt fuel excluded last enough =
      run_agent-ends c to_event nudge run_turn (selector out task config request)
        (candidates task config request) prompt fuel excluded last
        (select-Selects out task config request) enough
