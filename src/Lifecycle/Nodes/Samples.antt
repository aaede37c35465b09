-- ===== src/Lifecycle/Nodes/Samples.antt =====
-- Concrete visits of an agent's node (litehive/lifecycle/nodes/agent.py): two engines, the first
-- of which is over its quota.
use litehive.Base.{
  ℕ, true, false, ◌≡◌, refl, ◌≢◌, Option, none, some, List, [], ◌∷◌, elem, ◌==◌, if◌then◌else◌, ltb,
  arith,
}
use litehive.Base.Text.{Text, lit, text_eq, text_beq, text_beq_iff, lower}
use litehive.Base.Json.{Value, Fields}
use litehive.Domain.Common.{PipelineMode, PipelineState, value}
use litehive.Domain.Recovery.{Source}
use litehive.Lifecycle.Events.{Event}
use litehive.Lifecycle.State.{TaskState, new_state, default_limits}
use litehive.Lifecycle.Nodes.Agent.{AgentVerdict, verdict_to_event, parse_verdict, verdict_value}
use litehive.Lifecycle.Nodes.Engines.{TurnEnd, AgentConfig, EngineEnd, run_with_retries, run_agent}
use litehive.Lifecycle.Nodes.Attempts.{Ended, run_with_retries-Ended, Selects}
use litehive.Lifecycle.Nodes.Visits.{run_agent-ends}

-- The first engine of a list that is not excluded.
abbrev pick : List Text → List Text → Option Text
pick [] excluded = none
pick (e ∷ es) excluded = if elem e excluded then pick es excluded else some e

pick-member : (es excluded : List Text) (e : Text) → pick es excluded ≡ some e → elem e es ≡ true
pick-member [] excluded e h = cc
pick-member (x ∷ es) excluded e h = ground (arith, h, pick-member es excluded e, text_beq_iff e x)

pick-fresh :
    (es excluded : List Text) (e : Text) → pick es excluded ≡ some e → elem e excluded ≡ false
pick-fresh [] excluded e h = cc
pick-fresh (x ∷ es) excluded e h = ground (arith, h, pick-fresh es excluded e)

abbrev engines : List Text
engines = lit "claude" ∷ lit "codex" ∷ []

pick-Selects : Selects engines (pick engines)
pick-Selects = record { member = pick-member engines; fresh = pick-fresh engines }

abbrev config : AgentConfig
config = record { retry_budget = 3; retry_on = lit "timeout" ∷ []; nudge_budget = 1 }

abbrev passing : AgentVerdict
passing = record {
  outcome = lit "pass";
  reason = [];
  classification = none;
  metadata = Fields.end;
  source = Source.agent;
}

-- The first engine has no quota; the second needs a nudge, times out once, and then passes.
abbrev answers : Text → ℕ → Text → TurnEnd
answers engine turn prompt =
    if engine == lit "claude"
    then TurnEnd.engine_blocked (lit "quota")
    else if ltb turn 1
    then TurnEnd.nudge_required (lit "no verdict")
    else if ltb turn 2
    then TurnEnd.transient (some (lit "timeout")) (lit "slow")
    else TurnEnd.verdict passing

abbrev of_agent : AgentVerdict → Option Event
of_agent v = some (verdict_to_event v)

abbrev nudged : Text → Text
nudged prompt = lit "nudge"

run_with_retries-Ended_example :
    Ended (run_with_retries config of_agent nudged answers (lit "codex") 4 0 0 0 [] none) 4
run_with_retries-Ended_example =
    run_with_retries-Ended config of_agent nudged answers (lit "codex") 4 0 0 0 [] none
      (omega arith)

run_agent-ends_example :
    run_agent config of_agent nudged answers (pick engines) [] 2 [] none ≢ EngineEnd.out_of_fuel
run_agent-ends_example =
    run_agent-ends config of_agent nudged answers (pick engines) engines [] 2 [] none pick-Selects
      (omega arith)

-- The visit passes, after a quota, a nudge and a retry.
second_engine :
    run_agent config of_agent nudged answers (pick engines) [] 2 [] none
    ≡ EngineEnd.resolved (Event.pass Fields.end)
unfolding run_agent run_with_retries verdict_to_event parse_verdict verdict_value lit text_beq lower
second_engine = refl

abbrev resuming : AgentVerdict
resuming = record {
  outcome = lit "Resume";
  reason = [];
  classification = none;
  metadata = Fields.field (lit "target_stage") (Value.str (value PipelineState.testing)) Fields.end;
  source = Source.agent;
}

abbrev recovering_task : TaskState
recovering_task =
    new_state (lit "T-1") PipelineState.recovering PipelineMode.full none default_limits
