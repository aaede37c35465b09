-- ===== src/Lifecycle/Nodes/Visits.antt =====
-- litehive/lifecycle/nodes/agent.py: a visit of an agent node ends, and what it returns.
use litehive.Base.{
  ℕ, zero, suc, ◌+◌, ◌≤◌, refl, ◌≢◌, inl, inr, Option, none, some, List, ◌∷◌, Option-cases, arith,
}
use litehive.Base.Text.{Text, text_eq}
use litehive.Lifecycle.Events.{Event}
use litehive.Lifecycle.Nodes.Agent.{AgentVerdict}
use litehive.Lifecycle.Nodes.Engines.{TurnEnd, AgentConfig, EngineEnd, run_with_retries, run_agent}
use litehive.Lifecycle.Nodes.Attempts.{
  run_with_retries-Ended, available, available-exclude, Selects,
}

next_engine-ends :
    (r : EngineEnd) (next : Text → EngineEnd)
    → r ≢ EngineEnd.out_of_fuel
    → ((m : Text) → next m ≢ EngineEnd.out_of_fuel)
    → elim r [
      | EngineEnd.blocked message ↦ next message
      | EngineEnd.resolved e ↦ EngineEnd.resolved e
      | EngineEnd.raised ↦ EngineEnd.raised
      | EngineEnd.out_of_fuel ↦ EngineEnd.out_of_fuel
    ]
      ≢ EngineEnd.out_of_fuel
next_engine-ends (EngineEnd.blocked m) next h k = k m
next_engine-ends (EngineEnd.resolved e) next h k = λ p. cc
next_engine-ends EngineEnd.raised next h k = λ p. cc
next_engine-ends EngineEnd.out_of_fuel next h k = λ p. h refl

module _ {P : Type 0} (c : AgentConfig) (to_event : AgentVerdict → Option Event) (nudge : P → P)
    (run_turn : Text → ℕ → P → TurnEnd) (select : List Text → Option Text) where
  -- If the selector picks only engines of a list, and none that is excluded, then a visit of an
  -- agent node ends: fuel for the engines that are not excluded is enough, whatever the engines do.
  pub run_agent-ends :
      (engines : List Text) (prompt : P) (fuel : ℕ) (excluded : List Text) (last : Option Text)
      → Selects engines select
      → available excluded engines ≤ fuel
      → run_agent c to_event nudge run_turn select prompt fuel excluded last ≢ EngineEnd.out_of_fuel
  unfolding run_agent
  run_agent-ends engines prompt zero excluded last promise h =
      elim (Option-cases (select excluded)) [
        | inl over ↦ rw (over, run_agent) (λ p. cc)
        | inr (e, picked) ↦ absurd (
            omega (
              arith,
              h,
              available-exclude engines excluded e (promise.member excluded e picked)
                  (promise.fresh excluded e picked),
            ))
      ]
  run_agent-ends engines prompt (suc fuel) excluded last promise h =
      elim (Option-cases (select excluded)) [
        | inl over ↦ rw (over, run_agent) (λ p. cc)
        | inr (e, picked) ↦
            rw (picked, run_agent)
              (next_engine-ends
                (run_with_retries c to_event nudge run_turn e (c.retry_budget + c.nudge_budget) 0 0
                  0 prompt none).0
                (λ m.
                  run_agent c to_event nudge run_turn select prompt fuel (e ∷ excluded) (some m))
                (run_with_retries-Ended c to_event nudge run_turn e
                  (c.retry_budget + c.nudge_budget) 0 0 0 prompt none (omega arith)).0
                (λ m. run_agent-ends engines prompt fuel (e ∷ excluded) (some m) promise (
                  omega (
                    arith,
                    h,
                    available-exclude engines excluded e (promise.member excluded e picked)
                        (promise.fresh excluded e picked),
                  ))))
      ]
