-- ===== src/Lifecycle/Nodes/Resolved.antt =====
-- litehive/lifecycle/nodes/agent.py: the events that a visit of an agent node returns.
use litehive.Base.{
  ℕ, zero, suc, ◌+◌, true, false, inl, inr, Option, none, some, List, ◌∷◌, ltb, leb, Bool-cases,
  Option-cases,
}
use litehive.Base.Text.{Text}
use litehive.Lifecycle.Events.{Event}
use litehive.Lifecycle.Nodes.Agent.{AgentVerdict}
use litehive.Lifecycle.Nodes.Engines.{
  TurnEnd, AgentConfig, EngineEnd, retry_exhausted, not_retryable, nudges_exhausted, of_verdict,
  retryable, run_with_retries, run_agent,
}

-- The event that an end resolves to, if it does, is in `Q`.
abbrev pub Resolves : (Event → Type 0) → EngineEnd → Type 0
Resolves Q (EngineEnd.resolved e) = Q e
Resolves Q _ = Unit

abbrev ResolvesAt : (Event → Type 0) → EngineEnd × ℕ → Type 0
ResolvesAt Q r = Resolves Q r.0

module _ {P : Type 0} (c : AgentConfig) (to_event : AgentVerdict → Option Event) (nudge : P → P)
    (run_turn : Text → ℕ → P → TurnEnd) (Q : Event → Type 0)
    (crashes : (x m : Text) → Q (Event.crash x m))
    (verdicts : (v : AgentVerdict) → Resolves Q (of_verdict (to_event v))) where
  turn-Resolves :
      (engine : Text) (t : TurnEnd) (nudges turn : ℕ) (nudged : EngineEnd × ℕ)
      (retried : Text → EngineEnd × ℕ)
      → ResolvesAt Q nudged
      → ((m : Text) → ResolvesAt Q (retried m))
      → ResolvesAt Q (elim t [
        | TurnEnd.verdict v ↦ (of_verdict (to_event v), turn + 1)
        | TurnEnd.nudge_required message ↦ elim (leb c.nudge_budget nudges) [
          | true ↦ (nudges_exhausted message, turn + 1)
          | false ↦ nudged
        ]
        | TurnEnd.transient kind message ↦ elim (retryable c kind) [
          | false ↦ (not_retryable engine kind message, turn + 1)
          | true ↦ retried message
        ]
        | TurnEnd.engine_blocked message ↦ (EngineEnd.blocked message, turn + 1)
        | TurnEnd.unrecoverable exc_type message ↦
            (EngineEnd.resolved (Event.crash exc_type message), turn + 1)
        | TurnEnd.other ↦ (EngineEnd.raised, turn + 1)
      ])
  unfolding nudges_exhausted not_retryable
  turn-Resolves engine (TurnEnd.verdict v) nudges turn nudged retried a b = verdicts v
  turn-Resolves engine (TurnEnd.nudge_required m) nudges turn nudged retried a b =
      elim (Bool-cases (leb c.nudge_budget nudges)) [
        | inl over ↦ rw (over, ResolvesAt) (crashes _ _)
        | inr more ↦ rw (more, ResolvesAt) a
      ]
  turn-Resolves engine (TurnEnd.transient kind m) nudges turn nudged retried a b =
      elim (Bool-cases (retryable c kind)) [
        | inl again ↦ rw (again, ResolvesAt) (b m)
        | inr final ↦ rw (final, ResolvesAt) tt
      ]
  turn-Resolves engine (TurnEnd.engine_blocked m) nudges turn nudged retried a b = tt
  turn-Resolves engine (TurnEnd.unrecoverable x m) nudges turn nudged retried a b = crashes x m
  turn-Resolves engine TurnEnd.other nudges turn nudged retried a b = tt

  run_with_retries-Resolves :
      (engine : Text) (fuel attempts nudges turn : ℕ) (prompt : P) (last : Option Text)
      → ResolvesAt Q
          (run_with_retries c to_event nudge run_turn engine fuel attempts nudges turn prompt last)
  unfolding run_with_retries retry_exhausted
  run_with_retries-Resolves engine zero attempts nudges turn prompt last =
      elim (Bool-cases (ltb attempts c.retry_budget)) [
        | inl more ↦ rw (more, ResolvesAt, run_with_retries) tt
        | inr spent ↦ rw (spent, ResolvesAt, run_with_retries) tt
      ]
  run_with_retries-Resolves engine (suc fuel) attempts nudges turn prompt last =
      elim (Bool-cases (ltb attempts c.retry_budget)) [
        | inl more ↦
            rw (more, ResolvesAt, run_with_retries)
              (turn-Resolves engine (run_turn engine turn prompt) nudges turn _ _
                (run_with_retries-Resolves engine fuel attempts (nudges + 1) (turn + 1)
                  (nudge prompt) last)
                (λ m.
                  run_with_retries-Resolves engine fuel (attempts + 1) nudges (turn + 1) prompt
                    (some m)))
        | inr spent ↦ rw (spent, ResolvesAt, run_with_retries) tt
      ]

  next_engine-Resolves :
      (r : EngineEnd) (next : Text → EngineEnd)
      → Resolves Q r
      → ((m : Text) → Resolves Q (next m))
      → Resolves Q (elim r [
        | EngineEnd.blocked message ↦ next message
        | EngineEnd.resolved e ↦ EngineEnd.resolved e
        | EngineEnd.raised ↦ EngineEnd.raised
        | EngineEnd.out_of_fuel ↦ EngineEnd.out_of_fuel
      ])
  next_engine-Resolves (EngineEnd.blocked m) next h k = k m
  next_engine-Resolves (EngineEnd.resolved e) next h k = h
  next_engine-Resolves EngineEnd.raised next h k = tt
  next_engine-Resolves EngineEnd.out_of_fuel next h k = tt

  pub run_agent-Resolves :
      (select : List Text → Option Text) (prompt : P) (fuel : ℕ) (excluded : List Text)
      (last : Option Text)
      → Resolves Q (run_agent c to_event nudge run_turn select prompt fuel excluded last)
  unfolding run_agent
  run_agent-Resolves select prompt zero excluded last = elim (Option-cases (select excluded)) [
    | inl over ↦ rw (over, Resolves, run_agent) (crashes _ _)
    | inr (e, picked) ↦ rw (picked, Resolves, run_agent) tt
  ]
  run_agent-Resolves select prompt (suc fuel) excluded last =
      elim (Option-cases (select excluded)) [
        | inl over ↦ rw (over, Resolves, run_agent) (crashes _ _)
        | inr (e, picked) ↦
            rw (picked, Resolves, run_agent)
              (next_engine-Resolves
                (run_with_retries c to_event nudge run_turn e (c.retry_budget + c.nudge_budget) 0 0
                  0 prompt none).0
                (λ m.
                  run_agent c to_event nudge run_turn select prompt fuel (e ∷ excluded) (some m))
                (run_with_retries-Resolves e (c.retry_budget + c.nudge_budget) 0 0 0 prompt none)
                (λ m. run_agent-Resolves select prompt fuel (e ∷ excluded) (some m)))
      ]
