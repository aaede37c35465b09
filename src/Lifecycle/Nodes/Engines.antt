-- ===== src/Lifecycle/Nodes/Engines.antt =====
-- litehive/lifecycle/nodes/agent.py: `AgentNode.run`, the loop over engines, and
-- `_run_with_retries`, the attempts on one of them. What an engine does with a prompt is an
-- argument, and so are the prompts, the selector of engines and the conversion of a verdict; the
-- pauses between attempts and the sessions, which only the engines read, are left out.
use litehive.Base.{
  ℕ, zero, suc, ◌+◌, Bool, true, false, Option, none, some, List, ◌∷◌, ◌++◌, ltb, leb,
  if◌then◌else◌, elem,
}
use litehive.Base.Text.{Text, lit, decimal, truthy, text_eq}
use litehive.Lifecycle.Events.{Event}
use litehive.Lifecycle.Nodes.Agent.{AgentVerdict}

-- How a turn of an engine ends: with a verdict, or with one of the exceptions of the protocol;
-- `other` is any other exception, which nothing catches.
pub data TurnEnd : Type 0 where
  verdict : AgentVerdict → TurnEnd
  nudge_required : (message : Text) → TurnEnd
  transient : (failure_kind : Option Text) (message : Text) → TurnEnd
  engine_blocked : (message : Text) → TurnEnd
  unrecoverable : (exc_type message : Text) → TurnEnd
  other : TurnEnd

pub record AgentConfig : Type 0 where
  pub retry_budget : ℕ
  pub retry_on : List Text
  pub nudge_budget : ℕ

-- What `_run_with_retries` ends with, after a number of turns.
pub data EngineEnd : Type 0 where
  resolved : Event → EngineEnd
  blocked : (message : Text) → EngineEnd
  raised out_of_fuel : EngineEnd

abbrev pub retryable : AgentConfig → Option Text → Bool
retryable c none = false
retryable c (some kind) = elem kind c.retry_on

abbrev kind_label : Option Text → Text
kind_label none = lit "unknown"
kind_label (some kind) = if truthy kind then kind else lit "unknown"

abbrev last_label : Option Text → Text
last_label none = lit "None"
last_label (some message) = message

abbrev pub of_verdict : Option Event → EngineEnd
of_verdict none = EngineEnd.raised
of_verdict (some e) = EngineEnd.resolved e

unfoldable pub retry_exhausted : AgentConfig → Text → Option Text → EngineEnd
retry_exhausted c engine last = EngineEnd.blocked (
    lit "retry budget ("
    ++ (decimal c.retry_budget
        ++ (lit ") exhausted on " ++ (engine ++ (lit ": " ++ last_label last)))))

unfoldable pub not_retryable : Text → Option Text → Text → EngineEnd
not_retryable engine kind message = EngineEnd.blocked (
    engine
    ++ (lit " failed with non-retryable execution kind "
        ++ (kind_label kind ++ (lit ": " ++ message))))

unfoldable pub nudges_exhausted : Text → EngineEnd
nudges_exhausted message = EngineEnd.resolved (
    Event.crash (lit "NudgeBudgetExhausted") (
      lit "agent did not submit a verdict via `litehive agent report` after being nudged: "
      ++ message))

module _ {P : Type 0} (c : AgentConfig) (to_event : AgentVerdict → Option Event) (nudge : P → P)
    (run_turn : Text → ℕ → P → TurnEnd) where
  -- The `while` loop of `_run_with_retries`, for at most `fuel` turns, with the number of turns
  -- taken; `turn` counts the turns on this engine before.
  unfoldable pub run_with_retries :
      (engine : Text) (fuel attempts_used nudges_used turn : ℕ) (prompt : P)
      (last_exc : Option Text)
      → EngineEnd × ℕ
  run_with_retries engine zero attempts_used nudges_used turn prompt last_exc =
      if ltb attempts_used c.retry_budget
      then (EngineEnd.out_of_fuel, turn)
      else (retry_exhausted c engine last_exc, turn)
  run_with_retries engine (suc fuel) attempts_used nudges_used turn prompt last_exc =
      elim (ltb attempts_used c.retry_budget) [
        | false ↦ (retry_exhausted c engine last_exc, turn)
        | true ↦ elim (run_turn engine turn prompt) [
          | TurnEnd.verdict v ↦ (of_verdict (to_event v), turn + 1)
          | TurnEnd.nudge_required message ↦ elim (leb c.nudge_budget nudges_used) [
            | true ↦ (nudges_exhausted message, turn + 1)
            | false ↦
                run_with_retries engine fuel attempts_used (nudges_used + 1) (turn + 1)
                  (nudge prompt) last_exc
          ]
          | TurnEnd.transient kind message ↦ elim (retryable c kind) [
            | false ↦ (not_retryable engine kind message, turn + 1)
            | true ↦
                run_with_retries engine fuel (attempts_used + 1) nudges_used (turn + 1) prompt
                  (some message)
          ]
          | TurnEnd.engine_blocked message ↦ (EngineEnd.blocked message, turn + 1)
          | TurnEnd.unrecoverable exc_type message ↦
              (EngineEnd.resolved (Event.crash exc_type message), turn + 1)
          | TurnEnd.other ↦ (EngineEnd.raised, turn + 1)
        ]
      ]

  -- What `run` ends with.
  abbrev pub exhausted : Option Text → EngineEnd
  exhausted last = EngineEnd.resolved (
      Event.crash (lit "AllEnginesExhausted")
        (elim last [ none ↦ lit "no engine eligible" | some message ↦ message ]))

  -- `run`, for at most `fuel` engines; `select` is the selector on the excluded names.
  unfoldable pub run_agent :
      (select : List Text → Option Text) (prompt : P) (fuel : ℕ) (excluded : List Text)
      (last_exc : Option Text)
      → EngineEnd
  run_agent select prompt zero excluded last_exc = elim (select excluded) [
    | none ↦ exhausted last_exc
    | some engine ↦ EngineEnd.out_of_fuel
  ]
  run_agent select prompt (suc fuel) excluded last_exc = elim (select excluded) [
    | none ↦ exhausted last_exc
    | some engine ↦
        elim (run_with_retries engine (c.retry_budget + c.nudge_budget) 0 0 0 prompt none).0 [
          | EngineEnd.blocked message ↦
              run_agent select prompt fuel (engine ∷ excluded) (some message)
          | EngineEnd.resolved e ↦ EngineEnd.resolved e
          | EngineEnd.raised ↦ EngineEnd.raised
          | EngineEnd.out_of_fuel ↦ EngineEnd.out_of_fuel
        ]
  ]
