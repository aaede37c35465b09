-- ===== src/Lifecycle/Nodes/Attempts.antt =====
-- litehive/lifecycle/nodes/agent.py: how many turns an engine gets, and how many engines a visit.
use litehive.Base.{
  ℕ, zero, suc, ◌+◌, ◌-◌, ◌≤◌, ◌<◌, true, false, ◌≡◌, ◌≢◌, inl, inr, Option, none, some, List, [],
  ◌∷◌, ltb, leb, if◌then◌else◌, elem, ◌==◌, Bool-cases, ltb→lt, arith,
}
use litehive.Base.Text.{Text, text_eq, text_beq_iff}
use litehive.Lifecycle.Events.{Event}
use litehive.Lifecycle.Nodes.Agent.{AgentVerdict}
use litehive.Lifecycle.Nodes.Engines.{
  TurnEnd, AgentConfig, EngineEnd, retry_exhausted, not_retryable, nudges_exhausted, of_verdict,
  retryable, run_with_retries,
}

-- A loop that ended, after at most so many turns.
abbrev pub Ended : EngineEnd × ℕ → ℕ → Type 0
Ended r bound = (r.0 ≢ EngineEnd.out_of_fuel) × (r.1 ≤ bound)

leb_lt : (a b : ℕ) → leb a b ≡ false → b < a
leb_lt a b h = ground arith

Ended-le : {r : EngineEnd × ℕ} (m n : ℕ) → Ended r m → m ≤ n → Ended r n
Ended-le m n h le = (h.0, omega (arith, h.1, le))

module _ {P : Type 0} (c : AgentConfig) (to_event : AgentVerdict → Option Event) (nudge : P → P)
    (run_turn : Text → ℕ → P → TurnEnd) where
  abbrev left : ℕ → ℕ → ℕ
  left attempts nudges = (c.retry_budget - attempts) + (c.nudge_budget - nudges)

  Ended-of_verdict :
      (o : Option Event) (turn bound : ℕ) → turn ≤ bound → Ended (of_verdict o, turn) bound
  Ended-of_verdict none turn bound h = ((λ p. cc), h)
  Ended-of_verdict (some e) turn bound h = ((λ p. cc), h)

  turn-Ended :
      (engine : Text) (t : TurnEnd) (nudges turn bound : ℕ) (nudged : EngineEnd × ℕ)
      (retried : Text → EngineEnd × ℕ)
      → (leb c.nudge_budget nudges ≡ false → Ended nudged bound)
      → ((m : Text) → Ended (retried m) bound)
      → turn + 1 ≤ bound
      → Ended
          (elim t [
            | TurnEnd.verdict v ↦ (of_verdict (to_event v), turn + 1)
            | TurnEnd.nudge_required message ↦ elim (leb c.nudge_budget nudges) [
              | true ↦ (nudges_exhausted message, turn + 1)
              | false ↦ nudged
            ]
            | TurnEnd.transient kind message ↦ elim (retryable c kind) [
              | false ↦ (not_retryable engine kind message, turn + 1)
              | true ↦ retried message
            ]
            | TurnEnd.engine_blocked message ↦ (EngineEnd.blocked message, turn + 1)
            | TurnEnd.unrecoverable exc_type message ↦
                (EngineEnd.resolved (Event.crash exc_type message), turn + 1)
            | TurnEnd.other ↦ (EngineEnd.raised, turn + 1)
          ])
          bound
  unfolding nudges_exhausted not_retryable
  turn-Ended engine (TurnEnd.verdict v) nudges turn bound nudged retried a b h =
      Ended-of_verdict (to_event v) (turn + 1) bound h
  turn-Ended engine (TurnEnd.nudge_required m) nudges turn bound nudged retried a b h =
      elim (Bool-cases (leb c.nudge_budget nudges)) [
        | inl over ↦ rw (over, Ended) ((λ p. cc), h)
        | inr more ↦ rw (more, Ended) (a more)
      ]
  turn-Ended engine (TurnEnd.transient kind m) nudges turn bound nudged retried a b h =
      elim (Bool-cases (retryable c kind)) [
        | inl again ↦ rw (again, Ended) (b m)
        | inr final ↦ rw (final, Ended) ((λ p. cc), h)
      ]
  turn-Ended engine (TurnEnd.engine_blocked m) nudges turn bound nudged retried a b h =
      ((λ p. cc), h)
  turn-Ended engine (TurnEnd.unrecoverable x m) nudges turn bound nudged retried a b h =
      ((λ p. cc), h)
  turn-Ended engine TurnEnd.other nudges turn bound nudged retried a b h = ((λ p. cc), h)

  -- On every configuration and whatever the engine does, the loop over attempts ends: it takes at
  -- most as many turns as retries and nudges are left, and fuel for these is enough.
  pub run_with_retries-Ended :
      (engine : Text) (fuel attempts nudges turn : ℕ) (prompt : P) (last : Option Text)
      → left attempts nudges ≤ fuel
      → Ended
          (run_with_retries c to_event nudge run_turn engine fuel attempts nudges turn prompt last)
          (turn + left attempts nudges)
  unfolding run_with_retries retry_exhausted
  run_with_retries-Ended engine zero attempts nudges turn prompt last h =
      elim (Bool-cases (ltb attempts c.retry_budget)) [
        | inl more ↦ absurd (omega (arith, h, ltb→lt _ _ more))
        | inr spent ↦ rw (spent, Ended, run_with_retries) ((λ p. cc), omega arith)
      ]
  run_with_retries-Ended engine (suc fuel) attempts nudges turn prompt last h =
      elim (Bool-cases (ltb attempts c.retry_budget)) [
        | inl more ↦
            rw (more, Ended, run_with_retries)
              (turn-Ended engine (run_turn engine turn prompt) nudges turn
                (turn + left attempts nudges) _ _
                (λ room.
                  Ended-le (turn + 1 + left attempts (nudges + 1)) (turn + left attempts nudges)
                    (run_with_retries-Ended engine fuel attempts (nudges + 1) (turn + 1)
                      (nudge prompt) last (omega (arith, h, leb_lt _ _ room)))
                    (omega (arith, leb_lt _ _ room)))
                (λ m.
                  Ended-le (turn + 1 + left (attempts + 1) nudges) (turn + left attempts nudges)
                    (run_with_retries-Ended engine fuel (attempts + 1) nudges (turn + 1) prompt
                      (some m) (omega (arith, h, ltb→lt _ _ more)))
                    (omega (arith, ltb→lt _ _ more)))
                (omega (arith, ltb→lt _ _ more)))
        | inr spent ↦ rw (spent, Ended, run_with_retries) ((λ p. cc), omega arith)
      ]

-- The engines of a list that are not excluded.
abbrev pub available : List Text → List Text → ℕ
available excluded [] = 0
available excluded (e ∷ es) =
    if elem e excluded then available excluded es else suc (available excluded es)

available-le :
    (es excluded : List Text) (x : Text) → available (x ∷ excluded) es ≤ available excluded es
available-le [] excluded x = omega arith
available-le (e ∷ es) excluded x = ground (arith, available-le es excluded x)

pub available-exclude :
    (es excluded : List Text) (x : Text)
    → elem x es ≡ true
    → elem x excluded ≡ false
    → available (x ∷ excluded) es < available excluded es
available-exclude [] excluded x h k = cc
available-exclude (e ∷ es) excluded x h k = elim (Bool-cases (x == e)) [
  | inl same ↦
      let at : x ≡ e = (text_beq_iff x e).0 same in
      ground (arith, available-le es excluded x, same, k, at)
  | inr differ ↦ ground (arith, available-exclude es excluded x, h, k, differ)
]

-- What the selector promises: it picks one of the engines, and never an excluded one.
pub record Selects (engines : List Text) (select : List Text → Option Text) : Type 0 where
  pub member : (excluded : List Text) (e : Text) → select excluded ≡ some e → elem e engines ≡ true
  pub fresh : (excluded : List Text) (e : Text) → select excluded ≡ some e → elem e excluded ≡ false
