-- ===== src/Lifecycle/Runner/Fuel.antt =====
-- litehive/lifecycle/runner.py: how many rounds `run_task` needs.
use litehive.Base.{
  ℕ, zero, suc, ◌+◌, ◌-◌, ◌≤◌, ◌<◌, Bool, true, false, ◌≡◌, refl, sym, ap, subst, inl, inr, Option,
  none, some, if◌then◌else◌, arith, Bool-cases,
}
use litehive.Lifecycle.Events.{Event}
use litehive.Lifecycle.State.{TaskState}
use litehive.Lifecycle.Stages.{is_terminal}
use litehive.Lifecycle.Deltas.Failure.{retries}
use litehive.Lifecycle.Transitions.{Result, ok, raise}
use litehive.Lifecycle.Rules.{rules}
use litehive.Lifecycle.Runner.Step.{Env, Outcome, apply_transition}
use litehive.Lifecycle.Runner.Loop.{
  Round, Outside, RunResult, stopped, raised, out_of_fuel, add_elapsed, Turn, go_on, halt, error,
  after_node, after_budget, turn, turn_for, task_time_budget_event, run_task,
}
use litehive.Lifecycle.Runner.Ranks.{rank, terminal-rank, measure, Calm}
use litehive.Lifecycle.Runner.Termination.{
  Steady, apply_transition-Steady, apply_transition-measure,
}

-- A turn ends the run, or goes on with a smaller measure.
abbrev Shrinks : TaskState → Turn → Type 0
Shrinks s (go_on u) = Steady u × (measure u < measure s)
Shrinks s (halt u) = Unit
Shrinks s (error x) = Unit

abbrev Closer : TaskState → Result Outcome → Type 0
Closer s (ok o) = Steady o.state × (measure o.state < measure s)
Closer s (raise x) = Unit

transition-Closer :
    (env : Env) (s : TaskState) (e : Event) (r : Result Outcome)
    → apply_transition rules env s e ≡ r
    → Calm e
    → Steady s
    → Closer s r
transition-Closer env s e (ok o) h calm steady = (
  apply_transition-Steady env s e o h calm steady,
  apply_transition-measure env s e o h calm steady,
)
transition-Closer env s e (raise x) h calm steady = tt

node-Shrinks :
    (s : TaskState) (stop : Bool) (r : Result Outcome) → Closer s r → Shrinks s (after_node stop r)
node-Shrinks s true (ok o) p = tt
node-Shrinks s false (ok o) p = p
node-Shrinks s stop (raise x) p = tt

budget-Shrinks : (s : TaskState) (r : Result Outcome) → Closer s r → Shrinks s (after_budget r)
budget-Shrinks s (ok o) p = p
budget-Shrinks s (raise x) p = tt

waits_form :
    (b : Bool) (t : ℕ) (s : TaskState)
    → (n : ℕ) × ((if b then record s { agent_elapsed_tenths = s.agent_elapsed_tenths + t } else s)
        ≡ record s { agent_elapsed_tenths = n })
waits_form true t s = (_, refl)
waits_form false t s = (s.agent_elapsed_tenths, refl)

add_elapsed-Steady : (s : TaskState) (r : Round) → Steady s → Steady (add_elapsed s r)
unfolding add_elapsed
add_elapsed-Steady s r h =
    let (n, p) = waits_form _ (r.ended_at - r.started_at) s in
    subst Steady (sym p) (record { entry = h.entry; sound = h.sound })

add_elapsed-measure : (s : TaskState) (r : Round) → measure (add_elapsed s r) ≡ measure s
unfolding add_elapsed measure retries
add_elapsed-measure s r = let (n, p) = waits_form _ (r.ended_at - r.started_at) s in ap measure p

Calm-if :
    (x y : Bool) (e b : Event)
    → Calm e
    → (if x then none else if y then none else some e) ≡ some b
    → Calm b
Calm-if true y e b c h = cc
Calm-if false true e b c h = cc
Calm-if false false e b c h = let same : e ≡ b = cc in subst Calm same c

time_budget-Calm :
    (budget : Option ℕ) (s : TaskState) (b : Event)
    → task_time_budget_event budget s ≡ some b
    → Calm b
unfolding task_time_budget_event
time_budget-Calm none s b h = cc
time_budget-Calm (some budget) s b h = Calm-if _ _ _ b tt h

turn-Shrinks :
    (budget : Option ℕ) (r : Round) (s : TaskState) (b : Option Event)
    → task_time_budget_event budget s ≡ b
    → Calm r.event
    → Steady s
    → Shrinks s (turn_for rules r s b)
unfolding turn_for
turn-Shrinks budget r s (some b) h calm steady =
    budget-Shrinks s _ (transition-Closer r.env s b _ refl (time_budget-Calm budget s b h) steady)
turn-Shrinks budget r s none h calm steady = node-Shrinks s r.stop_requested _ (
    waited (apply_transition rules r.env (add_elapsed s r) r.event) (
      transition-Closer r.env (add_elapsed s r) r.event _ refl calm
        (add_elapsed-Steady s r steady)))
  where
    waited : (x : Result Outcome) → Closer (add_elapsed s r) x → Closer s x
    waited (ok o) p = (p.0, rw (sym (add_elapsed-measure s r)) p.1)
    waited (raise x) p = tt

abbrev pub Halts : RunResult → Type 0
Halts (out_of_fuel s) = ⊥
Halts _ = Unit

-- If no node returns a crash, a timeout or a blockage, and the entry and every pre-execution resume
-- name stages, a run that does not start in recovery halts within as many rounds as the measure of
-- the task says: twenty times the retries left, and the rank of its stage.
pub run_task-Halts :
    (budget : Option ℕ) (outside : Outside) (n fuel : ℕ) (s : TaskState)
    → ((k : ℕ) (u : TaskState) → Calm (outside k u).event)
    → Steady s
    → measure s ≤ fuel
    → Halts (run_task rules budget outside n fuel s)
unfolding run_task turn measure rank
run_task-Halts budget outside n zero s calm steady enough =
    elim (Bool-cases (is_terminal s.stage)) [
      | inl over ↦ rw (over, Halts) tt
      | inr going ↦ absurd (omega (arith, enough, terminal-rank s.stage going))
    ]
run_task-Halts budget outside n (suc fuel) s calm steady enough =
    elim (Bool-cases (is_terminal s.stage)) [
      | inl over ↦ rw (over, Halts) tt
      | inr going ↦
          rw (going, Halts)
            (continued (turn rules budget (outside n s) s)
              (turn-Shrinks budget (outside n s) s _ refl (calm n s) steady)
              (λ u v w. run_task-Halts budget outside (n + 1) fuel u calm v w))
    ]
  where
    continued :
        (t : Turn)
        → Shrinks s t
        → ((u : TaskState)
            → Steady u
            → measure u ≤ fuel
            → Halts (run_task rules budget outside (n + 1) fuel u))
        → Halts (elim t [
          | go_on s' ↦ run_task rules budget outside (n + 1) fuel s'
          | halt s' ↦ stopped s'
          | error x ↦ raised x
        ])
    continued (go_on u) p rest = rest u p.0 (omega (arith, p.1, enough))
    continued (halt u) p rest = tt
    continued (error x) p rest = tt
