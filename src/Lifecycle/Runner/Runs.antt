-- ===== src/Lifecycle/Runner/Runs.antt =====
-- litehive/lifecycle/runner.py: what holds along every run of `run_task`.
use litehive.Base.{
  ℕ, zero, suc, ◌+◌, Bool, true, false, ◌≡◌, refl, inl, inr, Option, none, some, if◌then◌else◌,
  Bool-cases,
}
use litehive.Lifecycle.Events.{Event}
use litehive.Lifecycle.State.{TaskState}
use litehive.Lifecycle.Stages.{is_terminal}
use litehive.Lifecycle.Transitions.{Result, ok, raise}
use litehive.Lifecycle.Rules.{rules}
use litehive.Lifecycle.Runner.Step.{Env, Outcome, apply_transition}
use litehive.Lifecycle.Runner.Loop.{
  Round, Outside, RunResult, finished, stopped, raised, out_of_fuel, add_elapsed, Turn, go_on, halt,
  error, after_node, after_budget, turn, turn_for, task_time_budget_event, run_task,
}
use litehive.Lifecycle.Deltas.Failure.{retries}
use litehive.Lifecycle.Runner.Bounds.{WithinRetries, apply_transition-WithinRetries}
use litehive.Lifecycle.Runner.Budget.{OneShot, apply_transition-OneShot}

-- The state that a run leaves is in `P`, if it leaves one.
abbrev pub Ends : (TaskState → Type 0) → RunResult → Type 0
Ends P (finished s) = P s
Ends P (stopped s) = P s
Ends P (raised x) = Unit
Ends P (out_of_fuel s) = P s

abbrev After : (TaskState → Type 0) → Turn → Type 0
After P (go_on s) = P s
After P (halt s) = P s
After P (error x) = Unit

abbrev OutcomeIn : (TaskState → Type 0) → Result Outcome → Type 0
OutcomeIn P (ok o) = P o.state
OutcomeIn P (raise x) = Unit

module _ (P : TaskState → Type 0)
    (steps : (env : Env) (s : TaskState) (e : Event) (o : Outcome)
      → apply_transition rules env s e ≡ ok o
      → P s
      → P o.state)
    (waits : (s : TaskState) (r : Round) → P s → P (add_elapsed s r)) where
  outcome-In :
      (env : Env) (s : TaskState) (e : Event) (r : Result Outcome)
      → apply_transition rules env s e ≡ r
      → P s
      → OutcomeIn P r
  outcome-In env s e (ok o) h p = steps env s e o h p
  outcome-In env s e (raise x) h p = tt

  node-After : (stop : Bool) (r : Result Outcome) → OutcomeIn P r → After P (after_node stop r)
  node-After true (ok o) p = p
  node-After false (ok o) p = p
  node-After stop (raise x) p = tt

  budget-After : (r : Result Outcome) → OutcomeIn P r → After P (after_budget r)
  budget-After (ok o) p = p
  budget-After (raise x) p = tt

  turn-After : (r : Round) (s : TaskState) (b : Option Event) → P s → After P (turn_for rules r s b)
  unfolding turn_for
  turn-After r s (some b) p = budget-After _ (outcome-In r.env s b _ refl p)
  turn-After r s none p =
      node-After r.stop_requested _
        (outcome-In r.env (add_elapsed s r) r.event _ refl (waits s r p))

  continued :
      (budget : Option ℕ) (outside : Outside) (n fuel : ℕ) (t : Turn)
      → ((s : TaskState) → P s → Ends P (run_task rules budget outside n fuel s))
      → After P t
      → Ends P (elim t [
        | go_on s ↦ run_task rules budget outside n fuel s
        | halt s ↦ stopped s
        | error x ↦ raised x
      ])
  continued budget outside n fuel (go_on s) rest q = rest s q
  continued budget outside n fuel (halt s) rest q = q
  continued budget outside n fuel (error x) rest q = tt

  pub run-Ends :
      (budget : Option ℕ) (outside : Outside) (n fuel : ℕ) (s : TaskState)
      → P s
      → Ends P (run_task rules budget outside n fuel s)
  unfolding run_task turn
  run-Ends budget outside n zero s p = elim (Bool-cases (is_terminal s.stage)) [
    | inl y ↦ rw (y, Ends) p
    | inr going ↦ rw (going, Ends) p
  ]
  run-Ends budget outside n (suc fuel) s p = elim (Bool-cases (is_terminal s.stage)) [
    | inl y ↦ rw (y, Ends) p
    | inr going ↦
        rw (going, Ends)
          (continued budget outside (n + 1) fuel (turn rules budget (outside n s) s)
            (run-Ends budget outside (n + 1) fuel)
            (turn-After (outside n s) s (task_time_budget_event budget s) p))
  ]

abbrev later : Bool → ℕ → TaskState → TaskState
later b t s = if b then record s { agent_elapsed_tenths = s.agent_elapsed_tenths + t } else s

later-WithinRetries :
    (b : Bool) (t : ℕ) (s : TaskState) → WithinRetries s → WithinRetries (later b t s)
unfolding retries
later-WithinRetries true t s h = h
later-WithinRetries false t s h = h

later-OneShot : (b : Bool) (t : ℕ) (s : TaskState) → OneShot s → OneShot (later b t s)
later-OneShot true t s h = record { start = h.start; once = h.once; fresh = h.fresh }
later-OneShot false t s h = h

-- However a task is driven, whatever its nodes return and its clock says: if no stage was retried
-- over its limit before the run, none was after it.
pub run_task-WithinRetries :
    (budget : Option ℕ) (outside : Outside) (n fuel : ℕ) (s : TaskState)
    → WithinRetries s
    → Ends WithinRetries (run_task rules budget outside n fuel s)
unfolding add_elapsed
run_task-WithinRetries =
    run-Ends WithinRetries apply_transition-WithinRetries λ s r. later-WithinRetries _ _ s

-- However a task is driven, its recovery budget is kept: if the window of its history has no two
-- outcomes with the same key, and none with that of the recovery under way, then after the run this
-- holds again, or the task has failed.
pub run_task-OneShot :
    (budget : Option ℕ) (outside : Outside) (n fuel : ℕ) (s : TaskState)
    → OneShot s
    → Ends OneShot (run_task rules budget outside n fuel s)
unfolding add_elapsed
run_task-OneShot = run-Ends OneShot apply_transition-OneShot λ s r. later-OneShot _ _ s
