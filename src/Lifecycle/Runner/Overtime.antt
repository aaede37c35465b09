-- ===== src/Lifecycle/Runner/Overtime.antt =====
-- litehive/lifecycle/runner.py: what a spent time budget does to a run.
use litehive.Base.{ℕ, zero, suc, ◌+◌, false, ◌≡◌, refl, sym, Option, some, ltb, ◌≤◌, arith}
use litehive.Base.Text.{Text}
use litehive.Domain.Common.{PipelineState}
use litehive.Lifecycle.Events.{Event}
use litehive.Lifecycle.State.{FailedReason, TaskState}
use litehive.Lifecycle.Stages.{is_terminal, commit_reached}
use litehive.Lifecycle.Deltas.Effects.{fail}
use litehive.Lifecycle.Transitions.{ok, Transition, evaluate, applies, fire, retry_epoch_rules}
use litehive.Lifecycle.Rules.{
  rules, entry_rules, worktree_sync_rules, pre_exec_rules, grooming_rules, implementing_rules,
  testing_rules, accepting_rules, commit_rules, merge_rules, grooming_reject_rules, retry_rules,
  commit_reject_rules, blocked_rules, escalation_rules, recovering_rules, wildcard_rules,
}
use litehive.Lifecycle.Rules.Parts.{
  recovery_rules, terminal_reject_rules, epoch_terminal_reject_rules,
}
use litehive.Lifecycle.Rules.Cover.{opening}
use litehive.Lifecycle.Rules.Emits.{none_given}
use litehive.Lifecycle.Runner.Apply.{apply_delta}
use litehive.Lifecycle.Runner.Step.{
  Env, settle, apply_transition, apply_event_side_effects, reset_hook_reject_tracking_on_progress,
}
use litehive.Lifecycle.Runner.Loop.{
  Round, Outside, finished, go_on, turn, turn_for, task_time_budget_event, run_task,
}

-- The stages at which a task over its time budget is failed.
abbrev pub Timed : PipelineState → Type 0
Timed from = (commit_reached from ≡ false) × (is_terminal from ≡ false) × (opening from ≡ false)

overtime-evaluate :
    (now : Text) (from : PipelineState) (x y : ℕ) (s : TaskState)
    → Timed from
    → (t : Transition) × (evaluate rules now from (Event.task_time_budget_exceeded x y) s ≡ ok t)
      × (t.next ≡ PipelineState.failed)
      × (t.delta
          ≡ fail FailedReason.time_budget_exceeded now s (Event.task_time_budget_exceeded x y))
unfolding evaluate applies fire rules entry_rules worktree_sync_rules pre_exec_rules grooming_rules
    implementing_rules testing_rules accepting_rules commit_rules merge_rules grooming_reject_rules
    retry_rules commit_reject_rules blocked_rules escalation_rules recovering_rules wildcard_rules
    recovery_rules terminal_reject_rules epoch_terminal_reject_rules retry_epoch_rules
overtime-evaluate now PipelineState.commit x y s (a, b, c) = none_given (sym a)
overtime-evaluate now PipelineState.after_commit x y s (a, b, c) = none_given (sym a)
overtime-evaluate now PipelineState.merge_resolving x y s (a, b, c) = none_given (sym a)
overtime-evaluate now PipelineState.done x y s (a, b, c) = none_given (sym b)
overtime-evaluate now PipelineState.failed x y s (a, b, c) = none_given (sym b)
overtime-evaluate now PipelineState.ready x y s (a, b, c) = none_given (sym c)
overtime-evaluate now PipelineState.worktree_sync x y s (a, b, c) = none_given (sym c)
overtime-evaluate now PipelineState.recovering_pre_exec x y s (a, b, c) = none_given (sym c)
overtime-evaluate now _ x y s h = (_, refl, refl, refl)

-- A task failed over its time.
abbrev pub TimedOut : TaskState → Type 0
TimedOut u =
    (u.stage ≡ PipelineState.failed) × (u.failed_reason ≡ some FailedReason.time_budget_exceeded)

settle-TimedOut :
    (env : Env) (s : TaskState) (x y : ℕ) (t : Transition)
    → t.next ≡ PipelineState.failed
    → t.delta
      ≡ fail FailedReason.time_budget_exceeded env.now s (Event.task_time_budget_exceeded x y)
    → TimedOut (settle env s.stage (Event.task_time_budget_exceeded x y) s t).state
unfolding settle reset_hook_reject_tracking_on_progress apply_event_side_effects apply_delta fail
settle-TimedOut env s x y t to same = (to, rw same refl)

run_task-finished :
    (budget : Option ℕ) (outside : Outside) (n fuel : ℕ) (u : TaskState)
    → u.stage ≡ PipelineState.failed
    → run_task rules budget outside n fuel u ≡ finished u
unfolding run_task
run_task-finished budget outside n zero u at = rw at refl
run_task-finished budget outside n (suc fuel) u at = rw at refl

not_below : (b e : ℕ) → b ≤ e → ltb e b ≡ false
not_below b e h = ground arith

overtime-turn :
    (budget : ℕ) (r : Round) (s : TaskState)
    → Timed s.stage
    → budget ≤ s.agent_elapsed_tenths
    → (u : TaskState) × (turn rules (some budget) r s ≡ go_on u) × TimedOut u
unfolding turn turn_for task_time_budget_event apply_transition
overtime-turn budget r s timed over =
    let (t, found, to, same) =
      overtime-evaluate r.env.now s.stage s.agent_elapsed_tenths budget s timed in
    (
      (settle r.env s.stage (Event.task_time_budget_exceeded s.agent_elapsed_tenths budget) s
          t).state,
      rw (timed.0, not_below budget s.agent_elapsed_tenths over, found) refl,
      settle-TimedOut r.env s s.agent_elapsed_tenths budget t to same,
    )

failing-run :
    (budget : Option ℕ) (outside : Outside) (n fuel : ℕ) (s u : TaskState)
    → is_terminal s.stage ≡ false
    → turn rules budget (outside n s) s ≡ go_on u
    → u.stage ≡ PipelineState.failed
    → run_task rules budget outside n (suc fuel) s ≡ finished u
unfolding run_task
failing-run budget outside n fuel s u going turned at =
    rw (going, turned, run_task) (run_task-finished budget outside (n + 1) fuel u at)

-- A task whose agents have used up the time budget, at a stage from the first hook on that has not
-- reached the commit, or in recovery, ends in the next round, whatever the nodes would do: the run
-- finishes with the task failed for its time.
pub run_task-TimedOut :
    (budget : ℕ) (outside : Outside) (n fuel : ℕ) (s : TaskState)
    → Timed s.stage
    → budget ≤ s.agent_elapsed_tenths
    → (u : TaskState) × (run_task rules (some budget) outside n (suc fuel) s ≡ finished u)
      × TimedOut u
run_task-TimedOut budget outside n fuel s timed over =
    let (u, turned, out) = overtime-turn budget (outside n s) s timed over in
    (u, failing-run (some budget) outside n fuel s u timed.1 turned out.0, out)
