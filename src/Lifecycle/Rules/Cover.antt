-- ===== src/Lifecycle/Rules/Cover.antt =====
-- litehive/lifecycle/rules.py: every event that a stage's node may return has a rule.
use litehive.Base.{ℕ, sym, Bool, true, false, not, ◌≡◌, refl}
use litehive.Base.Text.{Text}
use litehive.Domain.Common.{PipelineState}
use litehive.Lifecycle.Events.{Event}
use litehive.Lifecycle.State.{TaskState}
use litehive.Lifecycle.Stages.{commit_reached, is_terminal}
use litehive.Lifecycle.Transitions.{
  Result, ok, raise, Transition, evaluate, applies, fire, retry_epoch_rules,
}
use litehive.Lifecycle.Rules.{
  rules, entry_rules, worktree_sync_rules, pre_exec_rules, grooming_rules, implementing_rules,
  testing_rules, accepting_rules, commit_rules, merge_rules, grooming_reject_rules, retry_rules,
  commit_reject_rules, blocked_rules, escalation_rules, recovering_rules, wildcard_rules,
}
use litehive.Lifecycle.Rules.Parts.{
  recovery_rules, terminal_reject_rules, epoch_terminal_reject_rules,
}
use litehive.Lifecycle.Rules.Emits.{succeeds, is_one_of, emits, Given, Moves, none_given}
use litehive.Lifecycle.Rules.Working.{hook_ok-Moves, pass-Moves, reject-Moves}
use litehive.Lifecycle.Rules.Failing.{crash-Moves, timeout-Moves, blocked-Moves}
use litehive.Lifecycle.Rules.Opening.{
  clean-Moves, needs-Moves, conflict-Moves, resume-Moves, no_resume-Moves, pre_exec_budget-Moves,
  recovered-Moves, unrecovered-Moves, recovery_budget-Moves, stage_limit-Moves, overall_limit-Moves,
  time-Moves,
}

event-Moves :
    (now : Text) (s : TaskState) (from : PipelineState) (e : Event)
    → Given from e
    → Moves now from e s
event-Moves now s from (Event.pass m) h = pass-Moves now s m from h
event-Moves now s from (Event.hook_ok w) h = hook_ok-Moves now s w from h
event-Moves now s from Event.clean_state h = clean-Moves now s from h
event-Moves now s from Event.needs_pre_exec_recovery h = needs-Moves now s from h
event-Moves now s from (Event.reject x y c m) h = reject-Moves now s x y c m from h
event-Moves now s from (Event.merge_conflict_detected xs) h = conflict-Moves now s xs from h
event-Moves now s from (Event.blocked x) h = blocked-Moves now s x from h
event-Moves now s from (Event.crash x y) h = crash-Moves now s x y from h
event-Moves now s from Event.timeout h = timeout-Moves now s from h
event-Moves now s from (Event.stage_retry_limit_hit x) h = stage_limit-Moves now s x from h
event-Moves now s from Event.overall_retry_limit_hit h = overall_limit-Moves now s from h
event-Moves now s from (Event.task_time_budget_exceeded x y) h = time-Moves now s x y from h
event-Moves now s from (Event.recovery_succeeded o x) h = recovered-Moves now s o x from h
event-Moves now s from (Event.recovery_failed x) h = unrecovered-Moves now s x from h
event-Moves now s from Event.recovery_budget_hit h = recovery_budget-Moves now s from h
event-Moves now s from (Event.pre_exec_recovery_succeeded x) h = resume-Moves now s x from h
event-Moves now s from (Event.pre_exec_recovery_failed x) h = no_resume-Moves now s x from h
event-Moves now s from Event.pre_exec_recovery_budget_hit h = pre_exec_budget-Moves now s from h

transition_of : (r : Result Transition) → succeeds r ≡ true → (t : Transition) × (r ≡ ok t)
transition_of (ok t) h = (t, refl)
transition_of (raise x) h = none_given h

-- Whatever event of a stage's own kinds its node returns, some rule of the table applies, whatever
-- the state is: the evaluation gives a transition and raises no error.
pub evaluate-covers :
    (now : Text) (from : PipelineState) (e : Event) (s : TaskState)
    → is_one_of e (emits from) ≡ true
    → (t : Transition) × (evaluate rules now from e s ≡ ok t)
evaluate-covers now from e s h = transition_of _ (event-Moves now s from e h)

-- The stages before the pipeline's first hook.
abbrev pub opening : PipelineState → Bool
opening PipelineState.ready = true
opening PipelineState.worktree_sync = true
opening PipelineState.recovering_pre_exec = true
opening _ = false

-- The runner ends a task over its time budget by this event at every stage that has not reached
-- the commit; of those that do not end a task, the table has a rule for it at all but the stages
-- before the first hook, where it raises `NoTransitionError`.
pub evaluate-time_budget :
    (now : Text) (from : PipelineState) (elapsed budget : ℕ) (s : TaskState)
    → commit_reached from ≡ false
    → is_terminal from ≡ false
    → succeeds (evaluate rules now from (Event.task_time_budget_exceeded elapsed budget) s)
      ≡ not (opening from)
unfolding emits evaluate applies fire rules entry_rules worktree_sync_rules pre_exec_rules
    grooming_rules implementing_rules testing_rules accepting_rules commit_rules merge_rules
    grooming_reject_rules retry_rules commit_reject_rules blocked_rules escalation_rules
    recovering_rules wildcard_rules recovery_rules terminal_reject_rules epoch_terminal_reject_rules
    retry_epoch_rules
evaluate-time_budget now PipelineState.commit x y s h k = none_given (sym h)
evaluate-time_budget now PipelineState.after_commit x y s h k = none_given (sym h)
evaluate-time_budget now PipelineState.merge_resolving x y s h k = none_given (sym h)
evaluate-time_budget now PipelineState.done x y s h k = none_given (sym k)
evaluate-time_budget now PipelineState.failed x y s h k = none_given (sym k)
evaluate-time_budget now _ x y s h k = refl
