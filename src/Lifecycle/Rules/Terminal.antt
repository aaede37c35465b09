-- ===== src/Lifecycle/Rules/Terminal.antt =====
-- litehive/lifecycle/rules.py: the table at the stages that end a task.
use litehive.Base.{true, ◌≡◌, refl}
use litehive.Base.Text.{Text}
use litehive.Domain.Common.{PipelineState}
use litehive.Lifecycle.Events.{Event}
use litehive.Lifecycle.State.{TaskState}
use litehive.Lifecycle.Stages.{is_terminal}
use litehive.Lifecycle.Transitions.{no_transition, raise, evaluate, applies, retry_epoch_rules}
use litehive.Lifecycle.Rules.{
  rules, entry_rules, worktree_sync_rules, pre_exec_rules, grooming_rules, implementing_rules,
  testing_rules, accepting_rules, commit_rules, merge_rules, grooming_reject_rules, retry_rules,
  commit_reject_rules, blocked_rules, escalation_rules, recovering_rules, wildcard_rules,
}
use litehive.Lifecycle.Rules.Parts.{
  recovery_rules, terminal_reject_rules, epoch_terminal_reject_rules,
}

-- At `done` and `failed` no rule of the table applies, whatever the event.
pub evaluate-terminal :
    (now : Text) (from : PipelineState) (e : Event) (s : TaskState)
    → is_terminal from ≡ true
    → evaluate rules now from e s ≡ raise (no_transition from e)
unfolding evaluate applies rules entry_rules worktree_sync_rules pre_exec_rules grooming_rules
    implementing_rules testing_rules accepting_rules commit_rules merge_rules grooming_reject_rules
    retry_rules commit_reject_rules blocked_rules escalation_rules recovering_rules wildcard_rules
    recovery_rules terminal_reject_rules epoch_terminal_reject_rules retry_epoch_rules
evaluate-terminal now PipelineState.done e s h = refl
evaluate-terminal now PipelineState.failed e s h = refl
evaluate-terminal now _ e s h = cc
