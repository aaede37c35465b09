-- ===== src/Lifecycle/Rules/Failing.antt =====
-- litehive/lifecycle/rules.py: every failure of a node has a rule.
use litehive.Base.{arith}
use litehive.Base.Text.{Text}
use litehive.Domain.Common.{PipelineState}
use litehive.Lifecycle.Events.{Event}
use litehive.Lifecycle.State.{TaskState}
use litehive.Lifecycle.Guards.{recovery_budget_exhausted}
use litehive.Lifecycle.Transitions.{evaluate, applies, fire, retry_epoch_rules}
use litehive.Lifecycle.Rules.{
  rules, entry_rules, worktree_sync_rules, pre_exec_rules, grooming_rules, implementing_rules,
  testing_rules, accepting_rules, commit_rules, merge_rules, grooming_reject_rules, retry_rules,
  commit_reject_rules, blocked_rules, escalation_rules, recovering_rules, wildcard_rules,
}
use litehive.Lifecycle.Rules.Parts.{
  recovery_rules, terminal_reject_rules, epoch_terminal_reject_rules,
}
use litehive.Lifecycle.Rules.Emits.{emits, Given, Moves, none_given}

module _ (now : Text) (s : TaskState) where
  pub crash-Moves :
      (x y : Text) (from : PipelineState)
      → Given from (Event.crash x y)
      → Moves now from (Event.crash x y) s
  unfolding emits evaluate applies fire rules entry_rules worktree_sync_rules pre_exec_rules
      grooming_rules implementing_rules testing_rules accepting_rules commit_rules merge_rules
      grooming_reject_rules retry_rules commit_reject_rules blocked_rules escalation_rules
      recovering_rules wildcard_rules recovery_rules terminal_reject_rules
      epoch_terminal_reject_rules retry_epoch_rules recovery_budget_exhausted
  crash-Moves x y PipelineState.worktree_sync h = ground arith
  crash-Moves x y PipelineState.recovering_pre_exec h = ground arith
  crash-Moves x y PipelineState.before_grooming h = ground arith
  crash-Moves x y PipelineState.after_grooming h = ground arith
  crash-Moves x y PipelineState.before_implementing h = ground arith
  crash-Moves x y PipelineState.after_implementing h = ground arith
  crash-Moves x y PipelineState.before_testing h = ground arith
  crash-Moves x y PipelineState.after_testing h = ground arith
  crash-Moves x y PipelineState.before_accepting h = ground arith
  crash-Moves x y PipelineState.after_accepting h = ground arith
  crash-Moves x y PipelineState.after_commit h = ground arith
  crash-Moves x y PipelineState.grooming h = ground arith
  crash-Moves x y PipelineState.implementing h = ground arith
  crash-Moves x y PipelineState.testing h = ground arith
  crash-Moves x y PipelineState.accepting h = ground arith
  crash-Moves x y PipelineState.commit h = ground arith
  crash-Moves x y PipelineState.merge_resolving h = ground arith
  crash-Moves x y PipelineState.recovering h = ground arith
  crash-Moves x y _ h = none_given h

  pub timeout-Moves :
      (from : PipelineState) → Given from (Event.timeout) → Moves now from (Event.timeout) s
  unfolding emits evaluate applies fire rules entry_rules worktree_sync_rules pre_exec_rules
      grooming_rules implementing_rules testing_rules accepting_rules commit_rules merge_rules
      grooming_reject_rules retry_rules commit_reject_rules blocked_rules escalation_rules
      recovering_rules wildcard_rules recovery_rules terminal_reject_rules
      epoch_terminal_reject_rules retry_epoch_rules recovery_budget_exhausted
  timeout-Moves PipelineState.worktree_sync h = ground arith
  timeout-Moves PipelineState.recovering_pre_exec h = ground arith
  timeout-Moves PipelineState.before_grooming h = ground arith
  timeout-Moves PipelineState.after_grooming h = ground arith
  timeout-Moves PipelineState.before_implementing h = ground arith
  timeout-Moves PipelineState.after_implementing h = ground arith
  timeout-Moves PipelineState.before_testing h = ground arith
  timeout-Moves PipelineState.after_testing h = ground arith
  timeout-Moves PipelineState.before_accepting h = ground arith
  timeout-Moves PipelineState.after_accepting h = ground arith
  timeout-Moves PipelineState.after_commit h = ground arith
  timeout-Moves PipelineState.grooming h = ground arith
  timeout-Moves PipelineState.implementing h = ground arith
  timeout-Moves PipelineState.testing h = ground arith
  timeout-Moves PipelineState.accepting h = ground arith
  timeout-Moves PipelineState.commit h = ground arith
  timeout-Moves PipelineState.merge_resolving h = ground arith
  timeout-Moves PipelineState.recovering h = ground arith
  timeout-Moves _ h = none_given h

  pub blocked-Moves :
      (x : Text) (from : PipelineState)
      → Given from (Event.blocked x)
      → Moves now from (Event.blocked x) s
  unfolding emits evaluate applies fire rules entry_rules worktree_sync_rules pre_exec_rules
      grooming_rules implementing_rules testing_rules accepting_rules commit_rules merge_rules
      grooming_reject_rules retry_rules commit_reject_rules blocked_rules escalation_rules
      recovering_rules wildcard_rules recovery_rules terminal_reject_rules
      epoch_terminal_reject_rules retry_epoch_rules recovery_budget_exhausted
  blocked-Moves x PipelineState.grooming h = ground arith
  blocked-Moves x PipelineState.implementing h = ground arith
  blocked-Moves x PipelineState.testing h = ground arith
  blocked-Moves x PipelineState.accepting h = ground arith
  blocked-Moves x PipelineState.merge_resolving h = ground arith
  blocked-Moves x _ h = none_given h
