-- ===== src/Lifecycle/Rules/Working.antt =====
-- litehive/lifecycle/rules.py: every verdict of a hook or an agent has a rule.
use litehive.Base.{refl, List, Option, arith}
use litehive.Base.Text.{Text}
use litehive.Base.Json.{Fields}
use litehive.Domain.Recovery.{Source}
use litehive.Domain.Common.{PipelineState}
use litehive.Lifecycle.Events.{Event}
use litehive.Lifecycle.State.{TaskState}
use litehive.Lifecycle.Guards.{mode, stage_retries_exhausted, stage_retries_remaining}
use litehive.Lifecycle.Transitions.{
  evaluate, applies, fire, retry_epoch_rules, entry_from_worktree_sync,
}
use litehive.Lifecycle.Rules.{
  rules, entry_rules, worktree_sync_rules, pre_exec_rules, grooming_rules, implementing_rules,
  testing_rules, accepting_rules, commit_rules, merge_rules, grooming_reject_rules, retry_rules,
  commit_reject_rules, blocked_rules, escalation_rules, recovering_rules, wildcard_rules,
}
use litehive.Lifecycle.Rules.Parts.{
  recovery_rules, terminal_reject_rules, epoch_terminal_reject_rules,
}
use litehive.Lifecycle.Rules.Emits.{emits, Given, Moves, none_given}

module _ (now : Text) (s : TaskState) where
  pub hook_ok-Moves :
      (w : List Text) (from : PipelineState)
      → Given from (Event.hook_ok w)
      → Moves now from (Event.hook_ok w) s
  unfolding emits evaluate applies fire rules entry_rules worktree_sync_rules pre_exec_rules
      grooming_rules implementing_rules testing_rules accepting_rules commit_rules merge_rules
      grooming_reject_rules retry_rules commit_reject_rules blocked_rules escalation_rules
      recovering_rules wildcard_rules recovery_rules terminal_reject_rules
      epoch_terminal_reject_rules retry_epoch_rules mode
  hook_ok-Moves w PipelineState.before_grooming h = ground arith
  hook_ok-Moves w PipelineState.after_grooming h = ground arith
  hook_ok-Moves w PipelineState.before_implementing h = ground arith
  hook_ok-Moves w PipelineState.after_implementing h = ground arith
  hook_ok-Moves w PipelineState.before_testing h = ground arith
  hook_ok-Moves w PipelineState.after_testing h = ground arith
  hook_ok-Moves w PipelineState.before_accepting h = ground arith
  hook_ok-Moves w PipelineState.after_accepting h = ground arith
  hook_ok-Moves w PipelineState.after_commit h = ground arith
  hook_ok-Moves w _ h = none_given h

  pub pass-Moves :
      (m : Fields) (from : PipelineState)
      → Given from (Event.pass m)
      → Moves now from (Event.pass m) s
  unfolding emits evaluate applies fire rules entry_rules worktree_sync_rules pre_exec_rules
      grooming_rules implementing_rules testing_rules accepting_rules commit_rules merge_rules
      grooming_reject_rules retry_rules commit_reject_rules blocked_rules escalation_rules
      recovering_rules wildcard_rules recovery_rules terminal_reject_rules
      epoch_terminal_reject_rules retry_epoch_rules entry_from_worktree_sync
  pass-Moves m PipelineState.worktree_sync h = refl
  pass-Moves m PipelineState.grooming h = refl
  pass-Moves m PipelineState.implementing h = refl
  pass-Moves m PipelineState.testing h = refl
  pass-Moves m PipelineState.accepting h = refl
  pass-Moves m PipelineState.commit h = refl
  pass-Moves m PipelineState.merge_resolving h = refl
  pass-Moves m _ h = none_given h

  pub reject-Moves :
      (x : Source) (y : Text) (c : Option Text) (m : Fields) (from : PipelineState)
      → Given from (Event.reject x y c m)
      → Moves now from (Event.reject x y c m) s
  unfolding emits evaluate applies fire rules entry_rules worktree_sync_rules pre_exec_rules
      grooming_rules implementing_rules testing_rules accepting_rules commit_rules merge_rules
      grooming_reject_rules retry_rules commit_reject_rules blocked_rules escalation_rules
      recovering_rules wildcard_rules recovery_rules terminal_reject_rules
      epoch_terminal_reject_rules retry_epoch_rules stage_retries_exhausted stage_retries_remaining
  reject-Moves x y c m PipelineState.worktree_sync h = ground arith
  reject-Moves x y c m PipelineState.before_grooming h = ground arith
  reject-Moves x y c m PipelineState.after_grooming h = ground arith
  reject-Moves x y c m PipelineState.before_implementing h = ground arith
  reject-Moves x y c m PipelineState.after_implementing h = ground arith
  reject-Moves x y c m PipelineState.before_testing h = ground arith
  reject-Moves x y c m PipelineState.after_testing h = ground arith
  reject-Moves x y c m PipelineState.before_accepting h = ground arith
  reject-Moves x y c m PipelineState.after_accepting h = ground arith
  reject-Moves x y c m PipelineState.after_commit h = ground arith
  reject-Moves x y c m PipelineState.grooming h = ground arith
  reject-Moves x y c m PipelineState.implementing h = ground arith
  reject-Moves x y c m PipelineState.testing h = ground arith
  reject-Moves x y c m PipelineState.accepting h = ground arith
  reject-Moves x y c m PipelineState.commit h = ground arith
  reject-Moves x y c m PipelineState.merge_resolving h = ground arith
  reject-Moves x y c m _ h = none_given h
