-- ===== src/Lifecycle/Rules/Opening.antt =====
-- litehive/lifecycle/rules.py: every event of the first stages and of recovery has a rule.
use litehive.Base.{ℕ, refl, List, Option, arith}
use litehive.Base.Text.{Text}
use litehive.Domain.Common.{PipelineState}
use litehive.Lifecycle.Events.{Event, DispositionHint}
use litehive.Lifecycle.State.{TaskState}
use litehive.Lifecycle.Guards.{recovery_resume_is_concrete}
use litehive.Lifecycle.Transitions.{
  evaluate, applies, fire, retry_epoch_rules, resume_from_origin, resume_from_pre_exec,
}
use litehive.Lifecycle.Rules.{
  rules, entry_rules, worktree_sync_rules, pre_exec_rules, grooming_rules, implementing_rules,
  testing_rules, accepting_rules, commit_rules, merge_rules, grooming_reject_rules, retry_rules,
  commit_reject_rules, blocked_rules, escalation_rules, recovering_rules, wildcard_rules,
}
use litehive.Lifecycle.Rules.Parts.{
  recovery_rules, terminal_reject_rules, epoch_terminal_reject_rules,
}
use litehive.Lifecycle.Rules.Emits.{emits, Given, Moves, none_given}

module _ (now : Text) (s : TaskState) where
  pub clean-Moves :
      (from : PipelineState) → Given from (Event.clean_state) → Moves now from (Event.clean_state) s
  unfolding emits evaluate applies fire rules entry_rules worktree_sync_rules pre_exec_rules
      grooming_rules implementing_rules testing_rules accepting_rules commit_rules merge_rules
      grooming_reject_rules retry_rules commit_reject_rules blocked_rules escalation_rules
      recovering_rules wildcard_rules recovery_rules terminal_reject_rules
      epoch_terminal_reject_rules retry_epoch_rules
  clean-Moves PipelineState.ready h = refl
  clean-Moves _ h = none_given h

  pub needs-Moves :
      (from : PipelineState)
      → Given from (Event.needs_pre_exec_recovery)
      → Moves now from (Event.needs_pre_exec_recovery) s
  unfolding emits evaluate applies fire rules entry_rules worktree_sync_rules pre_exec_rules
      grooming_rules implementing_rules testing_rules accepting_rules commit_rules merge_rules
      grooming_reject_rules retry_rules commit_reject_rules blocked_rules escalation_rules
      recovering_rules wildcard_rules recovery_rules terminal_reject_rules
      epoch_terminal_reject_rules retry_epoch_rules
  needs-Moves PipelineState.ready h = refl
  needs-Moves _ h = none_given h

  pub conflict-Moves :
      (xs : List Text) (from : PipelineState)
      → Given from (Event.merge_conflict_detected xs)
      → Moves now from (Event.merge_conflict_detected xs) s
  unfolding emits evaluate applies fire rules entry_rules worktree_sync_rules pre_exec_rules
      grooming_rules implementing_rules testing_rules accepting_rules commit_rules merge_rules
      grooming_reject_rules retry_rules commit_reject_rules blocked_rules escalation_rules
      recovering_rules wildcard_rules recovery_rules terminal_reject_rules
      epoch_terminal_reject_rules retry_epoch_rules
  conflict-Moves xs PipelineState.commit h = refl
  conflict-Moves xs _ h = none_given h

  pub resume-Moves :
      (x : PipelineState) (from : PipelineState)
      → Given from (Event.pre_exec_recovery_succeeded x)
      → Moves now from (Event.pre_exec_recovery_succeeded x) s
  unfolding emits evaluate applies fire rules entry_rules worktree_sync_rules pre_exec_rules
      grooming_rules implementing_rules testing_rules accepting_rules commit_rules merge_rules
      grooming_reject_rules retry_rules commit_reject_rules blocked_rules escalation_rules
      recovering_rules wildcard_rules recovery_rules terminal_reject_rules
      epoch_terminal_reject_rules retry_epoch_rules resume_from_pre_exec
  resume-Moves x PipelineState.recovering_pre_exec h = refl
  resume-Moves x _ h = none_given h

  pub no_resume-Moves :
      (x : Text) (from : PipelineState)
      → Given from (Event.pre_exec_recovery_failed x)
      → Moves now from (Event.pre_exec_recovery_failed x) s
  unfolding emits evaluate applies fire rules entry_rules worktree_sync_rules pre_exec_rules
      grooming_rules implementing_rules testing_rules accepting_rules commit_rules merge_rules
      grooming_reject_rules retry_rules commit_reject_rules blocked_rules escalation_rules
      recovering_rules wildcard_rules recovery_rules terminal_reject_rules
      epoch_terminal_reject_rules retry_epoch_rules
  no_resume-Moves x PipelineState.recovering_pre_exec h = refl
  no_resume-Moves x _ h = none_given h

  pub pre_exec_budget-Moves :
      (from : PipelineState)
      → Given from (Event.pre_exec_recovery_budget_hit)
      → Moves now from (Event.pre_exec_recovery_budget_hit) s
  unfolding emits evaluate applies fire rules entry_rules worktree_sync_rules pre_exec_rules
      grooming_rules implementing_rules testing_rules accepting_rules commit_rules merge_rules
      grooming_reject_rules retry_rules commit_reject_rules blocked_rules escalation_rules
      recovering_rules wildcard_rules recovery_rules terminal_reject_rules
      epoch_terminal_reject_rules retry_epoch_rules
  pre_exec_budget-Moves PipelineState.recovering_pre_exec h = refl
  pre_exec_budget-Moves _ h = none_given h

  pub recovered-Moves :
      (o : Option PipelineState) (x : DispositionHint) (from : PipelineState)
      → Given from (Event.recovery_succeeded o x)
      → Moves now from (Event.recovery_succeeded o x) s
  unfolding emits evaluate applies fire rules entry_rules worktree_sync_rules pre_exec_rules
      grooming_rules implementing_rules testing_rules accepting_rules commit_rules merge_rules
      grooming_reject_rules retry_rules commit_reject_rules blocked_rules escalation_rules
      recovering_rules wildcard_rules recovery_rules terminal_reject_rules
      epoch_terminal_reject_rules retry_epoch_rules resume_from_origin recovery_resume_is_concrete
  recovered-Moves o x PipelineState.recovering h = ground arith
  recovered-Moves o x _ h = none_given h

  pub unrecovered-Moves :
      (x : Text) (from : PipelineState)
      → Given from (Event.recovery_failed x)
      → Moves now from (Event.recovery_failed x) s
  unfolding emits evaluate applies fire rules entry_rules worktree_sync_rules pre_exec_rules
      grooming_rules implementing_rules testing_rules accepting_rules commit_rules merge_rules
      grooming_reject_rules retry_rules commit_reject_rules blocked_rules escalation_rules
      recovering_rules wildcard_rules recovery_rules terminal_reject_rules
      epoch_terminal_reject_rules retry_epoch_rules
  unrecovered-Moves x PipelineState.recovering h = refl
  unrecovered-Moves x _ h = none_given h

  pub recovery_budget-Moves :
      (from : PipelineState)
      → Given from (Event.recovery_budget_hit)
      → Moves now from (Event.recovery_budget_hit) s
  unfolding emits evaluate applies fire rules entry_rules worktree_sync_rules pre_exec_rules
      grooming_rules implementing_rules testing_rules accepting_rules commit_rules merge_rules
      grooming_reject_rules retry_rules commit_reject_rules blocked_rules escalation_rules
      recovering_rules wildcard_rules recovery_rules terminal_reject_rules
      epoch_terminal_reject_rules retry_epoch_rules
  recovery_budget-Moves PipelineState.recovering h = refl
  recovery_budget-Moves _ h = none_given h

  pub stage_limit-Moves :
      (x : PipelineState) (from : PipelineState)
      → Given from (Event.stage_retry_limit_hit x)
      → Moves now from (Event.stage_retry_limit_hit x) s
  unfolding emits
  stage_limit-Moves x PipelineState.ready h = none_given h
  stage_limit-Moves x _ h = none_given h

  pub overall_limit-Moves :
      (from : PipelineState)
      → Given from (Event.overall_retry_limit_hit)
      → Moves now from (Event.overall_retry_limit_hit) s
  unfolding emits
  overall_limit-Moves PipelineState.ready h = none_given h
  overall_limit-Moves _ h = none_given h

  pub time-Moves :
      (x y : ℕ) (from : PipelineState)
      → Given from (Event.task_time_budget_exceeded x y)
      → Moves now from (Event.task_time_budget_exceeded x y) s
  unfolding emits
  time-Moves x y PipelineState.ready h = none_given h
  time-Moves x y _ h = none_given h
