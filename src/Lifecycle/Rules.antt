-- ===== src/Lifecycle/Rules.antt =====
-- litehive/lifecycle/rules.py, and the sets of stages.py: the table of rules, in its order. The
-- blocks of the table are named by the comments that divide it in the source.
pub mod Parts
pub mod Edge
pub mod Soundness
pub mod Refinement
pub mod Gates
pub mod Terminal
pub mod Emits
pub mod Working
pub mod Failing
pub mod Opening
pub mod Cover
use litehive.Base.{Option, none, some, List, [], ◌∷◌, ◌++◌}
use litehive.Domain.Common.{PipelineMode, PipelineState}
use litehive.Lifecycle.Events.{EventClass}
use litehive.Lifecycle.State.{FailedReason}
use litehive.Lifecycle.Deltas.Patch.{EffectFn}
use litehive.Lifecycle.Deltas.Tracking.{clear_completed_rejection_loop}
use litehive.Lifecycle.Deltas.Effects.{
  enter_pre_exec_recovery, enter_recovery, exhaust_recovery_budget, fail, remember_rejection,
  record_recovery_success, stash_conflict_files,
}
use litehive.Lifecycle.Guards.{
  Guard, both, last_hook_ok, mode, recovery_budget_available, recovery_budget_exhausted,
  recovery_resume_is_concrete, stage_retries_exhausted, zero_change_shortcut,
}
use litehive.Lifecycle.Transitions.{
  StatePattern, one, any_of, ToSpec, to_stage, to_fn, Rule, entry_from_worktree_sync,
  resume_from_origin, resume_from_pre_exec, retry_epoch_rules,
}
use Parts.{
  grooming_epoch, implementing_epoch, testing_epoch, accepting_epoch, commit_epoch,
  all_stage_phases, rule, recovery_rules, terminal_reject_rules, epoch_terminal_reject_rules,
}

-- entry
unfoldable pub entry_rules : List Rule
entry_rules =
    (rule (one PipelineState.ready) EventClass.clean_state (to_stage PipelineState.worktree_sync)
        none none
      ∷ rule (one PipelineState.ready) EventClass.needs_pre_exec_recovery
          (to_stage PipelineState.recovering_pre_exec) none (some (enter_pre_exec_recovery))
      ∷ [])

-- worktree sync
unfoldable pub worktree_sync_rules : List Rule
worktree_sync_rules =
    (rule (one PipelineState.worktree_sync) EventClass.pass (to_fn entry_from_worktree_sync) none
        none
      ∷ [])
    ++ (terminal_reject_rules PipelineState.worktree_sync
        ++ (recovery_rules (one PipelineState.worktree_sync) EventClass.crash
            ++ recovery_rules (one PipelineState.worktree_sync) EventClass.timeout))

-- pre-exec recovery
unfoldable pub pre_exec_rules : List Rule
pre_exec_rules =
    (rule (one PipelineState.recovering_pre_exec) EventClass.pre_exec_recovery_succeeded
        (to_fn resume_from_pre_exec) none none
      ∷ rule (one PipelineState.recovering_pre_exec) EventClass.pre_exec_recovery_failed
          (to_stage PipelineState.failed) none (some (fail FailedReason.pre_exec_recovery_failed))
      ∷ rule (one PipelineState.recovering_pre_exec) EventClass.pre_exec_recovery_budget_hit
          (to_stage PipelineState.failed) none (some (fail FailedReason.pre_exec_recovery_failed))
      ∷ rule (one PipelineState.recovering_pre_exec) EventClass.crash
          (to_stage PipelineState.failed) none (some (fail FailedReason.recovery_crashed))
      ∷ rule (one PipelineState.recovering_pre_exec) EventClass.timeout
          (to_stage PipelineState.failed) none (some (fail FailedReason.recovery_crashed))
      ∷ [])

-- grooming
unfoldable pub grooming_rules : List Rule
grooming_rules =
    (rule (one PipelineState.before_grooming) EventClass.hook_ok (to_stage PipelineState.grooming)
        none none
      ∷ rule (one PipelineState.grooming) EventClass.pass (to_stage PipelineState.after_grooming)
          none (some (clear_completed_rejection_loop))
      ∷ rule (one PipelineState.after_grooming) EventClass.hook_ok
          (to_stage PipelineState.before_implementing) none none
      ∷ [])

-- implementing
unfoldable pub implementing_rules : List Rule
implementing_rules =
    (rule (one PipelineState.before_implementing) EventClass.hook_ok
        (to_stage PipelineState.implementing) none none
      ∷ rule (one PipelineState.implementing) EventClass.pass
          (to_stage PipelineState.after_implementing) none (some (clear_completed_rejection_loop))
      ∷ rule (one PipelineState.after_implementing) EventClass.hook_ok (to_stage PipelineState.done)
          (some (both (mode PipelineMode.single) zero_change_shortcut)) none
      ∷ rule (one PipelineState.after_implementing) EventClass.hook_ok
          (to_stage PipelineState.commit) (some (mode PipelineMode.single)) none
      ∷ rule (one PipelineState.after_implementing) EventClass.hook_ok
          (to_stage PipelineState.before_testing) (some (mode PipelineMode.full)) none
      ∷ [])

-- testing
unfoldable pub testing_rules : List Rule
testing_rules =
    (rule (one PipelineState.before_testing) EventClass.hook_ok (to_stage PipelineState.testing)
        none none
      ∷ rule (one PipelineState.testing) EventClass.pass (to_stage PipelineState.after_testing) none
          (some (clear_completed_rejection_loop))
      ∷ rule (one PipelineState.after_testing) EventClass.hook_ok
          (to_stage PipelineState.before_accepting) none none
      ∷ [])

-- accepting
unfoldable pub accepting_rules : List Rule
accepting_rules =
    (rule (one PipelineState.before_accepting) EventClass.hook_ok (to_stage PipelineState.accepting)
        none none
      ∷ rule (one PipelineState.accepting) EventClass.pass (to_stage PipelineState.after_accepting)
          none (some (clear_completed_rejection_loop))
      ∷ rule (one PipelineState.after_accepting) EventClass.hook_ok (to_stage PipelineState.commit)
          none none
      ∷ [])

-- commit
unfoldable pub commit_rules : List Rule
commit_rules =
    (rule (one PipelineState.commit) EventClass.pass (to_stage PipelineState.after_commit) none none
      ∷ rule (one PipelineState.after_commit) EventClass.hook_ok (to_stage PipelineState.done) none
          none
      ∷ [])

-- merge conflict → merge agent
unfoldable pub merge_rules : List Rule
merge_rules =
    (rule (one PipelineState.commit) EventClass.merge_conflict_detected
        (to_stage PipelineState.merge_resolving) none (some (stash_conflict_files))
      ∷ rule (one PipelineState.merge_resolving) EventClass.pass
          (to_stage PipelineState.after_commit) none none
      ∷ [])
    ++ (terminal_reject_rules PipelineState.merge_resolving
        ++ (recovery_rules (one PipelineState.merge_resolving) EventClass.blocked
            ++ (recovery_rules (one PipelineState.merge_resolving) EventClass.crash
                ++ recovery_rules (one PipelineState.merge_resolving) EventClass.timeout)))

-- rejections: grooming (no retry)
unfoldable pub grooming_reject_rules : List Rule
grooming_reject_rules = epoch_terminal_reject_rules grooming_epoch

-- rejections: implementing / testing / accepting (retry then fail or override)
unfoldable pub retry_rules : List Rule
retry_rules =
    retry_epoch_rules PipelineState.implementing implementing_epoch PipelineState.implementing
      FailedReason.semantic_reject
    ++ ((rule (one PipelineState.testing) EventClass.reject (to_stage PipelineState.accepting)
            (some (both (stage_retries_exhausted PipelineState.testing) last_hook_ok))
            (some (remember_rejection PipelineState.accepting none))
          ∷ [])
        ++ (retry_epoch_rules PipelineState.testing testing_epoch PipelineState.implementing
              FailedReason.semantic_reject
            ++ retry_epoch_rules PipelineState.accepting accepting_epoch PipelineState.implementing
                FailedReason.semantic_reject))

-- rejections: commit (no retry)
unfoldable pub commit_reject_rules : List Rule
commit_reject_rules = epoch_terminal_reject_rules commit_epoch

-- blocked
unfoldable pub blocked_rules : List Rule
blocked_rules =
    recovery_rules (one PipelineState.grooming) EventClass.blocked
    ++ (recovery_rules (one PipelineState.implementing) EventClass.blocked
        ++ (recovery_rules (one PipelineState.testing) EventClass.blocked
            ++ recovery_rules (one PipelineState.accepting) EventClass.blocked))

-- escalations
unfoldable pub escalation_rules : List Rule
escalation_rules =
    (rule (any_of all_stage_phases) EventClass.stage_retry_limit_hit (to_stage PipelineState.failed)
        none (some (fail FailedReason.unrecoverable_error))
      ∷ rule (any_of all_stage_phases) EventClass.overall_retry_limit_hit
          (to_stage PipelineState.failed) none (some (fail FailedReason.unrecoverable_error))
      ∷ rule (any_of all_stage_phases) EventClass.task_time_budget_exceeded
          (to_stage PipelineState.failed) none (some (fail FailedReason.time_budget_exceeded))
      ∷ rule (one PipelineState.recovering) EventClass.task_time_budget_exceeded
          (to_stage PipelineState.failed) none (some (fail FailedReason.time_budget_exceeded))
      ∷ [])

-- recovering
unfoldable pub recovering_rules : List Rule
recovering_rules =
    (rule (one PipelineState.recovering) EventClass.recovery_succeeded (to_fn resume_from_origin)
        (some (recovery_resume_is_concrete)) (some (record_recovery_success))
      ∷ rule (one PipelineState.recovering) EventClass.recovery_succeeded
          (to_stage PipelineState.failed) none
          (some (fail FailedReason.recovery_missing_target_stage))
      ∷ rule (one PipelineState.recovering) EventClass.recovery_failed
          (to_stage PipelineState.failed) none (some (fail FailedReason.recovery_exhausted))
      ∷ rule (one PipelineState.recovering) EventClass.recovery_budget_hit
          (to_stage PipelineState.failed) none (some (fail FailedReason.recovery_budget_hit))
      ∷ rule (one PipelineState.recovering) EventClass.crash (to_stage PipelineState.failed) none
          (some (fail FailedReason.recovery_crashed))
      ∷ rule (one PipelineState.recovering) EventClass.timeout (to_stage PipelineState.failed) none
          (some (fail FailedReason.recovery_crashed))
      ∷ [])

-- wildcards (must be last)
unfoldable pub wildcard_rules : List Rule
wildcard_rules =
    recovery_rules (any_of all_stage_phases) EventClass.crash
    ++ recovery_rules (any_of all_stage_phases) EventClass.timeout

-- `RULES`.
unfoldable pub rules : List Rule
rules =
    entry_rules
    ++ (worktree_sync_rules
        ++ (pre_exec_rules
            ++ (grooming_rules
                ++ (implementing_rules
                    ++ (testing_rules
                        ++ (accepting_rules
                            ++ (commit_rules
                                ++ (merge_rules
                                    ++ (grooming_reject_rules
                                        ++ (retry_rules
                                            ++ (commit_reject_rules
                                                ++ (blocked_rules
                                                    ++ (escalation_rules
                                                        ++ (recovering_rules
                                                            ++ (wildcard_rules)))))))))))))))
