-- ===== src/Lifecycle/Rules/Edge.antt =====
-- The moves of the pipeline as a relation: an account of litehive/lifecycle/rules.py by the kinds
-- of move, which the table of rules is proved to follow.
use litehive.Base.{Bool, true, false, ◌≡◌, none, some}
use litehive.Base.Text.{Text}
use litehive.Domain.Common.{PipelineMode, PipelineState}
use litehive.Lifecycle.Events.{Event, EventClass, DispositionHint, class_of}
use litehive.Lifecycle.State.{FailedReason, TaskState}
use litehive.Lifecycle.Deltas.Patch.{StateDelta, empty_delta}
use litehive.Lifecycle.Deltas.Tracking.{clear_completed_rejection_loop}
use litehive.Lifecycle.Deltas.Effects.{
  enter_pre_exec_recovery, enter_recovery, exhaust_recovery_budget, fail, fail_rejection_loop,
  inc_stage_retry, remember_rejection, record_recovery_success, stash_conflict_files,
}
use litehive.Lifecycle.Guards.{
  mode, recovery_budget_available, stage_retries_remaining, stage_retries_exhausted, last_hook_ok,
  zero_change_shortcut, rejection_loop_detected, hook_reject_loop_detected,
}
use litehive.Lifecycle.Transitions.{resume_phase, entry_of}

-- The moves with no guard and no effect.
pub data Plain : PipelineState → EventClass → PipelineState → Type 0 where
  clean : Plain PipelineState.ready EventClass.clean_state PipelineState.worktree_sync
  groom : Plain PipelineState.before_grooming EventClass.hook_ok PipelineState.grooming
  groomed : Plain PipelineState.after_grooming EventClass.hook_ok PipelineState.before_implementing
  implement : Plain PipelineState.before_implementing EventClass.hook_ok PipelineState.implementing
  test : Plain PipelineState.before_testing EventClass.hook_ok PipelineState.testing
  tested : Plain PipelineState.after_testing EventClass.hook_ok PipelineState.before_accepting
  accept : Plain PipelineState.before_accepting EventClass.hook_ok PipelineState.accepting
  accepted : Plain PipelineState.after_accepting EventClass.hook_ok PipelineState.commit
  land : Plain PipelineState.commit EventClass.pass PipelineState.after_commit
  merge : Plain PipelineState.merge_resolving EventClass.pass PipelineState.after_commit
  finish : Plain PipelineState.after_commit EventClass.hook_ok PipelineState.done

-- An agent's stage and the hooks behind it.
pub data Passes : PipelineState → PipelineState → Type 0 where
  grooming : Passes PipelineState.grooming PipelineState.after_grooming
  implementing : Passes PipelineState.implementing PipelineState.after_implementing
  testing : Passes PipelineState.testing PipelineState.after_testing
  accepting : Passes PipelineState.accepting PipelineState.after_accepting

-- Where an implementation goes behind its hooks.
pub data Leaves (s : TaskState) (e : Event) : PipelineState → Type 0 where
  unchanged :
      mode PipelineMode.single s e ≡ true
      → zero_change_shortcut s e ≡ true
      → Leaves s e PipelineState.done
  changed : mode PipelineMode.single s e ≡ true → Leaves s e PipelineState.commit
  to_test : mode PipelineMode.full s e ≡ true → Leaves s e PipelineState.before_testing

-- The stages whose rejects are retried, with the stage that counts the retries.
pub data Counts : PipelineState → PipelineState → Type 0 where
  before_implementing : Counts PipelineState.implementing PipelineState.before_implementing
  implementing : Counts PipelineState.implementing PipelineState.implementing
  after_implementing : Counts PipelineState.implementing PipelineState.after_implementing
  before_testing : Counts PipelineState.testing PipelineState.before_testing
  testing : Counts PipelineState.testing PipelineState.testing
  after_testing : Counts PipelineState.testing PipelineState.after_testing
  before_accepting : Counts PipelineState.accepting PipelineState.before_accepting
  accepting : Counts PipelineState.accepting PipelineState.accepting
  after_accepting : Counts PipelineState.accepting PipelineState.after_accepting

-- The failures that a recovery agent may be asked to repair.
pub data Recoverable : EventClass → Type 0 where
  crash : Recoverable EventClass.crash
  timeout : Recoverable EventClass.timeout
  blocked : Recoverable EventClass.blocked

-- The stages of an agent or of the commit, with their hooks.
abbrev pub in_phase : PipelineState → Bool
in_phase PipelineState.ready = false
in_phase PipelineState.worktree_sync = false
in_phase PipelineState.recovering_pre_exec = false
in_phase PipelineState.merge_resolving = false
in_phase PipelineState.recovering = false
in_phase PipelineState.done = false
in_phase PipelineState.failed = false
in_phase _ = true

-- Where a failure starts a recovery, or fails the task when the budget is spent.
pub data Starts : PipelineState → EventClass → Type 0 where
  phase_crash : {p : PipelineState} → in_phase p ≡ true → Starts p EventClass.crash
  phase_timeout : {p : PipelineState} → in_phase p ≡ true → Starts p EventClass.timeout
  sync_crash : Starts PipelineState.worktree_sync EventClass.crash
  sync_timeout : Starts PipelineState.worktree_sync EventClass.timeout
  merge_crash : Starts PipelineState.merge_resolving EventClass.crash
  merge_timeout : Starts PipelineState.merge_resolving EventClass.timeout
  merge_blocked : Starts PipelineState.merge_resolving EventClass.blocked
  grooming_blocked : Starts PipelineState.grooming EventClass.blocked
  implementing_blocked : Starts PipelineState.implementing EventClass.blocked
  testing_blocked : Starts PipelineState.testing EventClass.blocked
  accepting_blocked : Starts PipelineState.accepting EventClass.blocked

-- The stages where any reject fails the task.
pub data Refuses : PipelineState → Type 0 where
  worktree_sync : Refuses PipelineState.worktree_sync
  before_grooming : Refuses PipelineState.before_grooming
  grooming : Refuses PipelineState.grooming
  after_grooming : Refuses PipelineState.after_grooming
  commit : Refuses PipelineState.commit
  after_commit : Refuses PipelineState.after_commit
  merge_resolving : Refuses PipelineState.merge_resolving

-- What fails a task at a stage, and for which reason.
pub data Fails (s : TaskState) (e : Event) : PipelineState → FailedReason → Type 0 where
  refused :
      {p : PipelineState}
      → Refuses p
      → class_of e ≡ EventClass.reject
      → Fails s e p FailedReason.semantic_reject
  hook_loop :
      {p : PipelineState} (counter : PipelineState)
      → Counts counter p
      → class_of e ≡ EventClass.reject
      → hook_reject_loop_detected s e ≡ true
      → Fails s e p FailedReason.hook_reject_loop
  no_retry :
      {p : PipelineState} (counter : PipelineState)
      → Counts counter p
      → class_of e ≡ EventClass.reject
      → stage_retries_exhausted counter s e ≡ true
      → Fails s e p FailedReason.semantic_reject
  stage_limit :
      {p : PipelineState}
      → in_phase p ≡ true
      → class_of e ≡ EventClass.stage_retry_limit_hit
      → Fails s e p FailedReason.unrecoverable_error
  overall_limit :
      {p : PipelineState}
      → in_phase p ≡ true
      → class_of e ≡ EventClass.overall_retry_limit_hit
      → Fails s e p FailedReason.unrecoverable_error
  overtime :
      {p : PipelineState}
      → in_phase p ≡ true
      → class_of e ≡ EventClass.task_time_budget_exceeded
      → Fails s e p FailedReason.time_budget_exceeded
  recovery_overtime :
      class_of e ≡ EventClass.task_time_budget_exceeded
      → Fails s e PipelineState.recovering FailedReason.time_budget_exceeded
  pre_exec_failed :
      class_of e ≡ EventClass.pre_exec_recovery_failed
      → Fails s e PipelineState.recovering_pre_exec FailedReason.pre_exec_recovery_failed
  pre_exec_budget :
      class_of e ≡ EventClass.pre_exec_recovery_budget_hit
      → Fails s e PipelineState.recovering_pre_exec FailedReason.pre_exec_recovery_failed
  pre_exec_crash :
      class_of e ≡ EventClass.crash
      → Fails s e PipelineState.recovering_pre_exec FailedReason.recovery_crashed
  pre_exec_timeout :
      class_of e ≡ EventClass.timeout
      → Fails s e PipelineState.recovering_pre_exec FailedReason.recovery_crashed
  no_target :
      (hint : DispositionHint)
      → e ≡ Event.recovery_succeeded none hint
      → Fails s e PipelineState.recovering FailedReason.recovery_missing_target_stage
  gave_up :
      class_of e ≡ EventClass.recovery_failed
      → Fails s e PipelineState.recovering FailedReason.recovery_exhausted
  recovery_budget :
      class_of e ≡ EventClass.recovery_budget_hit
      → Fails s e PipelineState.recovering FailedReason.recovery_budget_hit
  recovery_crash :
      class_of e ≡ EventClass.crash
      → Fails s e PipelineState.recovering FailedReason.recovery_crashed
  recovery_timeout :
      class_of e ≡ EventClass.timeout
      → Fails s e PipelineState.recovering FailedReason.recovery_crashed

-- A move from `from` to `next` by the event `e`, with the patch `d`.
pub data Edge (now : Text) (s : TaskState) (e : Event) (from next : PipelineState) (d : StateDelta)
    : Type 0 where
  plain : Plain from (class_of e) next → d ≡ empty_delta → Edge now s e from next d
  probe :
      from ≡ PipelineState.ready
      → class_of e ≡ EventClass.needs_pre_exec_recovery
      → next ≡ PipelineState.recovering_pre_exec
      → d ≡ enter_pre_exec_recovery now s e
      → Edge now s e from next d
  enter :
      from ≡ PipelineState.worktree_sync
      → class_of e ≡ EventClass.pass
      → next ≡ entry_of s.pipeline_mode s.entry_stage
      → d ≡ empty_delta
      → Edge now s e from next d
  resume :
      (target : PipelineState)
      → e ≡ Event.pre_exec_recovery_succeeded target
      → from ≡ PipelineState.recovering_pre_exec
      → next ≡ resume_phase target
      → d ≡ empty_delta
      → Edge now s e from next d
  pass :
      Passes from next
      → class_of e ≡ EventClass.pass
      → d ≡ clear_completed_rejection_loop now s e
      → Edge now s e from next d
  leave :
      from ≡ PipelineState.after_implementing
      → class_of e ≡ EventClass.hook_ok
      → Leaves s e next
      → d ≡ empty_delta
      → Edge now s e from next d
  conflict :
      from ≡ PipelineState.commit
      → class_of e ≡ EventClass.merge_conflict_detected
      → next ≡ PipelineState.merge_resolving
      → d ≡ stash_conflict_files now s e
      → Edge now s e from next d
  retry :
      (counter : PipelineState)
      → Counts counter from
      → class_of e ≡ EventClass.reject
      → stage_retries_remaining counter s e ≡ true
      → next ≡ PipelineState.implementing
      → d ≡ inc_stage_retry counter (some PipelineState.implementing) now s e
      → Edge now s e from next d
  override :
      from ≡ PipelineState.testing
      → class_of e ≡ EventClass.reject
      → stage_retries_exhausted PipelineState.testing s e ≡ true
      → last_hook_ok s e ≡ true
      → next ≡ PipelineState.accepting
      → d ≡ remember_rejection PipelineState.accepting none now s e
      → Edge now s e from next d
  recover :
      Recoverable (class_of e)
      → Starts from (class_of e)
      → recovery_budget_available s e ≡ true
      → next ≡ PipelineState.recovering
      → d ≡ enter_recovery now s e
      → Edge now s e from next d
  recovered :
      (target : PipelineState) (hint : DispositionHint)
      → e ≡ Event.recovery_succeeded (some target) hint
      → from ≡ PipelineState.recovering
      → next ≡ resume_phase target
      → d ≡ record_recovery_success now s e
      → Edge now s e from next d
  fails :
      (reason : FailedReason)
      → Fails s e from reason
      → next ≡ PipelineState.failed
      → d ≡ fail reason now s e
      → Edge now s e from next d
  loops :
      (counter : PipelineState)
      → Counts counter from
      → class_of e ≡ EventClass.reject
      → rejection_loop_detected PipelineState.implementing s e ≡ true
      → next ≡ PipelineState.failed
      → d ≡ fail_rejection_loop counter PipelineState.implementing now s e
      → Edge now s e from next d
  spent :
      Recoverable (class_of e)
      → Starts from (class_of e)
      → recovery_budget_available s e ≡ false
      → next ≡ PipelineState.failed
      → d ≡ exhaust_recovery_budget now s e
      → Edge now s e from next d
