-- ===== src/Lifecycle/Samples.antt =====
-- Tests and concrete runs: a task of full mode through litehive/lifecycle/runner.py.
use litehive.Base.{
  ◌≤◌, true, false, ◌≡◌, refl, ◌≢◌, Option, none, some, is_some, [], ◌∷◌, arith, if◌then◌else◌,
  ◌==◌, leb,
}
use litehive.Base.Text.{text_beq, Text, lit, text_eq}
use litehive.Base.Json.{Fields}
use litehive.Domain.Common.{
  retry_counter_state, pipeline_stage_key, PipelineMode, PipelineState, primary_stage,
}
use litehive.Domain.Recovery.{Source}
use litehive.Lifecycle.Events.{Event, EventClass}
use litehive.Lifecycle.State.{
  failed_run_key, FailedReason, window_unconsumed_for, TaskState, default_limits, new_state,
}
use litehive.Lifecycle.Stages.{node_type}
use litehive.Lifecycle.Deltas.Tracking.{
  clear_completed_rejection_loop, next_rejection_loop, hook_reject_delta, hook_reject_loop_detected,
}
use litehive.Lifecycle.Deltas.Tracking
use litehive.Lifecycle.Guards
use litehive.Base.Dict.{lookup}
use litehive.Lifecycle.Deltas.Failure.{
  retries, retry_counter_stage, event_failure_shape, stage_retry_exhausted_record, record_at,
}
use litehive.Lifecycle.Deltas.Effects.{inc_stage_retry, fail}
use litehive.Lifecycle.Guards.{
  stage_retries_remaining, stage_retries_exhausted, mode, zero_change_shortcut,
}
use litehive.Lifecycle.Transitions.{
  ok, raise, no_transition, Transition, Rule, evaluate, applies, fire, reject_rule,
  retry_epoch_rules, entry_from_worktree_sync, entry_phase, one, to_stage,
}
use litehive.Lifecycle.Rules.{
  rules, entry_rules, worktree_sync_rules, pre_exec_rules, grooming_rules, implementing_rules,
  testing_rules, accepting_rules, commit_rules, merge_rules, grooming_reject_rules, retry_rules,
  commit_reject_rules, blocked_rules, escalation_rules, recovering_rules, wildcard_rules,
}
use litehive.Lifecycle.Rules.Parts.{
  rule, recovery_rules, terminal_reject_rules, epoch_terminal_reject_rules,
}
use litehive.Lifecycle.Rules.Edge.{Edge}
use litehive.Lifecycle.Rules.Refinement.{evaluate-Edge}
use litehive.Lifecycle.Rules.Gates.{Special, Reaches, evaluate-Reaches}
use litehive.Lifecycle.Rules.Terminal.{evaluate-terminal}
use litehive.Lifecycle.Rules.Emits.{succeeds}
use litehive.Lifecycle.Rules.Cover.{evaluate-time_budget}
use litehive.Lifecycle.Runner.Step.{
  Env, Outcome, apply_transition, settle, reset_hook_reject_tracking_on_progress,
  apply_event_side_effects,
}
use litehive.Lifecycle.Runner.Apply.{apply_delta, clear_hook_reject_tracking}
use litehive.Lifecycle.Runner.Loop.{
  Outside, RunResult, add_elapsed, task_time_budget_event, turn_for, turn, run_task,
}
use litehive.Lifecycle.Runner.Bounds.{WithinRetries, apply_transition-failed_reason}
use litehive.Lifecycle.Runner.Budget.{OneShot}
use litehive.Lifecycle.Runner.Runs.{Ends, run_task-WithinRetries, run_task-OneShot}
use litehive.Lifecycle.Runner.Ranks.{rank, measure, Calm}
use litehive.Lifecycle.Runner.Termination.{Steady}
use litehive.Lifecycle.Runner.History.{new_runs}
use litehive.Lifecycle.Runner.Fuel.{Halts, run_task-Halts}
use litehive.Lifecycle.Nodes.System.{Git, commit_run}
use litehive.Lifecycle.Nodes.Hook.{HookSpec, Failed, hook_reject, hook_identity, same_hook_rejects}
use litehive.Lifecycle.Nodes.Returns.{Returns, returned-evaluate}
use litehive.Lifecycle.Nodes.Streak.{hook_reject-streak}

abbrev task_at : PipelineState → TaskState
task_at stage = new_state (lit "T-1") stage PipelineMode.full none default_limits

abbrev rejection : Event
rejection = Event.reject Source.agent (lit "tests fail") none Fields.end

abbrev env : Env
env = record { now = lit "now"; repr = λ v. [] }

-- What each stage's node returns on the way without trouble.
abbrev happy : PipelineState → Event
happy PipelineState.ready = Event.clean_state
happy PipelineState.worktree_sync = Event.pass Fields.end
happy PipelineState.grooming = Event.pass Fields.end
happy PipelineState.implementing = Event.pass Fields.end
happy PipelineState.testing = Event.pass Fields.end
happy PipelineState.accepting = Event.pass Fields.end
happy PipelineState.commit = Event.pass Fields.end
happy _ = Event.hook_ok []

abbrev outside : Outside
outside n s = record {
  event = happy s.stage;
  started_at = 0;
  ended_at = 7;
  env = env;
  stop_requested = false;
}

happy-Calm : (p : PipelineState) → Calm (happy p)
happy-Calm PipelineState.ready = tt
happy-Calm _ = tt

abbrev retry_rule : Rule
retry_rule =
    reject_rule PipelineState.testing PipelineState.implementing
      (stage_retries_remaining PipelineState.testing)
      (inc_stage_retry PipelineState.testing (some PipelineState.implementing))

abbrev retried : Transition
retried = record {
  next = PipelineState.implementing;
  delta =
      inc_stage_retry PipelineState.testing (some PipelineState.implementing) []
        (task_at PipelineState.testing) rejection;
  rule = retry_rule;
}

retried-taken :
    evaluate rules [] PipelineState.testing rejection (task_at PipelineState.testing) ≡ ok retried
unfolding evaluate applies fire rules entry_rules worktree_sync_rules pre_exec_rules grooming_rules
    implementing_rules testing_rules accepting_rules commit_rules merge_rules grooming_reject_rules
    retry_rules commit_reject_rules blocked_rules escalation_rules recovering_rules wildcard_rules
    recovery_rules terminal_reject_rules epoch_terminal_reject_rules retry_epoch_rules
    stage_retries_exhausted stage_retries_remaining retries lookup Guards.rejection_loop_detected
    Tracking.rejection_loop_detected next_rejection_loop Guards.hook_reject_loop_detected
retried-taken = refl

evaluate-Edge_example :
    Edge []
      (task_at PipelineState.testing)
      rejection
      PipelineState.testing
      PipelineState.implementing
      (inc_stage_retry PipelineState.testing
        (some PipelineState.implementing)
        []
        (task_at PipelineState.testing)
        rejection)
evaluate-Edge_example =
    evaluate-Edge [] PipelineState.testing rejection (task_at PipelineState.testing) retried
      retried-taken

returned-evaluate_example :
    (t : Transition) × (evaluate rules [] PipelineState.commit
        (commit_run (Git.conflicts (lit "a.py" ∷ [])))
        (task_at PipelineState.commit)
      ≡ ok t)
returned-evaluate_example =
    returned-evaluate {P = Text} [] PipelineState.commit (task_at PipelineState.commit) _
      (Returns.commit (Git.conflicts (lit "a.py" ∷ [])))

abbrev start : TaskState
start = task_at PipelineState.ready

start-Steady : Steady start
start-Steady = record { entry = tt; sound = λ h. cc }

start-enough : measure start ≤ 198
unfolding measure rank retries lookup
start-enough = omega arith

run_task-Halts_example : Halts (run_task rules (some 600) outside 0 198 start)
run_task-Halts_example =
    run_task-Halts (some 600) outside 0 198 start (λ k u. happy-Calm u.stage) start-Steady
      start-enough

start-OneShot : OneShot start
unfolding window_unconsumed_for
start-OneShot = record { start = omega arith; once = λ h. tt; fresh = λ h t a. refl }

run_task-OneShot_example : Ends OneShot (run_task rules (some 600) outside 0 198 start)
run_task-OneShot_example = run_task-OneShot (some 600) outside 0 198 start start-OneShot

start-WithinRetries : WithinRetries start
unfolding retries lookup
start-WithinRetries c = omega arith

run_task-WithinRetries_example : Ends WithinRetries (run_task rules (some 600) outside 0 198 start)
run_task-WithinRetries_example =
    run_task-WithinRetries (some 600) outside 0 198 start start-WithinRetries

abbrev ended : Transition
ended = record {
  next = PipelineState.failed;
  delta = fail FailedReason.semantic_reject [] (task_at PipelineState.grooming) rejection;
  rule =
      rule (one PipelineState.grooming) EventClass.reject (to_stage PipelineState.failed) none
        (some (fail FailedReason.semantic_reject));
}

ended-taken :
    (now : Text)
    → evaluate rules now PipelineState.grooming rejection (task_at PipelineState.grooming)
      ≡ ok (record ended {
        delta = fail FailedReason.semantic_reject now (task_at PipelineState.grooming) rejection;
      })
unfolding evaluate applies fire rules entry_rules worktree_sync_rules pre_exec_rules grooming_rules
    implementing_rules testing_rules accepting_rules commit_rules merge_rules grooming_reject_rules
    retry_rules commit_reject_rules blocked_rules escalation_rules recovering_rules wildcard_rules
    recovery_rules terminal_reject_rules epoch_terminal_reject_rules retry_epoch_rules
ended-taken now = refl

not_named : (x : PipelineState) → none ≢ some x
not_named x h = cc

evaluate-Reaches_example :
    Reaches []
      (task_at PipelineState.grooming)
      rejection
      PipelineState.grooming
      ended.delta
      PipelineState.failed
evaluate-Reaches_example =
    evaluate-Reaches [] PipelineState.grooming rejection (task_at PipelineState.grooming) ended
      (ended-taken []) Special.failed (not_named _)

abbrev ended_by_runner : Outcome
ended_by_runner =
    settle env PipelineState.grooming rejection (task_at PipelineState.grooming) (record ended {
      delta = fail FailedReason.semantic_reject env.now (task_at PipelineState.grooming) rejection;
    })

ended_by_runner-taken :
    apply_transition rules env (task_at PipelineState.grooming) rejection ≡ ok ended_by_runner
unfolding apply_transition
ended_by_runner-taken = rw (ended-taken env.now) refl

ended_by_runner-failed : ended_by_runner.state.stage ≡ PipelineState.failed
unfolding settle reset_hook_reject_tracking_on_progress
ended_by_runner-failed = refl

apply_transition-failed_reason_example : is_some ended_by_runner.state.failed_reason ≡ true
apply_transition-failed_reason_example =
    apply_transition-failed_reason env (task_at PipelineState.grooming) rejection ended_by_runner
      ended_by_runner-taken ended_by_runner-failed (not_named PipelineState.failed)

abbrev lint : HookSpec
lint = record {
  command = lit "make lint";
  timeout_seconds = 60;
  description = none;
  instructions_on_failure = none;
}

abbrev lint_failed : Failed
lint_failed = record { returncode = lit "1"; stdout = []; stderr = lit "E501" }

abbrev at_hooks : TaskState
at_hooks = task_at PipelineState.after_implementing

hook_reject-streak_example :
    ((hook_reject_delta at_hooks
        (hook_reject PipelineState.after_implementing lint lint_failed at_hooks)
        none).set_consecutive_same_hook_rejects
      ≡ some (same_hook_rejects at_hooks (hook_identity PipelineState.after_implementing lint)))
    × (hook_reject_loop_detected at_hooks
          (hook_reject PipelineState.after_implementing lint lint_failed at_hooks)
        ≡ leb 3 (same_hook_rejects at_hooks (hook_identity PipelineState.after_implementing lint)))
unfolding lit
hook_reject-streak_example =
    hook_reject-streak PipelineState.after_implementing lint lint_failed at_hooks none refl

evaluate-time_budget_example :
    succeeds (evaluate rules [] PipelineState.ready (Event.task_time_budget_exceeded 900 600) start)
    ≡ false
evaluate-time_budget_example = evaluate-time_budget [] PipelineState.ready 900 600 start refl refl

evaluate-terminal_example :
    evaluate rules [] PipelineState.done rejection (task_at PipelineState.done)
    ≡ raise (no_transition PipelineState.done rejection)
evaluate-terminal_example =
    evaluate-terminal [] PipelineState.done rejection (task_at PipelineState.done) refl

-- A task whose implementing has no retry left.
abbrev spent : TaskState
spent = record (task_at PipelineState.implementing) {
  stage_retry = (PipelineState.implementing, 3) ∷ [];
}

-- The key of the failure.
abbrev spent_key : Text
spent_key = failed_run_key PipelineState.implementing (event_failure_shape rejection)

spent-new_runs : new_runs spent rejection FailedReason.semantic_reject spent_key ≡ 1
unfolding retry_counter_stage pipeline_stage_key retry_counter_state retries lookup failed_run_key
    event_failure_shape text_beq lit litehive.Domain.Common.value
    litehive.Lifecycle.Deltas.Tracking.hook_fingerprint_from_event
    litehive.Domain.Recovery.source_value litehive.Lifecycle.Deltas.Failure.normalized_failure_text
    litehive.Base.Text.split_join litehive.Base.Text.lower litehive.Base.Json.get
spent-new_runs = refl

-- The stage that a run ends at.
abbrev final_stage : RunResult → Option PipelineState
final_stage (RunResult.finished s) = some s.stage
final_stage _ = none

-- A task that meets no trouble goes through all stages to `done`.
happy_path : final_stage (run_task rules (some 600) outside 0 20 start) ≡ some PipelineState.done
unfolding run_task turn turn_for task_time_budget_event apply_transition settle
    reset_hook_reject_tracking_on_progress apply_event_side_effects add_elapsed apply_delta evaluate
    applies fire rules entry_rules worktree_sync_rules pre_exec_rules grooming_rules
    implementing_rules testing_rules accepting_rules commit_rules merge_rules grooming_reject_rules
    retry_rules commit_reject_rules blocked_rules escalation_rules recovering_rules wildcard_rules
    recovery_rules terminal_reject_rules epoch_terminal_reject_rules retry_epoch_rules
    entry_from_worktree_sync entry_phase mode zero_change_shortcut clear_completed_rejection_loop
    node_type primary_stage clear_hook_reject_tracking
happy_path = refl
