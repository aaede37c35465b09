-- ===== src/Tasks/Mutations.antt =====
-- litehive/tasks/queue_mutations.py, runtime.py (`idle_stage_state`, `clear_task_run_activity`),
-- state/records.py (`set_task_commit_sha`): a task put back where it can run. `now` is the time of
-- the call.
use litehive.Base.{
  ℕ, Bool, true, false, not, ◌||◌, Option, none, some, is_some, List, [], ◌∷◌, ◌++◌, elem, ◌==◌,
  length, nat_beq, filter, if◌then◌else◌,
}
use litehive.Base.Text.{Text, text_eq}
use litehive.Domain.Common.{TaskStage, PipelineStatus}
use litehive.Domain.Status.{
  TaskStatus, TaskExecutionStatus, execution_value, RuntimeStageStatus, marker_value,
  TaskOutcomeKind, pipeline_value, stage_value,
}
use litehive.Domain.Runtime.{
  RuntimeStageState, RuntimeInterruptionState, TaskOutcomeState, new_outcome, new_stage_state,
}
use litehive.Domain.Task.{TaskRecord, WorkspaceState, UnmergedWorktree}
use litehive.Tasks.Eligibility.{normalize_resumable_stage_name, resumable_queue_stage}
pub mod Slots
pub mod Rewind

unfoldable pub idle_stage_state : Text → Option Text → RuntimeStageState
unfolding marker_value
idle_stage_state now stage =
    new_stage_state stage (marker_value RuntimeStageStatus.idle) none (some now)

unfoldable pub clear_task_run_activity : TaskRecord → TaskExecutionStatus → Text → Bool → TaskRecord
unfolding execution_value
clear_task_run_activity t status now clear_interruption = record t {
  runtime = record {
    pipeline = record t.runtime.pipeline {
      execution_status = execution_value status;
      run_started_at = none;
      updated_at = some now;
    };
    execution = record t.runtime.execution {
      active_subagent = none;
      interruption = if clear_interruption then none else t.runtime.execution.interruption;
    };
  };
}

-- `last_outcome.model_copy(update={"stage": stage})` if the outcome is an interruption.
abbrev pub repointed_for : Option TaskOutcomeKind → TaskOutcomeState → Text → TaskOutcomeState
repointed_for (some TaskOutcomeKind.interrupted) outcome stage = record outcome {
  stage = some stage;
}
repointed_for _ outcome stage = outcome

abbrev pub repointed : TaskOutcomeState → Text → TaskOutcomeState
repointed outcome stage = repointed_for outcome.kind outcome stage

unfoldable pub reset_task_for_recovery :
    TaskRecord → TaskStatus → PipelineStatus → Bool → Text → TaskRecord
unfolding clear_task_run_activity idle_stage_state pipeline_value
reset_task_for_recovery t status stage clear_last_outcome now =
    let idle = clear_task_run_activity t TaskExecutionStatus.idle now true in
    record idle {
      status = status;
      close_reason = none;
      flag_reason = none;
      pipeline_status = stage;
      runtime = record idle.runtime {
        pipeline = record idle.runtime.pipeline {
          retry_count = 0;
          retry_limit = 0;
          current_stage = idle_stage_state now (some (pipeline_value stage));
          last_outcome =
              if clear_last_outcome
              then new_outcome
              else repointed idle.runtime.pipeline.last_outcome (pipeline_value stage);
        };
      };
    }

unfoldable pub enqueue_recovered_task : WorkspaceState → Text → WorkspaceState
enqueue_recovered_task state task_id = record state {
  queue = filter (λ id. not (id == task_id)) state.queue ++ task_id ∷ [];
}

abbrev pub is_active : Option Text → Text → Bool
is_active none task_id = false
is_active (some id) task_id = id == task_id

-- The state without the task, and whether any slot referred to it.
unfoldable pub drop_task_from_workspace_state : WorkspaceState → Text → WorkspaceState × Bool
drop_task_from_workspace_state state task_id =
    let unmerged = filter (λ w. not (w.task_id == task_id)) state.unmerged_worktrees in
    (
      record state {
        active_task_id =
            if is_active state.active_task_id task_id then none else state.active_task_id;
        queue =
            if elem task_id state.queue
            then filter (λ id. not (id == task_id)) state.queue
            else state.queue;
        unmerged_worktrees = unmerged;
      },
      is_active state.active_task_id task_id
          || elem task_id state.queue
          || not (nat_beq (length unmerged) (length state.unmerged_worktrees)),
    )

unfoldable pub set_task_commit_sha : TaskRecord → Option Text → TaskRecord
set_task_commit_sha t commit_sha = record t {
  git = record t.git { commit_sha = commit_sha };
  runtime = record t.runtime {
    pipeline = record t.runtime.pipeline {
      git = record t.runtime.pipeline.git { commit_sha = commit_sha };
    };
  };
}

unfoldable pub prepare_completed_task_for_recovery : TaskRecord → PipelineStatus → Text → TaskRecord
unfolding reset_task_for_recovery set_task_commit_sha
prepare_completed_task_for_recovery t stage now =
    set_task_commit_sha (reset_task_for_recovery t TaskStatus.queued stage true now) none

-- `PipelineStatus(stage)`.
abbrev pub stage_status : TaskStage → PipelineStatus
stage_status TaskStage.grooming = PipelineStatus.grooming
stage_status TaskStage.implementing = PipelineStatus.implementing
stage_status TaskStage.testing = PipelineStatus.testing
stage_status TaskStage.accepting = PipelineStatus.accepting
stage_status TaskStage.commit_to_git = PipelineStatus.commit_to_git

unfoldable pub queued_at : TaskRecord → TaskStage → Text → TaskRecord
unfolding clear_task_run_activity idle_stage_state stage_value
queued_at t stage now =
    let idle = clear_task_run_activity t TaskExecutionStatus.idle now false in
    record idle {
      status = TaskStatus.queued;
      close_reason = none;
      flag_reason = none;
      pipeline_status = stage_status stage;
      runtime = record idle.runtime {
        pipeline = record idle.runtime.pipeline {
          current_stage = idle_stage_state now (some (stage_value stage));
          last_outcome = repointed idle.runtime.pipeline.last_outcome (stage_value stage);
        };
      };
    }

abbrev pub target_stage : TaskRecord → Option Text → Option TaskStage
target_stage t none = resumable_queue_stage t
target_stage t (some stage) = normalize_resumable_stage_name (some stage)

abbrev pub queued_if : TaskRecord → Option TaskStage → Text → TaskRecord
queued_if t none now = t
queued_if t (some stage) now = queued_at t stage now

-- The task, and the stage it was put at.
unfoldable pub canonicalize_resumable_queue_task :
    TaskRecord → Option Text → Text → TaskRecord × Option TaskStage
unfolding queued_at normalize_resumable_stage_name resumable_queue_stage
canonicalize_resumable_queue_task t stage now =
    (queued_if t (target_stage t stage) now, target_stage t stage)
