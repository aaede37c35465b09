-- ===== src/Domain/Storage.antt =====
-- litehive/domain/task.py: a task split into the rows it is stored in, and read back.
use litehive.Base.{Option, none, some, []}
use litehive.Base.Text.{Text}
use litehive.Domain.Common.{PipelineStatus}
use litehive.Domain.Status.{TaskStatus}
use litehive.Domain.Runtime.{new_runtime, for_storage}
use litehive.Domain.Task.{
  TaskIntentRecord, TaskStateRecord, TaskRecord, to_intent_git_settings, to_state_git_settings,
  with_git_updates,
}

unfoldable pub to_intent_record : TaskRecord → TaskIntentRecord
unfolding to_intent_git_settings
to_intent_record t = record {
  id = t.id;
  slug = t.slug;
  title = t.title;
  created_at = t.created_at;
  pipeline_mode = t.pipeline_mode;
  priority = t.priority;
  depends_on = t.depends_on;
  goal = t.goal;
  acceptance_criteria = t.acceptance_criteria;
  constraints = t.constraints;
  plan = t.plan;
  git = to_intent_git_settings t.git;
  created_from = t.created_from;
}

unfoldable pub to_state_record : TaskRecord → TaskStateRecord
unfolding to_state_git_settings
to_state_record t = record {
  model = t.model;
  status = t.status;
  close_reason = t.close_reason;
  flag_reason = t.flag_reason;
  flag_count = t.flag_count;
  pipeline_status = t.pipeline_status;
  updated_at = t.updated_at;
  subagents = t.subagents;
  git = to_state_git_settings t.git;
  retry_policy = t.retry_policy;
  runtime = t.runtime;
}

unfoldable pub to_storage_state_record : TaskRecord → TaskStateRecord
unfolding to_state_record for_storage
to_storage_state_record t =
    let worktree = t.runtime.pipeline.git.worktree_path in
    let state = to_state_record t in
    record state {
      runtime = for_storage t.runtime t.git.commit_sha worktree;
      git = record state.git { worktree_path = worktree };
    }

-- `TaskRecord(**intent.model_dump())`: the fields that the intent row has not take their defaults,
-- of which `now` is the time of the call.
unfoldable pub from_intent : Text → TaskIntentRecord → TaskRecord
unfolding new_runtime
from_intent now i = record {
  id = i.id;
  slug = i.slug;
  title = i.title;
  depends_on = i.depends_on;
  model = none;
  pipeline_mode = i.pipeline_mode;
  status = TaskStatus.queued;
  close_reason = none;
  flag_reason = none;
  flag_count = 0;
  pipeline_status = PipelineStatus.backlog;
  priority = i.priority;
  created_at = i.created_at;
  updated_at = now;
  goal = i.goal;
  acceptance_criteria = i.acceptance_criteria;
  constraints = i.constraints;
  plan = i.plan;
  subagents = [];
  git = record {
    auto_commit = i.git.auto_commit;
    commit_message = i.git.commit_message;
    commit_sha = none;
    checkpoint_attempts = 0;
    worktree_path = none;
  };
  retry_policy = record {
    max_retries = none;
    stage_retry_limit = none;
    rejection_loop_limit = none;
  };
  created_from = i.created_from;
  runtime = new_runtime;
}

unfoldable pub apply_to_task : TaskStateRecord → TaskRecord → TaskRecord
unfolding with_git_updates
apply_to_task s t = record t {
  model = s.model;
  status = s.status;
  close_reason = s.close_reason;
  flag_reason = s.flag_reason;
  flag_count = s.flag_count;
  pipeline_status = s.pipeline_status;
  updated_at = s.updated_at;
  subagents = s.subagents;
  git = with_git_updates t.git s.git;
  retry_policy = s.retry_policy;
  runtime = s.runtime;
}

unfoldable pub from_intent_and_state : Text → TaskIntentRecord → Option TaskStateRecord → TaskRecord
unfolding from_intent apply_to_task
from_intent_and_state now intent none = from_intent now intent
from_intent_and_state now intent (some state) = apply_to_task state (from_intent now intent)
