-- ===== src/Tasks/Samples.antt =====
-- Tasks and states of a workspace, on which the code of the queue is run.
use litehive.Base.{Bool, true, false, none, some, List, [], ◌∷◌}
use litehive.Base.Text.{Text, lit, text_eq}
use litehive.Domain.Common.{PipelineMode, PipelineStatus}
use litehive.Domain.Status.{TaskStatus}
use litehive.Domain.Task.{TaskRecord, WorkspaceState}
use litehive.Domain.Storage.{from_intent}

abbrev pub now : Text
now = lit "2026-01-01T00:00:00+00:00"

abbrev pub t1 : Text
t1 = lit "T-1"

abbrev pub t2 : Text
t2 = lit "T-2"

abbrev pub t3 : Text
t3 = lit "T-3"

-- A task with an id and dependencies, and nothing else.
abbrev pub plain : Text → List Text → TaskRecord
plain id depends_on = from_intent now (record {
  id = id;
  slug = lit "slug";
  title = lit "title";
  created_at = now;
  pipeline_mode = PipelineMode.full;
  priority = lit "medium";
  depends_on = depends_on;
  goal = [];
  acceptance_criteria = [];
  constraints = [];
  plan = [];
  git = record { auto_commit = true; commit_message = none };
  created_from = none;
})

-- A task in progress, at the stage of implementation.
abbrev pub working : Text → TaskRecord
working id = record (plain id []) {
  status = TaskStatus.in_progress;
  pipeline_status = PipelineStatus.implementing;
}

-- A task flagged for a reason that does not need an operator.
abbrev pub flagged : Text → TaskRecord
flagged id = record (plain id []) {
  status = TaskStatus.flagged;
  flag_reason = some (lit "stage_retry_limit");
  flag_count = 1;
  pipeline_status = PipelineStatus.testing;
}

abbrev pub closed : Text → TaskRecord
closed id = record (plain id []) {
  status = TaskStatus.closed;
  flag_reason = some (lit "merge_failed");
  close_reason = some [];
}

abbrev pub idle_state : List Text → WorkspaceState
idle_state queue = record {
  active_task_id = none;
  queue = queue;
  pool_stop_reason = none;
  consecutive_task_failures = 0;
  next_task_number = 4;
  unmerged_worktrees = record { task_id = t2; worktree_path = lit "/w/T-2" } ∷ [];
}

abbrev pub no_intent : Text → Bool
no_intent id = false
