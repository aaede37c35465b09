-- ===== src/Tasks/Selection/Resolve.antt =====
-- litehive/tasks/queue_selection.py: the next task from a snapshot of the workspace
-- (`_resolve_next_task_from_snapshot`).
use litehive.Base.{
  ℕ, suc, Bool, true, Option, none, some, List, [], ◌∷◌, ◌++◌, elem, ◌==◌, if◌then◌else◌,
}
use litehive.Base.Text.{Text, text_eq}
use litehive.Base.Dict.{Dict, lookup}
use litehive.Domain.Task.{TaskRecord, WorkspaceState}
use litehive.Tasks.FailedRuns.{nonempty}
use litehive.Tasks.Eligibility.{is_task_eligible_for_execution, active_task}
use litehive.Tasks.Dependencies.{task_blockers}
use litehive.Tasks.Selection.Normalize.{restore_missing_queued_tasks}
use litehive.Tasks.Selection.Ranking.{Candidate, task_selection_key, sort_by_key}

pub record BlockedTask : Type 0 where
  pub task_id : Text
  pub title : Text
  pub queue_position : ℕ
  pub blocked_by : List Text

-- The variables of the loop over the queue.
pub record Scan : Type 0 where
  pub queue : List Text
  pub blocked : List BlockedTask
  pub blocked_task_ids : List Text
  pub ready_candidates : List Candidate
  pub mutated : Bool

-- `queue.remove(id)`: the first occurrence.
unfoldable pub remove_first : Text → List Text → List Text
remove_first id [] = []
remove_first id (x ∷ xs) = if x == id then xs else x ∷ remove_first id xs

abbrev pub removed : Text → Scan → Scan
removed id s = record s { queue = remove_first id s.queue; mutated = true }

abbrev pub with_blocked : TaskRecord → ℕ → List Text → Scan → Scan
with_blocked t position blockers s = record s {
  blocked =
      s.blocked
      ++ record {
        task_id = t.id;
        title = t.title;
        queue_position = position;
        blocked_by = blockers;
      }
        ∷ [];
  blocked_task_ids = t.id ∷ s.blocked_task_ids;
}

pub record Resolved : Type 0 where
  pub chosen : Option TaskRecord
  pub blocked : List BlockedTask
  pub mutated : Bool
  pub state : WorkspaceState

abbrev pub first_candidate : List Candidate → Option TaskRecord
first_candidate [] = none
first_candidate (c ∷ cs) = some c.1

abbrev pub scanned : WorkspaceState → Scan → Resolved
scanned state s = record {
  chosen = first_candidate (sort_by_key s.ready_candidates);
  blocked = s.blocked;
  mutated = s.mutated;
  state = record state { active_task_id = none; queue = s.queue };
}

abbrev pub start : List Text → Bool → Scan
start queue mutated = record {
  queue = queue;
  blocked = [];
  blocked_task_ids = [];
  ready_candidates = [];
  mutated = mutated;
}

module _ (tasks : Dict Text TaskRecord) where
  unfoldable pub consider : ℕ → TaskRecord → List Text → Scan → Scan
  unfolding task_selection_key
  consider index t [] s = record s {
    ready_candidates = s.ready_candidates ++ (task_selection_key t index s.queue tasks, t) ∷ [];
  }
  consider index t (b ∷ bs) s =
      if elem t.id s.blocked_task_ids then s else with_blocked t index (b ∷ bs) s

  unfoldable pub visit : ℕ → Text → Option TaskRecord → Scan → Scan
  unfolding remove_first is_task_eligible_for_execution task_blockers consider
  visit index id none s = removed id s
  visit index id (some t) s =
      if is_task_eligible_for_execution t
      then consider index t (task_blockers t tasks) s
      else removed id s

  unfoldable pub scan : ℕ → List Text → Scan → Scan
  unfolding visit
  scan index [] s = s
  scan index (id ∷ ids) s = scan (suc index) ids (visit index id (lookup id tasks) s)

  -- The loop over the queue as it stands when the loop begins.
  unfoldable pub from_queue : WorkspaceState → Scan → Resolved
  unfolding scan sort_by_key
  from_queue state s = scanned state (scan 1 s.queue s)

  -- What the active task's blockers decide.
  unfoldable pub active_first : TaskRecord → List Text → WorkspaceState → Bool → Resolved
  unfolding from_queue
  active_first t [] state mutated = record {
    chosen = some t;
    blocked = [];
    mutated = mutated;
    state = state;
  }
  active_first t (b ∷ bs) state mutated =
      let queue = if elem t.id state.queue then state.queue else t.id ∷ state.queue in
      from_queue state (with_blocked t 1 (b ∷ bs) (start queue true))

  unfoldable pub from_active : Option Text → Option TaskRecord → WorkspaceState → Bool → Resolved
  unfolding active_first from_queue is_task_eligible_for_execution task_blockers
  from_active none t state mutated = from_queue state (start state.queue mutated)
  from_active (some id) none state mutated = from_queue state (start state.queue true)
  from_active (some id) (some t) state mutated =
      if is_task_eligible_for_execution t
      then active_first t (task_blockers t tasks) state mutated
      else from_queue state (start state.queue true)

  unfoldable pub resolve_next_task_from_snapshot : WorkspaceState → Resolved
  unfolding restore_missing_queued_tasks from_active
  resolve_next_task_from_snapshot state =
      let (restored, front) = restore_missing_queued_tasks state tasks in
      from_active restored.active_task_id (active_task restored.active_task_id tasks) restored
        (nonempty front)
