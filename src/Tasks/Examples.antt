-- ===== src/Tasks/Examples.antt =====
-- The theorems on tasks and their queue, at concrete tasks; and runs of the code.
use litehive.Base.{
  ◌≡◌, refl, inl, inr, Bool-cases, Bool, true, false, Option, none, some, List, [], ◌∷◌, ◌++◌, ◌↔◌,
  ◌⊎◌, elem, or_else, count, ◌≤◌, length, ◌||◌, ◌==◌,
}
use litehive.Base.Text.{Text, lit, text_eq, text_beq}
use litehive.Base.Dict.{Dict, lookup, insert}
use litehive.Domain.Common.{PipelineStatus}
use litehive.Domain.Status.{TaskStatus}
use litehive.Domain.Task.{TaskRecord, WorkspaceState, canonicalize_task_terminal_state}
use litehive.Domain.Storage.{
  from_intent, to_intent_record, to_storage_state_record, from_intent_and_state,
}
use litehive.Domain.Consistency.{
  GitAgrees, TerminalConsistent, canonicalize_task_terminal_state-TerminalConsistent,
  from_intent_and_state-to_storage_state_record,
}
use litehive.Tasks.Samples.{now, t1, t2, t3, plain, working, flagged, closed, idle_state, no_intent}
use litehive.Tasks.Dequeue.{tasks_by_id, Dequeue, dequeue_next_task_selection}
use litehive.Tasks.Dequeue.Keys.{tasks_by_id-Keyed}
use litehive.Tasks.Dequeue.Taking.{DequeueSays, dequeue_next_task-DequeueSays}
use litehive.Tasks.Selection.Resolve.{resolve_next_task_from_snapshot}
use litehive.Tasks.Selection.Scanning.{ready, first_ready}
use litehive.Tasks.Selection.Order.{
  Keyed, After, active_of, restored, resolve_next_task-first_ready,
}
use litehive.Tasks.Selection.Ready.{CanRun, resolve_next_task-CanRun}
use litehive.Tasks.Selection.Normalize.{restore_missing_queued_tasks}
use litehive.Tasks.Selection.Restoring.{restore_missing_queued_tasks-unfinished}
use litehive.Tasks.Graph.Paths.{Reaches, Acyclic}
use litehive.Tasks.Dependencies.{dependencies_of, dependency_reaches_task, validate, task_blockers}
use litehive.Tasks.Dependencies.Validation.{
  Allowed, dependency_reaches_task-Reaches, validate-Allowed, validate-Acyclic,
}
use litehive.Tasks.Dependencies.Blockers.{Met, task_blockers-Met}
use litehive.Tasks.Eligibility.{is_task_eligible_for_execution}
use litehive.Tasks.FailedRuns.{has_blocking_failed_run_history}
use litehive.Tasks.Runnable.{Runnable, is_task_eligible_for_execution-Runnable}
use litehive.Tasks.Queue.{prioritize}
use litehive.Tasks.Queue.Orders.{PrioritizeSays, prioritize-PrioritizeSays}
use litehive.Tasks.Mutations.{
  enqueue_recovered_task, drop_task_from_workspace_state, canonicalize_resumable_queue_task,
  reset_task_for_recovery,
}
use litehive.Tasks.Mutations.Slots.{refers, Dropped, drop_task-Dropped, enqueue_recovered_task-once}
use litehive.Tasks.Mutations.Rewind.{
  Meant, PutAt, ResetAt, canonicalize_resumable_queue_task-PutAt, reset_task_for_recovery-ResetAt,
}
use litehive.Tasks.Normalization.{
  single_mode, past_grooming, reroute_stage_for_acceptance_criteria, implementation_entry_stage,
}
use litehive.Tasks.Queue.{without}
use litehive.Tasks.Queue.Lists.{KeepsOthers, position_of}
use litehive.Tasks.Mutations.{is_active}
use litehive.Tasks.Selection.Restoring.{unfinished}
use litehive.Tasks.Graph.Walks.{reaches_walk, pushed, marked, work}
use litehive.Tasks.Gate.{Groomed, reroute_stage-Groomed}

-- The first waits for the second, the second runs, and the third was flagged.
abbrev three : List TaskRecord
three = plain t1 (t2 ∷ []) ∷ plain t2 [] ∷ flagged t3 ∷ []

abbrev by_id : Dict Text TaskRecord
by_id = tasks_by_id three []

by_id-Keyed : Keyed by_id
unfolding lookup
by_id-Keyed = tasks_by_id-Keyed three [] (λ id t h. cc)

abbrev queued : WorkspaceState
queued = idle_state (t1 ∷ t2 ∷ t3 ∷ [])

dequeue_next_task-DequeueSays_example :
    DequeueSays no_intent queued three now (dequeue_next_task_selection no_intent queued three now)
dequeue_next_task-DequeueSays_example = dequeue_next_task-DequeueSays no_intent queued three now

resolve_next_task-first_ready_example :
    ((resolve_next_task_from_snapshot by_id queued).chosen
      ≡ or_else
          (ready by_id (active_of by_id queued))
          (first_ready by_id (restored by_id queued).queue))
    × After by_id
        (restored by_id queued)
        (active_of by_id queued)
        (ready by_id (active_of by_id queued))
        (resolve_next_task_from_snapshot by_id queued).state
resolve_next_task-first_ready_example = resolve_next_task-first_ready by_id by_id-Keyed queued

resolve_next_task-CanRun_example :
    let chosen = (resolve_next_task_from_snapshot by_id queued).chosen in
    ((u : TaskRecord) → chosen ≡ some u → (id : Text) × CanRun by_id id u)
    × (chosen ≡ none
        → (id : Text) (t : TaskRecord)
        → is_active queued.active_task_id id || elem id queued.queue ≡ true ⊎ (unfinished t ≡ true)
        → CanRun by_id id t
        → ⊥)
resolve_next_task-CanRun_example = resolve_next_task-CanRun by_id by_id-Keyed queued

-- A task in progress that is in no queue.
abbrev lost : Dict Text TaskRecord
lost = tasks_by_id (working t1 ∷ plain t2 [] ∷ []) []

restore_missing_queued_tasks-unfinished_example :
    let front = (restore_missing_queued_tasks (idle_state (t2 ∷ [])) lost).1 in
    ((restore_missing_queued_tasks (idle_state (t2 ∷ [])) lost).0
      ≡ record (idle_state (t2 ∷ [])) { queue = front ++ t2 ∷ [] })
    × ((id : Text) → count id front ≤ 1)
    × ((id : Text) → is_active none id || elem id (t2 ∷ []) ≡ true → count id front ≡ 0)
    × ((id : Text) (t : TaskRecord)
        → lookup id lost ≡ some t
        → unfinished t ≡ true
        → is_active none id || elem id (front ++ t2 ∷ []) ≡ true)
restore_missing_queued_tasks-unfinished_example =
    restore_missing_queued_tasks-unfinished (idle_state (t2 ∷ [])) lost

dependency_reaches_task-Reaches_example :
    (dependency_reaches_task t2 t1 by_id ≡ true) ↔ Reaches (dependencies_of by_id) t1 t2
dependency_reaches_task-Reaches_example = dependency_reaches_task-Reaches t2 t1 by_id

validate-Allowed_example :
    (validate t2 (t1 ∷ []) by_id ≡ none)
    ↔ ((d : Text) → elem d (t1 ∷ []) ≡ true → Allowed t2 by_id d)
validate-Allowed_example = validate-Allowed t2 by_id (t1 ∷ [])

-- Two tasks without dependencies, of which the second is given one.
abbrev two : Dict Text TaskRecord
two = tasks_by_id (plain t1 [] ∷ plain t2 [] ∷ []) []

two-none : (a b : Text) → elem b (dependencies_of two a) ≡ false
unfolding dependencies_of lookup tasks_by_id insert lit text_beq from_intent
two-none a b = elim (Bool-cases (t1 == a)) [
  | inl same ↦ rw same refl
  | inr other ↦
      rw other (elim (Bool-cases (t2 == a)) [ inl same ↦ rw same refl | inr new ↦ rw new refl ])
]

apart : {P : Type 0} {b : Bool} → b ≡ true → b ≡ false → P
apart h k = cc

two-Acyclic : Acyclic (dependencies_of two)
two-Acyclic a b edge path = apart edge (two-none a b)

two-accepts : validate t2 (t1 ∷ []) two ≡ none
unfolding validate lookup tasks_by_id insert lit text_beq from_intent reaches_walk dependencies_of
    work pushed marked
two-accepts = refl

validate-Acyclic_example : Acyclic (dependencies_of (insert t2 (plain t2 (t1 ∷ [])) two))
unfolding from_intent
validate-Acyclic_example = validate-Acyclic two (plain t2 (t1 ∷ [])) t2 two-Acyclic two-accepts

task_blockers-Met_example :
    (task_blockers (plain t1 (t2 ∷ [])) by_id ≡ [])
    ↔ ((d : Text) → elem d (t2 ∷ []) ≡ true → Met by_id d)
unfolding from_intent text_beq
task_blockers-Met_example = task_blockers-Met (plain t1 (t2 ∷ [])) by_id

is_task_eligible_for_execution-Runnable_example :
    (is_task_eligible_for_execution (flagged t3) ≡ true) ↔ Runnable (flagged t3)
is_task_eligible_for_execution-Runnable_example =
    is_task_eligible_for_execution-Runnable (flagged t3)

abbrev line : WorkspaceState
line = record queued { queue = t1 ∷ t2 ∷ t3 ∷ [] }

abbrev plain_tasks : List TaskRecord
plain_tasks = plain t1 [] ∷ plain t2 [] ∷ plain t3 [] ∷ []

prioritize-PrioritizeSays_example :
    PrioritizeSays (t3 ∷ t1 ∷ []) line plain_tasks (prioritize (t3 ∷ t1 ∷ []) line plain_tasks)
prioritize-PrioritizeSays_example = prioritize-PrioritizeSays (t3 ∷ t1 ∷ []) line plain_tasks

enqueue_recovered_task-once_example :
    let after = enqueue_recovered_task queued t1 in
    (count t1 after.queue ≡ 1)
    × KeepsOthers (t1 ∷ []) queued.queue after.queue
    × (position_of t1 after.queue ≡ length (without t1 queued.queue))
    × (record after { queue = queued.queue } ≡ queued)
enqueue_recovered_task-once_example = enqueue_recovered_task-once queued t1

drop_task-Dropped_example :
    Dropped t2 queued (drop_task_from_workspace_state queued t2).0
    × ((drop_task_from_workspace_state queued t2).1 ≡ refers queued t2)
drop_task-Dropped_example = drop_task-Dropped queued t2

canonicalize_resumable_queue_task-PutAt_example :
    (let answer = canonicalize_resumable_queue_task (working t1) (some (lit "testing")) now in
      Meant (working t1) (some (lit "testing")) answer.1 × PutAt (working t1) answer.1 answer.0)
canonicalize_resumable_queue_task-PutAt_example =
    canonicalize_resumable_queue_task-PutAt (working t1) (some (lit "testing")) now

reset_task_for_recovery-ResetAt_example :
    ResetAt PipelineStatus.testing
      (reset_task_for_recovery (flagged t3) TaskStatus.queued PipelineStatus.testing true now)
reset_task_for_recovery-ResetAt_example =
    reset_task_for_recovery-ResetAt (flagged t3) TaskStatus.queued PipelineStatus.testing true now

reroute_stage-Groomed_example :
    let t = working t1 in
    let stage = reroute_stage_for_acceptance_criteria t in
    (single_mode t.pipeline_mode ≡ false → past_grooming stage ≡ true → Groomed t)
    × (Groomed t → stage ≡ t.pipeline_status)
    × ((stage ≡ t.pipeline_status) ⊎ (stage ≡ PipelineStatus.grooming))
    × (reroute_stage_for_acceptance_criteria (record t { pipeline_status = stage }) ≡ stage)
    × (implementation_entry_stage t
        ≡ reroute_stage_for_acceptance_criteria
            (record t { pipeline_status = PipelineStatus.implementing }))
reroute_stage-Groomed_example = reroute_stage-Groomed (working t1)

canonicalize_task_terminal_state-TerminalConsistent_example :
    TerminalConsistent (canonicalize_task_terminal_state (closed t1))
    × ((canonicalize_task_terminal_state (closed t1) ≡ closed t1) ↔ TerminalConsistent (closed t1))
canonicalize_task_terminal_state-TerminalConsistent_example =
    canonicalize_task_terminal_state-TerminalConsistent (closed t1)

from_intent_and_state-to_storage_state_record_example :
    let t = working t1 in
    let back = from_intent_and_state now (to_intent_record t) (some (to_storage_state_record t)) in
    GitAgrees back
    × (back.git.commit_sha ≡ t.git.commit_sha)
    × (back.git.worktree_path ≡ t.runtime.pipeline.git.worktree_path)
    × (record back { git = t.git; runtime = t.runtime } ≡ t)
    × (GitAgrees t → back ≡ t)
from_intent_and_state-to_storage_state_record_example =
    from_intent_and_state-to_storage_state_record now (working t1)

-- The first of the queue waits for the second, which is taken.
abbrev task_of : Dequeue → Option TaskRecord
task_of (Dequeue.dequeued d) = d.task
task_of _ = none

abbrev id_of : Option TaskRecord → Option Text
id_of none = none
id_of (some t) = some t.id

dequeue_run : id_of (task_of (dequeue_next_task_selection no_intent queued three now)) ≡ some t2
unfolding dequeue_next_task_selection lookup insert from_intent lit text_beq
    has_blocking_failed_run_history
dequeue_run = refl
