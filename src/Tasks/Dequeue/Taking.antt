-- ===== src/Tasks/Dequeue/Taking.antt =====
-- litehive/tasks/queue_selection.py (`_dequeue_next_task_selection`): what the runner gets.
use litehive.Base.{
  ◌≤◌, ◌≡◌, refl, sym, ◌∙◌, subst, inl, inr, Bool-cases, Bool, true, false, not, ◌||◌, Option, none,
  some, is_some, List, [], ◌∷◌, elem, length, leb, leb→le, if◌then◌else◌, arith,
}
use mathlib.Core.Option.{some-injective}
use litehive.Base.Text.{Text, text_eq, text_beq_iff}
use litehive.Base.Dict.{Dict, lookup}
use litehive.Domain.Task.{TaskRecord, WorkspaceState}
use litehive.Tasks.FailedRuns.{nonempty}
use litehive.Tasks.Eligibility.{live_active_pipeline_stage}
use litehive.Tasks.Selection.Normalize.{is_stale, normalize_stale_pipeline_statuses}
use litehive.Tasks.Selection.Resolve.{Resolved, resolve_next_task_from_snapshot}
use litehive.Tasks.Selection.Order.{Keyed}
use litehive.Tasks.Selection.Ready.{CanRun, resolve_next_task-CanRun}
use litehive.Tasks.Dequeue.{
  tasks_by_id, active_task_markers, single_active, missing_intent, Dequeue, dequeue_chosen,
  launched, dequeue_next_task_selection,
}
use litehive.Tasks.Dequeue.Keys.{tasks_by_id-Keyed, normalize_all-Keyed}
use litehive.Tasks.Dequeue.Got.{Got, dequeue_chosen-Got}

none_left : (o : Option TaskRecord) (b : Bool) → is_some o || b ≡ false → o ≡ none
none_left none b h = refl
none_left (some t) b h = cc

right_left : (a b : Bool) → a || b ≡ false → b ≡ false
right_left a b h = ground arith

missing_intent-cases :
    (has_intent : Text → Bool) (tasks : Dict Text TaskRecord) (ids : List Text) (id : Text)
    → missing_intent has_intent tasks ids ≡ some id
    → (elem id ids ≡ true) × (lookup id tasks ≡ none) × (has_intent id ≡ false)
unfolding missing_intent
missing_intent-cases has_intent tasks [] id h = cc
missing_intent-cases has_intent tasks (x ∷ xs) id h =
    elim (Bool-cases (is_some (lookup x tasks) || has_intent x)) [
      | inl known ↦
          let later = missing_intent-cases has_intent tasks xs id (sym (rw known refl) ∙ h) in
          (ground (arith, later.0), later.1, later.2)
      | inr absent ↦
          let e : x ≡ id = some-injective x id (sym (rw absent refl) ∙ h) in
          subst (λ y. (elem y (x ∷ xs) ≡ true) × (lookup y tasks ≡ none) × (has_intent y ≡ false)) e
            (
              ground (arith, text_beq_iff x x),
              none_left (lookup x tasks) (has_intent x) absent,
              right_left (is_some (lookup x tasks)) (has_intent x) absent,
            )
    ]

module _ (has_intent : Text → Bool) (state : WorkspaceState) (tasks : List TaskRecord)
    (now : Text) where
  abbrev pub known : Dict Text TaskRecord
  known = tasks_by_id tasks []

  -- The tasks that the selection sees.
  abbrev pub normal : Dict Text TaskRecord
  normal = (normalize_stale_pipeline_statuses state known now).0

  abbrev pub resolved : Resolved
  resolved = resolve_next_task_from_snapshot normal state

  -- A conflict says that two tasks at least are marked active; a launch failure names a queued task
  -- that is not in the store. Otherwise the runner gets a task exactly if one is chosen, which can
  -- run, and is then the active task: it has left the queue if it was not active before, and it is in
  -- progress if the state is saved.
  abbrev pub DequeueSays : Dequeue → Type 0
  DequeueSays (Dequeue.conflict markers) =
      (2 ≤ length markers) × (markers ≡ active_task_markers state tasks)
  DequeueSays (Dequeue.launch_failure id) =
      (length (active_task_markers state tasks) ≤ 1)
      × (elem id state.queue ≡ true)
      × (lookup id known ≡ none)
      × (has_intent id ≡ false)
  DequeueSays (Dequeue.dequeued d) =
      (length (active_task_markers state tasks) ≤ 1)
      × ((t : TaskRecord) → resolved.chosen ≡ some t → (id : Text) × CanRun normal id t)
      × Got resolved resolved.chosen d

  normal-Keyed : Keyed normal
  unfolding normalize_stale_pipeline_statuses lookup
  normal-Keyed =
      normalize_all-Keyed (is_stale state (live_active_pipeline_stage state known)) now known
        (tasks_by_id-Keyed tasks [] (λ id t h. cc))

  resolved-CanRun : (t : TaskRecord) → resolved.chosen ≡ some t → (id : Text) × CanRun normal id t
  resolved-CanRun = (resolve_next_task-CanRun normal normal-Keyed state).0

  chosen-Got :
      (o : Option TaskRecord) (normalized : Bool)
      → resolved.chosen ≡ o
      → Got resolved o (dequeue_chosen o resolved normalized now)
  unfolding dequeue_chosen
  chosen-Got none normalized h = refl
  chosen-Got (some t) normalized h =
      dequeue_chosen-Got resolved t (resolved-CanRun t h).1.1 normalized now

  branch-DequeueSays :
      (single : Bool) (absent : Option Text) (normalized : Bool)
      → leb (length (active_task_markers state tasks)) 1 ≡ single
      → missing_intent has_intent known state.queue ≡ absent
      → DequeueSays (
          if not single
          then Dequeue.conflict (active_task_markers state tasks)
          else launched absent (dequeue_chosen resolved.chosen resolved normalized now))
  branch-DequeueSays false absent normalized many e = (ground (arith, many), refl)
  branch-DequeueSays true (some id) normalized one e =
      let named = missing_intent-cases has_intent known state.queue id e in
      (leb→le (length (active_task_markers state tasks)) 1 one, named.0, named.1, named.2)
  branch-DequeueSays true none normalized one e = (
    leb→le (length (active_task_markers state tasks)) 1 one,
    resolved-CanRun,
    chosen-Got resolved.chosen normalized refl,
  )

  -- The dequeue answers so, whatever the state and the tasks are.
  pub dequeue_next_task-DequeueSays :
      DequeueSays (dequeue_next_task_selection has_intent state tasks now)
  unfolding dequeue_next_task_selection single_active
  dequeue_next_task-DequeueSays =
      branch-DequeueSays (leb (length (active_task_markers state tasks)) 1)
        (missing_intent has_intent known state.queue)
        (nonempty (normalize_stale_pipeline_statuses state known now).1) refl refl
