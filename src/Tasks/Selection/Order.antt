-- ===== src/Tasks/Selection/Order.antt =====
-- litehive/tasks/queue_selection.py (`_resolve_next_task_from_snapshot`): which task is chosen, and
-- the queue that is left.
use litehive.Base.{
  ◌≡◌, refl, ap, sym, ◌∙◌, subst, inl, inr, Bool-cases, Option-cases, Bool, true, false, not, ◌&&◌,
  Option, none, some, or_else, List, [], ◌∷◌, elem, filter, if◌then◌else◌, arith,
}
use litehive.Base.Text.{Text, text_eq}
use litehive.Base.Dict.{Dict, lookup}
use litehive.Domain.Task.{TaskRecord, WorkspaceState}
use litehive.Tasks.FailedRuns.{nonempty}
use litehive.Tasks.Eligibility.{is_task_eligible_for_execution, active_task}
use litehive.Tasks.Dependencies.{task_blockers}
use litehive.Tasks.Selection.Normalize.{restore_missing_queued_tasks}
use litehive.Tasks.Selection.Resolve.{
  Scan, scan, Resolved, first_candidate, start, with_blocked, from_queue, active_first, from_active,
  resolve_next_task_from_snapshot,
}
use litehive.Tasks.Selection.Scanning.{
  ready, ready_if, first_ready, may_run, scan-queue, scan-first_ready, scan-Ascending,
  sort_by_key-Ascending,
}

-- Each task stands under its own id (`{task.id: task for task in ...}`).
abbrev pub Keyed : Dict Text TaskRecord → Type 0
Keyed tasks = (id : Text) (t : TaskRecord) → lookup id tasks ≡ some t → t.id ≡ id

module _ (tasks : Dict Text TaskRecord) where
  from_queue-chosen :
      (state : WorkspaceState) (s : Scan)
      → s.ready_candidates ≡ []
      → (from_queue tasks state s).chosen ≡ first_ready tasks s.queue
  unfolding from_queue
  from_queue-chosen state s none_ =
      let rise = scan-Ascending tasks 1 s.queue s (omega arith) (rw none_ tt) in
      ap first_candidate
        (sort_by_key-Ascending 1 rise.0 (scan tasks 1 s.queue s).ready_candidates rise.1)
      ∙ scan-first_ready tasks 1 s.queue s
      ∙ (rw none_ refl)

  from_queue-queue :
      (state : WorkspaceState) (s : Scan)
      → (from_queue tasks state s).state.queue ≡ filter (may_run tasks) s.queue
  unfolding from_queue
  from_queue-queue state s = scan-queue tasks 1 [] s.queue s tt refl

  -- The queue that the loop goes through when the active task is blocked or gone.
  abbrev pub with_active : Option TaskRecord → List Text → List Text
  with_active none queue = queue
  with_active (some t) queue =
      if is_task_eligible_for_execution t && not (elem t.id queue) then t.id ∷ queue else queue

  abbrev pub restored : WorkspaceState → WorkspaceState
  restored state = (restore_missing_queued_tasks state tasks).0

  abbrev pub active_of : WorkspaceState → Option TaskRecord
  active_of state = active_task state.active_task_id tasks

  from_queue-active :
      (state : WorkspaceState) (s : Scan) → (from_queue tasks state s).state.active_task_id ≡ none
  unfolding from_queue
  from_queue-active state s = refl

  flip :
      (b : Bool) (id : Text) (queue : List Text)
      → (if b then queue else id ∷ queue) ≡ (if not b then id ∷ queue else queue)
  flip true id queue = refl
  flip false id queue = refl

  with_active-not :
      (t : TaskRecord) (queue : List Text)
      → is_task_eligible_for_execution t ≡ false
      → with_active (some t) queue ≡ queue
  with_active-not t queue not_ = rw not_ refl

  ready-if :
      (t : TaskRecord) (blockers : List Text)
      → is_task_eligible_for_execution t ≡ true
      → task_blockers t tasks ≡ blockers
      → ready tasks (some t) ≡ ready_if tasks t blockers
  ready-if t blockers able e = rw (able, e) refl

  -- The state that is left, by the active task and by what of it is ready.
  abbrev pub After :
      WorkspaceState → Option TaskRecord → Option TaskRecord → WorkspaceState → Type 0
  After base o (some t) after = after ≡ base
  After base o none after =
      (after.active_task_id ≡ none)
      × (after.queue ≡ filter (may_run tasks) (with_active o base.queue))

  module _ (keyed : Keyed tasks) where
    -- A blocked task at the front does not change what is found first.
    first_ready-with_active :
        (id : Text) (t : TaskRecord) (queue : List Text)
        → lookup id tasks ≡ some t
        → ready tasks (some t) ≡ none
        → first_ready tasks (with_active (some t) queue) ≡ first_ready tasks queue
    first_ready-with_active id t queue at_ blocked =
        elim (Bool-cases (is_task_eligible_for_execution t && not (elem t.id queue))) [
          | inl front ↦ rw front (
              ap (λ o. or_else o (first_ready tasks queue))
                (ap (λ x. ready tasks (lookup x tasks)) (keyed id t at_)
                  ∙ ap (ready tasks) at_
                  ∙ blocked))
          | inr kept ↦ rw kept refl
        ]

    abbrev Expected : WorkspaceState → Option TaskRecord → Resolved → Type 0
    Expected base o r =
        (r.chosen ≡ or_else (ready tasks o) (first_ready tasks base.queue))
        × After base o (ready tasks o) r.state

    active_first-Expected :
        (id : Text) (t : TaskRecord) (base : WorkspaceState) (mutated : Bool) (blockers : List Text)
        → lookup id tasks ≡ some t
        → is_task_eligible_for_execution t ≡ true
        → task_blockers t tasks ≡ blockers
        → Expected base (some t) (active_first tasks t blockers base mutated)
    unfolding active_first
    active_first-Expected id t base mutated [] at_ able e = rw (ready-if t [] able e) (refl, refl)
    active_first-Expected id t base mutated (b ∷ bs) at_ able e =
        let blocked = ready-if t (b ∷ bs) able e in
        let queue = if elem t.id base.queue then base.queue else t.id ∷ base.queue in
        let s = with_blocked t 1 (b ∷ bs) (start queue true) in
        let same : queue ≡ with_active (some t) base.queue =
          rw able (flip (elem t.id base.queue) t.id base.queue) in
        rw blocked (
          (from_queue-chosen base s refl
              ∙ ap (first_ready tasks) same
              ∙ first_ready-with_active id t base.queue at_ blocked),
          (from_queue-active base s, from_queue-queue base s ∙ ap (filter (may_run tasks)) same),
        )

    from_active-Expected :
        (active : Option Text) (base : WorkspaceState) (mutated : Bool)
        → Expected base
            (active_task active tasks)
            (from_active tasks active (active_task active tasks) base mutated)
    unfolding from_active
    from_active-Expected none base mutated =
        let s = start base.queue mutated in
        (from_queue-chosen base s refl, (from_queue-active base s, from_queue-queue base s))
    from_active-Expected (some id) base mutated =
        let s = start base.queue true in
        elim (Option-cases (lookup id tasks)) [
          | inl missing ↦
              rw missing
                (from_queue-chosen base s refl, (from_queue-active base s, from_queue-queue base s))
          | inr (t, at_) ↦ elim (Bool-cases (is_task_eligible_for_execution t)) [
            | inl able ↦
                let blockers = task_blockers t tasks in
                let step : from_active tasks (some id) (some t) base mutated
                    ≡ active_first tasks t blockers base mutated =
                  rw able refl in
                rw at_ (
                  subst (Expected base (some t)) (sym step)
                    (active_first-Expected id t base mutated blockers at_ able refl))
            | inr not_ ↦
                rw (at_, not_)
                  (
                    from_queue-chosen base s refl,
                    (
                      from_queue-active base s,
                      from_queue-queue base s
                          ∙ ap (filter (may_run tasks)) (sym (with_active-not t base.queue not_)),
                    ),
                  )
          ]
        ]

    -- The selection takes the active task if it is ready, that is, if it may run and nothing blocks
    -- it, and otherwise the first task of the queue that is ready; neither how many tasks wait for a
    -- task, nor whether it was begun, has an effect. An active task that is taken leaves the state as
    -- restoring made it. Otherwise no task stays active, and the queue keeps, in their order, the tasks
    -- that may run, after the active one when this is blocked and was not queued.
    pub resolve_next_task-first_ready :
        (state : WorkspaceState)
        → ((resolve_next_task_from_snapshot tasks state).chosen
            ≡ or_else (ready tasks (active_of state)) (first_ready tasks (restored state).queue))
          × After
              (restored state)
              (active_of state)
              (ready tasks (active_of state))
              (resolve_next_task_from_snapshot tasks state).state
    unfolding resolve_next_task_from_snapshot restore_missing_queued_tasks
    resolve_next_task-first_ready state =
        from_active-Expected state.active_task_id (restored state)
          (nonempty (restore_missing_queued_tasks state tasks).1)
