-- ===== src/Tasks/Selection/Ready.antt =====
-- litehive/tasks/queue_selection.py: the task that is chosen can run, and none is chosen only when
-- none can.
use litehive.Base.{
  ◌≡◌, refl, ap, sym, ◌∙◌, subst, ◌⊎◌, inl, inr, Bool-cases, Option-cases, Bool, true, false, ◌||◌,
  Option, none, some, or_else, List, [], ◌∷◌, ◌++◌, elem, elem-append, ◌==◌, arith,
}
use mathlib.Core.Option.{some-injective}
use litehive.Base.Text.{Text, text_eq, text_beq_iff}
use litehive.Base.Dict.{Dict, lookup}
use litehive.Domain.Task.{TaskRecord, WorkspaceState}
use litehive.Tasks.Mutations.{is_active}
use litehive.Tasks.Eligibility.{is_task_eligible_for_execution, active_task}
use litehive.Tasks.Dependencies.{task_blockers}
use litehive.Tasks.Selection.Normalize.{restore_missing_queued_tasks}
use litehive.Tasks.Selection.Restoring.{unfinished, restore_missing_queued_tasks-unfinished}
use litehive.Tasks.Selection.Resolve.{resolve_next_task_from_snapshot}
use litehive.Tasks.Selection.Scanning.{ready, ready_if, first_ready}
use litehive.Tasks.Selection.Order.{Keyed, active_of, restored, resolve_next_task-first_ready}

or_else-none : (a b : Option TaskRecord) → or_else a b ≡ none → (a ≡ none) × (b ≡ none)
or_else-none none b h = (refl, h)
or_else-none (some t) b h = cc

kept-append :
    (b : Bool) (id : Text) (front queue : List Text)
    → b || elem id queue ≡ true
    → b || elem id (front ++ queue) ≡ true
kept-append b id front queue h = ground (arith, h, elem-append id front queue)

or_right : (a b : Bool) → a ≡ false → a || b ≡ true → b ≡ true
or_right a b h k = ground arith

not_both : {o : Option TaskRecord} {t : TaskRecord} → o ≡ some t → o ≡ none → ⊥
not_both h k = cc

module _ (tasks : Dict Text TaskRecord) where
  -- The task is there under the id, may run, and waits for nothing.
  abbrev pub CanRun : Text → TaskRecord → Type 0
  CanRun id t =
      (lookup id tasks ≡ some t)
      × (is_task_eligible_for_execution t ≡ true)
      × (task_blockers t tasks ≡ [])

  ready_if-none :
      (t u : TaskRecord) (blockers : List Text)
      → ready_if tasks t blockers ≡ some u
      → (t ≡ u) × (blockers ≡ [])
  ready_if-none t u [] h = (some-injective t u h, refl)
  ready_if-none t u (b ∷ bs) h = cc

  ready-CanRun : (id : Text) (u : TaskRecord) → ready tasks (lookup id tasks) ≡ some u → CanRun id u
  ready-CanRun id u h = elim (Option-cases (lookup id tasks)) [
    | inl missing ↦ cc
    | inr (t, at_) ↦ elim (Bool-cases (is_task_eligible_for_execution t)) [
      | inl able ↦
          let found = ready_if-none t u (task_blockers t tasks) (sym (rw (at_, able) refl) ∙ h) in
          subst (CanRun id) found.0 (at_, able, found.1)
      | inr not_ ↦ cc
    ]
  ]

  CanRun-ready : (id : Text) (t : TaskRecord) → CanRun id t → ready tasks (lookup id tasks) ≡ some t
  CanRun-ready id t (at_, able, free) = rw (at_, able, free) refl

  first_ready-CanRun :
      (ids : List Text) (u : TaskRecord)
      → first_ready tasks ids ≡ some u
      → (id : Text) × (elem id ids ≡ true) × CanRun id u
  first_ready-CanRun [] u h = cc
  first_ready-CanRun (x ∷ xs) u h = elim (Option-cases (ready tasks (lookup x tasks))) [
    | inl none_ ↦
        let later = first_ready-CanRun xs u (sym (rw none_ refl) ∙ h) in
        (later.0, ground (arith, later.1), later.2)
    | inr (t, here_) ↦
        (x, ground (arith, text_beq_iff x x), ready-CanRun x u (here_ ∙ (sym (rw here_ refl) ∙ h)))
  ]

  first_ready-none :
      (ids : List Text) (id : Text)
      → first_ready tasks ids ≡ none
      → elem id ids ≡ true
      → ready tasks (lookup id tasks) ≡ none
  first_ready-none [] id h at_id = cc
  first_ready-none (x ∷ xs) id h at_id =
      let split = or_else-none (ready tasks (lookup x tasks)) (first_ready tasks xs) h in
      elim (Bool-cases (id == x)) [
        | inl same ↦
            subst (λ y. ready tasks (lookup y tasks) ≡ none) (sym ((text_beq_iff id x).0 same))
              split.0
        | inr other ↦ first_ready-none xs id split.1 (ground (arith, at_id, other))
      ]

  active-CanRun :
      (active : Option Text) (u : TaskRecord)
      → ready tasks (active_task active tasks) ≡ some u
      → (id : Text) × CanRun id u
  active-CanRun none u h = cc
  active-CanRun (some id) u h = (id, ready-CanRun id u h)

  chosen-CanRun :
      (state : WorkspaceState) (u : TaskRecord)
      → or_else
          (ready tasks (active_of tasks state))
          (first_ready tasks (restored tasks state).queue)
        ≡ some u
      → (id : Text) × CanRun id u
  chosen-CanRun state u h = elim (Option-cases (ready tasks (active_of tasks state))) [
    | inl none_ ↦
        let later = first_ready-CanRun (restored tasks state).queue u (sym (rw none_ refl) ∙ h) in
        (later.0, later.2)
    | inr (t, active) ↦ active-CanRun state.active_task_id u (active ∙ (sym (rw active refl) ∙ h))
  ]

  active-none :
      (active : Option Text) (id : Text)
      → ready tasks (active_task active tasks) ≡ none
      → is_active active id ≡ true
      → ready tasks (lookup id tasks) ≡ none
  active-none none id h at_id = cc
  active-none (some x) id h at_id =
      subst (λ y. ready tasks (lookup y tasks) ≡ none) ((text_beq_iff x id).0 at_id) h

  -- A task that the selection chooses is one of the workspace's tasks, may run, and depends on no
  -- task that is not completed. If it chooses none, then every task that may run and that was queued,
  -- active or begun waits for another.
  pub resolve_next_task-CanRun :
      Keyed tasks
      → (state : WorkspaceState)
      → let chosen = (resolve_next_task_from_snapshot tasks state).chosen in
        ((u : TaskRecord) → chosen ≡ some u → (id : Text) × CanRun id u)
        × (chosen ≡ none
            → (id : Text) (t : TaskRecord)
            → is_active state.active_task_id id || elem id state.queue ≡ true
              ⊎ (unfinished t ≡ true)
            → CanRun id t
            → ⊥)
  resolve_next_task-CanRun keyed state =
      let found = (resolve_next_task-first_ready tasks keyed state).0 in
      let front = restore_missing_queued_tasks-unfinished state tasks in
      (
        (λ u h. chosen-CanRun state u (sym found ∙ h)),
        (λ h id t at_ can.
            let none_ =
              or_else-none (ready tasks (active_of tasks state))
                (first_ready tasks (restored tasks state).queue) (sym found ∙ h) in
            let present : is_active state.active_task_id id || elem id (restored tasks state).queue
                ≡ true =
              elim at_ [
                | inl old ↦
                    subst (λ queue. is_active state.active_task_id id || elem id queue ≡ true)
                      (ap (λ (s : WorkspaceState). s.queue) (sym front.0))
                      (kept-append (is_active state.active_task_id id) id
                        (restore_missing_queued_tasks state tasks).1 state.queue old)
                | inr begun ↦
                    subst (λ queue. is_active state.active_task_id id || elem id queue ≡ true)
                      (ap (λ (s : WorkspaceState). s.queue) (sym front.0))
                      (front.3 id t can.0 begun)
              ] in
            not_both (CanRun-ready id t can)
              (elim (Bool-cases (is_active state.active_task_id id)) [
                | inl active ↦ active-none state.active_task_id id none_.0 active
                | inr other ↦ first_ready-none (restored tasks state).queue id none_.1 (
                    or_right (is_active state.active_task_id id)
                      (elem id (restored tasks state).queue) other present)
              ])),
      )
