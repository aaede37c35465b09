-- ===== src/Tasks/Dequeue/Got.antt =====
-- litehive/tasks/queue_selection.py (`_dequeue_next_task_selection`): the chosen task, pinned and begun.
use litehive.Base.{
  ◌≡◌, refl, ap, sym, ◌∙◌, inl, inr, Bool-cases, Bool, true, false, not, ◌||◌, Option, none, some,
  List, elem, elem-filter, filter, ◌==◌, if◌then◌else◌, arith,
}
use litehive.Base.Text.{Text, text_eq, text_beq_iff}
use litehive.Domain.Status.{
  TaskStatus, is_queued, is_in_progress, is_interrupted, is_flagged, at_done,
}
use litehive.Domain.Task.{TaskRecord, WorkspaceState}
use litehive.Tasks.FailedRuns.{has_blocking_failed_run_history}
use litehive.Tasks.Eligibility.{
  has_terminal_execution_status, has_terminal_outcome_kind, needs_manual_intervention,
  is_recovery_budget_exhausted, is_task_eligible_for_execution,
  auto_recovery_stage_for_flagged_task,
}
use litehive.Tasks.Mutations.{reset_task_for_recovery, is_active}
use litehive.Tasks.Runnable.{Open, is_task_eligible_for_execution-Runnable}
use litehive.Tasks.Selection.Resolve.{Resolved}
use litehive.Tasks.Dequeue.{Dequeued, pinned, begun, recovered_at, take_task, dequeue_chosen}

not_settled :
    (b e o d m x rest : Bool)
    → (if b
        then false
        else if e
        then false
        else if o
        then false
        else if d
        then false
        else if m
        then false
        else if x
        then false
        else rest)
      ≡ true
    → m || x ≡ false
not_settled true e o d m x rest h = cc
not_settled false true o d m x rest h = cc
not_settled false false true d m x rest h = cc
not_settled false false false true m x rest h = cc
not_settled false false false false true x rest h = cc
not_settled false false false false false true rest h = cc
not_settled false false false false false false rest h = refl

-- No task that may run is one that only an operator can settle.
is_task_eligible-settled :
    (t : TaskRecord)
    → is_task_eligible_for_execution t ≡ true
    → needs_manual_intervention t || is_recovery_budget_exhausted t ≡ false
unfolding is_task_eligible_for_execution
is_task_eligible-settled t h =
    not_settled (has_blocking_failed_run_history t) (has_terminal_execution_status t)
      (has_terminal_outcome_kind t) (at_done t.pipeline_status) (needs_manual_intervention t)
      (is_recovery_budget_exhausted t)
      (if is_queued t.status || is_in_progress t.status || is_flagged t.status
        then true
        else if is_interrupted t.status
        then true
        else false)
      h

begun-in_progress :
    (t : TaskRecord) (s : TaskStatus)
    → t.status ≡ s
    → Open s t.flag_count t.flag_reason
    → is_flagged s ≡ false
    → (begun t).status ≡ TaskStatus.in_progress
begun-in_progress t TaskStatus.queued e ok no_flag = rw e refl
begun-in_progress t TaskStatus.in_progress e ok no_flag = rw e refl
begun-in_progress t TaskStatus.interrupted e ok no_flag = rw e refl
begun-in_progress t TaskStatus.flagged e ok no_flag = cc
begun-in_progress t TaskStatus.parked e ok no_flag = absurd ok
begun-in_progress t TaskStatus.done e ok no_flag = absurd ok
begun-in_progress t TaskStatus.closed e ok no_flag = absurd ok

id-begun : (t : TaskRecord) → (begun t).id ≡ t.id
id-begun t = elim (Bool-cases (is_queued t.status || is_interrupted t.status)) [
  | inl fresh ↦ rw fresh refl
  | inr going ↦ rw going refl
]

is_active-some : (active : Option Text) (id : Text) → is_active active id ≡ true → active ≡ some id
is_active-some none id h = cc
is_active-some (some x) id h = ap some ((text_beq_iff x id).0 h)

active-pinned :
    (state : WorkspaceState) (t : TaskRecord) → (pinned state t).active_task_id ≡ some t.id
active-pinned state t = elim (Bool-cases (is_active state.active_task_id t.id)) [
  | inl same ↦ rw same (is_active-some state.active_task_id t.id same)
  | inr other ↦ rw other refl
]

left_out : (id : Text) (queue : List Text) → elem id (filter (λ x. not (x == id)) queue) ≡ false
left_out id queue = ground (arith, elem-filter (λ x. not (x == id)) id queue, text_beq_iff id id)

last_true : (a b : Bool) → a || not b ≡ false → b ≡ true
last_true a b h = ground arith

absurd_of : {P : Type 0} → true ≡ false → P
absurd_of h = cc

queue-pinned :
    (state : WorkspaceState) (t : TaskRecord)
    → is_active state.active_task_id t.id ≡ false
    → elem t.id (pinned state t).queue ≡ false
queue-pinned state t other = rw other (left_out t.id state.queue)

-- What the runner gets for the task that was chosen. A state that is saved shows it in progress.
abbrev pub Got : Resolved → Option TaskRecord → Dequeued → Type 0
Got r none d = d.task ≡ none
Got r (some t) d =
    (u : TaskRecord) × (d.task ≡ some u)
    × (u.id ≡ t.id)
    × (d.state.active_task_id ≡ some t.id)
    × (is_active r.state.active_task_id t.id ≡ false → elem t.id d.state.queue ≡ false)
    × (d.saved ≡ true → u.status ≡ TaskStatus.in_progress)

id-recovered_at :
    (t : TaskRecord) (now : Text)
    → (begun (recovered_at t (auto_recovery_stage_for_flagged_task t) now)).id ≡ t.id
unfolding reset_task_for_recovery
id-recovered_at t now = refl

module _ (r : Resolved) (t : TaskRecord) (able : is_task_eligible_for_execution t ≡ true) where
  take_task-Got : (now : Text) → Got r (some t) (take_task t (pinned r.state t) r.blocked now)
  unfolding take_task reset_task_for_recovery
  take_task-Got now = elim (Bool-cases (is_flagged t.status)) [
    | inl flagged ↦
        rw (is_task_eligible-settled t able, flagged)
          (
            begun (recovered_at t (auto_recovery_stage_for_flagged_task t) now),
            refl,
            refl,
            active-pinned r.state t,
            queue-pinned r.state t,
            (λ _. refl),
          )
    | inr other ↦ rw other (
      begun t,
      refl,
      id-begun t,
      active-pinned r.state t,
      queue-pinned r.state t,
      (λ _.
          begun-in_progress t t.status refl
            ((is_task_eligible_for_execution-Runnable t).0 able).open_ other),
    )
  ]

  pub dequeue_chosen-Got :
      (normalized : Bool) (now : Text) → Got r (some t) (dequeue_chosen (some t) r normalized now)
  unfolding dequeue_chosen
  dequeue_chosen-Got normalized now =
      let active = is_active r.state.active_task_id t.id in
      elim (Bool-cases (r.mutated || normalized || not active)) [
        | inl changed ↦ rw changed (take_task-Got now)
        | inr same ↦ rw same (
          t,
          refl,
          refl,
          is_active-some r.state.active_task_id t.id
              (last_true (r.mutated || normalized) active same),
          (λ other. absurd_of (sym (last_true (r.mutated || normalized) active same) ∙ other)),
          (λ h. absurd_of (sym h)),
        )
      ]
