-- ===== src/Tasks/Mutations/Slots.antt =====
-- litehive/tasks/queue_mutations.py: a task put back at the end of the queue
-- (`enqueue_recovered_task`), and a task taken out of every slot (`drop_task_from_workspace_state`).
use litehive.Base.{
  ◌≤◌, ◌≡◌, refl, ap, ◌∙◌, inl, inr, Bool-cases, Bool, false, not, ◌&&◌, ◌||◌, Option, none, some,
  List, [], ◌∷◌, elem, elem-filter, count, filter, length, nat_beq, ◌==◌, if◌then◌else◌, arith,
}
use litehive.Base.Text.{Text, text_eq, text_beq_iff}
use litehive.Domain.Task.{WorkspaceState, UnmergedWorktree}
use litehive.Tasks.Queue.{requeued, without}
use litehive.Tasks.Queue.Lists.{KeepsOthers, position_of, filter-without, elem_self}
use litehive.Tasks.Queue.Orders.{requeued-once}
use litehive.Tasks.Mutations.{is_active, enqueue_recovered_task, drop_task_from_workspace_state}

-- A recovered task stands in the queue once, behind the other tasks, which keep their order; nothing
-- else of the state changes.
pub enqueue_recovered_task-once :
    (state : WorkspaceState) (task_id : Text)
    → let after = enqueue_recovered_task state task_id in
      (count task_id after.queue ≡ 1)
      × KeepsOthers (task_id ∷ []) state.queue after.queue
      × (position_of task_id after.queue ≡ length (without task_id state.queue))
      × (record after { queue = state.queue } ≡ state)
unfolding enqueue_recovered_task requeued
enqueue_recovered_task-once state task_id =
    let once = requeued-once task_id false state.queue in (once.0, once.1, once.2, refl)

-- Whether a worktree of the task is listed.
abbrev pub owns : Text → List UnmergedWorktree → Bool
owns id [] = false
owns id (w ∷ ws) = id == w.task_id || owns id ws

-- Whether a slot of the state refers to the task.
abbrev pub refers : WorkspaceState → Text → Bool
refers state id =
    is_active state.active_task_id id || elem id state.queue || owns id state.unmerged_worktrees

abbrev kept : Text → List UnmergedWorktree → List UnmergedWorktree
kept id ws = filter (λ w. not (w.task_id == id)) ws

length-kept : (id : Text) (ws : List UnmergedWorktree) → length (kept id ws) ≤ length ws
length-kept id [] = omega arith
length-kept id (w ∷ ws) = ground (arith, length-kept id ws)

changed-owns :
    (id : Text) (ws : List UnmergedWorktree)
    → not (nat_beq (length (kept id ws)) (length ws)) ≡ owns id ws
changed-owns id [] = ground arith
changed-owns id (w ∷ ws) = elim (Bool-cases (w.task_id == id)) [
  | inl same ↦
      ground (arith, same, length-kept id ws, text_beq_iff w.task_id id, text_beq_iff id w.task_id)
  | inr other ↦
      ground
        (arith, other, changed-owns id ws, text_beq_iff w.task_id id, text_beq_iff id w.task_id)
]

abbrev dropped_queue : Text → List Text → List Text
dropped_queue id queue = if elem id queue then filter (λ x. not (x == id)) queue else queue

active-dropped :
    (active : Option Text) (id other : Text)
    → is_active (if is_active active id then none else active) other
      ≡ not (other == id) && is_active active other
active-dropped none id other = ground arith
active-dropped (some x) id other =
    ground (arith, text_beq_iff x id, text_beq_iff x other, text_beq_iff other id)

swap : (a b : Bool) → a && b ≡ b && a
swap a b = ground arith

elem-dropped :
    (id other : Text) (queue : List Text)
    → elem other (dropped_queue id queue) ≡ not (other == id) && elem other queue
elem-dropped id other queue = elim (Bool-cases (elem id queue)) [
  | inl at_ ↦
      rw at_
        (elem-filter (λ x. not (x == id)) other queue ∙ swap (elem other queue) (not (other == id)))
  | inr off ↦ elim (Bool-cases (other == id)) [
    | inl same ↦ rw (off, same) (ap (λ x. elem x queue) ((text_beq_iff other id).0 same) ∙ off)
    | inr apart ↦ rw (off, apart) refl
  ]
]

-- What dropping a task leaves of a state.
pub record Dropped (id : Text) (state after : WorkspaceState) : Type 0 where
  pub active :
      (other : Text)
      → is_active after.active_task_id other
        ≡ not (other == id) && is_active state.active_task_id other
  pub unqueued : elem id after.queue ≡ false
  pub others : KeepsOthers (id ∷ []) state.queue after.queue
  pub worktrees :
      (other : Text)
      → filter (λ w. w.task_id == other) after.unmerged_worktrees
        ≡ (if other == id then [] else filter (λ w. w.task_id == other) state.unmerged_worktrees)
  pub rest :
      record after {
        active_task_id = state.active_task_id;
        queue = state.queue;
        unmerged_worktrees = state.unmerged_worktrees;
      }
      ≡ state

dropped-elem : (id : Text) (queue : List Text) → elem id (dropped_queue id queue) ≡ false
dropped-elem id queue = elem-dropped id id queue ∙ rw ((text_beq_iff id id).1 refl) refl

dropped-KeepsOthers :
    (id : Text) (queue : List Text) → KeepsOthers (id ∷ []) queue (dropped_queue id queue)
dropped-KeepsOthers id queue = elim (Bool-cases (elem id queue)) [
  | inl at_ ↦ rw at_ (filter-without id (id ∷ []) queue (elem_self id))
  | inr off ↦ rw off refl
]

worktrees-kept :
    (id other : Text) (ws : List UnmergedWorktree)
    → filter (λ w. w.task_id == other) (kept id ws)
      ≡ (if other == id then [] else filter (λ w. w.task_id == other) ws)
worktrees-kept id other [] = ground arith
worktrees-kept id other (w ∷ ws) = ground (
  arith,
  worktrees-kept id other ws,
  text_beq_iff w.task_id id,
  text_beq_iff w.task_id other,
  text_beq_iff other id,
)

-- A task that is dropped is in no slot of the state: neither active nor queued, and without a
-- worktree that is listed. Any other task is active if it was, its worktrees are listed as they
-- were, the other tasks keep their order in the queue, and nothing else changes. The answer says
-- whether a slot referred to the dropped task.
pub drop_task-Dropped :
    (state : WorkspaceState) (id : Text)
    → Dropped id state (drop_task_from_workspace_state state id).0
      × ((drop_task_from_workspace_state state id).1 ≡ refers state id)
unfolding drop_task_from_workspace_state
drop_task-Dropped state id = (
  record {
    active = λ other. active-dropped state.active_task_id id other;
    unqueued = dropped-elem id state.queue;
    others = dropped-KeepsOthers id state.queue;
    worktrees = λ other. worktrees-kept id other state.unmerged_worktrees;
    rest = refl;
  },
  ap (λ b. is_active state.active_task_id id || elem id state.queue || b)
      (changed-owns id state.unmerged_worktrees),
)
