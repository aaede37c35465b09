-- ===== src/Tasks/Queue/Orders.antt =====
-- litehive/tasks/queue.py, queue_mutations.py: an order moves the tasks it names, and no other.
use litehive.Base.{
  ◌⊎◌, ◌==◌, none, some, ℕ, ◌≤◌, ◌≡◌, ◌≢◌, refl, sym, ap, ◌∙◌, inl, inr, Bool-cases, Bool, true,
  false, not, List, [], ◌∷◌, ◌++◌, elem, length, take, count, filter, if◌then◌else◌, arith,
}
use litehive.Base.Text.{Text, text_eq, text_beq_iff}
use litehive.Tasks.Queue.{
  queued_first, QueueError, Result, without, requeued, target_index, repeats, sorted_set,
  prioritize, is_known, first_unknown,
}
use litehive.Base.Dict.{Dict}
use litehive.Domain.Task.{TaskRecord, WorkspaceState}
use litehive.Tasks.FailedRuns.{nonempty}
use litehive.Tasks.Queue.Guard.{conflicts}
use litehive.Tasks.Dequeue.{executing}
use litehive.Tasks.Queue.Busy.{conflicts-executing}
use litehive.Tasks.Queue.Repeats.{RepeatedIn, repeats-RepeatedIn, sorted_set-empty}
use litehive.Tasks.Queue.Lists.{
  filter-append, count-append, count-without, filter-without, elem-without, elem_self,
  repeats-count, count-elem, count-filter-out, filter_self, filter-idle, filter-none, take-append,
  nonempty-cases, append_nil, position_of-last, KeepsOthers, position_of,
}

marked-cases :
    (d : Dict Text (List Text))
    → ((nonempty d ≡ true) × (d ≢ [])) ⊎ ((nonempty d ≡ false) × (d ≡ []))
marked-cases [] = inr (refl, refl)
marked-cases (x ∷ xs) = inl (refl, λ e. cc)

-- An order that is carried out is one that the guard allows, on tasks that are there, none of them
-- executing; it keeps the order of the others and changes only the queue.
pub record Allowed (ids : List Text) (tasks : List TaskRecord) (state after : WorkspaceState)
    : Type 0 where
  pub unused : conflicts state tasks ids ≡ []
  pub idle :
      (before : List TaskRecord) (t : TaskRecord) (later : List TaskRecord)
      → tasks ≡ before ++ t ∷ later
      → elem t.id ids ≡ true
      → executing t ≡ false
  pub known : (x : Text) → elem x ids ≡ true → is_known tasks x ≡ true
  pub others : KeepsOthers ids state.queue after.queue
  pub rest : record after { queue = state.queue } ≡ state

-- What an order of `move` answers. It is refused, tested in this order, for a position before the
-- first, for a task that a runner uses, for an id of no task and for a task that is not queued.
-- Otherwise the task stands once, at the position, or at the end when the queue is shorter, the
-- others keep their order, and nothing else of the state changes.
abbrev pub MoveSays : Text → ℕ → WorkspaceState → List TaskRecord → Result → Type 0
MoveSays task_id position state tasks (Result.refused QueueError.bad_position) = position ≡ 0
MoveSays task_id position state tasks (Result.refused (QueueError.in_use used)) =
    (1 ≤ position) × (used ≢ []) × (used ≡ conflicts state tasks (task_id ∷ []))
MoveSays task_id position state tasks (Result.refused (QueueError.unknown id)) =
    (1 ≤ position)
    × (conflicts state tasks (task_id ∷ []) ≡ [])
    × (id ≡ task_id)
    × (is_known tasks task_id ≡ false)
MoveSays task_id position state tasks (Result.refused (QueueError.not_queued ids)) =
    (1 ≤ position)
    × (conflicts state tasks (task_id ∷ []) ≡ [])
    × (is_known tasks task_id ≡ true)
    × (elem task_id state.queue ≡ false)
    × (ids ≡ task_id ∷ [])
MoveSays task_id position state tasks (Result.refused _) = ⊥
MoveSays task_id position state tasks (Result.queued after) =
    (1 ≤ position)
    × (elem task_id state.queue ≡ true)
    × (position_of task_id after.queue ≡ target_index position (without task_id state.queue))
    × (count task_id after.queue ≡ 1)
    × Allowed (task_id ∷ []) tasks state after

none_executing :
    (state : WorkspaceState) (tasks : List TaskRecord) (ids : List Text)
    → conflicts state tasks ids ≡ []
    → (before : List TaskRecord) (t : TaskRecord) (later : List TaskRecord)
    → tasks ≡ before ++ t ∷ later
    → elem t.id ids ≡ true
    → executing t ≡ false
none_executing state tasks ids none_ before t later split h = elim (Bool-cases (executing t)) [
  | inl runs ↦ absurd (
      conflicts-executing state before t later ids runs h
        (ap (λ ts. conflicts state ts ids) (sym split) ∙ none_))
  | inr idle ↦ idle
]

-- What an order of `prioritize` answers. It is refused, tested in this order, for an empty list, for
-- ids that are repeated, which it names sorted and once, for tasks that a runner uses, for tasks that
-- are not queued and for an id of no task. Otherwise the queue starts with the list, each of its
-- tasks stands once in the queue, the others keep their order, and nothing else of the state changes.
abbrev pub PrioritizeSays : List Text → WorkspaceState → List TaskRecord → Result → Type 0
PrioritizeSays ids state tasks (Result.refused QueueError.no_tasks) = ids ≡ []
PrioritizeSays ids state tasks (Result.refused (QueueError.duplicated twice)) =
    (ids ≢ []) × (twice ≢ []) × RepeatedIn ids twice
PrioritizeSays ids state tasks (Result.refused (QueueError.in_use used)) =
    (ids ≢ []) × ((x : Text) → count x ids ≤ 1) × (used ≢ []) × (used ≡ conflicts state tasks ids)
PrioritizeSays ids state tasks (Result.refused (QueueError.not_queued missing)) =
    (ids ≢ [])
    × ((x : Text) → count x ids ≤ 1)
    × (conflicts state tasks ids ≡ [])
    × (missing ≢ [])
    × (missing ≡ filter (λ x. not (elem x state.queue)) ids)
PrioritizeSays ids state tasks (Result.refused (QueueError.unknown id)) =
    (ids ≢ [])
    × ((x : Text) → count x ids ≤ 1)
    × (conflicts state tasks ids ≡ [])
    × ((x : Text) → elem x ids ≡ true → elem x state.queue ≡ true)
    × (elem id ids ≡ true)
    × (is_known tasks id ≡ false)
PrioritizeSays ids state tasks (Result.refused QueueError.bad_position) = ⊥
PrioritizeSays ids state tasks (Result.queued after) =
    (take (length ids) after.queue ≡ ids)
    × ((x : Text) → elem x ids ≡ true → (count x after.queue ≡ 1) × (elem x state.queue ≡ true))
    × Allowed ids tasks state after

first_unknown-cases :
    (tasks : List TaskRecord) (ids : List Text)
    → ((first_unknown tasks ids ≡ none)
        × ((x : Text) → elem x ids ≡ true → is_known tasks x ≡ true))
      ⊎ ((id : Text) × (first_unknown tasks ids ≡ some id)
          × (elem id ids ≡ true)
          × (is_known tasks id ≡ false))
unfolding first_unknown
first_unknown-cases tasks [] = inl (refl, λ x h. ground (arith, h))
first_unknown-cases tasks (id ∷ ids) = elim (Bool-cases (is_known tasks id)) [
  | inr new ↦ inr (id, rw new refl, ground (arith, text_beq_iff id id), new)
  | inl known ↦ elim (first_unknown-cases tasks ids) [
    | inr (other, first, at_, new) ↦ inr (other, rw known first, ground (arith, at_), new)
    | inl (none_, all) ↦ inl (
      rw known none_,
      (λ x h. elim (Bool-cases (x == id)) [
        | inl same ↦ ap (is_known tasks) ((text_beq_iff x id).0 same) ∙ known
        | inr other ↦ all x (ground (arith, h, other))
      ]),
    )
  ]
]

-- The ids are queued and may be put first, if they are those of tasks.
queued_first-PrioritizeSays :
    (ids : List Text) (state : WorkspaceState) (tasks : List TaskRecord)
    → ids ≢ []
    → ((x : Text) → count x ids ≤ 1)
    → conflicts state tasks ids ≡ []
    → ((x : Text) → elem x ids ≡ true → elem x state.queue ≡ true)
    → PrioritizeSays ids state tasks (queued_first ids state (first_unknown tasks ids))
queued_first-PrioritizeSays ids state tasks some_ single none_ queued_ =
    let rest = filter (λ x. not (elem x ids)) state.queue in
    elim (first_unknown-cases tasks ids) [
      | inr (other, first, at_other, new) ↦ rw first (some_, single, none_, queued_, at_other, new)
      | inl (first, known) ↦ rw first (
        take-append ids rest,
        (λ x at_x. (
          omega (
            arith,
            count-append x ids rest,
            single x,
            count-elem x ids at_x,
            count-filter-out ids state.queue x at_x,
          ),
          queued_ x at_x,
        )),
        record {
          unused = none_;
          idle = none_executing state tasks ids none_;
          known = known;
          others =
              filter-append (λ y. not (elem y ids)) ids rest
              ∙ ap (λ ys. ys ++ filter (λ y. not (elem y ids)) rest)
                  (filter_self ids ids (λ x at_x. at_x))
              ∙ filter-idle (λ y. not (elem y ids)) state.queue;
          rest = refl;
        },
      )
    ]

-- For every list of ids, state and list of tasks, an order to put tasks first is refused, tested in
-- this order, for an empty list, for repeated ids, which it names in order and once each, for tasks
-- that the guard says a runner uses, for tasks that are not queued and for an id of no task. Otherwise
-- no task of the list is executing, the queue starts with the list, each of its tasks stands once in
-- the queue and stood there, the others keep their order, and nothing else of the state changes.
pub prioritize-PrioritizeSays :
    (ids : List Text) (state : WorkspaceState) (tasks : List TaskRecord)
    → PrioritizeSays ids state tasks (prioritize ids state tasks)
unfolding prioritize
prioritize-PrioritizeSays [] state tasks = refl
prioritize-PrioritizeSays (id ∷ ids) state tasks =
    let queue = state.queue in
    let wanted = id ∷ ids in
    let missing = filter (λ x. not (elem x queue)) wanted in
    let rest = filter (λ x. not (elem x wanted)) queue in
    elim (nonempty-cases (sorted_set (repeats [] wanted))) [
      | inl (twice, some_) ↦ rw twice ((λ e. cc), some_, repeats-RepeatedIn wanted)
      | inr (once, no_repeat) ↦
          let single : (x : Text) → count x wanted ≤ 1 =
            λ x. (repeats-count [] wanted x (sorted_set-empty (repeats [] wanted) no_repeat)).1 in
          elim (marked-cases (conflicts state tasks wanted)) [
            | inl (busy, some_) ↦ rw (once, busy) ((λ e. cc), single, some_, refl)
            | inr (idle, none_) ↦ elim (nonempty-cases missing) [
              | inl (absent, some_) ↦
                  rw (once, idle, absent) ((λ e. cc), single, none_, some_, refl)
              | inr (present, all) ↦
                  let queued_ : (x : Text) → elem x wanted ≡ true → elem x queue ≡ true = λ x at_x.
                    ground (arith, filter-none (λ y. not (elem y queue)) wanted all x at_x) in
                  rw (once, idle, present)
                    (queued_first-PrioritizeSays wanted state tasks (λ e. cc) single none_ queued_)
            ]
          ]
    ]

-- `requeued` puts the task at the end asked for, once, and the others keep their order.
pub requeued-once :
    (task_id : Text) (front : Bool) (queue : List Text)
    → (count task_id (requeued task_id front queue) ≡ 1)
      × KeepsOthers (task_id ∷ []) queue (requeued task_id front queue)
      × (position_of task_id (requeued task_id front queue)
          ≡ (if front then 0 else length (without task_id queue)))
unfolding requeued
requeued-once task_id true queue = (
  (ground (arith, count-without task_id queue, text_beq_iff task_id task_id)),
  (ground (
    arith,
    text_beq_iff task_id task_id,
    filter-without task_id (task_id ∷ []) queue (elem_self task_id),
  )),
  (ground (arith, text_beq_iff task_id task_id)),
)
requeued-once task_id false queue =
    let rest = without task_id queue in
    (
      (count-append task_id rest (task_id ∷ [])
          ∙ (ground (arith, count-without task_id queue, text_beq_iff task_id task_id))),
      (filter-append (λ x. not (elem x (task_id ∷ []))) rest (task_id ∷ [])
          ∙ ap (λ ys. filter (λ x. not (elem x (task_id ∷ []))) rest ++ ys)
              (ground (arith, elem_self task_id))
          ∙ append_nil (filter (λ x. not (elem x (task_id ∷ []))) rest)
          ∙ filter-without task_id (task_id ∷ []) queue (elem_self task_id)),
      position_of-last task_id rest (elem-without task_id queue),
    )
