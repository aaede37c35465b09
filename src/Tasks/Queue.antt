-- ===== src/Tasks/Queue.antt =====
-- litehive/tasks/queue.py: the operator's orders to the queue. Each holds the workspace's lock from its
-- load to its save, and is given the state and the tasks that it loads; the audit entry is left out.
use litehive.Base.{
  ℕ, suc, ◌-◌, Bool, true, false, not, ◌&&◌, Option, none, some, is_some, List, [], ◌∷◌, ◌++◌, elem,
  ◌==◌, length, take, drop, leb, ltb, filter, if◌then◌else◌,
}
use litehive.Base.Text.{Text, text_eq}
use litehive.Base.Dict.{Dict, lookup}
use litehive.Domain.Task.{TaskRecord, WorkspaceState}
use litehive.Tasks.FailedRuns.{nonempty, text_leb}
use litehive.Tasks.Dequeue.{tasks_by_id}
use litehive.Tasks.Queue.Guard.{conflicts}
pub mod Guard
pub mod Busy
pub mod Lists
pub mod Orders
pub mod Repeats

-- What an order is refused for: `in_use` names the tasks that a runner uses, with their markers.
pub data QueueError : Type 0 where
  bad_position no_tasks : QueueError
  in_use : Dict Text (List Text) → QueueError
  unknown : Text → QueueError
  not_queued duplicated : List Text → QueueError

pub data Result : Type 0 where
  refused : QueueError → Result
  queued : WorkspaceState → Result

abbrev pub without : Text → List Text → List Text
without task_id queue = filter (λ id. not (id == task_id)) queue

-- The queue with the task at the end or in front.
unfoldable pub requeued : Text → Bool → List Text → List Text
requeued task_id front queue =
    if front then task_id ∷ without task_id queue else without task_id queue ++ task_id ∷ []

abbrev min : ℕ → ℕ → ℕ
min a b = if leb a b then a else b

unfoldable pub target_index : ℕ → List Text → ℕ
target_index position queue = min (position - 1) (length queue)

-- `queue.insert(index, task_id)`.
abbrev pub insert_at : ℕ → Text → List Text → List Text
insert_at index task_id queue = take index queue ++ task_id ∷ drop index queue

-- `tasks.get(task_id) is not None`.
abbrev pub is_known : List TaskRecord → Text → Bool
is_known tasks task_id = is_some (lookup task_id (tasks_by_id tasks []))

unfoldable pub enqueue : Text → Bool → WorkspaceState → List TaskRecord → Result
unfolding requeued
enqueue task_id front state tasks =
    let used = conflicts state tasks (task_id ∷ []) in
    if nonempty used
    then Result.refused (QueueError.in_use used)
    else if is_known tasks task_id
    then Result.queued (record state { queue = requeued task_id front state.queue })
    else Result.refused (QueueError.unknown task_id)

unfoldable pub move : Text → ℕ → WorkspaceState → List TaskRecord → Result
unfolding target_index
move task_id position state tasks =
    let used = conflicts state tasks (task_id ∷ []) in
    let rest = without task_id state.queue in
    if ltb position 1
    then Result.refused QueueError.bad_position
    else if nonempty used
    then Result.refused (QueueError.in_use used)
    else if not (is_known tasks task_id)
    then Result.refused (QueueError.unknown task_id)
    else if elem task_id state.queue
    then Result.queued
        (record state { queue = insert_at (target_index position rest) task_id rest })
    else Result.refused (QueueError.not_queued (task_id ∷ []))

-- The ids that stand in the list again, later.
unfoldable pub repeats : List Text → List Text → List Text
repeats seen [] = []
repeats seen (id ∷ ids) =
    let rest = repeats (if elem id seen then seen else id ∷ seen) ids in
    if elem id seen then id ∷ rest else rest

-- `sorted(set(…))`.
unfoldable pub insert_sorted_set : Text → List Text → List Text
insert_sorted_set id [] = id ∷ []
insert_sorted_set id (x ∷ xs) =
    let later = insert_sorted_set id xs in
    if id == x then x ∷ xs else if text_leb id x then id ∷ x ∷ xs else x ∷ later

unfoldable pub sorted_set : List Text → List Text
unfolding insert_sorted_set
sorted_set [] = []
sorted_set (id ∷ ids) = insert_sorted_set id (sorted_set ids)

-- `{task_id: tasks.require(task_id) …}`: the first id of no task.
unfoldable pub first_unknown : List TaskRecord → List Text → Option Text
first_unknown tasks [] = none
first_unknown tasks (id ∷ ids) =
    let later = first_unknown tasks ids in if is_known tasks id then later else some id

abbrev pub queued_first : List Text → WorkspaceState → Option Text → Result
queued_first ids state (some id) = Result.refused (QueueError.unknown id)
queued_first ids state none =
    Result.queued (record state { queue = ids ++ filter (λ x. not (elem x ids)) state.queue })

unfoldable pub prioritize : List Text → WorkspaceState → List TaskRecord → Result
unfolding repeats sorted_set first_unknown
prioritize [] state tasks = Result.refused QueueError.no_tasks
prioritize (id ∷ ids) state tasks =
    let wanted = id ∷ ids in
    let duplicates = sorted_set (repeats [] wanted) in
    let used = conflicts state tasks wanted in
    let missing = filter (λ x. not (elem x state.queue)) wanted in
    if nonempty duplicates
    then Result.refused (QueueError.duplicated duplicates)
    else if nonempty used
    then Result.refused (QueueError.in_use used)
    else if nonempty missing
    then Result.refused (QueueError.not_queued missing)
    else queued_first wanted state (first_unknown tasks wanted)
