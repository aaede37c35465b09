-- ===== src/Tasks/Selection/Ranking.antt =====
-- litehive/tasks/queue_selection.py: the key that orders the tasks that are ready
-- (`_dependent_task_count`, `_task_selection_key`), and the sort by it.
use litehive.Base.{
  ℕ, ◌+◌, Bool, false, ◌&&◌, ◌||◌, Option, none, some, List, [], ◌∷◌, elem, ltb, nat_beq, filter,
  if◌then◌else◌,
}
use litehive.Base.Text.{Text, text_eq}
use litehive.Base.Dict.{Dict, lookup}
use litehive.Domain.Task.{TaskRecord}
use litehive.Tasks.FailedRuns.{text_leb}
use litehive.Tasks.Eligibility.{is_task_eligible_for_execution, is_interrupted_task}
use litehive.Tasks.Dependencies.{dependencies_of}
use litehive.Tasks.Graph.Walks.{count_walk, work}

abbrev pub eligible : Option TaskRecord → Bool
eligible none = false
eligible (some t) = is_task_eligible_for_execution t

-- A set as a list without repeats; its order has no effect on the count.
unfoldable pub distinct : List Text → List Text
distinct [] = []
distinct (x ∷ xs) = let rest = distinct xs in if elem x rest then rest else x ∷ rest

unfoldable pub eligible_task_ids : List Text → Dict Text TaskRecord → List Text
unfolding distinct is_task_eligible_for_execution
eligible_task_ids queue tasks = distinct (filter (λ id. eligible (lookup id tasks)) queue)

-- `reverse_dependencies.get(id, ())`.
unfoldable pub dependents : List Text → Dict Text TaskRecord → Text → List Text
unfolding dependencies_of
dependents ids tasks id =
    if elem id ids then filter (λ queued_id. elem id (dependencies_of tasks queued_id)) ids else []

abbrev pub counted : Option ℕ → ℕ
counted none = 0
counted (some n) = n

-- The fuel is enough for the walk.
unfoldable pub dependent_task_count : Text → List Text → Dict Text TaskRecord → ℕ
unfolding eligible_task_ids dependents
dependent_task_count task_id queue tasks =
    let ids = eligible_task_ids queue tasks in
    let succ = dependents ids tasks in
    counted (count_walk succ (2 + (work succ ids [] + work succ ids [])) (succ task_id) [] 0)

pub record SelectionKey : Type 0 where
  pub queue_index : ℕ
  pub dependent_count : ℕ
  pub interrupted_rank : ℕ
  pub id : Text

unfoldable pub task_selection_key : TaskRecord → ℕ → List Text → Dict Text TaskRecord → SelectionKey
unfolding is_interrupted_task dependent_task_count
task_selection_key t index queue tasks = record {
  queue_index = index;
  dependent_count = dependent_task_count t.id queue tasks;
  interrupted_rank = if is_interrupted_task t then 0 else 1;
  id = t.id;
}

-- The order of two tuples; the second component is negated in the source.
unfoldable pub key_leb : SelectionKey → SelectionKey → Bool
unfolding text_leb
key_leb k l =
    ltb k.queue_index l.queue_index
    || nat_beq k.queue_index l.queue_index
      && (ltb l.dependent_count k.dependent_count
          || nat_beq k.dependent_count l.dependent_count
            && (ltb k.interrupted_rank l.interrupted_rank
                || nat_beq k.interrupted_rank l.interrupted_rank && text_leb k.id l.id))

abbrev pub Candidate : Type 0
Candidate = SelectionKey × TaskRecord

unfoldable pub insert_by_key : Candidate → List Candidate → List Candidate
unfolding key_leb
insert_by_key c [] = c ∷ []
insert_by_key c (d ∷ ds) = if key_leb c.0 d.0 then c ∷ d ∷ ds else d ∷ insert_by_key c ds

unfoldable pub sort_by_key : List Candidate → List Candidate
unfolding insert_by_key
sort_by_key [] = []
sort_by_key (c ∷ cs) = insert_by_key c (sort_by_key cs)
