-- ===== src/Tasks/Queue/Busy.antt =====
-- litehive/state/locking.py (`ensure_future_task_mutation_allowed`), tasks/queue_selection.py
-- (`_active_task_markers_impl`): no order on a task that is executing is allowed.
use litehive.Base.{
  ◌≡◌, ◌≢◌, refl, sym, ap, subst, ◌∙◌, inl, inr, Bool-cases, Bool, true, false, ◌||◌, Option, none,
  some, List, [], ◌∷◌, ◌++◌, elem, elem-append, ◌==◌, arith,
}
use litehive.Base.Text.{Text, lit, text_eq, text_beq, text_beq_iff}
use litehive.Base.Dict.{Dict, lookup, lookup-insert}
use litehive.Domain.Task.{TaskRecord, WorkspaceState}
use litehive.Tasks.Dequeue.{
  tasks_by_id, or_nil, mark, executing, claims_progress, mark_tasks, active_task_markers,
}
use litehive.Tasks.Queue.Guard.{
  only, is_excused, conflict_of, conflicts_in, conflicts, with_conflict,
}

abbrev running : Text
running = lit "runtime.pipeline.execution_status=running"

-- The markers of a task say that it is executing.
abbrev Marked : Text → Dict Text (List Text) → Type 0
Marked id d = (ms : List Text) × (lookup id d ≡ some ms) × (elem running ms ≡ true)

last_there : (a b : Bool) → b ≡ true → a || (b || false) ≡ true
last_there a b h = ground (arith, h)

first_there : (a b : Bool) → a ≡ true → a || b ≡ true
first_there a b h = ground (arith, h)

mark-new : (id : Text) (d : Dict Text (List Text)) → Marked id (mark true id running d)
mark-new id d = (
  or_nil (lookup id d) ++ running ∷ [],
  lookup-insert id id (or_nil (lookup id d) ++ running ∷ []) d
      ∙ rw ((text_beq_iff id id).1 refl) refl,
  elem-append running (or_nil (lookup id d)) (running ∷ [])
      ∙ last_there (elem running (or_nil (lookup id d))) (running == running)
          ((text_beq_iff running running).1 refl),
)

mark-Marked :
    (b : Bool) (id m i : Text) (d : Dict Text (List Text)) → Marked i d → Marked i (mark b id m d)
mark-Marked false id m i d h = h
mark-Marked true id m i d (ms, at_, has) = elim (Bool-cases (id == i)) [
  | inl same ↦ (
    or_nil (lookup id d) ++ m ∷ [],
    lookup-insert id i (or_nil (lookup id d) ++ m ∷ []) d ∙ rw same refl,
    elem-append running (or_nil (lookup id d)) (m ∷ [])
        ∙ first_there (elem running (or_nil (lookup id d))) (elem running (m ∷ []))
            (rw (ap (λ j. lookup j d) ((text_beq_iff id i).0 same) ∙ at_) has),
  )
  | inr other ↦ (ms, lookup-insert id i (or_nil (lookup id d) ++ m ∷ []) d ∙ rw other at_, has)
]

mark_tasks-Marked :
    (ts : List TaskRecord) (i : Text) (d : Dict Text (List Text))
    → Marked i d
    → Marked i (mark_tasks ts d)
unfolding mark_tasks
mark_tasks-Marked [] i d h = h
mark_tasks-Marked (t ∷ ts) i d h = mark_tasks-Marked ts i _ (
    mark-Marked (executing t) t.id running i _
      (mark-Marked (claims_progress t) t.id (lit "task.status=in_progress") i d h))

mark_tasks-new :
    (before : List TaskRecord) (t : TaskRecord) (later : List TaskRecord)
    (d : Dict Text (List Text))
    → executing t ≡ true
    → Marked t.id (mark_tasks (before ++ t ∷ later) d)
unfolding mark_tasks
mark_tasks-new [] t later d runs = mark_tasks-Marked later t.id _ (
    subst
      (λ b.
        Marked t.id
          (mark b t.id running (mark (claims_progress t) t.id (lit "task.status=in_progress") d)))
      (sym runs) (mark-new t.id (mark (claims_progress t) t.id (lit "task.status=in_progress") d)))
mark_tasks-new (u ∷ us) t later d runs = mark_tasks-new us t later _ runs

left_out : (a b : Bool) → a ≡ false → a || b ≡ true → b ≡ true
left_out a b h k = ground (arith, h, k)

running-slot : running == lit "workspace.active_task_id" ≡ false
unfolding lit text_beq
running-slot = refl

running-progress : running == lit "task.status=in_progress" ≡ false
unfolding lit text_beq
running-progress = refl

only-other :
    (m : Text) (ms : List Text) → running == m ≡ false → elem running ms ≡ true → only m ms ≡ false
only-other m [] differ h = cc
only-other m (x ∷ xs) differ h = elim (Bool-cases (x == m)) [
  | inr apart ↦ rw apart refl
  | inl same ↦ rw same (
      only-other m xs differ (
        left_out (running == x) (elem running xs)
          (ap (λ y. running == y) ((text_beq_iff x m).0 same) ∙ differ) h))
]

not_excused :
    (ms : List Text) (task : Option TaskRecord)
    → elem running ms ≡ true
    → is_excused ms task ≡ false
unfolding is_excused
not_excused ms task h =
    rw (only-other (lit "workspace.active_task_id") ms running-slot h)
      (rw (only-other (lit "task.status=in_progress") ms running-progress h) refl)

with_conflict-some :
    (id : Text) (found : Option (List Text)) (others : Dict Text (List Text))
    → others ≢ []
    → with_conflict id found others ≢ []
with_conflict-some id none others h = h
with_conflict-some id (some ms) others h = λ e. cc

with_conflict-found :
    (id : Text) (found : Option (List Text)) (others : Dict Text (List Text)) (ms : List Text)
    → found ≡ some ms
    → with_conflict id found others ≢ []
with_conflict-found id none others ms h = cc
with_conflict-found id (some x) others ms h = λ e. cc

conflict_of-Marked :
    (markers : Dict Text (List Text)) (tasks : Dict Text TaskRecord) (id : Text) (ms : List Text)
    → lookup id markers ≡ some ms
    → elem running ms ≡ true
    → conflict_of markers tasks id ≡ some ms
unfolding conflict_of
conflict_of-Marked markers tasks id ms at_ has =
    rw (at_, conflict_of) (rw (not_excused ms (lookup id tasks) has) refl)

conflicts_in-Marked :
    (markers : Dict Text (List Text)) (tasks : Dict Text TaskRecord) (ids : List Text) (i : Text)
    → Marked i markers
    → elem i ids ≡ true
    → conflicts_in markers tasks ids ≢ []
unfolding conflicts_in
conflicts_in-Marked markers tasks [] i m h = λ e. cc
conflicts_in-Marked markers tasks (id ∷ ids) i (ms, at_, has) h = elim (Bool-cases (i == id)) [
  | inl same ↦
      with_conflict-found id (conflict_of markers tasks id) (conflicts_in markers tasks ids) ms (
        conflict_of-Marked markers tasks id ms
          (ap (λ j. lookup j markers) (sym ((text_beq_iff i id).0 same)) ∙ at_) has)
  | inr other ↦
      with_conflict-some id (conflict_of markers tasks id) (conflicts_in markers tasks ids) (
        conflicts_in-Marked markers tasks ids i (ms, at_, has)
          (left_out (i == id) (elem i ids) other h))
]

-- An order is not allowed if a task of it is executing.
pub conflicts-executing :
    (state : WorkspaceState) (before : List TaskRecord) (t : TaskRecord) (later : List TaskRecord)
    (ids : List Text)
    → executing t ≡ true
    → elem t.id ids ≡ true
    → conflicts state (before ++ t ∷ later) ids ≢ []
unfolding conflicts active_task_markers
conflicts-executing state before t later ids runs h =
    conflicts_in-Marked (active_task_markers state (before ++ t ∷ later))
      (tasks_by_id (before ++ t ∷ later) []) ids t.id (mark_tasks-new before t later _ runs) h
