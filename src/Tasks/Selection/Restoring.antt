-- ===== src/Tasks/Selection/Restoring.antt =====
-- litehive/tasks/queue_selection.py (`restore_missing_queued_tasks`): unfinished work comes back to
-- the queue, once.
use litehive.Base.{
  ◌≤◌, ◌≡◌, refl, ap, sym, ◌∙◌, subst, inl, inr, Bool-cases, Bool, true, false, not, ◌&&◌, ◌||◌,
  Option, some, is_some, List, [], ◌∷◌, ◌++◌, elem, elem-append, count, ◌==◌, if◌then◌else◌, arith,
}
use mathlib.Core.Option.{some-injective}
use litehive.Base.Text.{Text, text_eq, text_beq_iff}
use litehive.Base.Dict.{Dict, lookup}
use litehive.Domain.Status.{is_in_progress}
use litehive.Domain.Task.{TaskRecord, WorkspaceState}
use litehive.Tasks.Mutations.{is_active}
use litehive.Tasks.Eligibility.{is_task_eligible_for_execution, resumable_queue_stage}
use litehive.Tasks.Selection.Normalize.{is_missing, restored_from, restore_missing_queued_tasks}

-- A task that may run and has been begun: it is in progress, or has a stage to resume at.
abbrev pub unfinished : TaskRecord → Bool
unfinished t =
    is_task_eligible_for_execution t
    && (is_in_progress t.status || is_some (resumable_queue_stage t))

-- The steps of the loop, on Booleans and ids alone.
not_left : (a b c : Bool) → not (a || b) && c ≡ false → c ≡ true → a || b ≡ true
not_left a b c h k = ground arith

not_there : (a b : Bool) → not a && b ≡ true → a ≡ false
not_there a b h = ground arith

or_middle : (a b c : Bool) → a || c ≡ true → a || (b || c) ≡ true
or_middle a b c h = ground arith

same_tests : (a b : Bool) → (if a then false else b) ≡ not a && b
same_tests true b = refl
same_tests false b = refl

and_false : (a : Bool) → false ≡ a && false
and_false true = refl
and_false false = refl

module _ (active : Option Text) where
  is_missing-unfinished :
      (queued : List Text) (id : Text) (t : TaskRecord)
      → is_missing active queued id t ≡ not (is_active active id || elem id queued) && unfinished t
  unfolding is_missing
  is_missing-unfinished queued id t = elim (Bool-cases (is_task_eligible_for_execution t)) [
    | inl able ↦ rw able (
        same_tests (is_active active id || elem id queued)
          (is_in_progress t.status || is_some (resumable_queue_stage t)))
    | inr not_ ↦ rw not_ (and_false (not (is_active active id || elem id queued)))
  ]

  still_there :
      (at id : Text) (queued rest : List Text)
      → at == id ≡ false
      → is_active active id || (elem id rest || elem id (at ∷ queued)) ≡ true
      → is_active active id || (elem id (at ∷ rest) || elem id queued) ≡ true
  still_there at id queued rest other h =
      ground (arith, h, other, text_beq_iff at id, text_beq_iff id at)

  first_there :
      (at id : Text) (rest queued : List Text)
      → at == id ≡ true
      → is_active active id || (elem id (at ∷ rest) || elem id queued) ≡ true
  first_there at id rest queued same = ground (arith, same, text_beq_iff at id, text_beq_iff id at)

  this_task :
      (at : Text) (u : TaskRecord) (rest : Dict Text TaskRecord) (id : Text) (t : TaskRecord)
      → at == id ≡ true
      → lookup id ((at, u) ∷ rest) ≡ some t
      → u ≡ t
  unfolding lookup
  this_task at u rest id t same h = some-injective u t (sym (rw same refl) ∙ h)

  other_task :
      (at : Text) (u : TaskRecord) (rest : Dict Text TaskRecord) (id : Text) (t : TaskRecord)
      → at == id ≡ false
      → lookup id ((at, u) ∷ rest) ≡ some t
      → lookup id rest ≡ some t
  unfolding lookup
  other_task at u rest id t other h = sym (rw other refl) ∙ h

  count_step :
      (at id : Text) (queued later : List Text)
      → is_active active at || elem at queued ≡ false
      → (is_active active id || elem id (at ∷ queued) ≡ true → count id later ≡ 0)
        × (count id later ≤ 1)
      → (is_active active id || elem id queued ≡ true → count id (at ∷ later) ≡ 0)
        × (count id (at ∷ later) ≤ 1)
  count_step at id queued later fresh (none_, once) = elim (Bool-cases (id == at)) [
    | inl same ↦
        let e : id ≡ at = (text_beq_iff id at).0 same in
        (
          (λ h. ground (arith, h, fresh, ap (λ x. is_active active x || elem x queued) e)),
          ground (arith, same, none_),
        )
    | inr other ↦ (ground (arith, other, none_), ground (arith, other, once))
  ]

  restored_from-unfinished :
      (queued : List Text) (tasks : Dict Text TaskRecord) (id : Text) (t : TaskRecord)
      → lookup id tasks ≡ some t
      → unfinished t ≡ true
      → is_active active id || (elem id (restored_from active queued tasks) || elem id queued)
        ≡ true
  unfolding restored_from lookup
  restored_from-unfinished queued [] id t at_ begun = cc
  restored_from-unfinished queued ((at, u) ∷ rest) id t at_ begun =
      elim (Bool-cases (is_missing active queued at u)) [
        | inl missing ↦ elim (Bool-cases (at == id)) [
          | inl same ↦
              rw missing (first_there at id (restored_from active (at ∷ queued) rest) queued same)
          | inr other ↦ rw missing (
              still_there at id queued (restored_from active (at ∷ queued) rest) other (
                restored_from-unfinished (at ∷ queued) rest id t
                  (other_task at u rest id t other at_) begun))
        ]
        | inr kept ↦ elim (Bool-cases (at == id)) [
          | inl same ↦ rw kept (
              or_middle (is_active active id) (elem id (restored_from active queued rest))
                (elem id queued)
                (subst (λ x. is_active active x || elem x queued ≡ true)
                  ((text_beq_iff at id).0 same)
                  (not_left (is_active active at) (elem at queued) (unfinished u)
                    (sym (is_missing-unfinished queued at u) ∙ kept)
                    (ap unfinished (this_task at u rest id t same at_) ∙ begun))))
          | inr other ↦ rw kept (
              restored_from-unfinished queued rest id t (other_task at u rest id t other at_) begun)
        ]
      ]

  restored_from-count :
      (queued : List Text) (tasks : Dict Text TaskRecord) (id : Text)
      → (is_active active id || elem id queued ≡ true
          → count id (restored_from active queued tasks) ≡ 0)
        × (count id (restored_from active queued tasks) ≤ 1)
  unfolding restored_from
  restored_from-count queued [] id = ((λ _. refl), omega arith)
  restored_from-count queued ((at, u) ∷ rest) id =
      elim (Bool-cases (is_missing active queued at u)) [
        | inr kept ↦ rw kept (restored_from-count queued rest id)
        | inl missing ↦
            let fresh =
              not_there (is_active active at || elem at queued) (unfinished u)
                (sym (is_missing-unfinished queued at u) ∙ missing) in
            rw missing (
              count_step at id queued (restored_from active (at ∷ queued) rest) fresh
                (restored_from-count (at ∷ queued) rest id))
      ]

-- Restoring puts tasks in front of the queue, and leaves the queue and the rest of the state as they
-- are. Each task stands in front at most once, and not if it is queued or active already. Afterwards
-- every task that may run and has been begun is active or queued.
pub restore_missing_queued_tasks-unfinished :
    (state : WorkspaceState) (tasks : Dict Text TaskRecord)
    → let front = (restore_missing_queued_tasks state tasks).1 in
      ((restore_missing_queued_tasks state tasks).0 ≡ record state { queue = front ++ state.queue })
      × ((id : Text) → count id front ≤ 1)
      × ((id : Text)
          → is_active state.active_task_id id || elem id state.queue ≡ true
          → count id front ≡ 0)
      × ((id : Text) (t : TaskRecord)
          → lookup id tasks ≡ some t
          → unfinished t ≡ true
          → is_active state.active_task_id id || elem id (front ++ state.queue) ≡ true)
unfolding restore_missing_queued_tasks
restore_missing_queued_tasks-unfinished state tasks =
    let active = state.active_task_id in
    let front = restored_from active state.queue tasks in
    (
      refl,
      (λ id. (restored_from-count active state.queue tasks id).1),
      (λ id. (restored_from-count active state.queue tasks id).0),
      (λ id t at_ begun.
          rw (elem-append id front state.queue)
            (restored_from-unfinished active state.queue tasks id t at_ begun)),
    )
