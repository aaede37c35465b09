-- ===== src/Tasks/Dependencies/Validation.antt =====
-- litehive/tasks/queue_eligibility.py: what the validator accepts, and that it keeps the
-- dependencies without a cycle.
use litehive.Base.{
  ◌≡◌, ◌≢◌, refl, ap, sym, subst, ◌↔◌, ◌⊎◌, inl, inr, Bool-cases, Option-cases, true, false, none,
  is_some, List, [], ◌∷◌, elem, ◌==◌, if◌then◌else◌, arith,
}
use litehive.Base.Text.{Text, text_eq, text_beq_iff}
use litehive.Base.Dict.{Dict, lookup, insert, lookup-insert}
use litehive.Domain.Task.{TaskRecord}
use litehive.Tasks.Graph.Walks.{reaches_walk}
use litehive.Tasks.Graph.Paths.{Reaches, Acyclic, Reaches-trans}
use litehive.Tasks.Graph.Work.{reaches_walk-is_some}
use litehive.Tasks.Graph.Soundness.{reaches_walk-Reaches}
use litehive.Tasks.Dependencies.{
  dependencies_of, ids, walk_fuel, dependency_reaches_task, check_dependency, validate_from,
  validate,
}

lookup-ids :
    (tasks : Dict Text TaskRecord) (id : Text)
    → elem id (ids tasks) ≡ false
    → lookup id tasks ≡ none
unfolding lookup
lookup-ids [] id h = refl
lookup-ids ((at, t) ∷ rest) id h =
    ground (arith, lookup-ids rest id, text_beq_iff at id, text_beq_iff id at)

dependencies_of-ids :
    (tasks : Dict Text TaskRecord) (id : Text)
    → elem id (ids tasks) ≡ false
    → dependencies_of tasks id ≡ []
unfolding dependencies_of
dependencies_of-ids tasks id h = rw (lookup-ids tasks id h) refl

-- The cycle check says whether `task_id` is reached from `dependency_id` along the dependencies,
-- whatever the tasks are.
pub dependency_reaches_task-Reaches :
    (task_id dependency_id : Text) (tasks : Dict Text TaskRecord)
    → (dependency_reaches_task task_id dependency_id tasks ≡ true)
      ↔ Reaches (dependencies_of tasks) dependency_id task_id
unfolding dependency_reaches_task walk_fuel
dependency_reaches_task-Reaches task_id dependency_id tasks =
    let succ = dependencies_of tasks in
    let fuel = walk_fuel tasks in
    let ends =
      reaches_walk-is_some succ (ids tasks) (dependencies_of-ids tasks) task_id fuel
        (dependency_id ∷ []) [] (omega arith) in
    elim (Option-cases (reaches_walk succ task_id fuel (dependency_id ∷ []) [])) [
      | inl out ↦ cc
      | inr (answer, e) ↦ rw e (reaches_walk-Reaches succ task_id fuel dependency_id answer e)
    ]

-- What the validator asks of one dependency.
pub record Allowed (task_id : Text) (tasks : Dict Text TaskRecord) (d : Text) : Type 0 where
  pub other : d ≢ task_id
  pub known : is_some (lookup d tasks) ≡ true
  pub apart : Reaches (dependencies_of tasks) d task_id → ⊥

module _ (task_id : Text) (tasks : Dict Text TaskRecord) where
  check_dependency-Allowed :
      (d : Text) → (check_dependency task_id tasks d ≡ none) ↔ Allowed task_id tasks d
  unfolding check_dependency
  check_dependency-Allowed d =
      let reach = dependency_reaches_task-Reaches task_id d tasks in
      (
        (λ h. record {
          other = λ e. ground (arith, h, text_beq_iff d task_id, e);
          known = ground (arith, h);
          apart = λ path. ground (arith, h, reach.1 path);
        }),
        (λ ok. elim (Bool-cases (dependency_reaches_task task_id d tasks)) [
          | inl yes_ ↦ absurd (ok.apart (reach.0 yes_))
          | inr no_ ↦ ground (arith, ok.known, no_, text_beq_iff d task_id, ok.other)
        ]),
      )

  validate_from-Allowed :
      (seen depends_on : List Text)
      → validate_from task_id tasks seen depends_on ≡ none
      → (d : Text) → elem d depends_on ≡ true
      → elem d seen ≡ false
      → Allowed task_id tasks d
  unfolding validate_from
  validate_from-Allowed seen [] h d at_d new = cc
  validate_from-Allowed seen (x ∷ xs) h d at_d new =
      let seen_ = if elem x seen then seen else x ∷ seen in
      elim (Bool-cases (d == x)) [
        | inl same ↦
            let e : d ≡ x = (text_beq_iff d x).0 same in
            subst (Allowed task_id tasks) (sym e)
              ((check_dependency-Allowed x).0 (ground (arith, h, new, ap (λ y. elem y seen) e)))
        | inr other ↦
            validate_from-Allowed seen_ xs (ground (arith, h)) d (ground (arith, at_d, other))
              (ground (arith, new, other))
      ]

  validate_from-none :
      (seen depends_on : List Text)
      → ((d : Text) → elem d depends_on ≡ true → Allowed task_id tasks d)
      → validate_from task_id tasks seen depends_on ≡ none
  unfolding validate_from
  validate_from-none seen [] h = refl
  validate_from-none seen (x ∷ xs) h =
      let first = (check_dependency-Allowed x).1 (h x (ground (arith, text_beq_iff x x))) in
      ground (
        arith,
        first,
        validate_from-none (if elem x seen then seen else x ∷ seen) xs
            (λ d at_d. h d (ground (arith, at_d))),
      )

  -- The validator accepts a list of dependencies exactly when each of them is another task, is known
  -- and does not depend, directly or not, on the task.
  pub validate-Allowed :
      (depends_on : List Text)
      → (validate task_id depends_on tasks ≡ none)
        ↔ ((d : Text) → elem d depends_on ≡ true → Allowed task_id tasks d)
  unfolding validate
  validate-Allowed depends_on = (
    (λ h d at_d. validate_from-Allowed [] depends_on h d at_d refl),
    (λ h. validate_from-none [] depends_on h),
  )

-- Of a task whose dependencies are replaced: a path that uses an edge of the new ones.
module _ (tasks : Dict Text TaskRecord) (t : TaskRecord) (task_id : Text) where
  abbrev updated : Text → List Text
  updated = dependencies_of (insert task_id t tasks)

  abbrev Detour : Text → Text → Type 0
  Detour a b =
      Reaches (dependencies_of tasks) a task_id
      × ((d : Text) × (elem d t.depends_on ≡ true) × Reaches (dependencies_of tasks) d b)

  updated-other : (a : Text) → task_id == a ≡ false → updated a ≡ dependencies_of tasks a
  unfolding dependencies_of
  updated-other a h = rw (lookup-insert task_id a t tasks, h) refl

  updated-task : (a : Text) → task_id == a ≡ true → updated a ≡ t.depends_on
  unfolding dependencies_of
  updated-task a h = rw (lookup-insert task_id a t tasks, h) refl

  Reaches-Detour :
      (a b : Text) → Reaches updated a b → Reaches (dependencies_of tasks) a b ⊎ Detour a b
  Reaches-Detour a b (Reaches.here _) = inl (Reaches.here a)
  Reaches-Detour a b (Reaches.along _ c _ edge path) =
      let rest = Reaches-Detour c b path in
      elim (Bool-cases (task_id == a)) [
        | inl same ↦
            let at_c = subst (λ xs. elem c xs ≡ true) (updated-task a same) edge in
            let at_task : Reaches (dependencies_of tasks) a task_id =
              subst (λ x. Reaches (dependencies_of tasks) x task_id)
                ((text_beq_iff task_id a).0 same) (Reaches.here task_id) in
            elim rest [
              | inl old ↦ inr (at_task, (c, at_c, old))
              | inr (to, from) ↦ inr (at_task, from)
            ]
        | inr other ↦
            let at_c = subst (λ xs. elem c xs ≡ true) (updated-other a other) edge in
            elim rest [
              | inl old ↦ inl (Reaches.along a c b at_c old)
              | inr (to, from) ↦ inr (Reaches.along a c task_id at_c to, from)
            ]
      ]

  -- Giving a task dependencies that the validator accepts adds no cycle to the tasks' dependencies.
  pub validate-Acyclic :
      Acyclic (dependencies_of tasks)
      → validate task_id t.depends_on tasks ≡ none
      → Acyclic (dependencies_of (insert task_id t tasks))
  validate-Acyclic acyclic ok a b edge path =
      let allowed = (validate-Allowed task_id tasks t.depends_on).0 ok in
      elim (Bool-cases (task_id == a)) [
        | inl same ↦
            let at_b = subst (λ xs. elem b xs ≡ true) (updated-task a same) edge in
            let e = sym ((text_beq_iff task_id a).0 same) in
            elim (Reaches-Detour b a path) [
              | inl old ↦
                  (allowed b at_b).apart (subst (λ x. Reaches (dependencies_of tasks) b x) e old)
              | inr (to, from) ↦ (allowed b at_b).apart to
            ]
        | inr other ↦
            let at_b = subst (λ xs. elem b xs ≡ true) (updated-other a other) edge in
            elim (Reaches-Detour b a path) [
              | inl old ↦ acyclic a b at_b old
              | inr (to, (d, at_d, from)) ↦ (allowed d at_d).apart (
                  Reaches-trans (dependencies_of tasks) d a task_id from
                    (Reaches.along a b task_id at_b to))
            ]
      ]
