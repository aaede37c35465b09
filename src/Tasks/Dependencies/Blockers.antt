-- ===== src/Tasks/Dependencies/Blockers.antt =====
-- litehive/tasks/queue_eligibility.py: when nothing blocks a task.
use litehive.Base.{
  ◌≡◌, refl, ap, sym, subst, ◌↔◌, inl, inr, Bool-cases, Option-cases, true, false, some, List, [],
  ◌∷◌, ◌++◌, elem, ◌==◌, if◌then◌else◌, arith,
}
use litehive.Base.Text.{Text, text_eq, text_beq_iff}
use litehive.Base.Dict.{Dict, lookup}
use litehive.Domain.Task.{TaskRecord}
use litehive.Tasks.Eligibility.{is_task_completed}
use litehive.Tasks.Dependencies.{blocker, blockers_from, task_blockers}

-- The task that the id names is there and completed.
abbrev pub Met : Dict Text TaskRecord → Text → Type 0
Met tasks id = (t : TaskRecord) × (lookup id tasks ≡ some t) × (is_task_completed t ≡ true)

blocker-Met :
    (tasks : Dict Text TaskRecord) (id : Text) → (blocker id (lookup id tasks) ≡ []) ↔ Met tasks id
unfolding blocker
blocker-Met tasks id = elim (Option-cases (lookup id tasks)) [
  | inl missing ↦ rw (missing, blocker) ((λ h. cc), (λ (t, at_, done). cc))
  | inr (t, at_) ↦ (
    (λ h. (t, at_, elim (Bool-cases (is_task_completed t)) [ inl done ↦ done | inr other ↦ cc ])),
    (λ (u, at_u, done). cc),
  )
]

append-none : (xs ys : List Text) → xs ++ ys ≡ [] → (xs ≡ []) × (ys ≡ [])
append-none [] ys h = (refl, h)
append-none (x ∷ xs) ys h = cc

blockers_from-Met :
    (tasks : Dict Text TaskRecord) (seen depends_on : List Text)
    → blockers_from tasks seen depends_on ≡ []
    → (d : Text) → elem d depends_on ≡ true
    → elem d seen ≡ false
    → Met tasks d
unfolding blockers_from
blockers_from-Met tasks seen [] h d at_d new = cc
blockers_from-Met tasks seen (x ∷ xs) h d at_d new =
    let seen_ = if elem x seen then seen else x ∷ seen in
    let rest = blockers_from tasks seen_ xs in
    elim (Bool-cases (d == x)) [
      | inl same ↦
          let e : d ≡ x = (text_beq_iff d x).0 same in
          subst (Met tasks) (sym e) (
            (blocker-Met tasks x).0
              (append-none (blocker x (lookup x tasks)) rest
                (ground (arith, h, new, ap (λ y. elem y seen) e))).0)
      | inr other ↦
          blockers_from-Met tasks seen_ xs
            (elim (Bool-cases (elem x seen)) [
              | inl old ↦ ground (arith, h, old)
              | inr fresh ↦
                  (append-none (blocker x (lookup x tasks)) rest (ground (arith, h, fresh))).1
            ])
            d (ground (arith, at_d, other)) (ground (arith, new, other))
    ]

blockers_from-none :
    (tasks : Dict Text TaskRecord) (seen depends_on : List Text)
    → ((d : Text) → elem d depends_on ≡ true → Met tasks d)
    → blockers_from tasks seen depends_on ≡ []
unfolding blockers_from
blockers_from-none tasks seen [] h = refl
blockers_from-none tasks seen (x ∷ xs) h =
    let first = (blocker-Met tasks x).1 (h x (ground (arith, text_beq_iff x x))) in
    ground (
      arith,
      first,
      blockers_from-none tasks (if elem x seen then seen else x ∷ seen) xs
          (λ d at_d. h d (ground (arith, at_d))),
    )

-- Nothing blocks a task exactly when every task that it depends on is there and is done, in its
-- status and in its pipeline.
pub task_blockers-Met :
    (t : TaskRecord) (tasks : Dict Text TaskRecord)
    → (task_blockers t tasks ≡ []) ↔ ((d : Text) → elem d t.depends_on ≡ true → Met tasks d)
unfolding task_blockers
task_blockers-Met t tasks = (
  (λ h d at_d. blockers_from-Met tasks [] t.depends_on h d at_d refl),
  (λ h. blockers_from-none tasks [] t.depends_on h),
)
