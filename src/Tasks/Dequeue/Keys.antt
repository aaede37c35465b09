-- ===== src/Tasks/Dequeue/Keys.antt =====
-- litehive/tasks/queue_selection.py: the tasks that the selection sees stand under their own ids.
use litehive.Base.{
  ◌≡◌, refl, sym, ◌∙◌, subst, inl, inr, Bool-cases, Option-cases, Bool, Option, none, some, List,
  [], ◌∷◌, ◌==◌, if◌then◌else◌,
}
use mathlib.Core.Option.{some-injective}
use litehive.Base.Text.{Text, text_eq, text_beq_iff}
use litehive.Base.Dict.{Dict, lookup, insert, lookup-insert}
use litehive.Domain.Task.{TaskRecord}
use litehive.Tasks.Selection.Normalize.{sent_to_backlog, normalize_all}
use litehive.Tasks.Selection.Order.{Keyed}
use litehive.Tasks.Dequeue.{tasks_by_id}

Keyed-insert : (t : TaskRecord) (d : Dict Text TaskRecord) → Keyed d → Keyed (insert t.id t d)
Keyed-insert t d keyed id u h = elim (Bool-cases (t.id == id)) [
  | inl same ↦
      let e = some-injective t u (sym (rw (lookup-insert t.id id t d, same) refl) ∙ h) in
      subst (λ (x : TaskRecord). x.id ≡ id) e ((text_beq_iff t.id id).0 same)
  | inr other ↦ keyed id u (sym (rw (lookup-insert t.id id t d, other) refl) ∙ h)
]

pub tasks_by_id-Keyed :
    (ts : List TaskRecord) (d : Dict Text TaskRecord) → Keyed d → Keyed (tasks_by_id ts d)
unfolding tasks_by_id
tasks_by_id-Keyed [] d keyed = keyed
tasks_by_id-Keyed (t ∷ ts) d keyed = tasks_by_id-Keyed ts (insert t.id t d) (Keyed-insert t d keyed)

not_there : {P : Type 0} {u : TaskRecord} → some u ≡ none → P
not_there h = cc

module _ (stale : TaskRecord → Bool) (now : Text) where
  abbrev pub normalized : TaskRecord → TaskRecord
  normalized t = if stale t then sent_to_backlog now t else t

  abbrev pub normalized_if : Option TaskRecord → Option TaskRecord
  normalized_if none = none
  normalized_if (some t) = some (normalized t)

  pub lookup-normalize_all :
      (id : Text) (d : Dict Text TaskRecord)
      → lookup id (normalize_all stale now d).0 ≡ normalized_if (lookup id d)
  unfolding normalize_all lookup
  lookup-normalize_all id [] = refl
  lookup-normalize_all id ((at, t) ∷ rest) = elim (Bool-cases (stale t)) [
    | inl old ↦ elim (Bool-cases (at == id)) [
      | inl same ↦ rw (old, same) (rw old refl)
      | inr other ↦ rw (old, other) (lookup-normalize_all id rest)
    ]
    | inr fresh ↦ elim (Bool-cases (at == id)) [
      | inl same ↦ rw (fresh, same) (rw fresh refl)
      | inr other ↦ rw (fresh, other) (lookup-normalize_all id rest)
    ]
  ]

  id-normalized : (t : TaskRecord) → (normalized t).id ≡ t.id
  unfolding sent_to_backlog
  id-normalized t = elim (Bool-cases (stale t)) [
    | inl old ↦ rw old refl
    | inr fresh ↦ rw fresh refl
  ]

  pub normalize_all-Keyed :
      (d : Dict Text TaskRecord) → Keyed d → Keyed (normalize_all stale now d).0
  normalize_all-Keyed d keyed id u h = elim (Option-cases (lookup id d)) [
    | inl missing ↦ not_there (sym h ∙ lookup-normalize_all id d ∙ (rw missing refl))
    | inr (t, at_) ↦
        let e =
          some-injective (normalized t) u (sym (lookup-normalize_all id d ∙ (rw at_ refl)) ∙ h) in
        subst (λ (x : TaskRecord). x.id ≡ id) e (id-normalized t ∙ keyed id t at_)
  ]
