-- ===== src/Tasks/FailedRuns.antt =====
-- litehive/tasks/failed_runs.py: the failures that keep a task from running again.
use litehive.Base.{
  ℕ, Bool, true, false, not, ◌&&◌, ◌||◌, List, [], ◌∷◌, ltb, leb, nat_beq, ◌==◌, if◌then◌else◌,
  filter,
}
use litehive.Base.Text.{Text, text_eq}
use litehive.Base.Dict.{Dict}
use litehive.Domain.Runtime.{RuntimeFailedRunRecord}
use litehive.Domain.Task.{TaskRecord}

abbrev pub failed_run_requeue_budget : ℕ
failed_run_requeue_budget = 1

-- The order of two texts: by their code points.
unfoldable pub text_leb : Text → Text → Bool
text_leb [] t = true
text_leb (c ∷ s) [] = false
text_leb (c ∷ s) (d ∷ t) = ltb c d || nat_beq c d && text_leb s t

-- `(item.stage, item.failure_shape)` of one record is at most that of the other.
abbrev pub record_leb : RuntimeFailedRunRecord → RuntimeFailedRunRecord → Bool
record_leb a b =
    if a.stage == b.stage
    then text_leb a.failure_shape b.failure_shape
    else text_leb a.stage b.stage

unfoldable pub insert_sorted :
    RuntimeFailedRunRecord → List RuntimeFailedRunRecord → List RuntimeFailedRunRecord
insert_sorted r [] = r ∷ []
insert_sorted r (x ∷ xs) = if record_leb r x then r ∷ x ∷ xs else x ∷ insert_sorted r xs

unfoldable pub sorted : List RuntimeFailedRunRecord → List RuntimeFailedRunRecord
unfolding insert_sorted
sorted [] = []
sorted (r ∷ rs) = insert_sorted r (sorted rs)

-- The test of the loop in `blocking_failed_run_records`.
abbrev pub blocks : RuntimeFailedRunRecord → Bool
blocks r =
    if leb r.count failed_run_requeue_budget
    then false
    else not (leb r.count r.operator_override_count)

abbrev pub values {ℓ} : {A : Type ℓ} → Dict Text A → List A
values [] = []
values ((key, a) ∷ rest) = a ∷ values rest

unfoldable pub blocking_failed_run_records : TaskRecord → List RuntimeFailedRunRecord
unfolding sorted text_leb
blocking_failed_run_records t =
    sorted (filter blocks (values t.runtime.pipeline.failed_run_history))

abbrev pub nonempty {ℓ} : {A : Type ℓ} → List A → Bool
nonempty [] = false
nonempty (x ∷ xs) = true

unfoldable pub has_blocking_failed_run_history : TaskRecord → Bool
unfolding blocking_failed_run_records
has_blocking_failed_run_history t = nonempty (blocking_failed_run_records t)
