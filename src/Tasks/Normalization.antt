-- ===== src/Tasks/Normalization.antt =====
-- litehive/tasks/normalization.py: what a task must say before it is implemented.
use litehive.Base.{
  Bool, true, false, not, ◌&&◌, Option, none, some, is_some, List, [], ◌∷◌, ◌++◌, leb, length, ◌==◌,
  if◌then◌else◌,
}
use litehive.Base.Text.{Text, lit, text_eq, strip, truthy}
use litehive.Domain.Common.{PipelineMode, PipelineStatus}
use litehive.Domain.Task.{TaskRecord}
use litehive.Tasks.FailedRuns.{nonempty}

unfoldable pub normalize_acceptance_criteria : List Text → List Text
normalize_acceptance_criteria [] = []
normalize_acceptance_criteria (item ∷ items) =
    let criterion = strip item in
    let rest = normalize_acceptance_criteria items in
    if truthy criterion then criterion ∷ rest else rest

-- `", ".join(items)`.
unfoldable pub joined : List Text → Text
unfolding lit
joined [] = []
joined (x ∷ []) = x
joined (x ∷ y ∷ rest) = x ++ (lit ", " ++ joined (y ∷ rest))

abbrev pub signal : Bool → Text → List Text
signal b label = if b then label ∷ [] else []

unfoldable pub acceptance_criteria_requirement_signals : TaskRecord → List Text
unfolding lit
acceptance_criteria_requirement_signals t =
    signal (nonempty t.depends_on) (lit "dependencies")
    ++ (signal (truthy (strip t.goal) && not (strip t.goal == strip t.title))
          (lit "an explicit goal")
        ++ (signal (t.priority == lit "high") (lit "high priority")
            ++ signal (leb 2 (length t.plan)) (lit "a multi-step plan")))

abbrev pub required_reason : List Text → Option Text
required_reason [] = none
required_reason (s ∷ ss) = some (
    lit "Structured acceptance criteria are required before implementation for larger tasks. "
    ++ (lit "Add at least one criterion because this task has: " ++ (joined (s ∷ ss) ++ lit ".")))

unfoldable pub missing_acceptance_criteria_reason : TaskRecord → Option Text
unfolding acceptance_criteria_requirement_signals
missing_acceptance_criteria_reason t =
    if nonempty t.acceptance_criteria
    then none
    else required_reason (acceptance_criteria_requirement_signals t)

abbrev pub single_mode : PipelineMode → Bool
single_mode PipelineMode.single = true
single_mode PipelineMode.full = false

unfoldable pub implementation_entry_stage : TaskRecord → PipelineStatus
unfolding missing_acceptance_criteria_reason
implementation_entry_stage t =
    if single_mode t.pipeline_mode
    then PipelineStatus.implementing
    else if is_some (missing_acceptance_criteria_reason t)
    then PipelineStatus.grooming
    else PipelineStatus.implementing

-- `_ACCEPTANCE_REROUTE_STATUSES`.
abbrev pub past_grooming : PipelineStatus → Bool
past_grooming PipelineStatus.implementing = true
past_grooming PipelineStatus.testing = true
past_grooming PipelineStatus.accepting = true
past_grooming PipelineStatus.commit_to_git = true
past_grooming _ = false

unfoldable pub reroute_stage_for_acceptance_criteria : TaskRecord → PipelineStatus
unfolding missing_acceptance_criteria_reason
reroute_stage_for_acceptance_criteria t =
    if single_mode t.pipeline_mode
    then t.pipeline_status
    else if past_grooming t.pipeline_status
    then (if is_some (missing_acceptance_criteria_reason t)
        then PipelineStatus.grooming
        else t.pipeline_status)
    else t.pipeline_status

abbrev before_implementing : PipelineStatus → Bool
before_implementing PipelineStatus.backlog = true
before_implementing PipelineStatus.grooming = true
before_implementing _ = false

unfoldable pub needs_normalization : TaskRecord → Option Text
unfolding joined lit
needs_normalization t =
    if single_mode t.pipeline_mode
    then none
    else if before_implementing t.pipeline_status
    then none
    else if nonempty t.acceptance_criteria
    then none
    else (let reasons =
          lit "missing acceptance criteria"
          ∷ (if truthy (strip t.goal) then [] else lit "missing goal" ∷ []) in
        some (
          lit "Task is underspecified ("
          ++ (joined reasons ++ lit ") and needs planner normalization before retry.")))
