-- ===== src/Lifecycle/Runner/History.antt =====
-- litehive/lifecycle/runner.py, domain/lifecycle_deltas.py: the history of failed runs.
use litehive.Base.{ℕ, Option, none, some, if◌then◌else◌, leb, ◌==◌}
use litehive.Base.Text.{Text, text_eq}
use litehive.Base.Dict.{Dict, lookup}
use litehive.Domain.Common.{PipelineState}
use litehive.Lifecycle.Events.{Event}
use litehive.Lifecycle.State.{FailedReason, FailedRunRecord, TaskState, failed_run_key}
use litehive.Lifecycle.Deltas.Failure.{event_failure_shape, retries, retry_counter_stage}

abbrev runs_of : Option FailedRunRecord → ℕ
runs_of none = 0
runs_of (some r) = r.count

-- How often a run failed in the shape of a key, by the history.
abbrev pub failed_runs : Text → Dict Text FailedRunRecord → ℕ
failed_runs key history = runs_of (lookup key history)

-- The failed runs that a failure adds under a key: one for a semantic reject at a stage whose
-- counter has no retry left, under the key of that counter and the shape of the event.
abbrev pub runs_at : TaskState → Event → Text → Option PipelineState → ℕ
runs_at s e key none = 0
runs_at s e key (some counter) =
    if leb s.limits.stage_retry_limit (retries s counter)
    then (if failed_run_key counter (event_failure_shape e) == key then 1 else 0)
    else 0

abbrev pub new_runs : TaskState → Event → FailedReason → Text → ℕ
new_runs s e FailedReason.semantic_reject key = runs_at s e key (retry_counter_stage (some s.stage))
new_runs s e _ key = 0
