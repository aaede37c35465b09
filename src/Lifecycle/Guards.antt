-- ===== src/Lifecycle/Guards.antt =====
-- litehive/lifecycle/guards.py: the predicates of the rules. A guard's description, which only
-- diagnostics print, is left out.
use litehive.Base.{
  ℕ, Bool, true, false, not, ◌&&◌, ◌||◌, Option, none, some, ltb, leb, is_some, nat_beq,
}
use litehive.Base.Json.{get, as_int}
use litehive.Base.Text.{lit}
use litehive.Domain.Common.{PipelineMode, PipelineState}
use litehive.Domain.Recovery.{Source}
use litehive.Lifecycle.Events.{Event}
use litehive.Lifecycle.State.{TaskState, Limits, LastReport}
use litehive.Lifecycle.State as State
use litehive.Lifecycle.Deltas.Tracking as Tracking
use litehive.Lifecycle.Deltas.Failure.{retries, recovery_trigger_from_event}

abbrev pub Guard : Type 0
Guard = TaskState → Event → Bool

-- `&`, `|` and `~` on guards.
abbrev pub both : Guard → Guard → Guard
both left right s e = left s e && right s e

abbrev pub either : Guard → Guard → Guard
either left right s e = left s e || right s e

abbrev pub negated : Guard → Guard
negated inner s e = not (inner s e)

abbrev mode_beq : PipelineMode → PipelineMode → Bool
mode_beq PipelineMode.single PipelineMode.single = true
mode_beq PipelineMode.full PipelineMode.full = true
mode_beq _ _ = false

unfoldable pub mode : PipelineMode → Guard
mode want s e = mode_beq s.pipeline_mode want

unfoldable pub stage_retries_remaining : PipelineState → Guard
stage_retries_remaining stage s e = ltb (retries s stage) s.limits.stage_retry_limit

unfoldable pub stage_retries_exhausted : PipelineState → Guard
stage_retries_exhausted stage s e = leb s.limits.stage_retry_limit (retries s stage)

unfoldable pub last_hook_ok : Guard
last_hook_ok s e = s.last_report.hook_ok

abbrev at_least : ℕ → Option ℕ → Bool
at_least limit none = false
at_least limit (some n) = leb limit n

unfoldable pub hook_reject_loop_detected : Guard
hook_reject_loop_detected s (Event.reject Source.hook reason classification metadata) =
    at_least s.limits.same_hook_reject_limit
      (as_int (get (lit "consecutive_same_hook_rejects") metadata))
hook_reject_loop_detected s _ = false

unfoldable pub rejection_loop_detected : PipelineState → Guard
rejection_loop_detected target s e = Tracking.rejection_loop_detected s e (some target)

unfoldable pub zero_change_shortcut : Guard
zero_change_shortcut s e =
    nat_beq s.last_report.files_changed 0 && nat_beq s.last_report.tests_added 0

unfoldable pub pre_exec_budget_remaining : Guard
pre_exec_budget_remaining s e = ltb s.pre_exec_recovery_attempt 1

unfoldable pub recovery_budget_available : Guard
recovery_budget_available s e = State.recovery_budget_available s (recovery_trigger_from_event s e)

unfoldable pub recovery_budget_exhausted : Guard
recovery_budget_exhausted = negated recovery_budget_available

-- A resume target that is not blank.
unfoldable pub recovery_resume_is_concrete : Guard
recovery_resume_is_concrete s (Event.recovery_succeeded resume hint) = is_some resume
recovery_resume_is_concrete s _ = false
