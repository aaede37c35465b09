-- ===== src/Domain/Recovery.antt =====
-- litehive/domain/recovery.py: fingerprints, triggers and outcomes of recovery.
use litehive.Base.{Option, none, some, ◌++◌, if◌then◌else◌}
use litehive.Base.Text.{Text, lit, truthy, strip, strip_prefix}
use litehive.Base.Json.{Fields}
use litehive.Domain.Common.{PipelineState, value}

-- Who produced a reject (the `Literal` of `Reject.source`).
pub data Source : Type 0 where
  agent hook guard system : Source

unfoldable pub source_value : Source → Text
unfolding lit
source_value agent = lit "agent"
source_value hook = lit "hook"
source_value guard = lit "guard"
source_value system = lit "system"

pub data TriggerEventKind : Type 0 where
  reject semantic_reject blocked crash timeout stage_retry_limit retry_limit : TriggerEventKind
  flagged_task stale_runner_recovery unknown : TriggerEventKind

unfoldable pub kind_value : TriggerEventKind → Text
unfolding lit
kind_value reject = lit "reject"
kind_value semantic_reject = lit "semantic_reject"
kind_value blocked = lit "blocked"
kind_value crash = lit "crash"
kind_value timeout = lit "timeout"
kind_value stage_retry_limit = lit "stage_retry_limit"
kind_value retry_limit = lit "retry_limit"
kind_value flagged_task = lit "flagged_task"
kind_value stale_runner_recovery = lit "stale_runner_recovery"
kind_value unknown = lit "unknown"

pub data RecoveryDisposition : Type 0 where
  resumed advanced completed terminated : RecoveryDisposition

pub record FailureFingerprint : Type 0 where
  pub fingerprint : Text
  pub classification : Option Text
  pub diagnostics : Fields

-- `classification or fingerprint`: an empty classification counts as none.
unfoldable pub fingerprint_budget_key : FailureFingerprint → Text
fingerprint_budget_key f = elim f.classification [
  | none ↦ f.fingerprint
  | some c ↦ if truthy c then c else f.fingerprint
]

pub record RecoveryTrigger : Type 0 where
  pub origin_stage : Option PipelineState
  pub trigger_event_kind : TriggerEventKind
  pub failure_fingerprint : FailureFingerprint
  pub source : Option Source
  pub reason_code : Option Text
  pub message : Text
  pub diagnostics : Fields

abbrev pub origin_label : Text → Option PipelineState → Text
origin_label missing none = missing
origin_label missing (some s) = value s

unfoldable pub budget_key : RecoveryTrigger → Text
budget_key t =
    origin_label (lit "<unknown>") t.origin_stage
    ++ (lit ":" ++ fingerprint_budget_key t.failure_fingerprint)

pub record RecoveryOutcome : Type 0 where
  pub trigger : RecoveryTrigger
  pub recovery_verdict : Text
  pub disposition : RecoveryDisposition
  pub reason_code : Option Text
  pub message : Text
  pub created_at : Text

unfoldable pub blocked_on_follow_up_reason : Text → Text
blocked_on_follow_up_reason id = lit "blocked_on_follow_up:" ++ strip id

unfoldable pub parse_blocked_on_follow_up_reason : Option Text → Option Text
parse_blocked_on_follow_up_reason none = none
parse_blocked_on_follow_up_reason (some reason) =
    elim (strip_prefix (lit "blocked_on_follow_up:") (strip reason)) [
      | none ↦ none
      | some rest ↦ let id = strip rest in if truthy id then some id else none
    ]
