-- ===== src/Lifecycle/Nodes/Agent.antt =====
-- litehive/lifecycle/nodes/agent.py, litehive/roles/recovery.py: agent-backed nodes. The engines,
-- the selector of engines and the sessions are arguments; pauses between attempts are left out.
use litehive.Base.{
  Bool, false, ◌||◌, Option, none, some, List, [], ◌∷◌, if◌then◌else◌, ◌==◌, or_else,
}
use litehive.Base.Text.{Text, lit, truthy, strip, lower, text_eq}
use litehive.Base.Json.{Value, Fields, get, as_str}
use litehive.Domain.Common.{PipelineState, states, value}
use litehive.Domain.Recovery.{Source}
use litehive.Lifecycle.Events.{Event, DispositionHint}

pub data Verdict : Type 0 where
  pass accept fail reject blocked comment resume advance done budget_hit : Verdict

unfoldable pub verdict_value : Verdict → Text
unfolding lit
verdict_value pass = lit "pass"
verdict_value accept = lit "accept"
verdict_value fail = lit "fail"
verdict_value reject = lit "reject"
verdict_value blocked = lit "blocked"
verdict_value comment = lit "comment"
verdict_value resume = lit "resume"
verdict_value advance = lit "advance"
verdict_value done = lit "done"
verdict_value budget_hit = lit "budget_hit"

abbrev verdicts : List Verdict
verdicts =
    pass ∷ accept ∷ fail ∷ reject ∷ blocked ∷ comment ∷ resume ∷ advance ∷ done ∷ budget_hit ∷ []

parse_in : List Verdict → Text → Option Verdict
parse_in [] s = none
parse_in (v ∷ vs) s = if verdict_value v == s then some v else parse_in vs s

-- `Verdict(text.lower())`, and `none` for its `ValueError`.
unfoldable pub parse_verdict : Text → Option Verdict
unfolding parse_in
parse_verdict s = parse_in verdicts (lower s)

pub record AgentVerdict : Type 0 where
  pub outcome : Text
  pub reason : Text
  pub classification : Option Text
  pub metadata : Fields
  pub source : Source

abbrev solid : Option Text → Option Text
solid none = none
solid (some s) = if truthy (strip s) then some (strip s) else none

unfoldable pub metadata_classification : Fields → Option Text
metadata_classification m =
    or_else (solid (as_str (get (lit "verdict_classification") m)))
      (solid (as_str (get (lit "classification") m)))

abbrev has_text : Option Text → Bool
has_text none = false
has_text (some s) = truthy s

-- `d.setdefault(key, text)`, if there is a text.
unfoldable pub has_field : Text → Fields → Bool
has_field k Fields.end = false
has_field k (Fields.field j v m) = j == k || has_field k m

unfoldable pub set_default : Text → Option Text → Fields → Fields
set_default k none m = m
set_default k (some t) m = if has_field k m then m else Fields.field k (Value.str t) m

unfoldable pub reject_event : AgentVerdict → Option Text → Event
reject_event v classification =
    Event.reject v.source v.reason classification
      (set_default (lit "verdict_classification") classification v.metadata)

unfoldable pub event_for : AgentVerdict → Option Verdict → Event
event_for v none = Event.crash (lit "UnknownVerdict") v.outcome
event_for v (some pass) = Event.pass v.metadata
event_for v (some reject) =
    reject_event v
      (if has_text v.classification then v.classification else metadata_classification v.metadata)
event_for v (some blocked) = Event.blocked v.reason
event_for v (some other) = Event.crash (lit "UnknownVerdict") (verdict_value other)

-- `AgentNode.verdict_to_event`.
unfoldable pub verdict_to_event : AgentVerdict → Event
unfolding event_for reject_event set_default has_field
verdict_to_event v = event_for v (parse_verdict v.outcome)

state_in : List PipelineState → Text → Option PipelineState
state_in [] s = none
state_in (p ∷ ps) s = if value p == s then some p else state_in ps s

-- `canonical_pipeline_state(text)`, and `none` for its `ValueError`.
unfoldable pub canonical_pipeline_state : Text → Option PipelineState
unfolding state_in
canonical_pipeline_state s = state_in states s

abbrev reason_or : Text → Text → Text
reason_or fallback s = if truthy s then s else fallback

abbrev text_or_empty : Option Text → Text
text_or_empty none = []
text_or_empty (some s) = s

-- `str(metadata.get("target_stage") or "").strip()`.
abbrev pub target_text : Fields → Text
target_text m = strip (text_or_empty (as_str (get (lit "target_stage") m)))

unfoldable pub resume_event : Text → DispositionHint → Text → Option Event
resume_event missing hint target =
    if truthy target
    then elim (canonical_pipeline_state target) [
      | none ↦ none
      | some stage ↦ some (Event.recovery_succeeded (some stage) hint)
    ]
    else some (Event.recovery_failed missing)

unfoldable pub recovery_event_for : AgentVerdict → Option Verdict → Option Event
recovery_event_for v (some resume) =
    resume_event (lit "recovery resume verdict missing target_stage") DispositionHint.resume
      (target_text v.metadata)
recovery_event_for v (some advance) =
    resume_event (lit "recovery advance verdict missing target_stage") DispositionHint.advance
      (target_text v.metadata)
recovery_event_for v (some done) =
    some (Event.recovery_succeeded (some PipelineState.done) DispositionHint.done)
recovery_event_for v (some budget_hit) = some Event.recovery_budget_hit
recovery_event_for v _ = some (Event.recovery_failed (reason_or (lit "recovery_failed") v.reason))

-- `RecoveryAgent.verdict_to_event`; `none` stands for the `ValueError` of an unknown target stage.
unfoldable pub recovery_verdict_to_event : AgentVerdict → Option Event
unfolding recovery_event_for resume_event
recovery_verdict_to_event v = recovery_event_for v (parse_verdict v.outcome)
