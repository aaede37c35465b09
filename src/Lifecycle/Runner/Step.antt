-- ===== src/Lifecycle/Runner/Step.antt =====
-- litehive/lifecycle/runner.py: one transition (`_apply_transition` and what it calls).
use litehive.Base.{
  ℕ, suc, Bool, true, false, not, ◌&&◌, ◌||◌, Option, none, some, List, [], ◌∷◌, if◌then◌else◌,
  ◌==◌,
}
use litehive.Base.Text.{Text, lit, truthy, strip, decimal}
use litehive.Base.Json.{Value, Items, Fields, get, as_int, as_str, as_dict, as_list}
use litehive.Domain.Common.{PipelineState, state_eq, primary_stage}
use litehive.Domain.Recovery.{Source}
use litehive.Lifecycle.Events.{Event}
use litehive.Lifecycle.State.{LastReport, CommitResult, TaskState}
use litehive.Lifecycle.Stages.{is_agent_stage}
use litehive.Lifecycle.Transitions.{Rule, Transition, Result, ok, ◌>>=◌, evaluate}
use litehive.Lifecycle.Runner.Apply.{or_keep, clear_hook_reject_tracking, apply_delta}

-- `str(item)`; that of a list or a dictionary in a list is the argument `repr`.
abbrev text_of_item : (Value → Text) → Value → Text
text_of_item repr (Value.str s) = s
text_of_item repr Value.null = lit "None"
text_of_item repr (Value.bool true) = lit "True"
text_of_item repr (Value.bool false) = lit "False"
text_of_item repr (Value.int n) = decimal n
text_of_item repr (Value.arr xs) = repr (Value.arr xs)
text_of_item repr (Value.obj m) = repr (Value.obj m)

unfoldable pub normalize_report_string_list : (Value → Text) → Items → List Text
normalize_report_string_list repr Items.nil = []
normalize_report_string_list repr (Items.cons v vs) =
    let text = strip (text_of_item repr v) in
    let rest = normalize_report_string_list repr vs in if truthy text then text ∷ rest else rest

unfoldable pub count_items : Items → ℕ
count_items Items.nil = 0
count_items (Items.cons v vs) = suc (count_items vs)

abbrev with_files : (Value → Text) → Value → LastReport → LastReport
with_files repr (Value.arr xs) r = record r {
  files_changed = count_items xs;
  changed_files = normalize_report_string_list repr xs;
}
with_files repr v r = record r { files_changed = or_keep (as_int v) r.files_changed }

abbrev list_or : (Value → Text) → Option Items → List Text → List Text
list_or repr none old = old
list_or repr (some xs) old = normalize_report_string_list repr xs

abbrev with_last_report : (Value → Text) → Option Fields → LastReport → LastReport
with_last_report repr none r = r
with_last_report repr (some m) r = record r {
  changed_files = list_or repr (as_list (get (lit "changed_files") m)) r.changed_files;
  test_results = list_or repr (as_list (get (lit "test_results") m)) r.test_results;
}

-- The report after a `Pass` with this metadata.
unfoldable pub pass_report : (Value → Text) → Fields → LastReport → LastReport
pass_report repr meta r =
    let r1 = with_files repr (get (lit "files_changed") meta) r in
    let r2 = record r1 {
      tests_added = or_keep (as_int (get (lit "tests_added") meta)) r1.tests_added;
    } in
    with_last_report repr (as_dict (get (lit "last_report") meta)) r2

abbrev landed : Option Text → Option Text → Option CommitResult → Option CommitResult
landed none reason old = old
landed (some sha) reason old =
    if truthy sha then some (record { head_sha = sha; reason = reason }) else old

unfoldable pub pass_commit : Fields → Option CommitResult → Option CommitResult
pass_commit meta old = elim (as_dict (get (lit "commit_result") meta)) [
  | none ↦ old
  | some m ↦ landed (as_str (get (lit "head_sha") m)) (as_str (get (lit "reason") m)) old
]

-- `state.last_report.hook_ok = …`.
abbrev set_hook_ok : Bool → TaskState → TaskState
set_hook_ok b s = let r = s.last_report in record s { last_report = record r { hook_ok = b } }

unfoldable pub apply_event_side_effects : (Value → Text) → TaskState → Event → TaskState
apply_event_side_effects repr s (Event.hook_ok warnings) = set_hook_ok true s
apply_event_side_effects repr s (Event.reject Source.hook reason classification metadata) =
    set_hook_ok false s
apply_event_side_effects repr s (Event.pass meta) = record s {
  last_report = pass_report repr meta s.last_report;
  commit_result = pass_commit meta s.commit_result;
}
apply_event_side_effects repr s _ = s

abbrev is_progress : Event → Bool
is_progress (Event.pass _) = true
is_progress (Event.hook_ok _) = true
is_progress _ = false

abbrev lands : PipelineState → Bool
lands s = s == PipelineState.commit || s == PipelineState.merge_resolving

unfoldable pub reset_hook_reject_tracking_on_progress :
    TaskState → PipelineState → PipelineState → Event → TaskState
reset_hook_reject_tracking_on_progress s from to e =
    if is_progress e && (not (primary_stage from == primary_stage to) || lands from)
    then clear_hook_reject_tracking s true
    else s

abbrev is_agent_reject : Event → Bool
is_agent_reject (Event.reject Source.agent reason classification metadata) = true
is_agent_reject _ = false

-- The stage whose saved sessions are dropped, if any.
unfoldable pub reset_cross_agent_retry_sessions :
    PipelineState → PipelineState → Event → Option PipelineState
reset_cross_agent_retry_sessions from to e =
    let from_agent = primary_stage from in
    let to_agent = primary_stage to in
    if is_agent_reject e
      && not (from_agent == to_agent)
      && is_agent_stage from_agent
      && is_agent_stage to_agent
    then some to_agent
    else none

-- What a transition leaves: the state, which is also what `persistence.save`, `state_sync` and the
-- observer get, the transition that the journal records, and the stage whose sessions are dropped.
pub record Outcome : Type 0 where
  pub state : TaskState
  pub transition : Transition
  pub cleared_sessions : Option PipelineState

-- What a step reads from outside: the clock's text and `repr` of nested values.
pub record Env : Type 0 where
  pub now : Text
  pub repr : Value → Text

unfoldable pub settle : Env → PipelineState → Event → TaskState → Transition → Outcome
settle env from e s t =
    let patched = apply_event_side_effects env.repr (apply_delta s t.delta) e in
    let moved = record patched { stage = t.next } in
    record {
      state = reset_hook_reject_tracking_on_progress moved from t.next e;
      transition = t;
      cleared_sessions = reset_cross_agent_retry_sessions from t.next e;
    }

unfoldable pub apply_transition : List Rule → Env → TaskState → Event → Result Outcome
unfolding settle
apply_transition rules env s e = do
  t ← evaluate rules env.now s.stage e s
  ok (settle env s.stage e s t)
