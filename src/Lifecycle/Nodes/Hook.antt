-- ===== src/Lifecycle/Nodes/Hook.antt =====
-- litehive/lifecycle/nodes/hook.py, litehive/feedback.py: a phase of configured hooks. Running the
-- command is an argument.
use litehive.Base.{
  ℕ, ◌+◌, ◌-◌, Option, none, some, List, [], ◌∷◌, ◌++◌, leb, if◌then◌else◌, length, take,
}
use litehive.Base.Text.{Text, lit, strip, truthy}
use litehive.Base.Json.{Value, Items, Fields}
use litehive.Domain.Common.{PipelineState, value}
use litehive.Domain.Recovery.{Source}
use litehive.Lifecycle.Events.{Event}
use litehive.Lifecycle.State.{TaskState}
use litehive.Lifecycle.Deltas.Tracking.{same_fingerprint}

pub record HookSpec : Type 0 where
  pub command : Text
  pub timeout_seconds : ℕ
  pub description : Option Text
  pub instructions_on_failure : Option Text

-- A failed command: its exit code as it is printed, and its output.
pub record Failed : Type 0 where
  pub returncode : Text
  pub stdout : Text
  pub stderr : Text

unfoldable pub truncation_marker : Text
unfolding lit
truncation_marker = 10 ∷ 10 ∷ lit "… [truncated — full execution trace in subagent artifacts]"

unfoldable pub cap_feedback : Text → Text
unfolding truncation_marker
cap_feedback s =
    if leb (length s) 2000 then s else take (2000 - length truncation_marker) s ++ truncation_marker

abbrev text_or_empty : Option Text → Text
text_or_empty none = []
text_or_empty (some s) = s

unfoldable pub hook_description : HookSpec → Text
hook_description spec = strip (text_or_empty spec.description)

-- `f"{point}|{spec.command}|{description}"`.
unfoldable pub hook_identity : PipelineState → HookSpec → Text
hook_identity point spec =
    value point ++ (lit "|" ++ (spec.command ++ (lit "|" ++ hook_description spec)))

unfoldable pub hook_fields : PipelineState → HookSpec → Fields
hook_fields point spec = Fields.field (lit "point") (Value.str (value point)) (
    Fields.field (lit "command") (Value.str spec.command) (
      Fields.field (lit "description") (Value.str (hook_description spec))
        (Fields.field (lit "fingerprint") (Value.str (hook_identity point spec)) Fields.end)))

-- A part of the warning, on a line of its own, if there is something to say.
abbrev line : Text → Text → Text
line label s = if truthy s then 10 ∷ (label ++ s) else []

warning : PipelineState → HookSpec → Failed → Text
warning point spec r =
    lit "Runner hook warning at `"
    ++ (value point
        ++ (lit "`: `"
            ++ (spec.command
                ++ (lit "` exited with "
                    ++ (r.returncode
                        ++ (lit "."
                            ++ (line (lit "Description: ") (hook_description spec)
                                ++ ((if truthy r.stdout
                                      then 10 ∷ (lit "stdout:" ++ 10 ∷ cap_feedback r.stdout)
                                      else [])
                                    ++ ((if truthy r.stderr
                                          then 10 ∷ (lit "stderr:" ++ 10 ∷ cap_feedback r.stderr)
                                          else [])
                                        ++ line (lit "Instructions on failure: ")
                                            (text_or_empty spec.instructions_on_failure))))))))))

unfoldable pub same_hook_rejects : TaskState → Text → ℕ
same_hook_rejects s identity =
    if same_fingerprint s.last_hook_reject_fingerprint identity
    then s.consecutive_same_hook_rejects + 1
    else 1

hook_reason : PipelineState → HookSpec → Text
hook_reason point spec =
    lit "Runner hook rejected at `"
    ++ (value point
        ++ (lit "`: `"
            ++ (spec.command
                ++ (lit "`."
                    ++ (if truthy (hook_description spec)
                        then lit " Description: " ++ hook_description spec
                        else [])))))

-- `_reject`.
unfoldable pub hook_reject : PipelineState → HookSpec → Failed → TaskState → Event
unfolding warning hook_reason
hook_reject point spec r s = Event.reject Source.hook (hook_reason point spec) none (
    Fields.field (lit "hook") (Value.obj (hook_fields point spec)) (
      Fields.field (lit "warnings")
        (Value.arr (Items.cons (Value.str (warning point spec r)) Items.nil))
        (Fields.field (lit "consecutive_same_hook_rejects")
          (Value.int (same_hook_rejects s (hook_identity point spec))) Fields.end)))

-- `HookNode.run`; `runner` is `HookRunner.run`, with `none` for a hook that passed.
unfoldable pub hook_run :
    PipelineState → (HookSpec → TaskState → Option Failed) → List HookSpec → TaskState → Event
hook_run point runner [] s = Event.hook_ok []
hook_run point runner (spec ∷ specs) s =
    let rest = hook_run point runner specs s in
    elim (runner spec s) [ none ↦ rest | some r ↦ hook_reject point spec r s ]
