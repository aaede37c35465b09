-- ===== src/Lifecycle/Runner/Samples.antt =====
-- A run of litehive/lifecycle/runner.py whose agents took too long.
use litehive.Base.{suc, false, ◌≡◌, refl, some, none, [], arith}
use litehive.Base.Text.{lit}
use litehive.Base.Json.{Fields}
use litehive.Domain.Common.{PipelineMode, PipelineState}
use litehive.Lifecycle.Events.{Event}
use litehive.Lifecycle.State.{TaskState, new_state, default_limits}
use litehive.Lifecycle.Rules.{rules}
use litehive.Lifecycle.Runner.Loop.{Outside, finished, run_task}
use litehive.Lifecycle.Runner.Overtime.{TimedOut, run_task-TimedOut}

abbrev slow : TaskState
slow = record (new_state (lit "T-2") PipelineState.testing PipelineMode.full none default_limits) {
  agent_elapsed_tenths = 700;
}

abbrev passing : Outside
passing n s = record {
  event = Event.pass Fields.end;
  started_at = 0;
  ended_at = 5;
  env = record { now = lit "now"; repr = λ v. [] };
  stop_requested = false;
}

run_task-TimedOut_example :
    (u : TaskState) × (run_task rules (some 600) passing 0 (suc 4) slow ≡ finished u) × TimedOut u
run_task-TimedOut_example = run_task-TimedOut 600 passing 0 4 slow (refl, refl, refl) (omega arith)
