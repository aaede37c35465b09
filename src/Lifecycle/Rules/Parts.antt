-- ===== src/Lifecycle/Rules/Parts.antt =====
-- litehive/lifecycle/rules.py, stages.py: the epochs, and the functions that expand to rules.
use litehive.Base.{Option, none, some, List, [], ◌∷◌, ◌++◌}
use litehive.Domain.Common.{PipelineState}
use litehive.Lifecycle.Events.{EventClass}
use litehive.Lifecycle.State.{FailedReason}
use litehive.Lifecycle.Deltas.Patch.{EffectFn}
use litehive.Lifecycle.Deltas.Effects.{enter_recovery, exhaust_recovery_budget, fail}
use litehive.Lifecycle.Guards.{Guard, recovery_budget_available, recovery_budget_exhausted}
use litehive.Lifecycle.Transitions.{StatePattern, one, ToSpec, to_stage, Rule}

abbrev pub grooming_epoch : List PipelineState
grooming_epoch =
    PipelineState.before_grooming ∷ PipelineState.grooming ∷ PipelineState.after_grooming ∷ []

abbrev pub implementing_epoch : List PipelineState
implementing_epoch =
    PipelineState.before_implementing ∷ PipelineState.implementing
    ∷ PipelineState.after_implementing ∷ []

abbrev pub testing_epoch : List PipelineState
testing_epoch =
    PipelineState.before_testing ∷ PipelineState.testing ∷ PipelineState.after_testing ∷ []

abbrev pub accepting_epoch : List PipelineState
accepting_epoch =
    PipelineState.before_accepting ∷ PipelineState.accepting ∷ PipelineState.after_accepting ∷ []

abbrev pub commit_epoch : List PipelineState
commit_epoch = PipelineState.commit ∷ PipelineState.after_commit ∷ []

abbrev pub all_stage_phases : List PipelineState
all_stage_phases =
    grooming_epoch ++ (implementing_epoch ++ (testing_epoch ++ (accepting_epoch ++ commit_epoch)))

-- `Rule(from_state=…, on_event=…, transition_to=…, when=…, with_effect=…)`.
abbrev pub rule : StatePattern → EventClass → ToSpec → Option Guard → Option EffectFn → Rule
rule from on to when effect = record {
  from_state = from;
  on_event = on;
  transition_to = to;
  when = when;
  with_effect = effect;
}

-- `_recovery_rules(from_state, on_event)`; the table never gives it a guard of its own.
unfoldable pub recovery_rules : StatePattern → EventClass → List Rule
recovery_rules from on =
    rule from on (to_stage PipelineState.failed) (some recovery_budget_exhausted)
      (some exhaust_recovery_budget)
    ∷ rule from on (to_stage PipelineState.recovering) (some recovery_budget_available)
        (some enter_recovery)
    ∷ []

unfoldable pub terminal_reject_rules : PipelineState → List Rule
terminal_reject_rules from =
    rule (one from) EventClass.reject (to_stage PipelineState.failed) none
      (some (fail FailedReason.semantic_reject))
    ∷ []

unfoldable pub epoch_terminal_reject_rules : List PipelineState → List Rule
unfolding terminal_reject_rules
epoch_terminal_reject_rules [] = []
epoch_terminal_reject_rules (stage ∷ epoch) =
    terminal_reject_rules stage ++ epoch_terminal_reject_rules epoch
