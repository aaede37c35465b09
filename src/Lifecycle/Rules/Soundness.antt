-- ===== src/Lifecycle/Rules/Soundness.antt =====
-- litehive/lifecycle/rules.py: the kinds of rules, each a move of `Edge`.
use litehive.Base.{
  true, ◌≡◌, refl, sym, subst, Option, none, some, List, [], ◌∷◌, ◌++◌, All, All-append,
  false_of_not,
}
use litehive.Base.Text.{Text}
use litehive.Domain.Common.{PipelineState, state_beq_iff}
use litehive.Lifecycle.Events.{Event, EventClass, class_of}
use litehive.Lifecycle.State.{FailedReason, TaskState}
use litehive.Lifecycle.Deltas.Patch.{EffectFn}
use litehive.Lifecycle.Deltas.Tracking.{clear_completed_rejection_loop}
use litehive.Lifecycle.Deltas.Effects.{fail, record_recovery_success}
use litehive.Lifecycle.Guards.{
  Guard, rejection_loop_detected, hook_reject_loop_detected, stage_retries_exhausted,
  stage_retries_remaining, recovery_resume_is_concrete, recovery_budget_available,
  recovery_budget_exhausted,
}
use litehive.Lifecycle.Transitions.{
  no_transition, Result, ok, raise, Rule, StatePattern, one, any_of, to_stage, to_fn, Transition,
  matches_from, fire, allows, delta_of, retry_epoch_rules, phase_rules, resume_from_pre_exec,
  resume_from_origin,
}
use litehive.Lifecycle.Transitions.First.{Gives, applies_from, applies_class, applies_guard}
use litehive.Lifecycle.Rules.Parts.{
  all_stage_phases, rule, recovery_rules, terminal_reject_rules, epoch_terminal_reject_rules,
}
use litehive.Lifecycle.Rules.Edge.{
  Edge, Plain, Counts, Passes, Leaves, Recoverable, in_phase, Starts, Refuses, Fails,
}

-- A transition is a move; no rule may raise, but there may be no rule.
abbrev pub Follows : Text → PipelineState → Event → TaskState → Result Transition → Type 0
Follows now from e s (ok t) = Edge now s e from t.next t.delta
Follows now from e s (raise (no_transition _ _)) = Unit
Follows now from e s (raise _) = ⊥

abbrev pub resume_rule : Rule
resume_rule =
    rule (one PipelineState.recovering_pre_exec) EventClass.pre_exec_recovery_succeeded
      (to_fn resume_from_pre_exec) none none

pub resume-Follows :
    (now : Text) (s : TaskState) (e : Event)
    → class_of e ≡ EventClass.pre_exec_recovery_succeeded
    → Follows now PipelineState.recovering_pre_exec e s (fire resume_rule now e s)
unfolding fire resume_from_pre_exec
resume-Follows now s (Event.pre_exec_recovery_succeeded target) c =
    Edge.resume target refl refl refl refl
resume-Follows now s _ c = cc

abbrev pub recovered_rule : Rule
recovered_rule =
    rule (one PipelineState.recovering) EventClass.recovery_succeeded (to_fn resume_from_origin)
      (some recovery_resume_is_concrete) (some record_recovery_success)

pub recovered-Follows :
    (now : Text) (s : TaskState) (e : Event)
    → recovery_resume_is_concrete s e ≡ true
    → Follows now PipelineState.recovering e s (fire recovered_rule now e s)
unfolding fire resume_from_origin recovery_resume_is_concrete
recovered-Follows now s (Event.recovery_succeeded none hint) c = cc
recovered-Follows now s (Event.recovery_succeeded (some PipelineState.done) hint) c =
    Edge.recovered PipelineState.done hint refl refl refl refl
recovered-Follows now s (Event.recovery_succeeded (some target) hint) c =
    Edge.recovered target hint refl refl refl refl
recovered-Follows now s _ c = cc

-- The set of stages of the wildcards.
pub any_of-in_phase :
    (p : PipelineState) → matches_from (any_of all_stage_phases) p ≡ true → in_phase p ≡ true
any_of-in_phase PipelineState.ready h = cc
any_of-in_phase PipelineState.worktree_sync h = cc
any_of-in_phase PipelineState.recovering_pre_exec h = cc
any_of-in_phase PipelineState.merge_resolving h = cc
any_of-in_phase PipelineState.recovering h = cc
any_of-in_phase PipelineState.done h = cc
any_of-in_phase PipelineState.failed h = cc
any_of-in_phase _ h = refl

module _ (now : Text) (from : PipelineState) (e : Event) (s : TaskState) where
  abbrev pub Sound : Rule → Type 0
  Sound = Gives now from e s (Follows now from e s)

  -- A rule with a fixed target is a move if its parts are those of one.
  pub anywhere :
      (pattern : StatePattern) (on : EventClass) (to : PipelineState) (when : Option Guard)
      (effect : Option EffectFn)
      → (matches_from pattern from ≡ true
          → class_of e ≡ on
          → allows when s e ≡ true
          → Edge now s e from to (delta_of effect now s e))
      → Sound (rule pattern on (to_stage to) when effect)
  unfolding fire
  anywhere pattern on to when effect edge h =
      let r = rule pattern on (to_stage to) when effect in
      edge (applies_from r from e s h) (applies_class r from e s h) (applies_guard r from e s h)

  pub static :
      (p : PipelineState) (on : EventClass) (to : PipelineState) (when : Option Guard)
      (effect : Option EffectFn)
      → (from ≡ p
          → class_of e ≡ on
          → allows when s e ≡ true
          → Edge now s e from to (delta_of effect now s e))
      → Sound (rule (one p) on (to_stage to) when effect)
  static p on to when effect edge =
      anywhere (one p) on to when effect
        λ same cls ok. edge (sym ((state_beq_iff p from).0 same)) cls ok

  pub at :
      (r : Rule) (p : PipelineState)
      → r.from_state ≡ one p
      → (class_of e ≡ r.on_event → allows r.when s e ≡ true → Follows now p e s (fire r now e s))
      → Sound r
  at r p same follows h =
      let here : p ≡ from =
        (state_beq_iff p from).0
          (subst (λ q. matches_from q from ≡ true) same (applies_from r from e s h)) in
      subst (λ q. Follows now q e s (fire r now e s)) here
        (follows (applies_class r from e s h) (applies_guard r from e s h))

  pub plain :
      {p to : PipelineState} {on : EventClass}
      → Plain p on to
      → Sound (rule (one p) on (to_stage to) none none)
  plain {p} {to} {on} m = static p on to none none λ same cls _.
      Edge.plain (subst (λ c. Plain from c to) (sym cls) (subst (λ q. Plain q on to) (sym same) m))
        refl

  pub pass :
      {p to : PipelineState}
      → Passes p to
      → Sound
          (rule (one p) EventClass.pass (to_stage to) none (some clear_completed_rejection_loop))
  pass {p} {to} m =
      static p _ to none _ λ same cls _. Edge.pass (subst (λ q. Passes q to) (sym same) m) cls refl

  pub leave :
      (to : PipelineState) (when : Guard)
      → (when s e ≡ true → Leaves s e to)
      → Sound (
          rule
            (one PipelineState.after_implementing)
            EventClass.hook_ok
            (to_stage to)
            (some when)
            none)
  leave to when m = static _ _ to (some when) none λ same cls ok. Edge.leave same cls (m ok) refl

  pub fails :
      (p : PipelineState) (on : EventClass) (when : Option Guard) (reason : FailedReason)
      → (class_of e ≡ on → allows when s e ≡ true → Fails s e p reason)
      → Sound (rule (one p) on (to_stage PipelineState.failed) when (some (fail reason)))
  fails p on when reason why = static p on _ when (some (fail reason)) λ same cls ok.
      Edge.fails reason (subst (λ q. Fails s e q reason) (sym same) (why cls ok)) refl refl

  pub fails_anywhere :
      (on : EventClass) (reason : FailedReason)
      → (in_phase from ≡ true → class_of e ≡ on → Fails s e from reason)
      → Sound (
          rule
            (any_of all_stage_phases)
            on
            (to_stage PipelineState.failed)
            none
            (some (fail reason)))
  fails_anywhere on reason why =
      anywhere (any_of all_stage_phases) on _ none (some (fail reason))
        λ same cls _. Edge.fails reason (why (any_of-in_phase from same) cls) refl refl

  pub recovery-Sound :
      (pattern : StatePattern) {on : EventClass}
      → Recoverable on
      → (matches_from pattern from ≡ true → Starts from on)
      → All Sound (recovery_rules pattern on)
  unfolding recovery_rules recovery_budget_exhausted
  recovery-Sound pattern {on} r starts = (
    anywhere pattern on _ (some recovery_budget_exhausted) _ (λ same cls ok.
        Edge.spent (subst Recoverable (sym cls) r) (subst (Starts from) (sym cls) (starts same))
          (false_of_not _ ok) refl refl),
    (
      anywhere pattern on _ (some recovery_budget_available) _ (λ same cls ok.
          Edge.recover (subst Recoverable (sym cls) r) (subst (Starts from) (sym cls) (starts same))
            ok refl refl),
      tt,
    ),
  )

  -- The same at one stage.
  pub recovery_at :
      {p : PipelineState} {on : EventClass}
      → Recoverable on
      → Starts p on
      → All Sound (recovery_rules (one p) on)
  recovery_at {p} {on} r starts =
      recovery-Sound (one p) r
        λ same. subst (λ q. Starts q on) ((state_beq_iff p from).0 same) starts

  pub terminal-Sound : {p : PipelineState} → Refuses p → All Sound (terminal_reject_rules p)
  unfolding terminal_reject_rules
  terminal-Sound {p} m = (fails p _ none _ (λ cls _. Fails.refused m cls), tt)

  pub epoch_terminal-Sound :
      (epoch : List PipelineState)
      → All Refuses epoch
      → All Sound (epoch_terminal_reject_rules epoch)
  unfolding epoch_terminal_reject_rules
  epoch_terminal-Sound [] m = tt
  epoch_terminal-Sound (p ∷ ps) m =
      All-append Sound (terminal_reject_rules p) _ (terminal-Sound m.0)
        (epoch_terminal-Sound ps m.1)

  pub phase-Sound :
      (counter phase : PipelineState)
      → Counts counter phase
      → All Sound
          (phase_rules counter phase PipelineState.implementing FailedReason.semantic_reject)
  phase-Sound counter phase m = (
    static phase _ _ (some (rejection_loop_detected PipelineState.implementing)) _
        (λ same cls ok. Edge.loops counter (subst (Counts counter) (sym same) m) cls ok refl refl),
    (
      fails phase _ (some hook_reject_loop_detected) FailedReason.hook_reject_loop
          (λ cls ok. Fails.hook_loop counter m cls ok),
      (
        static phase _ _ (some (stage_retries_remaining counter)) _ (λ same cls ok.
            Edge.retry counter (subst (Counts counter) (sym same) m) cls ok refl refl),
        (
          fails phase _ (some (stage_retries_exhausted counter)) FailedReason.semantic_reject
              (λ cls ok. Fails.no_retry counter m cls ok),
          tt,
        ),
      ),
    ),
  )

  pub retry_epoch-Sound :
      (counter : PipelineState) (phases : List PipelineState)
      → All (Counts counter) phases
      → All Sound
          (retry_epoch_rules counter phases PipelineState.implementing FailedReason.semantic_reject)
  unfolding retry_epoch_rules
  retry_epoch-Sound counter [] m = tt
  retry_epoch-Sound counter (p ∷ ps) m =
      All-append Sound
        (phase_rules counter p PipelineState.implementing FailedReason.semantic_reject) _
        (phase-Sound counter p m.0) (retry_epoch-Sound counter ps m.1)

  abbrev pub join : (xs ys : List Rule) → All Sound xs → All Sound ys → All Sound (xs ++ ys)
  join = All-append Sound
