-- ===== src/Lifecycle/Rules/Gates.antt =====
-- litehive/lifecycle/rules.py: what a task went through before it commits, ends or recovers.
use litehive.Base.{
  true, ◌≡◌, refl, sym, ap, ◌∙◌, subst, ◌≢◌, Option, none, some, is_some, arith, nat_beq_iff,
  and_left, and_right,
}
use litehive.Base.Text.{Text}
use litehive.Domain.Common.{PipelineMode, PipelineState}
use litehive.Lifecycle.Events.{Event, EventClass, class_of}
use litehive.Lifecycle.State.{TaskState}
use litehive.Lifecycle.Deltas.Patch.{StateDelta}
use litehive.Lifecycle.Deltas.Failure.{recovery_trigger_from_event}
use litehive.Lifecycle.Deltas.Effects.{
  enter_recovery, fail, fail_rejection_loop, exhaust_recovery_budget,
}
use litehive.Lifecycle.Guards.{mode, zero_change_shortcut, recovery_budget_available}
use litehive.Lifecycle.Transitions.{ok, Transition, evaluate, entry_phase, resume_phase, entry_of}
use litehive.Lifecycle.Rules.{rules}
use litehive.Lifecycle.Rules.Edge.{Edge, Plain, Passes, Leaves, Recoverable}
use litehive.Lifecycle.Rules.Refinement.{evaluate-Edge}

-- The stage that a recovery, a pre-execution recovery or the task's own entry names as the next.
abbrev pub named_target : TaskState → Event → Option PipelineState
named_target s (Event.recovery_succeeded resume hint) = resume
named_target s (Event.pre_exec_recovery_succeeded target) = some target
named_target s (Event.pass metadata) = s.entry_stage
named_target s _ = none

-- The stages that are no hook stage and that only an explicit name reaches.
pub data Special : PipelineState → Type 0 where
  commit : Special PipelineState.commit
  done : Special PipelineState.done
  failed : Special PipelineState.failed
  recovering : Special PipelineState.recovering

resume_phase-eq : (x t : PipelineState) → Special x → resume_phase t ≡ x → t ≡ x
unfolding entry_phase
resume_phase-eq x PipelineState.grooming Special.commit h = cc
resume_phase-eq x PipelineState.grooming Special.done h = cc
resume_phase-eq x PipelineState.grooming Special.failed h = cc
resume_phase-eq x PipelineState.grooming Special.recovering h = cc
resume_phase-eq x PipelineState.implementing Special.commit h = cc
resume_phase-eq x PipelineState.implementing Special.done h = cc
resume_phase-eq x PipelineState.implementing Special.failed h = cc
resume_phase-eq x PipelineState.implementing Special.recovering h = cc
resume_phase-eq x PipelineState.testing Special.commit h = cc
resume_phase-eq x PipelineState.testing Special.done h = cc
resume_phase-eq x PipelineState.testing Special.failed h = cc
resume_phase-eq x PipelineState.testing Special.recovering h = cc
resume_phase-eq x PipelineState.accepting Special.commit h = cc
resume_phase-eq x PipelineState.accepting Special.done h = cc
resume_phase-eq x PipelineState.accepting Special.failed h = cc
resume_phase-eq x PipelineState.accepting Special.recovering h = cc
resume_phase-eq x _ m h = h

entry_of-eq :
    (x : PipelineState) (mode : PipelineMode) (entry : Option PipelineState)
    → Special x
    → entry_of mode entry ≡ x
    → entry ≡ some x
entry_of-eq x mode (some t) m h = ap {B = Option PipelineState} some (resume_phase-eq x t m h)
entry_of-eq x PipelineMode.single none Special.commit h = cc
entry_of-eq x PipelineMode.single none Special.done h = cc
entry_of-eq x PipelineMode.single none Special.failed h = cc
entry_of-eq x PipelineMode.single none Special.recovering h = cc
entry_of-eq x PipelineMode.full none Special.commit h = cc
entry_of-eq x PipelineMode.full none Special.done h = cc
entry_of-eq x PipelineMode.full none Special.failed h = cc
entry_of-eq x PipelineMode.full none Special.recovering h = cc

named_pass :
    (s : TaskState) (e : Event) → class_of e ≡ EventClass.pass → named_target s e ≡ s.entry_stage
named_pass s (Event.pass metadata) c = refl
named_pass s _ c = cc

single_of_mode :
    (s : TaskState) (e : Event)
    → mode PipelineMode.single s e ≡ true
    → s.pipeline_mode ≡ PipelineMode.single
unfolding mode
single_of_mode s e h = ground arith

-- How a move gets to a special stage that nothing names: by its own kind of edge.
pub data Reaches (now : Text) (s : TaskState) (e : Event) (from : PipelineState) (d : StateDelta)
    : PipelineState → Type 0 where
  commit_accepted :
      from ≡ PipelineState.after_accepting
      → class_of e ≡ EventClass.hook_ok
      → Reaches now s e from d PipelineState.commit
  commit_single :
      from ≡ PipelineState.after_implementing
      → class_of e ≡ EventClass.hook_ok
      → s.pipeline_mode ≡ PipelineMode.single
      → Reaches now s e from d PipelineState.commit
  done_committed :
      from ≡ PipelineState.after_commit
      → class_of e ≡ EventClass.hook_ok
      → Reaches now s e from d PipelineState.done
  done_unchanged :
      from ≡ PipelineState.after_implementing
      → class_of e ≡ EventClass.hook_ok
      → s.pipeline_mode ≡ PipelineMode.single
      → s.last_report.files_changed ≡ 0
      → s.last_report.tests_added ≡ 0
      → Reaches now s e from d PipelineState.done
  failed : is_some d.failed_reason ≡ true → Reaches now s e from d PipelineState.failed
  recovering :
      Recoverable (class_of e)
      → recovery_budget_available s e ≡ true
      → d.set_active_recovery_trigger ≡ some (recovery_trigger_from_event s e)
      → Reaches now s e from d PipelineState.recovering

Passes-Special : {from x : PipelineState} → Passes from x → ¬ Special x
Passes-Special Passes.grooming m = elim m [ ]
Passes-Special _ m = elim m [ ]

off : {x y next : PipelineState} → Special x → next ≡ x → next ≡ y → Special y
off m to at = subst Special (sym to ∙ at) m

module _ {now : Text} {s : TaskState} {e : Event} {d : StateDelta} where
  Plain-Reaches :
      {from x : PipelineState} {c : EventClass}
      → class_of e ≡ c
      → Plain from c x
      → Special x
      → Reaches now s e from d x
  Plain-Reaches cls Plain.accepted m = Reaches.commit_accepted refl cls
  Plain-Reaches cls Plain.finish m = Reaches.done_committed refl cls
  Plain-Reaches cls _ m = elim m [ ]

  Leaves-Reaches :
      {from x : PipelineState}
      → from ≡ PipelineState.after_implementing
      → class_of e ≡ EventClass.hook_ok
      → Leaves s e x
      → Special x
      → Reaches now s e from d x
  unfolding zero_change_shortcut
  Leaves-Reaches at cls (Leaves.unchanged single zero) m =
      Reaches.done_unchanged at cls (single_of_mode s e single)
        ((nat_beq_iff _ _).0 (and_left _ _ zero)) ((nat_beq_iff _ _).0 (and_right _ _ zero))
  Leaves-Reaches at cls (Leaves.changed single) m =
      Reaches.commit_single at cls (single_of_mode s e single)
  Leaves-Reaches at cls (Leaves.to_test full) m = elim m [ ]

  module _ {from next x : PipelineState} (m : Special x) (to : next ≡ x)
      (unnamed : named_target s e ≢ some x) where
    failing :
        next ≡ PipelineState.failed → is_some d.failed_reason ≡ true → Reaches now s e from d x
    failing at reason = subst (Reaches now s e from d) (sym at ∙ to) (Reaches.failed reason)

    Edge-Reaches : Edge now s e from next d → Reaches now s e from d x
    unfolding enter_recovery fail fail_rejection_loop exhaust_recovery_budget
    Edge-Reaches (Edge.plain p _) = Plain-Reaches refl (subst (Plain from (class_of e)) to p) m
    Edge-Reaches (Edge.probe _ _ at _) = elim (off m to at) [ ]
    Edge-Reaches (Edge.enter _ cls at _) =
        absurd (unnamed (named_pass s e cls ∙ entry_of-eq x _ _ m (sym at ∙ to)))
    Edge-Reaches (Edge.resume target event _ at _) = absurd (
        unnamed (
          ap (named_target s) event
          ∙ ap {B = Option PipelineState} some (resume_phase-eq x target m (sym at ∙ to))))
    Edge-Reaches (Edge.pass p _ _) = absurd (Passes-Special (subst (Passes from) to p) m)
    Edge-Reaches (Edge.leave at cls l _) = Leaves-Reaches at cls (subst (Leaves s e) to l) m
    Edge-Reaches (Edge.conflict _ _ at _) = elim (off m to at) [ ]
    Edge-Reaches (Edge.retry _ _ _ _ at _) = elim (off m to at) [ ]
    Edge-Reaches (Edge.override _ _ _ _ at _) = elim (off m to at) [ ]
    Edge-Reaches (Edge.recover r _ available at same) =
        subst (Reaches now s e from d) (sym at ∙ to) (
          Reaches.recovering r available
            (ap (λ (p : StateDelta). p.set_active_recovery_trigger) same))
    Edge-Reaches (Edge.recovered target hint event _ at _) = absurd (
        unnamed (
          ap (named_target s) event
          ∙ ap {B = Option PipelineState} some (resume_phase-eq x target m (sym at ∙ to))))
    Edge-Reaches (Edge.fails reason _ at same) =
        failing at (ap (λ (p : StateDelta). is_some p.failed_reason) same)
    Edge-Reaches (Edge.loops counter _ _ _ at same) =
        failing at (ap (λ (p : StateDelta). is_some p.failed_reason) same)
    Edge-Reaches (Edge.spent _ _ _ at same) =
        failing at (ap (λ (p : StateDelta). is_some p.failed_reason) same)

-- Where no resume target and no entry names the stage, a transition of the table commits only from
-- the hooks behind accepting, or in single mode behind implementing; it ends a task as done only
-- from the hooks behind the commit, or in single mode when neither files nor tests changed; it
-- fails a task only with a reason; and it enters recovery only on a crash, a timeout or a blockage
-- whose budget is there, with the trigger of that event.
pub evaluate-Reaches :
    (now : Text) (from : PipelineState) (e : Event) (s : TaskState) (t : Transition)
    → evaluate rules now from e s ≡ ok t
    → Special t.next
    → named_target s e ≢ some t.next
    → Reaches now s e from t.delta t.next
evaluate-Reaches now from e s t h m unnamed =
    Edge-Reaches m refl unnamed (evaluate-Edge now from e s t h)
