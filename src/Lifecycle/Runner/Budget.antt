-- ===== src/Lifecycle/Runner/Budget.antt =====
-- litehive/lifecycle/persistence.py, runner.py: the recovery budget along the transitions of a
-- task.
use litehive.Base.{
  ◌≤◌, Bool, true, false, not, ◌≡◌, refl, sym, ap, ◌∙◌, subst, ◌≢◌, ◌⊎◌, inl, inr, Option, none,
  some, List, [], ◌∷◌, drop, length, length-append, if◌then◌else◌, arith,
}
use litehive.Base.Text.{Text, text_eq}
use litehive.Domain.Common.{PipelineState}
use litehive.Domain.Recovery.{RecoveryTrigger, RecoveryOutcome, budget_key}
use litehive.Lifecycle.Events.{Event, DispositionHint, class_of}
use litehive.Lifecycle.State.{
  TaskState, window_unconsumed_for, budget_recovery_history, is_hook_loop,
}
use litehive.Lifecycle.State
use litehive.Lifecycle.Deltas.Patch.{StateDelta}
use litehive.Lifecycle.Deltas.Tracking.{clear_completed_rejection_loop}
use litehive.Lifecycle.Deltas.Failure.{recovery_trigger_from_event, reason_code_from_event}
use litehive.Lifecycle.Deltas.Effects.{
  enter_recovery, enter_pre_exec_recovery, record_recovery_success, success_outcome,
  inc_stage_retry, remember_rejection, stash_conflict_files,
}
use litehive.Lifecycle.Guards.{recovery_budget_available}
use litehive.Lifecycle.Transitions.{Failure, Transition, ok, raise}
use litehive.Lifecycle.Rules.{rules}
use litehive.Lifecycle.Rules.Terminal.{evaluate-terminal}
use litehive.Lifecycle.Rules.Edge.{Edge, Recoverable}
use litehive.Lifecycle.Runner.Apply.{apply_delta, appended, set_then_clear}
use litehive.Lifecycle.Runner.Step.{Env, Outcome, apply_transition}
use litehive.Lifecycle.Runner.Moves.{apply_transition-Moved}
use litehive.Lifecycle.Runner.Window.{Once, Once-append, drop-append}

-- How a move that does not fail the task treats the budget: it leaves it alone, it starts a
-- recovery whose key the window does not have, or it books the active one.
data Books (s : TaskState) (d : StateDelta) : Type 0 where
  leaves : d.append_recovery_outcome ≡ none → d.set_active_recovery_trigger ≡ none → Books s d
  starts :
      (t : RecoveryTrigger)
      → d.append_recovery_outcome ≡ none
      → d.set_active_recovery_trigger ≡ some t
      → window_unconsumed_for (budget_recovery_history s) (budget_key t) ≡ true
      → Books s d
  books :
      (t : RecoveryTrigger) (o : RecoveryOutcome)
      → s.active_recovery_trigger ≡ some t
      → d.append_recovery_outcome ≡ some o
      → o.trigger ≡ t
      → d.set_active_recovery_trigger ≡ none
      → d.clear_active_recovery_trigger ≡ true
      → Books s d

leaves_by :
    (s : TaskState) {d d' : StateDelta}
    → d ≡ d'
    → d'.append_recovery_outcome ≡ none
    → d'.set_active_recovery_trigger ≡ none
    → Books s d
leaves_by s same a b =
    Books.leaves (ap (λ (p : StateDelta). p.append_recovery_outcome) same ∙ a)
      (ap (λ (p : StateDelta). p.set_active_recovery_trigger) same ∙ b)

no_loop :
    (s : TaskState) (e : Event)
    → Recoverable (class_of e)
    → (recovery_trigger_from_event s e).reason_code ≡ none
unfolding recovery_trigger_from_event reason_code_from_event
no_loop s (Event.crash x y) r = refl
no_loop s (Event.blocked x) r = refl
no_loop s Event.timeout r = refl
no_loop s _ r = elim r [ ]

fresh_key :
    (s : TaskState) (e : Event)
    → Recoverable (class_of e)
    → recovery_budget_available s e ≡ true
    → window_unconsumed_for
        (budget_recovery_history s)
        (budget_key (recovery_trigger_from_event s e))
      ≡ true
unfolding recovery_budget_available State.recovery_budget_available
fresh_key s e r h =
    let t = recovery_trigger_from_event s e in
    subst
      (λ c.
        (if is_hook_loop c
          then not s.hook_reject_recovery_invoked
          else window_unconsumed_for (budget_recovery_history s) (budget_key t))
        ≡ true)
      (no_loop s e r) h

clear-Books :
    (now : Text) (s : TaskState) (e : Event) → Books s (clear_completed_rejection_loop now s e)
unfolding clear_completed_rejection_loop
clear-Books now s e = Books.leaves (ground arith) (ground arith)

stash-Books : (now : Text) (s : TaskState) (e : Event) → Books s (stash_conflict_files now s e)
unfolding stash_conflict_files
stash-Books now s e = Books.leaves (ground arith) (ground arith)

success-Books :
    (now : Text) (s : TaskState) (target : PipelineState) (hint : DispositionHint)
    (a : Option RecoveryTrigger)
    → s.active_recovery_trigger ≡ a
    → Books s (record_recovery_success now s (Event.recovery_succeeded (some target) hint))
unfolding record_recovery_success success_outcome
success-Books now s target hint none h =
    Books.leaves (ap (λ a. success_outcome now a (Event.recovery_succeeded (some target) hint)) h)
      refl
success-Books now s target hint (some t) h =
    Books.books t _ h
      (ap (λ a. success_outcome now a (Event.recovery_succeeded (some target) hint)) h) refl refl
      refl

module _ {now : Text} {s : TaskState} {e : Event} where
  Edge-Books :
      {from next : PipelineState} {d : StateDelta}
      → Edge now s e from next d
      → (next ≡ PipelineState.failed) ⊎ Books s d
  unfolding enter_recovery enter_pre_exec_recovery inc_stage_retry remember_rejection
  Edge-Books (Edge.plain _ same) = inr (leaves_by s same refl refl)
  Edge-Books (Edge.probe _ _ _ same) = inr (leaves_by s same refl refl)
  Edge-Books (Edge.enter _ _ _ same) = inr (leaves_by s same refl refl)
  Edge-Books (Edge.resume _ _ _ _ same) = inr (leaves_by s same refl refl)
  Edge-Books (Edge.pass _ _ same) = inr (subst (Books s) (sym same) (clear-Books now s e))
  Edge-Books (Edge.leave _ _ _ same) = inr (leaves_by s same refl refl)
  Edge-Books (Edge.conflict _ _ _ same) = inr (subst (Books s) (sym same) (stash-Books now s e))
  Edge-Books (Edge.retry _ _ _ _ _ same) = inr (leaves_by s same refl refl)
  Edge-Books (Edge.override _ _ _ _ _ same) = inr (leaves_by s same refl refl)
  Edge-Books (Edge.recover r _ available _ same) = inr (
      subst (Books s) (sym same)
        (Books.starts (recovery_trigger_from_event s e) refl refl (fresh_key s e r available)))
  Edge-Books (Edge.recovered target hint event _ _ same) = inr (
      subst (Books s) (sym (same ∙ ap (record_recovery_success now s) event))
        (success-Books now s target hint s.active_recovery_trigger refl))
  Edge-Books (Edge.fails _ _ at _) = inl at
  Edge-Books (Edge.loops _ _ _ _ at _) = inl at
  Edge-Books (Edge.spent _ _ _ at _) = inl at

-- The window of the budget starts inside the history. Unless the task has failed, it has no two
-- outcomes about the same key, and none about that of the recovery under way.
pub record OneShot (s : TaskState) : Type 0 where
  pub start : s.recovery_budget_history_start ≤ length s.recovery_history
  pub once : s.stage ≢ PipelineState.failed → Once (budget_recovery_history s)
  pub fresh :
      s.stage ≢ PipelineState.failed
      → (t : RecoveryTrigger) → s.active_recovery_trigger ≡ some t
      → window_unconsumed_for (budget_recovery_history s) (budget_key t) ≡ true

appended-length :
    (os : List RecoveryOutcome) (o : Option RecoveryOutcome) → length os ≤ length (appended os o)
appended-length os none = omega arith
appended-length os (some o) = omega (arith, length-append os (o ∷ []))

ok_not_raise : {t : Transition} {x : Failure} → ok t ≢ raise x
ok_not_raise h = cc

active_after :
    (new old : Option RecoveryTrigger) (clear : Bool) (t : RecoveryTrigger)
    → set_then_clear new clear old ≡ some t
    → new ≡ none
    → old ≡ some t
active_after none old clear t h same = ground arith
active_after (some n) old clear t h same = cc

not_cleared :
    (new old : Option RecoveryTrigger) (clear : Bool) (t : RecoveryTrigger)
    → set_then_clear new clear old ≡ some t
    → clear ≡ true
    → ⊥
not_cleared new old true t h same = cc
not_cleared new old false t h same = cc

started :
    (new old : Option RecoveryTrigger) (clear : Bool) (t u : RecoveryTrigger)
    → set_then_clear new clear old ≡ some t
    → new ≡ some u
    → u ≡ t
started none old clear t u h same = cc
started (some n) old true t u h same = cc
started (some n) old false t u h same = cc

abbrev window_after : TaskState → StateDelta → List RecoveryOutcome
window_after s d =
    drop s.recovery_budget_history_start (appended s.recovery_history d.append_recovery_outcome)

-- The window and the active recovery that a patch leaves keep the budget.
Books-Once :
    (s : TaskState) (d : StateDelta)
    → s.stage ≢ PipelineState.failed
    → OneShot s
    → Books s d
    → Once (window_after s d)
Books-Once s d live one (Books.leaves a _) = rw a (one.once live)
Books-Once s d live one (Books.starts t a _ _) = rw a (one.once live)
Books-Once s d live one (Books.books t o active a same _ _) =
    let fresh = one.fresh live t active in
    rw a (
      rw (drop-append s.recovery_budget_history_start s.recovery_history o one.start)
        (Once-append (budget_recovery_history s) o (one.once live) (rw same fresh)))

Books-fresh :
    (s : TaskState) (d : StateDelta)
    → s.stage ≢ PipelineState.failed
    → OneShot s
    → Books s d
    → (t : RecoveryTrigger)
    → set_then_clear d.set_active_recovery_trigger d.clear_active_recovery_trigger
        s.active_recovery_trigger
      ≡ some t
    → window_unconsumed_for (window_after s d) (budget_key t) ≡ true
Books-fresh s d live one (Books.leaves a b) t h = rw a (
    one.fresh live t (active_after d.set_active_recovery_trigger s.active_recovery_trigger _ t h b))
Books-fresh s d live one (Books.starts u a b fresh) t h = rw a (
    subst (λ v. window_unconsumed_for (budget_recovery_history s) (budget_key v) ≡ true)
      (started d.set_active_recovery_trigger s.active_recovery_trigger _ t u h b) fresh)
Books-fresh s d live one (Books.books u o active a same b c) t h =
    absurd (not_cleared d.set_active_recovery_trigger s.active_recovery_trigger _ t h c)

-- A transition of the table keeps the recovery budget: if the window of the history starts inside
-- the history and, unless the task has failed, has no two outcomes with the same key and none with
-- the key of the recovery under way, so it is after the transition.
pub apply_transition-OneShot :
    (env : Env) (s : TaskState) (e : Event) (o : Outcome)
    → apply_transition rules env s e ≡ ok o
    → OneShot s
    → OneShot o.state
unfolding apply_delta
apply_transition-OneShot env s e o h one =
    let moved = apply_transition-Moved env s e o h in
    let d = o.transition.delta in
    let live : s.stage ≢ PipelineState.failed = λ at.
      absurd
        (ok_not_raise (sym moved.found ∙ evaluate-terminal env.now s.stage e s (rw at refl))) in
    subst OneShot (sym moved.left) (record {
      start =
          omega (arith, one.start, appended-length s.recovery_history d.append_recovery_outcome);
      once = λ going. elim (Edge-Books moved.edge) [
        | inl at ↦ absurd (going at)
        | inr b ↦ Books-Once s d live one b
      ];
      fresh = λ going t active. elim (Edge-Books moved.edge) [
        | inl at ↦ absurd (going at)
        | inr b ↦ Books-fresh s d live one b t active
      ];
    })
