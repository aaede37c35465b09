-- ===== src/Lifecycle/Runner/Bounds.antt =====
-- litehive/lifecycle/runner.py: the bounds that every transition of a task keeps.
use litehive.Base.{
  ℕ, ◌+◌, ◌≤◌, ◌<◌, true, ◌≡◌, refl, sym, ap, ◌∙◌, subst, ◌≢◌, ◌⊎◌, inl, inr, Option, none, some,
  is_some, or_else, ltb→lt, arith,
}
use litehive.Base.Text.{Text}
use litehive.Base.Dict.{Dict, lookup, lookup-insert, lookup-pop}
use litehive.Domain.Common.{PipelineState, state_eq}
use litehive.Lifecycle.Events.{Event}
use litehive.Lifecycle.State.{TaskState}
use litehive.Lifecycle.Deltas.Patch.{StateDelta}
use litehive.Lifecycle.Deltas.Tracking.{clear_completed_rejection_loop}
use litehive.Lifecycle.Deltas.Failure.{retries, count_of}
use litehive.Lifecycle.Deltas.Effects.{
  enter_recovery, enter_pre_exec_recovery, fail, fail_rejection_loop, exhaust_recovery_budget,
  record_recovery_success, inc_stage_retry, remember_rejection, stash_conflict_files,
}
use litehive.Lifecycle.Guards.{stage_retries_remaining}
use litehive.Lifecycle.Transitions.{ok}
use litehive.Lifecycle.Rules.{rules}
use litehive.Lifecycle.Rules.Edge.{Edge}
use litehive.Lifecycle.Rules.Gates.{named_target, Special, Reaches, evaluate-Reaches}
use litehive.Lifecycle.Runner.Apply.{apply_delta, bump, reset}
use litehive.Lifecycle.Runner.Step.{Env, Outcome, apply_transition}
use litehive.Lifecycle.Runner.Moves.{Moved, apply_transition-Moved}

-- No stage was retried more often than the limit allows.
abbrev pub WithinRetries : TaskState → Type 0
WithinRetries s = (c : PipelineState) → retries s c ≤ s.limits.stage_retry_limit

-- A patch counts no retry, or one that the limit still has.
abbrev Spends : TaskState → StateDelta → Type 0
Spends s d =
    (d.inc_stage_retry ≡ none)
    ⊎ ((c : PipelineState) × (d.inc_stage_retry ≡ some c)
        × (retries s c < s.limits.stage_retry_limit))

clear-Spends :
    (now : Text) (s : TaskState) (e : Event)
    → (clear_completed_rejection_loop now s e).inc_stage_retry ≡ none
unfolding clear_completed_rejection_loop
clear-Spends now s e = ground arith

stash-Spends :
    (now : Text) (s : TaskState) (e : Event) → (stash_conflict_files now s e).inc_stage_retry ≡ none
unfolding stash_conflict_files
stash-Spends now s e = ground arith

same_inc : (s : TaskState) {d d' : StateDelta} → d ≡ d' → d'.inc_stage_retry ≡ none → Spends s d
same_inc s same h = inl (ap (λ (p : StateDelta). p.inc_stage_retry) same ∙ h)

module _ {now : Text} {s : TaskState} {e : Event} where
  Edge-Spends : {from next : PipelineState} {d : StateDelta} → Edge now s e from next d → Spends s d
  unfolding enter_recovery enter_pre_exec_recovery fail fail_rejection_loop exhaust_recovery_budget
      record_recovery_success inc_stage_retry remember_rejection stage_retries_remaining
  Edge-Spends (Edge.plain _ same) = same_inc s same refl
  Edge-Spends (Edge.probe _ _ _ same) = same_inc s same refl
  Edge-Spends (Edge.enter _ _ _ same) = same_inc s same refl
  Edge-Spends (Edge.resume _ _ _ _ same) = same_inc s same refl
  Edge-Spends (Edge.pass _ _ same) = same_inc s same (clear-Spends now s e)
  Edge-Spends (Edge.leave _ _ _ same) = same_inc s same refl
  Edge-Spends (Edge.conflict _ _ _ same) = same_inc s same (stash-Spends now s e)
  Edge-Spends (Edge.retry counter _ _ remaining _ same) =
      inr (counter, ap (λ (p : StateDelta). p.inc_stage_retry) same, ltb→lt _ _ remaining)
  Edge-Spends (Edge.override _ _ _ _ _ same) = same_inc s same refl
  Edge-Spends (Edge.recover _ _ _ _ same) = same_inc s same refl
  Edge-Spends (Edge.recovered _ _ _ _ _ same) = same_inc s same refl
  Edge-Spends (Edge.fails _ _ _ same) = same_inc s same refl
  Edge-Spends (Edge.loops _ _ _ _ _ same) = same_inc s same refl
  Edge-Spends (Edge.spent _ _ _ _ same) = same_inc s same refl

reset-le :
    (r : Option PipelineState) (m : Dict PipelineState ℕ) (c : PipelineState)
    → count_of (lookup c (reset r m)) ≤ count_of (lookup c m)
reset-le none m c = omega arith
reset-le (some r) m c = ground (arith, lookup-pop r c m)

bumped-le :
    (s : TaskState) (d : StateDelta) (c : PipelineState)
    → Spends s d
    → WithinRetries s
    → count_of (lookup c (bump d.inc_stage_retry s)) ≤ s.limits.stage_retry_limit
unfolding retries
bumped-le s d c (inl same) h = rw same (h c)
bumped-le s d c (inr (b, same, below)) h =
    rw same
      (ground (arith, lookup-insert b c (count_of (lookup b s.stage_retry) + 1) s.stage_retry, h c))

-- A transition of the table never takes the retries of a stage over the limit: where no stage was
-- retried more often than `stage_retry_limit` allows, none is after it.
pub apply_transition-WithinRetries :
    (env : Env) (s : TaskState) (e : Event) (o : Outcome)
    → apply_transition rules env s e ≡ ok o
    → WithinRetries s
    → WithinRetries o.state
unfolding apply_delta retries
apply_transition-WithinRetries env s e o h within c =
    let moved = apply_transition-Moved env s e o h in
    let d = o.transition.delta in
    let low : count_of (lookup c (reset d.reset_stage_retry (bump d.inc_stage_retry s)))
        ≤ s.limits.stage_retry_limit =
      omega (
        arith,
        reset-le d.reset_stage_retry (bump d.inc_stage_retry s) c,
        bumped-le s d c (Edge-Spends moved.edge) within,
      ) in
    subst (λ (u : TaskState). count_of (lookup c u.stage_retry) ≤ u.limits.stage_retry_limit)
      (sym moved.left) low

stage-next :
    (env : Env) (s : TaskState) (e : Event) (o : Outcome)
    → Moved env s e o
    → o.state.stage ≡ o.transition.next
stage-next env s e o moved = ap (λ (u : TaskState). u.stage) moved.left

failed_reason-kept :
    (env : Env) (s : TaskState) (e : Event) (o : Outcome)
    → Moved env s e o
    → is_some o.transition.delta.failed_reason ≡ true
    → is_some o.state.failed_reason ≡ true
unfolding apply_delta
failed_reason-kept env s e o moved some_reason =
    let d = o.transition.delta in
    let kept : is_some (or_else d.failed_reason s.failed_reason) ≡ true =
      ground (arith, some_reason) in
    subst (λ (u : TaskState). is_some u.failed_reason ≡ true) (sym moved.left) kept

reason_of_Reaches :
    {now : Text} {s : TaskState} {e : Event} {from x : PipelineState} {d : StateDelta}
    → Reaches now s e from d x
    → x ≡ PipelineState.failed
    → is_some d.failed_reason ≡ true
reason_of_Reaches (Reaches.failed some_reason) to = some_reason
reason_of_Reaches _ to = cc

-- A transition that leaves a task failed leaves it with a reason, unless a recovery's resume
-- target or the task's entry stage names `failed`.
pub apply_transition-failed_reason :
    (env : Env) (s : TaskState) (e : Event) (o : Outcome)
    → apply_transition rules env s e ≡ ok o
    → o.state.stage ≡ PipelineState.failed
    → named_target s e ≢ some PipelineState.failed
    → is_some o.state.failed_reason ≡ true
apply_transition-failed_reason env s e o h at unnamed =
    let moved = apply_transition-Moved env s e o h in
    let to : o.transition.next ≡ PipelineState.failed = sym (stage-next env s e o moved) ∙ at in
    failed_reason-kept env s e o moved (
      reason_of_Reaches
        (evaluate-Reaches env.now s.stage e s o.transition moved.found
          (subst Special (sym to) Special.failed)
          (subst (λ q. named_target s e ≢ some q) (sym to) unnamed))
        to)
