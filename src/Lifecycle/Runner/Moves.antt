-- ===== src/Lifecycle/Runner/Moves.antt =====
-- litehive/lifecycle/runner.py: what a transition leaves of the state, field by field.
use litehive.Base.{ℕ, Bool, true, false, ◌≡◌, refl, ap, ◌∙◌, Option, none, if◌then◌else◌, subst}
use litehive.Base.Text.{Text}
use litehive.Base.Json.{Value}
use litehive.Domain.Common.{PipelineState}
use litehive.Domain.Recovery.{Source}
use litehive.Lifecycle.Events.{Event}
use litehive.Lifecycle.State.{TaskState, LastReport, CommitResult, HookRejectFingerprint}
use litehive.Lifecycle.Transitions.{Result, ok, raise, ◌>>=◌, Transition, evaluate}
use litehive.Lifecycle.Rules.{rules}
use litehive.Lifecycle.Rules.Edge.{Edge}
use litehive.Lifecycle.Rules.Refinement.{evaluate-Edge}
use litehive.Lifecycle.Runner.Apply.{apply_delta, clear_hook_reject_tracking}
use litehive.Lifecycle.Runner.Step.{
  Env, Outcome, settle, apply_transition, apply_event_side_effects,
  reset_hook_reject_tracking_on_progress,
}

-- The fields that a transition writes besides those of its patch.
pub record Extras : Type 0 where
  pub last_report : LastReport
  pub commit_result : Option CommitResult
  pub consecutive : ℕ
  pub fingerprint : Option HookRejectFingerprint
  pub invoked : Bool

abbrev pub with_extras : TaskState → PipelineState → Extras → TaskState
with_extras s next x = record s {
  stage = next;
  last_report = x.last_report;
  commit_result = x.commit_result;
  consecutive_same_hook_rejects = x.consecutive;
  last_hook_reject_fingerprint = x.fingerprint;
  hook_reject_recovery_invoked = x.invoked;
}

abbrev reported : TaskState → LastReport → Option CommitResult → TaskState
reported s r c = record s { last_report = r; commit_result = c }

effects_form :
    (repr : Value → Text) (s : TaskState) (e : Event)
    → (r : LastReport) × (c : Option CommitResult) × (apply_event_side_effects repr s e
        ≡ reported s r c)
unfolding apply_event_side_effects
effects_form repr s (Event.hook_ok w) = (_, s.commit_result, refl)
effects_form repr s (Event.reject Source.hook reason c m) = (_, s.commit_result, refl)
effects_form repr s (Event.pass meta) = (_, _, refl)
effects_form repr s (Event.reject _ reason c m) = (s.last_report, s.commit_result, refl)
effects_form repr s _ = (s.last_report, s.commit_result, refl)

abbrev tracked : TaskState → ℕ → Option HookRejectFingerprint → Bool → TaskState
tracked s n f i = record s {
  consecutive_same_hook_rejects = n;
  last_hook_reject_fingerprint = f;
  hook_reject_recovery_invoked = i;
}

cleared_form :
    (s : TaskState) (b : Bool)
    → (n : ℕ) × (f : Option HookRejectFingerprint) × (i : Bool) × ((if b
          then clear_hook_reject_tracking s true
          else s)
        ≡ tracked s n f i)
unfolding clear_hook_reject_tracking
cleared_form s true = (0, none, false, refl)
cleared_form s false = (
  s.consecutive_same_hook_rejects, s.last_hook_reject_fingerprint, s.hook_reject_recovery_invoked,
  refl,
)

pub settle_form :
    (env : Env) (from : PipelineState) (e : Event) (s : TaskState) (t : Transition)
    → (x : Extras) × ((settle env from e s t).state ≡ with_extras (apply_delta s t.delta) t.next x)
unfolding settle reset_hook_reject_tracking_on_progress
settle_form env from e s t =
    let (r, c, p) = effects_form env.repr (apply_delta s t.delta) e in
    let patched = apply_event_side_effects env.repr (apply_delta s t.delta) e in
    let moved : TaskState = record patched { stage = t.next } in
    let (n, f, i, q) = cleared_form moved _ in
    (
      record { last_report = r; commit_result = c; consecutive = n; fingerprint = f; invoked = i },
      q ∙ ap (λ u. tracked (record u { stage = t.next }) n f i) p,
    )

-- A transition of the table, as a move and the state that it leaves.
pub record Moved (env : Env) (s : TaskState) (e : Event) (o : Outcome) : Type 0 where
  pub found : evaluate rules env.now s.stage e s ≡ ok o.transition
  pub edge : Edge env.now s e s.stage o.transition.next o.transition.delta
  pub extras : Extras
  pub left : o.state ≡ with_extras (apply_delta s o.transition.delta) o.transition.next extras

Moved-settle :
    (env : Env) (s : TaskState) (e : Event) (o : Outcome) (r : Result Transition)
    → evaluate rules env.now s.stage e s ≡ r
    → (r >>= λ t. ok (settle env s.stage e s t)) ≡ ok o
    → Moved env s e o
unfolding settle
Moved-settle env s e o (ok t) found h =
    let same : settle env s.stage e s t ≡ o = cc in
    let (x, p) = settle_form env s.stage e s t in
    subst (Moved env s e) same (record {
      found = found;
      edge = evaluate-Edge env.now s.stage e s t found;
      extras = x;
      left = p;
    })
Moved-settle env s e o (raise x) found h = cc

pub apply_transition-Moved :
    (env : Env) (s : TaskState) (e : Event) (o : Outcome)
    → apply_transition rules env s e ≡ ok o
    → Moved env s e o
unfolding apply_transition
apply_transition-Moved env s e o h =
    Moved-settle env s e o (evaluate rules env.now s.stage e s) refl h
