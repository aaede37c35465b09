-- ===== src/Lifecycle/Runner/Termination.antt =====
-- litehive/lifecycle/runner.py, rules.py: between two recoveries, a run ends.
use litehive.Base.{
  ℕ, ◌+◌, ◌-◌, ◌*◌, ◌<◌, true, false, ◌≡◌, refl, sym, ap, ◌∙◌, subst, ◌≢◌, inl, inr, none,
  if◌then◌else◌, ltb→lt, arith, ◌==◌, Bool-cases,
}
use litehive.Base.Text.{Text}
use litehive.Base.Dict.{lookup, insert, lookup-insert}
use litehive.Domain.Common.{PipelineState, state_eq}
use litehive.Lifecycle.Events.{Event}
use litehive.Lifecycle.State.{TaskState}
use litehive.Lifecycle.Stages.{is_terminal}
use litehive.Lifecycle.Deltas.Patch.{StateDelta}
use litehive.Lifecycle.Deltas.Tracking.{clear_completed_rejection_loop}
use litehive.Lifecycle.Deltas.Failure.{retries, count_of}
use litehive.Lifecycle.Deltas.Effects.{
  enter_pre_exec_recovery, fail, fail_rejection_loop, inc_stage_retry, remember_rejection,
  stash_conflict_files,
}
use litehive.Lifecycle.Guards.{stage_retries_remaining}
use litehive.Lifecycle.Transitions.{Transition, Failure, ok, raise, in_stages}
use litehive.Lifecycle.Rules.{rules}
use litehive.Lifecycle.Rules.Terminal.{evaluate-terminal}
use litehive.Lifecycle.Rules.Edge.{Edge, Counts}
use litehive.Lifecycle.Runner.Apply.{apply_delta, bump, reset}
use litehive.Lifecycle.Runner.Step.{Env, Outcome, apply_transition}
use litehive.Lifecycle.Runner.Moves.{Moved, apply_transition-Moved}
use litehive.Lifecycle.Runner.Ranks.{
  rank, measure, Entry, Calm, Calm-Recoverable, Counter, Lowers, resume-low, Entry-low, Plain-low,
  Passes-low, Leaves-low, Counts-Counter, terminal-rank,
}

near :
    (s : TaskState) (from next : PipelineState) {d d' : StateDelta}
    → d ≡ d'
    → d'.reset_stage_retry ≡ none
    → d'.inc_stage_retry ≡ none
    → rank next < rank from
    → Lowers s d from next
near s from next same a b low = (
  ap (λ (p : StateDelta). p.reset_stage_retry) same ∙ a,
  inl (ap (λ (p : StateDelta). p.inc_stage_retry) same ∙ b, low),
)

clear-near :
    (now : Text) (s : TaskState) (e : Event)
    → ((clear_completed_rejection_loop now s e).reset_stage_retry ≡ none)
      × ((clear_completed_rejection_loop now s e).inc_stage_retry ≡ none)
unfolding clear_completed_rejection_loop
clear-near now s e = (ground arith, ground arith)

stash-near :
    (now : Text) (s : TaskState) (e : Event)
    → ((stash_conflict_files now s e).reset_stage_retry ≡ none)
      × ((stash_conflict_files now s e).inc_stage_retry ≡ none)
unfolding stash_conflict_files
stash-near now s e = (ground arith, ground arith)

-- Where ranks of two stages are compared that are known by equations.
rank-at :
    {from next a b : PipelineState} → from ≡ a → next ≡ b → rank b < rank a → rank next < rank from
rank-at {from} {next} {a} {b} p q h =
    subst (λ x. rank x < rank from) (sym q) (subst (λ x. rank b < rank x) (sym p) h)

Counts-low :
    {c from : PipelineState} → Counts c from → rank PipelineState.implementing < rank from + 20
unfolding rank
Counts-low m = omega arith

Calm-resume :
    (e : Event) (t : PipelineState)
    → e ≡ Event.pre_exec_recovery_succeeded t
    → Calm e
    → in_stages t ≡ true
Calm-resume e t h calm = subst Calm h calm

ends :
    (from : PipelineState) {next : PipelineState}
    → is_terminal from ≡ false
    → next ≡ PipelineState.failed
    → rank next < rank from
unfolding rank
ends from going at = rank-at refl at (terminal-rank from going)

module _ {now : Text} {s : TaskState} {e : Event} {from next : PipelineState} {d : StateDelta}
    (calm : Calm e) (entry : Entry s.entry_stage) (going : is_terminal from ≡ false)
    (sound : from ≢ PipelineState.recovering) where
  Edge-Lowers : Edge now s e from next d → Lowers s d from next
  unfolding rank enter_pre_exec_recovery fail fail_rejection_loop inc_stage_retry remember_rejection
      stage_retries_remaining
  Edge-Lowers (Edge.plain p same) = near s from next same refl refl (Plain-low p)
  Edge-Lowers (Edge.probe at _ to same) =
      near s from next same refl refl (rank-at at to (omega arith))
  Edge-Lowers (Edge.enter at _ to same) =
      near s from next same refl refl
        (rank-at at to (Entry-low s.pipeline_mode s.entry_stage entry))
  Edge-Lowers (Edge.resume t event at to same) =
      near s from next same refl refl
        (rank-at at to (omega (arith, resume-low t (Calm-resume e t event calm))))
  Edge-Lowers (Edge.pass p _ same) =
      near s from next same (clear-near now s e).0 (clear-near now s e).1 (Passes-low p)
  Edge-Lowers (Edge.leave at _ l same) =
      near s from next same refl refl (rank-at at refl (Leaves-low l))
  Edge-Lowers (Edge.conflict at _ to same) =
      near s from next same (stash-near now s e).0 (stash-near now s e).1
        (rank-at at to (omega arith))
  Edge-Lowers (Edge.retry c m _ remaining to same) = (
    ap (λ (p : StateDelta). p.reset_stage_retry) same,
    inr (
      c,
      (
        Counts-Counter m,
        (
          ap (λ (p : StateDelta). p.inc_stage_retry) same,
          (
            ltb→lt _ _ remaining,
            (
              subst (λ x. rank x < rank from + 20) (sym to) (Counts-low m),
              subst (λ x. rank x < 12) (sym to) (omega arith),
            ),
          ),
        ),
      ),
    ),
  )
  Edge-Lowers (Edge.override at _ _ _ to same) =
      near s from next same refl refl (rank-at at to (omega arith))
  Edge-Lowers (Edge.recover r _ _ _ _) = absurd (Calm-Recoverable e calm r)
  Edge-Lowers (Edge.recovered _ _ _ at _ _) = absurd (sound at)
  Edge-Lowers (Edge.fails _ _ to same) = near s from next same refl refl (ends from going to)
  Edge-Lowers (Edge.loops _ _ _ _ to same) = near s from next same refl refl (ends from going to)
  Edge-Lowers (Edge.spent r _ _ _ _) = absurd (Calm-Recoverable e calm r)

-- The retries after one more of `b` is counted.
abbrev bumped : TaskState → PipelineState → PipelineState → ℕ
bumped s b c = count_of (lookup c (insert b (count_of (lookup b s.stage_retry) + 1) s.stage_retry))

bumped_form :
    (s : TaskState) (b c : PipelineState)
    → bumped s b c ≡ (
        if b == c then count_of (lookup b s.stage_retry) + 1 else count_of (lookup c s.stage_retry))
bumped_form s b c =
    ground (arith, lookup-insert b c (count_of (lookup b s.stage_retry) + 1) s.stage_retry)

abbrev left_by : TaskState → (PipelineState → ℕ) → ℕ
left_by s n =
    (s.limits.stage_retry_limit - n PipelineState.implementing)
    + ((s.limits.stage_retry_limit - n PipelineState.testing)
        + (s.limits.stage_retry_limit - n PipelineState.accepting))

bumped-left :
    (s : TaskState) (b : PipelineState)
    → Counter b
    → retries s b < s.limits.stage_retry_limit
    → left_by s (bumped s b) < left_by s (retries s)
unfolding retries
bumped-left s _ Counter.implementing h = omega (
  arith,
  h,
  bumped_form s PipelineState.implementing PipelineState.implementing,
  bumped_form s PipelineState.implementing PipelineState.testing,
  bumped_form s PipelineState.implementing PipelineState.accepting,
)
bumped-left s _ Counter.testing h = omega (
  arith,
  h,
  bumped_form s PipelineState.testing PipelineState.implementing,
  bumped_form s PipelineState.testing PipelineState.testing,
  bumped_form s PipelineState.testing PipelineState.accepting,
)
bumped-left s _ Counter.accepting h = omega (
  arith,
  h,
  bumped_form s PipelineState.accepting PipelineState.implementing,
  bumped_form s PipelineState.accepting PipelineState.testing,
  bumped_form s PipelineState.accepting PipelineState.accepting,
)

abbrev retries_after : TaskState → StateDelta → PipelineState → ℕ
retries_after s d c = count_of (lookup c (reset d.reset_stage_retry (bump d.inc_stage_retry s)))

Lowers-less :
    (s : TaskState) (d : StateDelta) (next : PipelineState)
    → Lowers s d s.stage next
    → 20 * left_by s (retries_after s d) + rank next < 20 * left_by s (retries s) + rank s.stage
unfolding retries
Lowers-less s d next (a, inl (b, low)) = rw (a, b) (omega (arith, low))
Lowers-less s d next (a, inr (c, (m, (b, (remaining, (low, _)))))) =
    rw (a, b) (omega (arith, low, bumped-left s c m remaining))

ok_not_raise : {t : Transition} {x : Failure} → ok t ≢ raise x
ok_not_raise h = cc

-- A stage that has a transition is not the end.
live :
    (env : Env) (s : TaskState) (e : Event) (o : Outcome)
    → Moved env s e o
    → is_terminal s.stage ≡ false
live env s e o moved = elim (Bool-cases (is_terminal s.stage)) [
  | inl over ↦ absurd (ok_not_raise (sym moved.found ∙ evaluate-terminal env.now s.stage e s over))
  | inr going ↦ going
]

rank_sound : (x : PipelineState) → rank x < 19 → x ≢ PipelineState.recovering
unfolding rank
rank_sound x h at =
    absurd (subst (λ y. ¬ (rank y < 19)) (sym at) (λ k. absurd (omega (arith, k))) h)

sound_rank : (x : PipelineState) → x ≢ PipelineState.recovering → rank x < 19
unfolding rank
sound_rank PipelineState.recovering h = absurd (h refl)
sound_rank _ h = omega arith

Lowers-sound :
    (s : TaskState) (d : StateDelta) (from next : PipelineState)
    → from ≢ PipelineState.recovering
    → Lowers s d from next
    → next ≢ PipelineState.recovering
Lowers-sound s d from next sound (_, inl (_, low)) =
    rank_sound next (omega (arith, low, sound_rank from sound))
Lowers-sound s d from next sound (_, inr (_, (_, (_, (_, (_, low)))))) =
    rank_sound next (omega (arith, low))

-- What a calm run keeps.
pub record Steady (s : TaskState) : Type 0 where
  pub entry : Entry s.entry_stage
  pub sound : s.stage ≢ PipelineState.recovering

Moved-Lowers :
    (env : Env) (s : TaskState) (e : Event) (o : Outcome)
    → Moved env s e o
    → Calm e
    → Steady s
    → Lowers s o.transition.delta s.stage o.transition.next
Moved-Lowers env s e o moved calm h =
    Edge-Lowers calm h.entry (live env s e o moved) h.sound moved.edge

pub apply_transition-Steady :
    (env : Env) (s : TaskState) (e : Event) (o : Outcome)
    → apply_transition rules env s e ≡ ok o
    → Calm e
    → Steady s
    → Steady o.state
unfolding apply_delta
apply_transition-Steady env s e o h calm steady =
    let moved = apply_transition-Moved env s e o h in
    subst Steady (sym moved.left) (record {
      entry = steady.entry;
      sound =
          Lowers-sound s o.transition.delta s.stage o.transition.next steady.sound
            (Moved-Lowers env s e o moved calm steady);
    })

-- A transition of the table by no recoverable failure, out of a stage that is not `recovering`,
-- comes closer to the end or spends a retry, where the entry and the resume name stages: the
-- measure of the task goes down.
pub apply_transition-measure :
    (env : Env) (s : TaskState) (e : Event) (o : Outcome)
    → apply_transition rules env s e ≡ ok o
    → Calm e
    → Steady s
    → measure o.state < measure s
unfolding measure apply_delta rank retries
apply_transition-measure env s e o h calm steady =
    let moved = apply_transition-Moved env s e o h in
    let d = o.transition.delta in
    subst (λ u. measure u < measure s) (sym moved.left)
      (Lowers-less s d o.transition.next (Moved-Lowers env s e o moved calm steady))
