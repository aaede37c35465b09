-- ===== src/Lifecycle/Runner/Ranks.antt =====
-- litehive/lifecycle/rules.py: how far a stage is from the end, and what each move does to it.
use litehive.Base.{ℕ, ◌+◌, ◌-◌, ◌*◌, ◌<◌, true, false, ◌≡◌, ◌⊎◌, Option, none, some, arith}
use litehive.Domain.Common.{PipelineMode, PipelineState, state_eq}
use litehive.Lifecycle.Events.{Event, EventClass, class_of}
use litehive.Lifecycle.State.{TaskState}
use litehive.Lifecycle.Stages.{is_terminal}
use litehive.Lifecycle.Deltas.Patch.{StateDelta}
use litehive.Lifecycle.Deltas.Failure.{retries}
use litehive.Lifecycle.Transitions.{in_stages, entry_phase, resume_phase, entry_of}
use litehive.Lifecycle.Rules.Edge.{Plain, Passes, Leaves, Counts, Recoverable}

-- How far a stage is from the end of the pipeline.
unfoldable pub rank : PipelineState → ℕ
rank PipelineState.done = 0
rank PipelineState.failed = 0
rank PipelineState.after_commit = 1
rank PipelineState.merge_resolving = 2
rank PipelineState.commit = 3
rank PipelineState.after_accepting = 4
rank PipelineState.accepting = 5
rank PipelineState.before_accepting = 6
rank PipelineState.after_testing = 7
rank PipelineState.testing = 8
rank PipelineState.before_testing = 9
rank PipelineState.after_implementing = 10
rank PipelineState.implementing = 11
rank PipelineState.before_implementing = 12
rank PipelineState.after_grooming = 13
rank PipelineState.grooming = 14
rank PipelineState.before_grooming = 15
rank PipelineState.worktree_sync = 16
rank PipelineState.recovering_pre_exec = 17
rank PipelineState.ready = 18
rank PipelineState.recovering = 19

abbrev pub retries_left : TaskState → PipelineState → ℕ
retries_left s c = s.limits.stage_retry_limit - retries s c

abbrev pub total_left : TaskState → ℕ
total_left s =
    retries_left s PipelineState.implementing
    + (retries_left s PipelineState.testing + retries_left s PipelineState.accepting)

-- A bound on the transitions before the next recovery or the end.
unfoldable pub measure : TaskState → ℕ
unfolding rank retries
measure s = 20 * total_left s + rank s.stage

-- A stage that an entry or a resume may name: one of `STAGES`.
abbrev pub Entry : Option PipelineState → Type 0
Entry none = Unit
Entry (some t) = in_stages t ≡ true

-- No failure that a recovery is for, and no resume at what is no stage.
abbrev pub Calm : Event → Type 0
Calm (Event.crash _ _) = ⊥
Calm Event.timeout = ⊥
Calm (Event.blocked _) = ⊥
Calm (Event.pre_exec_recovery_succeeded t) = in_stages t ≡ true
Calm _ = Unit

pub Calm-Recoverable : (e : Event) → Calm e → ¬ Recoverable (class_of e)
Calm-Recoverable (Event.crash _ _) c r = c
Calm-Recoverable Event.timeout c r = c
Calm-Recoverable (Event.blocked _) c r = c
Calm-Recoverable _ c r = elim r [ ]

pub data Counter : PipelineState → Type 0 where
  implementing : Counter PipelineState.implementing
  testing : Counter PipelineState.testing
  accepting : Counter PipelineState.accepting

-- The stage comes closer to the end, or a retry is spent; no retries are given back.
abbrev pub Lowers : TaskState → StateDelta → PipelineState → PipelineState → Type 0
Lowers s d from next =
    (d.reset_stage_retry ≡ none)
    × (((d.inc_stage_retry ≡ none) × (rank next < rank from))
        ⊎ ((c : PipelineState) × (Counter c
              × ((d.inc_stage_retry ≡ some c)
                  × ((retries s c < s.limits.stage_retry_limit)
                      × ((rank next < rank from + 20) × (rank next < 12)))))))

pub resume-low : (t : PipelineState) → in_stages t ≡ true → rank (resume_phase t) < 16
unfolding rank entry_phase
resume-low PipelineState.grooming h = omega arith
resume-low PipelineState.implementing h = omega arith
resume-low PipelineState.testing h = omega arith
resume-low PipelineState.accepting h = omega arith
resume-low PipelineState.commit h = omega arith
resume-low _ h = cc

pub Entry-low : (m : PipelineMode) (o : Option PipelineState) → Entry o → rank (entry_of m o) < 16
unfolding rank
Entry-low PipelineMode.single none h = omega arith
Entry-low PipelineMode.full none h = omega arith
Entry-low m (some t) h = resume-low t h

pub Plain-low :
    {from next : PipelineState} {c : EventClass} → Plain from c next → rank next < rank from
unfolding rank
Plain-low Plain.clean = omega arith
Plain-low Plain.groom = omega arith
Plain-low Plain.groomed = omega arith
Plain-low Plain.implement = omega arith
Plain-low Plain.test = omega arith
Plain-low Plain.tested = omega arith
Plain-low Plain.accept = omega arith
Plain-low Plain.accepted = omega arith
Plain-low Plain.land = omega arith
Plain-low Plain.merge = omega arith
Plain-low Plain.finish = omega arith

pub Passes-low : {from next : PipelineState} → Passes from next → rank next < rank from
unfolding rank
Passes-low Passes.grooming = omega arith
Passes-low Passes.implementing = omega arith
Passes-low Passes.testing = omega arith
Passes-low Passes.accepting = omega arith

pub Leaves-low :
    {s : TaskState} {e : Event} {next : PipelineState}
    → Leaves s e next
    → rank next < rank PipelineState.after_implementing
unfolding rank
Leaves-low (Leaves.unchanged _ _) = omega arith
Leaves-low (Leaves.changed _) = omega arith
Leaves-low (Leaves.to_test _) = omega arith

pub Counts-Counter : {c from : PipelineState} → Counts c from → Counter c
Counts-Counter Counts.before_implementing = Counter.implementing
Counts-Counter Counts.implementing = Counter.implementing
Counts-Counter Counts.after_implementing = Counter.implementing
Counts-Counter Counts.before_testing = Counter.testing
Counts-Counter Counts.testing = Counter.testing
Counts-Counter Counts.after_testing = Counter.testing
Counts-Counter Counts.before_accepting = Counter.accepting
Counts-Counter Counts.accepting = Counter.accepting
Counts-Counter Counts.after_accepting = Counter.accepting

pub terminal-rank : (from : PipelineState) → is_terminal from ≡ false → 0 < rank from
unfolding rank
terminal-rank PipelineState.done h = cc
terminal-rank PipelineState.failed h = cc
terminal-rank _ h = omega arith
