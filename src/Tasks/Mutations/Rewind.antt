-- ===== src/Tasks/Mutations/Rewind.antt =====
-- litehive/tasks/queue_mutations.py, queue_selection.py: a task that is put back can be run again,
-- from where it is put.
use litehive.Base.{
  ◌≢◌, ◌≡◌, refl, ap, sym, ◌∙◌, inl, inr, Bool-cases, Bool, true, false, Option, none, some, ◌∷◌,
  ◌==◌,
}
use litehive.Base.Text.{Text, lit, text_eq, text_beq, text_beq_iff}
use litehive.Domain.Common.{TaskStage, PipelineStatus}
use litehive.Domain.Status.{
  TaskStatus, TaskExecutionStatus, execution_value, marker_value, pipeline_value, stage_value,
}
use litehive.Domain.Task.{TaskRecord}
use litehive.Tasks.Eligibility.{
  normalize_resumable_stage_name, first_stage, trusted_stage_marker_statuses, resumable_queue_stage,
  task_has_resume_marker, names, trusted, marker_candidate,
}
use litehive.Tasks.Mutations.{
  idle_stage_state, clear_task_run_activity, reset_task_for_recovery, stage_status, queued_at,
  target_stage, queued_if, canonicalize_resumable_queue_task,
}

-- The stage that a pipeline status names.
abbrev pub stage_at : PipelineStatus → Option TaskStage
stage_at PipelineStatus.grooming = some TaskStage.grooming
stage_at PipelineStatus.implementing = some TaskStage.implementing
stage_at PipelineStatus.testing = some TaskStage.testing
stage_at PipelineStatus.accepting = some TaskStage.accepting
stage_at PipelineStatus.commit_to_git = some TaskStage.commit_to_git
stage_at _ = none

normalize-pipeline_value :
    (p : PipelineStatus) → normalize_resumable_stage_name (some (pipeline_value p)) ≡ stage_at p
unfolding normalize_resumable_stage_name pipeline_value stage_value lit text_beq
normalize-pipeline_value PipelineStatus.backlog = refl
normalize-pipeline_value _ = refl

resumable-stage_at :
    (t : TaskRecord) (s : TaskStage)
    → stage_at t.pipeline_status ≡ some s
    → resumable_queue_stage t ≡ some s
unfolding resumable_queue_stage first_stage
resumable-stage_at t s h = rw (normalize-pipeline_value t.pipeline_status, h) refl

stage_at-stage_status : (s : TaskStage) → stage_at (stage_status s) ≡ some s
stage_at-stage_status TaskStage.grooming = refl
stage_at-stage_status _ = refl

value-stage_status : (s : TaskStage) → stage_value s ≡ pipeline_value (stage_status s)
unfolding stage_value pipeline_value
value-stage_status TaskStage.grooming = refl
value-stage_status _ = refl

-- What holds of a task that is put at a stage.
pub record ResumesAt (s : TaskStage) (t : TaskRecord) : Type 0 where
  pub queued : t.status ≡ TaskStatus.queued
  pub unflagged : (t.flag_reason ≡ none) × (t.close_reason ≡ none)
  pub idle : t.runtime.pipeline.execution_status ≡ execution_value TaskExecutionStatus.idle
  pub resumes : resumable_queue_stage t ≡ some s
  pub vouched : task_has_resume_marker t ≡ true

text_eq_self : (s : Text) → s == s ≡ true
text_eq_self s = (text_beq_iff s s).1 refl

marker-vouched :
    (t : TaskRecord)
    → names t.runtime.pipeline.current_stage.stage (pipeline_value t.pipeline_status) ≡ true
    → trusted t.runtime.pipeline.current_stage ≡ true
    → task_has_resume_marker t ≡ true
unfolding task_has_resume_marker
marker-vouched t named ok = rw (named, ok) refl

trusted-idle : (now : Text) (stage : Option Text) → trusted (idle_stage_state now stage) ≡ true
unfolding idle_stage_state trusted_stage_marker_statuses marker_value lit text_beq
trusted-idle now stage = refl

queued_at-ResumesAt :
    (t : TaskRecord) (s : TaskStage) (now : Text) → ResumesAt s (queued_at t s now)
unfolding queued_at clear_task_run_activity idle_stage_state
queued_at-ResumesAt t s now = record {
  queued = refl;
  unflagged = (refl, refl);
  idle = refl;
  resumes = resumable-stage_at (queued_at t s now) s (stage_at-stage_status s);
  vouched =
      marker-vouched (queued_at t s now)
        (ap (λ v. text_beq v (pipeline_value (stage_status s))) (value-stage_status s)
          ∙ text_eq_self (pipeline_value (stage_status s)))
        (trusted-idle now (some (stage_value s)));
}

-- What `canonicalize_resumable_queue_task` does with a task for a stage: nothing if there is none;
-- else the task is put there, queued and idle, with no flag and a stage marker that keeps it there.
abbrev pub PutAt : TaskRecord → Option TaskStage → TaskRecord → Type 0
PutAt t none u = u ≡ t
PutAt t (some s) u = ResumesAt s u

-- The stage that is meant: the one whose name is given, or, without a name, the one at which the
-- task would resume.
abbrev pub Meant : TaskRecord → Option Text → Option TaskStage → Type 0
Meant t none answer = answer ≡ resumable_queue_stage t
Meant t (some name) (some s) = name ≡ stage_value s
Meant t (some name) none = (s : TaskStage) → name ≢ stage_value s

differs : (name spelled : Text) → name == spelled ≡ false → name ≢ spelled
differs name spelled h e = absurd_of (sym ((text_beq_iff name spelled).1 e) ∙ h)
  where
    absurd_of : {P : Type 0} → true ≡ false → P
    absurd_of h = cc

unspelled :
    (name : Text)
    → name == stage_value TaskStage.grooming ≡ false
    → name == stage_value TaskStage.implementing ≡ false
    → name == stage_value TaskStage.testing ≡ false
    → name == stage_value TaskStage.accepting ≡ false
    → name == stage_value TaskStage.commit_to_git ≡ false
    → (s : TaskStage) → name ≢ stage_value s
unspelled name g i t a c TaskStage.grooming = differs name _ g
unspelled name g i t a c TaskStage.implementing = differs name _ i
unspelled name g i t a c TaskStage.testing = differs name _ t
unspelled name g i t a c TaskStage.accepting = differs name _ a
unspelled name g i t a c TaskStage.commit_to_git = differs name _ c

normalize-Meant :
    (t : TaskRecord) (name : Text)
    → Meant t (some name) (normalize_resumable_stage_name (some name))
unfolding normalize_resumable_stage_name stage_value
normalize-Meant task name = elim (Bool-cases (name == stage_value TaskStage.grooming)) [
  | inl y ↦ rw y ((text_beq_iff name _).0 y)
  | inr g ↦ rw g (elim (Bool-cases (name == stage_value TaskStage.implementing)) [
    | inl y ↦ rw y ((text_beq_iff name _).0 y)
    | inr i ↦ rw i (elim (Bool-cases (name == stage_value TaskStage.testing)) [
      | inl y ↦ rw y ((text_beq_iff name _).0 y)
      | inr t ↦ rw t (elim (Bool-cases (name == stage_value TaskStage.accepting)) [
        | inl y ↦ rw y ((text_beq_iff name _).0 y)
        | inr a ↦ rw a (elim (Bool-cases (name == stage_value TaskStage.commit_to_git)) [
          | inl y ↦ rw y ((text_beq_iff name _).0 y)
          | inr c ↦ rw c (unspelled name g i t a c)
        ])
      ])
    ])
  ])
]

target-Meant : (t : TaskRecord) (name : Option Text) → Meant t name (target_stage t name)
target-Meant t none = refl
target-Meant t (some name) = normalize-Meant t name

target-cases :
    (t : TaskRecord) (target : Option TaskStage) (now : Text)
    → PutAt t target (queued_if t target now)
target-cases t none now = refl
target-cases t (some s) now = queued_at-ResumesAt t s now

-- The answer is the stage that the name spells, none if it spells none, and the one at which the
-- task would resume without a name; the task is then put at that stage, queued and idle, with no flag
-- and a marker that keeps it there, or left as it was if there is none.
pub canonicalize_resumable_queue_task-PutAt :
    (t : TaskRecord) (name : Option Text) (now : Text)
    → let answer = canonicalize_resumable_queue_task t name now in
      Meant t name answer.1 × PutAt t answer.1 answer.0
unfolding canonicalize_resumable_queue_task
canonicalize_resumable_queue_task-PutAt t name now =
    (target-Meant t name, target-cases t (target_stage t name) now)

-- What holds of a task that is reset for another attempt.
pub record ResetAt (p : PipelineStatus) (t : TaskRecord) : Type 0 where
  pub at_stage : t.pipeline_status ≡ p
  pub unflagged : (t.flag_reason ≡ none) × (t.close_reason ≡ none)
  pub idle : t.runtime.pipeline.execution_status ≡ execution_value TaskExecutionStatus.idle
  pub uninterrupted : t.runtime.execution.interruption ≡ none
  pub agentless : t.runtime.execution.active_subagent ≡ none
  pub resumes : resumable_queue_stage t ≡ stage_at p
  pub vouched : task_has_resume_marker t ≡ true

first_stage-reset :
    (now : Text) (p : PipelineStatus)
    → first_stage (
        some (pipeline_value p)
        ∷ none
        ∷ none
        ∷ marker_candidate (idle_stage_state now (some (pipeline_value p))))
      ≡ stage_at p
unfolding first_stage pipeline_value idle_stage_state trusted_stage_marker_statuses marker_value
    stage_value lit text_beq
first_stage-reset now PipelineStatus.backlog = refl
first_stage-reset now _ = refl

-- A reset puts a task at the stage asked for, idle and with no flag, close reason, interruption or
-- subagent left, whatever state it was in; the stage is where it resumes, or none if it is no agent's stage,
-- and a marker keeps it there.
pub reset_task_for_recovery-ResetAt :
    (t : TaskRecord) (status : TaskStatus) (p : PipelineStatus) (clear : Bool) (now : Text)
    → ResetAt p (reset_task_for_recovery t status p clear now)
unfolding reset_task_for_recovery clear_task_run_activity resumable_queue_stage
reset_task_for_recovery-ResetAt t status p clear now = record {
  at_stage = refl;
  unflagged = (refl, refl);
  idle = refl;
  uninterrupted = refl;
  agentless = refl;
  resumes = first_stage-reset now p;
  vouched =
      marker-vouched (reset_task_for_recovery t status p clear now)
        (text_eq_self (pipeline_value p)) (trusted-idle now (some (pipeline_value p)));
}
