-- ===== src/Lifecycle/Nodes/System.antt =====
-- litehive/lifecycle/nodes/system.py: the nodes that no agent backs. The probes, the repairs and
-- the git work are arguments.
use litehive.Base.{
  Bool, true, Option, none, some, List, [], ◌∷◌, ◌++◌, ltb, if◌then◌else◌, length, take,
}
use litehive.Base.Text.{Text, lit, decimal}
use litehive.Base.Json.{Fields}
use litehive.Domain.Common.{PipelineMode, PipelineState}
use litehive.Domain.Recovery.{Source}
use litehive.Lifecycle.Events.{Event}
use litehive.Lifecycle.State.{TaskState}

-- What a probe does: answers, or raises.
pub data Probe : Type 0 where
  answers : Bool → Probe
  raises : Probe

abbrev broken : Probe → Bool
broken (answers b) = b
broken raises = true

unfoldable pub ready_run : List (TaskState → Probe) → TaskState → Event
ready_run [] s = Event.clean_state
ready_run (probe ∷ probes) s =
    if broken (probe s) then Event.needs_pre_exec_recovery else ready_run probes s

-- What git work ends with.
pub data Git (A : Type 0) : Type 0 where
  merged : A → Git A
  conflicts : List Text → Git A
  git_error : (message : Text) → Git A

-- `", ".join(files)`.
joined : List Text → Text
joined [] = []
joined (f ∷ []) = f
joined (f ∷ (g ∷ fs)) = f ++ (lit ", " ++ joined (g ∷ fs))

unfoldable pub worktree_sync_run : Git Bool → Event
unfolding joined
worktree_sync_run (merged changed) = Event.pass Fields.end
worktree_sync_run (conflicts files) =
    Event.reject Source.system
      (lit "worktree_sync merge conflict on "
        ++ (decimal (length files) ++ (lit " file(s): " ++ joined (take 5 files))))
      none Fields.end
worktree_sync_run (git_error message) = Event.crash (lit "GitError") message

abbrev default_resume_stage : PipelineMode → PipelineState
default_resume_stage PipelineMode.single = PipelineState.implementing
default_resume_stage PipelineMode.full = PipelineState.grooming

abbrev entry_or : Option PipelineState → PipelineState → PipelineState
entry_or none d = d
entry_or (some s) d = s

-- The repairs run before the answer and do not change it: what they raise is swallowed.
unfoldable pub pre_exec_recovery_run : TaskState → Event
pre_exec_recovery_run s =
    if ltb 1 s.pre_exec_recovery_attempt
    then Event.pre_exec_recovery_budget_hit
    else Event.pre_exec_recovery_succeeded
        (entry_or s.entry_stage (default_resume_stage s.pipeline_mode))

abbrev metadata_or : Option Fields → Fields
metadata_or none = Fields.end
metadata_or (some m) = m

unfoldable pub commit_run : Git (Option Fields) → Event
commit_run (merged metadata) = Event.pass (metadata_or metadata)
commit_run (conflicts files) = Event.merge_conflict_detected files
commit_run (git_error message) = Event.crash (lit "GitError") message
