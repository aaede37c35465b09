-- ===== src/Domain/Common.antt =====
-- litehive/domain/common.py: the positions of the pipeline's state machine and their projections.
use litehive.Base.{
  ℕ, zero, suc, ◌≡◌, refl, sym, ap, ◌∙◌, ◌↔◌, Bool, true, false, Option, none, some, List, [], ◌∷◌,
  Eq, nat_beq, nat_beq_iff,
}
use litehive.Base.Text.{Text, lit}

pub data PipelineMode : Type 0 where
  single full : PipelineMode

pub data PipelineState : Type 0 where
  ready worktree_sync recovering_pre_exec : PipelineState
  before_grooming grooming after_grooming : PipelineState
  before_implementing implementing after_implementing : PipelineState
  before_testing testing after_testing : PipelineState
  before_accepting accepting after_accepting : PipelineState
  commit after_commit merge_resolving : PipelineState
  recovering done failed : PipelineState

-- The position of a member in its enumeration, by which two members are compared.
abbrev pub index : PipelineState → ℕ
index ready = 0
index worktree_sync = 1
index recovering_pre_exec = 2
index before_grooming = 3
index grooming = 4
index after_grooming = 5
index before_implementing = 6
index implementing = 7
index after_implementing = 8
index before_testing = 9
index testing = 10
index after_testing = 11
index before_accepting = 12
index accepting = 13
index after_accepting = 14
index commit = 15
index after_commit = 16
index merge_resolving = 17
index recovering = 18
index done = 19
index failed = 20

pub PipelineState-discrete : Discrete PipelineState
PipelineState-discrete = hlevel

abbrev pub states : List PipelineState
states =
    ready ∷ worktree_sync ∷ recovering_pre_exec ∷ before_grooming ∷ grooming ∷ after_grooming
    ∷ before_implementing ∷ implementing ∷ after_implementing ∷ before_testing ∷ testing
    ∷ after_testing ∷ before_accepting ∷ accepting ∷ after_accepting ∷ commit ∷ after_commit
    ∷ merge_resolving ∷ recovering ∷ done ∷ failed ∷ []

nth : List PipelineState → ℕ → PipelineState
nth [] n = failed
nth (s ∷ ss) zero = s
nth (s ∷ ss) (suc n) = nth ss n

nth-index : (s : PipelineState) → nth states (index s) ≡ s
unfolding nth
nth-index ready = refl
nth-index _ = refl

abbrev pub state_beq : PipelineState → PipelineState → Bool
state_beq s t = nat_beq (index s) (index t)

pub state_beq_iff : (s t : PipelineState) → (state_beq s t ≡ true) ↔ (s ≡ t)
state_beq_iff s t = (
  (λ h. sym (nth-index s) ∙ ap (nth states) ((nat_beq_iff _ _).0 h) ∙ nth-index t),
  (λ e. (nat_beq_iff _ _).1 (ap index e)),
)

instance abbrev pub state_eq : Eq PipelineState
state_eq = record { beq = state_beq; beq_iff = state_beq_iff }

pub data TaskStage : Type 0 where
  grooming implementing testing accepting commit_to_git : TaskStage

pub data PipelineStatus : Type 0 where
  backlog grooming implementing testing accepting commit_to_git done flagged : PipelineStatus

-- `PipelineState.value`.
unfoldable pub value : PipelineState → Text
unfolding lit
value ready = lit "ready"
value worktree_sync = lit "worktree_sync"
value recovering_pre_exec = lit "recovering_pre_exec"
value before_grooming = lit "before_grooming"
value grooming = lit "grooming"
value after_grooming = lit "after_grooming"
value before_implementing = lit "before_implementing"
value implementing = lit "implementing"
value after_implementing = lit "after_implementing"
value before_testing = lit "before_testing"
value testing = lit "testing"
value after_testing = lit "after_testing"
value before_accepting = lit "before_accepting"
value accepting = lit "accepting"
value after_accepting = lit "after_accepting"
value commit = lit "commit"
value after_commit = lit "after_commit"
value merge_resolving = lit "merge_resolving"
value recovering = lit "recovering"
value done = lit "done"
value failed = lit "failed"

unfoldable pub task_stage : PipelineState → Option TaskStage
task_stage before_grooming = some TaskStage.grooming
task_stage grooming = some TaskStage.grooming
task_stage after_grooming = some TaskStage.grooming
task_stage recovering = some TaskStage.grooming
task_stage before_implementing = some TaskStage.implementing
task_stage implementing = some TaskStage.implementing
task_stage after_implementing = some TaskStage.implementing
task_stage before_testing = some TaskStage.testing
task_stage testing = some TaskStage.testing
task_stage after_testing = some TaskStage.testing
task_stage before_accepting = some TaskStage.accepting
task_stage accepting = some TaskStage.accepting
task_stage after_accepting = some TaskStage.accepting
task_stage commit = some TaskStage.commit_to_git
task_stage after_commit = some TaskStage.commit_to_git
task_stage merge_resolving = some TaskStage.commit_to_git
task_stage ready = none
task_stage worktree_sync = none
task_stage recovering_pre_exec = none
task_stage done = none
task_stage failed = none

unfoldable pub pipeline_status : PipelineState → PipelineStatus
pipeline_status ready = PipelineStatus.backlog
pipeline_status worktree_sync = PipelineStatus.backlog
pipeline_status recovering_pre_exec = PipelineStatus.backlog
pipeline_status before_grooming = PipelineStatus.grooming
pipeline_status grooming = PipelineStatus.grooming
pipeline_status after_grooming = PipelineStatus.grooming
pipeline_status recovering = PipelineStatus.grooming
pipeline_status before_implementing = PipelineStatus.implementing
pipeline_status implementing = PipelineStatus.implementing
pipeline_status after_implementing = PipelineStatus.implementing
pipeline_status before_testing = PipelineStatus.testing
pipeline_status testing = PipelineStatus.testing
pipeline_status after_testing = PipelineStatus.testing
pipeline_status before_accepting = PipelineStatus.accepting
pipeline_status accepting = PipelineStatus.accepting
pipeline_status after_accepting = PipelineStatus.accepting
pipeline_status commit = PipelineStatus.commit_to_git
pipeline_status after_commit = PipelineStatus.commit_to_git
pipeline_status merge_resolving = PipelineStatus.commit_to_git
pipeline_status done = PipelineStatus.done
pipeline_status failed = PipelineStatus.flagged

unfoldable pub primary_stage : PipelineState → PipelineState
primary_stage before_grooming = grooming
primary_stage after_grooming = grooming
primary_stage before_implementing = implementing
primary_stage after_implementing = implementing
primary_stage before_testing = testing
primary_stage after_testing = testing
primary_stage before_accepting = accepting
primary_stage after_accepting = accepting
primary_stage after_commit = commit
primary_stage recovering = grooming
primary_stage s = s

unfoldable pub accepts_runner_hook : PipelineState → Bool
accepts_runner_hook before_grooming = true
accepts_runner_hook after_grooming = true
accepts_runner_hook before_implementing = true
accepts_runner_hook after_implementing = true
accepts_runner_hook before_testing = true
accepts_runner_hook after_testing = true
accepts_runner_hook before_accepting = true
accepts_runner_hook after_accepting = true
accepts_runner_hook after_commit = true
accepts_runner_hook _ = false

unfoldable pub retry_counter_state : TaskStage → PipelineState
retry_counter_state TaskStage.grooming = PipelineState.grooming
retry_counter_state TaskStage.implementing = PipelineState.implementing
retry_counter_state TaskStage.testing = PipelineState.testing
retry_counter_state TaskStage.accepting = PipelineState.accepting
retry_counter_state TaskStage.commit_to_git = PipelineState.commit

-- What `pipeline_stage_key` returns: a task stage, or the name of a position outside all of them.
pub data StageKey : Type 0 where
  stage : TaskStage → StageKey
  phase : PipelineState → StageKey

abbrev pub key_of : PipelineState → Option TaskStage → StageKey
key_of s none = StageKey.phase s
key_of s (some t) = StageKey.stage t

unfoldable pub pipeline_stage_key : Option PipelineState → Option StageKey
unfolding task_stage
pipeline_stage_key none = none
pipeline_stage_key (some s) = some (key_of s (task_stage s))

-- The position whose value is spelled as the key is.
abbrev pub key_state : StageKey → Option PipelineState
key_state (StageKey.stage TaskStage.grooming) = some PipelineState.grooming
key_state (StageKey.stage TaskStage.implementing) = some PipelineState.implementing
key_state (StageKey.stage TaskStage.testing) = some PipelineState.testing
key_state (StageKey.stage TaskStage.accepting) = some PipelineState.accepting
key_state (StageKey.stage TaskStage.commit_to_git) = none
key_state (StageKey.phase s) = some s

abbrev pub key_index : Option StageKey → ℕ
key_index none = 30
key_index (some (StageKey.stage TaskStage.grooming)) = 25
key_index (some (StageKey.stage TaskStage.implementing)) = 26
key_index (some (StageKey.stage TaskStage.testing)) = 27
key_index (some (StageKey.stage TaskStage.accepting)) = 28
key_index (some (StageKey.stage TaskStage.commit_to_git)) = 29
key_index (some (StageKey.phase s)) = index s

abbrev pub key_beq : Option StageKey → Option StageKey → Bool
key_beq k l = nat_beq (key_index k) (key_index l)
