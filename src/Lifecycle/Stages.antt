-- ===== src/Lifecycle/Stages.antt =====
-- litehive/lifecycle/stages.py, types.py: which kind of node executes at a stage, and the sets of
-- stages that the runner tests.
use litehive.Base.{Bool, List, [], ◌∷◌, elem}
use litehive.Domain.Common.{PipelineState, state_eq}

pub data NodeType : Type 0 where
  agent hook system terminal : NodeType

-- The `node_type` of the class that `Stages` links to the stage.
unfoldable pub node_type : PipelineState → NodeType
node_type PipelineState.ready = NodeType.system
node_type PipelineState.worktree_sync = NodeType.system
node_type PipelineState.recovering_pre_exec = NodeType.system
node_type PipelineState.grooming = NodeType.agent
node_type PipelineState.implementing = NodeType.agent
node_type PipelineState.testing = NodeType.agent
node_type PipelineState.accepting = NodeType.agent
node_type PipelineState.commit = NodeType.system
node_type PipelineState.merge_resolving = NodeType.agent
node_type PipelineState.recovering = NodeType.agent
node_type PipelineState.done = NodeType.terminal
node_type PipelineState.failed = NodeType.terminal
node_type _ = NodeType.hook

abbrev pub agent_stages : List PipelineState
agent_stages =
    PipelineState.grooming ∷ PipelineState.implementing ∷ PipelineState.testing
    ∷ PipelineState.accepting ∷ []

abbrev pub is_agent_stage : PipelineState → Bool
is_agent_stage s = elem s agent_stages

-- `stage in TERMINAL_NODES`.
abbrev pub is_terminal : PipelineState → Bool
is_terminal s = elem s (PipelineState.done ∷ PipelineState.failed ∷ [])

-- `stage in _COMMIT_REACHED_PHASES`.
abbrev pub commit_reached : PipelineState → Bool
commit_reached s =
    elem s (PipelineState.commit ∷ PipelineState.after_commit ∷ PipelineState.merge_resolving ∷ [])
