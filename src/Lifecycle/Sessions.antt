-- ===== src/Lifecycle/Sessions.antt =====
-- litehive/lifecycle/sessions.py: the conversations of agents with engines, and the table that keeps
-- them (`Session`, `SqliteSessionStore`).
use litehive.Base.{
  Bool, true, false, not, ◌&&◌, Option, none, some, is_some, or_else, List, [], ◌∷◌, ◌==◌, filter,
  if◌then◌else◌,
}
use litehive.Base.Text.{Text, text_eq}
use litehive.Domain.Common.{PipelineState, state_eq}
pub mod Table
mod Samples

pub record Session : Type 0 where
  pub engine_session_id : Option Text
  pub conversation_id : Option Text

pub data Continuation : Type 0 where
  fresh : Continuation
  resumable : Text → Continuation

abbrev continued : Option Text → Option Text → Continuation
continued (some id) conversation = Continuation.resumable id
continued none (some id) = Continuation.resumable id
continued none none = Continuation.fresh

unfoldable pub continuation_state : Session → Continuation
continuation_state s = continued s.engine_session_id s.conversation_id

abbrev resume_id : Continuation → Option Text
resume_id Continuation.fresh = none
resume_id (Continuation.resumable id) = some id

unfoldable pub resume_session_id : Session → Option Text
unfolding continuation_state
resume_session_id s = resume_id (continuation_state s)

unfoldable pub capture_engine_session_id : Session → Text → Session
capture_engine_session_id s id = record s { engine_session_id = some id }

-- `Session.resumable`.
unfoldable pub is_resumable_session : Session → Bool
unfolding resume_session_id
is_resumable_session s = is_some (resume_session_id s)

abbrev pub new_session : Session
new_session = record { engine_session_id = none; conversation_id = none }

-- A row of `pipeline_sessions`, without the time of its last write. The first three columns are the
-- key.
pub record SessionRow : Type 0 where
  pub task_id : Text
  pub node_name : PipelineState
  pub engine_name : Text
  pub session : Session

abbrev pub of_node : Text → PipelineState → SessionRow → Bool
of_node task_id node_name row = row.task_id == task_id && row.node_name == node_name

abbrev pub at_key : Text → PipelineState → Text → SessionRow → Bool
at_key task_id node_name engine_name row =
    of_node task_id node_name row && row.engine_name == engine_name

-- SELECT, and the session without a row.
unfoldable pub get_or_create : Text → PipelineState → Text → List SessionRow → Session
get_or_create task_id node_name engine_name [] = new_session
get_or_create task_id node_name engine_name (row ∷ rows) =
    if at_key task_id node_name engine_name row
    then row.session
    else get_or_create task_id node_name engine_name rows

-- INSERT with ON CONFLICT DO UPDATE.
unfoldable pub persist : Text → PipelineState → Text → Session → List SessionRow → List SessionRow
persist task_id node_name engine_name session [] =
    record {
      task_id = task_id;
      node_name = node_name;
      engine_name = engine_name;
      session = session;
    }
    ∷ []
persist task_id node_name engine_name session (row ∷ rows) =
    if at_key task_id node_name engine_name row
    then record row { session = session } ∷ rows
    else row ∷ persist task_id node_name engine_name session rows

-- DELETE.
unfoldable pub clear_node_sessions : Text → PipelineState → List SessionRow → List SessionRow
clear_node_sessions task_id node_name rows =
    filter (λ row. not (of_node task_id node_name row)) rows
