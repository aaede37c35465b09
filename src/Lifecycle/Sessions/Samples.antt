-- ===== src/Lifecycle/Sessions/Samples.antt =====
-- A table of sessions after an engine was switched and a stage's sessions were dropped.
use litehive.Base.{◌≡◌, refl, none, some, List, [], ◌∷◌}
use litehive.Base.Text.{Text, lit, text_beq}
use litehive.Domain.Common.{implementing, testing}
use litehive.Lifecycle.Sessions.{
  Session, new_session, capture_engine_session_id, resume_session_id, continuation_state,
  get_or_create, persist, clear_node_sessions,
}
use litehive.Lifecycle.Sessions.Table.{
  Write, rows_after, newest_session, get_or_create-newest_session,
}

abbrev with_id : Text → Session
with_id id = capture_engine_session_id new_session id

-- The newest write comes first: the sessions at testing are dropped, after codex and claude have
-- worked at implementing and codex at testing.
abbrev writes : List Write
writes =
    Write.cleared (lit "t1") testing
    ∷ Write.persisted (lit "t1") testing (lit "codex") (with_id (lit "c2"))
    ∷ Write.persisted (lit "t1") implementing (lit "claude") (with_id (lit "d1"))
    ∷ Write.persisted (lit "t1") implementing (lit "codex") (with_id (lit "c1"))
    ∷ []

get_or_create-newest_session_example :
    get_or_create (lit "t1") implementing (lit "codex") (rows_after writes)
    ≡ newest_session (lit "t1") implementing (lit "codex") writes
get_or_create-newest_session_example =
    get_or_create-newest_session (lit "t1") implementing (lit "codex") writes

resumed_after_switch :
    resume_session_id (get_or_create (lit "t1") implementing (lit "codex") (rows_after writes))
    ≡ some (lit "c1")
unfolding resume_session_id continuation_state capture_engine_session_id get_or_create rows_after
    persist clear_node_sessions lit text_beq
resumed_after_switch = refl

fresh_after_clear :
    resume_session_id (get_or_create (lit "t1") testing (lit "codex") (rows_after writes)) ≡ none
unfolding resume_session_id continuation_state capture_engine_session_id get_or_create rows_after
    persist clear_node_sessions lit text_beq
fresh_after_clear = refl
