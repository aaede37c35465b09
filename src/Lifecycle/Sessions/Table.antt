-- ===== src/Lifecycle/Sessions/Table.antt =====
-- litehive/lifecycle/sessions.py: what a turn finds in the table after writes and deletions.
use litehive.Base.{
  ◌≡◌, refl, ap, sym, ◌∙◌, ◌↔◌, inl, inr, Bool-cases, Bool, true, false, ◌&&◌, some, List, [], ◌∷◌,
  ◌==◌, if◌then◌else◌, arith,
}
use litehive.Base.Text.{Text, text_eq, text_beq_iff}
use litehive.Domain.Common.{PipelineState, state_eq, state_beq_iff}
use litehive.Lifecycle.Sessions.{
  Session, new_session, capture_engine_session_id, resume_session_id, continuation_state,
  SessionRow, of_node, at_key, get_or_create, persist, clear_node_sessions,
}

-- A write of the table.
pub data Write : Type 0 where
  persisted : Text → PipelineState → Text → Session → Write
  cleared : Text → PipelineState → Write

-- The table after writes, of which the newest comes first.
unfoldable pub rows_after : List Write → List SessionRow
rows_after [] = []
rows_after (Write.persisted t n e s ∷ earlier) = persist t n e s (rows_after earlier)
rows_after (Write.cleared t n ∷ earlier) = clear_node_sessions t n (rows_after earlier)

-- Whether two keys of the table are the same.
abbrev pub same_node : Text → PipelineState → Text → PipelineState → Bool
same_node t n u o = t == u && n == o

contradiction : {P : Type 0} → true ≡ false → P
contradiction h = ground arith

and_1 : (a b : Bool) → a && b ≡ true → a ≡ true
and_1 a b h = ground arith

and_2 : (a b : Bool) → a && b ≡ true → b ≡ true
and_2 a b h = ground arith

and_both : (a b : Bool) → a ≡ true → b ≡ true → a && b ≡ true
and_both a b h k = ground arith

abbrev pub same_key : Text → PipelineState → Text → Text → PipelineState → Text → Bool
same_key t n e u o f = same_node t n u o && e == f

-- The session of the newest write that concerns a key, if any does: what a client of the table may
-- count on.
unfoldable pub newest_session : Text → PipelineState → Text → List Write → Session
newest_session u o f [] = new_session
newest_session u o f (Write.persisted t n e s ∷ earlier) =
    if same_key t n e u o f then s else newest_session u o f earlier
newest_session u o f (Write.cleared t n ∷ earlier) =
    if same_node t n u o then new_session else newest_session u o f earlier

abbrev choose : Bool → Session → Session → Session
choose b x y = if b then x else y

choose_again :
    (b : Bool) (x y z : Session) → (if b then x else z) ≡ (if b then x else (if b then y else z))
choose_again true x y z = refl
choose_again false x y z = refl

choose_first :
    (b c : Bool) (x y z : Session)
    → (if b then x else z) ≡ (if b then x else (if b && c then y else z))
choose_first true c x y z = refl
choose_first false c x y z = refl

same_node_iff :
    (t : Text) (n : PipelineState) (u : Text) (o : PipelineState)
    → (same_node t n u o ≡ true) ↔ ((t ≡ u) × (n ≡ o))
same_node_iff t n u o = (
  (λ h. (
    (text_beq_iff t u).0 (and_1 (t == u) (n == o) h),
    (state_beq_iff n o).0 (and_2 (t == u) (n == o) h),
  )),
  (λ (a, b). and_both (t == u) (n == o) ((text_beq_iff t u).1 a) ((state_beq_iff n o).1 b)),
)

same_key_iff :
    (t : Text) (n : PipelineState) (e u : Text) (o : PipelineState) (f : Text)
    → (same_key t n e u o f ≡ true) ↔ ((t ≡ u) × (n ≡ o) × (e ≡ f))
same_key_iff t n e u o f = (
  (λ h.
      let k = (same_node_iff t n u o).0 (and_1 (same_node t n u o) (e == f) h) in
      (k.0, k.1, (text_beq_iff e f).0 (and_2 (same_node t n u o) (e == f) h))),
  (λ (a, b, c).
      and_both (same_node t n u o) (e == f) ((same_node_iff t n u o).1 (a, b))
        ((text_beq_iff e f).1 c)),
)

-- A key agrees with both of two keys or with neither when they are the same.
same_key-along :
    (a : Text) (b : PipelineState) (c t : Text) (n : PipelineState) (e u : Text) (o : PipelineState)
    (f : Text)
    → same_key a b c t n e ≡ true
    → same_key a b c u o f ≡ same_key t n e u o f
same_key-along a b c t n e u o f h =
    let k = (same_key_iff a b c t n e).0 h in λ i. same_key (k.0 i) (k.1 i) (k.2 i) u o f

same_node-along :
    (a : Text) (b : PipelineState) (t : Text) (n : PipelineState) (u : Text) (o : PipelineState)
    → same_node a b t n ≡ true
    → same_node a b u o ≡ same_node t n u o
same_node-along a b t n u o h =
    let k = (same_node_iff a b t n).0 h in λ i. same_node (k.0 i) (k.1 i) u o

-- A key cannot be the same as one of two that are not.
same_key-apart :
    (a : Text) (b : PipelineState) (c t : Text) (n : PipelineState) (e u : Text) (o : PipelineState)
    (f : Text)
    → same_key a b c t n e ≡ false
    → same_key a b c u o f ≡ true
    → same_key t n e u o f ≡ false
same_key-apart a b c t n e u o f h k = elim (Bool-cases (same_key t n e u o f)) [
  | inl same ↦
      let p = (same_key_iff a b c u o f).0 k in
      let q = (same_key_iff t n e u o f).0 same in
      let r = (same_key_iff a b c t n e).1 (p.0 ∙ sym q.0, p.1 ∙ sym q.1, p.2 ∙ sym q.2) in
      contradiction (sym r ∙ h)
  | inr other ↦ other
]

same_node-apart :
    (a : Text) (b : PipelineState) (t : Text) (n : PipelineState) (u : Text) (o : PipelineState)
    → same_node a b t n ≡ false
    → same_node a b u o ≡ true
    → same_node t n u o ≡ false
same_node-apart a b t n u o h k = elim (Bool-cases (same_node t n u o)) [
  | inl same ↦
      let p = (same_node_iff a b u o).0 k in
      let q = (same_node_iff t n u o).0 same in
      let r = (same_node_iff a b t n).1 (p.0 ∙ sym q.0, p.1 ∙ sym q.1) in contradiction (sym r ∙ h)
  | inr other ↦ other
]

module _ (u : Text) (o : PipelineState) (f : Text) where
  get_or_create-persist :
      (t : Text) (n : PipelineState) (e : Text) (s : Session) (rows : List SessionRow)
      → get_or_create u o f (persist t n e s rows)
        ≡ (if same_key t n e u o f then s else get_or_create u o f rows)
  unfolding get_or_create persist
  get_or_create-persist t n e s [] = refl
  get_or_create-persist t n e s (row ∷ rows) = elim (Bool-cases (at_key t n e row)) [
    | inl here_ ↦ rw here_ (
        rw (same_key-along row.task_id row.node_name row.engine_name t n e u o f here_)
          (choose_again (same_key t n e u o f) s row.session (get_or_create u o f rows)))
    | inr later ↦ rw later (elim (Bool-cases (at_key u o f row)) [
      | inl found ↦ rw found (
          rw (same_key-apart row.task_id row.node_name row.engine_name t n e u o f later found)
            refl)
      | inr passed ↦ rw passed (get_or_create-persist t n e s rows)
    ])
  ]

  get_or_create-clear :
      (t : Text) (n : PipelineState) (rows : List SessionRow)
      → get_or_create u o f (clear_node_sessions t n rows)
        ≡ (if same_node t n u o then new_session else get_or_create u o f rows)
  unfolding get_or_create clear_node_sessions
  get_or_create-clear t n [] = ground arith
  get_or_create-clear t n (row ∷ rows) =
      let rest = get_or_create-clear t n rows in
      elim (Bool-cases (of_node t n row)) [
        | inl gone ↦ rw gone (
            rw (same_node-along row.task_id row.node_name t n u o gone) (
              rest
              ∙ choose_first (same_node t n u o) (row.engine_name == f) new_session row.session
                  (get_or_create u o f rows)))
        | inr kept ↦ rw kept (elim (Bool-cases (at_key u o f row)) [
          | inl found ↦ rw found (
              rw
                (same_node-apart row.task_id row.node_name t n u o kept
                  (and_1 (of_node u o row) (row.engine_name == f) found))
                refl)
          | inr passed ↦ rw passed rest
        ])
      ]

  -- After any sequence of writes and deletions on an empty table, a turn finds the session of the
  -- newest write with its task, stage and engine, and a fresh session when there is none or when the
  -- sessions of its task and stage were dropped after it; no write under another key changes this.
  pub get_or_create-newest_session :
      (writes : List Write) → get_or_create u o f (rows_after writes) ≡ newest_session u o f writes
  unfolding rows_after newest_session get_or_create
  get_or_create-newest_session [] = refl
  get_or_create-newest_session (Write.persisted t n e s ∷ earlier) =
      get_or_create-persist t n e s (rows_after earlier)
      ∙ ap (choose (same_key t n e u o f) s) (get_or_create-newest_session earlier)
  get_or_create-newest_session (Write.cleared t n ∷ earlier) =
      get_or_create-clear t n (rows_after earlier)
      ∙ ap (choose (same_node t n u o) new_session) (get_or_create-newest_session earlier)

-- What a turn captures is what the next turn on the same engine resumes, until the stage's sessions
-- are dropped.
captured-resume_session_id :
    (t : Text) (n : PipelineState) (e id : Text) (s : Session) (rows : List SessionRow)
    → resume_session_id (get_or_create t n e (persist t n e (capture_engine_session_id s id) rows))
      ≡ some id
unfolding resume_session_id continuation_state capture_engine_session_id
captured-resume_session_id t n e id s rows =
    rw (get_or_create-persist t n e t n e (capture_engine_session_id s id) rows)
      (rw ((same_key_iff t n e t n e).1 (refl, refl, refl)) refl)
