-- ===== src/Domain/Consistency.antt =====
-- litehive/domain/task.py: what storing a task and ending it guarantee.
use litehive.Base.{◌≡◌, refl, sym, subst, ◌↔◌, true, false, ◌||◌, Option, none, some, [], ◌∷◌}
use litehive.Base.Text.{Text, lit, truthy}
use litehive.Domain.Status.{OutcomeReasonCode, code_value, TaskStatus, is_closed, is_done}
use litehive.Domain.Task.{
  TaskRecord, to_intent_git_settings, to_state_git_settings, with_git_updates, given,
  close_reason_for, flag_reason_for, canonicalize_task_terminal_state,
}
use litehive.Domain.Runtime.{for_storage}
use litehive.Domain.Storage.{
  to_intent_record, to_state_record, to_storage_state_record, from_intent, apply_to_task,
  from_intent_and_state,
}

-- A task written as an intent row and a state row and read back is the same task, at whatever time
-- it is read.
pub from_intent_and_state-to_state_record :
    (now : Text) (t : TaskRecord)
    → from_intent_and_state now (to_intent_record t) (some (to_state_record t)) ≡ t
unfolding from_intent_and_state to_intent_record to_state_record from_intent apply_to_task
    to_intent_git_settings to_state_git_settings with_git_updates
from_intent_and_state-to_state_record now t = refl

-- The two places that hold the commit and the worktree of a task say the same.
pub record GitAgrees (t : TaskRecord) : Type 0 where
  pub commit : t.runtime.pipeline.git.commit_sha ≡ t.git.commit_sha
  pub worktree : t.git.worktree_path ≡ t.runtime.pipeline.git.worktree_path

-- A task written by way of `to_storage_state_record` and read back has one commit and one worktree
-- path: the commit of its git settings and the worktree of its runtime. The rest of the task is as
-- it was, and a task whose two places agreed is read back whole.
pub from_intent_and_state-to_storage_state_record :
    (now : Text) (t : TaskRecord)
    → let back =
        from_intent_and_state now (to_intent_record t) (some (to_storage_state_record t)) in
      GitAgrees back
      × (back.git.commit_sha ≡ t.git.commit_sha)
      × (back.git.worktree_path ≡ t.runtime.pipeline.git.worktree_path)
      × (record back { git = t.git; runtime = t.runtime } ≡ t)
      × (GitAgrees t → back ≡ t)
unfolding from_intent_and_state to_intent_record to_state_record to_storage_state_record from_intent
    apply_to_task to_intent_git_settings to_state_git_settings with_git_updates for_storage
from_intent_and_state-to_storage_state_record now t = (
  record { commit = refl; worktree = refl },
  refl,
  refl,
  refl,
  (λ same. λ i. record t {
    git = record t.git { worktree_path = sym same.worktree i };
    runtime = record t.runtime {
      pipeline = record t.runtime.pipeline {
        git = record {
          commit_sha = sym same.commit i;
          worktree_path = t.runtime.pipeline.git.worktree_path;
        };
      };
    };
  }),
)

-- A closed or done task names why and is not flagged; any other has no close reason.
abbrev pub HasReason : Option Text → Type 0
HasReason reason = (r : Text) × (reason ≡ some r) × (truthy r ≡ true)

abbrev pub TerminalConsistent : TaskRecord → Type 0
TerminalConsistent t =
    (is_closed t.status || is_done t.status ≡ true
      → HasReason t.close_reason × (t.flag_reason ≡ none))
    × (is_closed t.status || is_done t.status ≡ false → t.close_reason ≡ none)

truthy-code_value : (code : OutcomeReasonCode) → truthy (code_value code) ≡ true
unfolding code_value lit
truthy-code_value OutcomeReasonCode.verdict_fail = refl
truthy-code_value _ = refl

given-HasReason :
    (reason : Option Text) (other : Text)
    → truthy other ≡ true
    → HasReason (some (given reason other))
given-HasReason none other h = (other, refl, h)
given-HasReason (some []) other h = (other, refl, h)
given-HasReason (some (c ∷ r)) other h = (c ∷ r, refl, refl)

some-given :
    (reason : Option Text) (other : Text) → HasReason reason → some (given reason other) ≡ reason
some-given none other h = cc
some-given (some []) other h = cc
some-given (some (c ∷ r)) other h = refl

module _ (reason flag : Option Text) where
  close_reason_for-HasReason :
      (s : TaskStatus) (code : Option OutcomeReasonCode)
      → (is_closed s || is_done s ≡ true
          → HasReason (close_reason_for s reason code) × (flag_reason_for s flag ≡ none))
        × (is_closed s || is_done s ≡ false → close_reason_for s reason code ≡ none)
  unfolding close_reason_for flag_reason_for lit
  close_reason_for-HasReason TaskStatus.closed none =
      ((λ _. (given-HasReason reason (lit "unknown") refl, refl)), (λ h. cc))
  close_reason_for-HasReason TaskStatus.closed (some c) =
      ((λ _. (given-HasReason reason (code_value c) (truthy-code_value c), refl)), (λ h. cc))
  close_reason_for-HasReason TaskStatus.done code =
      ((λ _. (given-HasReason reason (lit "done") refl, refl)), (λ h. cc))
  close_reason_for-HasReason _ code = ((λ h. cc), (λ _. refl))

  close_reason_for-stable :
      (s : TaskStatus) (code : Option OutcomeReasonCode)
      → (is_closed s || is_done s ≡ true → HasReason reason × (flag ≡ none))
      → (is_closed s || is_done s ≡ false → reason ≡ none)
      → (close_reason_for s reason code ≡ reason) × (flag_reason_for s flag ≡ flag)
  unfolding close_reason_for flag_reason_for lit
  close_reason_for-stable TaskStatus.closed none ended open_ =
      (some-given reason (lit "unknown") (ended refl).0, sym (ended refl).1)
  close_reason_for-stable TaskStatus.closed (some c) ended open_ =
      (some-given reason (code_value c) (ended refl).0, sym (ended refl).1)
  close_reason_for-stable TaskStatus.done code ended open_ =
      (some-given reason (lit "done") (ended refl).0, sym (ended refl).1)
  close_reason_for-stable _ code ended open_ = (sym (open_ refl), refl)

-- Ending a task leaves it consistent: a closed or done task names a non-empty reason and carries no
-- flag, any other has no close reason. And it changes nothing exactly when the task was consistent
-- before, so that ending it again changes nothing.
pub canonicalize_task_terminal_state-TerminalConsistent :
    (t : TaskRecord)
    → TerminalConsistent (canonicalize_task_terminal_state t)
      × ((canonicalize_task_terminal_state t ≡ t) ↔ TerminalConsistent t)
unfolding canonicalize_task_terminal_state
canonicalize_task_terminal_state-TerminalConsistent t =
    let code = t.runtime.pipeline.last_outcome.reason_code in
    let made = close_reason_for-HasReason t.close_reason t.flag_reason t.status code in
    (
      made,
      (
        (λ same. subst TerminalConsistent same made),
        (λ ok.
            let kept =
              close_reason_for-stable t.close_reason t.flag_reason t.status code ok.0 ok.1 in
            λ i. record t { close_reason = kept.0 i; flag_reason = kept.1 i }),
      ),
    )
