-- ===== src/Tasks/Runnable.antt =====
-- litehive/tasks/queue_eligibility.py, failed_runs.py: which tasks may run, said without the order of
-- the code's tests.
use litehive.Base.{
  ℕ, ◌≤◌, ◌<◌, ◌≡◌, refl, sym, ◌∙◌, ◌↔◌, ◌⊎◌, inl, inr, Bool-cases, Bool, true, false, not, ◌&&◌,
  ◌||◌, Option, List, [], ◌∷◌, All, leb, leb→le, ltb→lt, ◌≢◌, elem, none, some, ◌==◌, subst, filter,
  if◌then◌else◌, arith,
}
use mathlib.Core.Option.{some-injective}
use litehive.Base.Text.{Text, lit, text_eq, text_beq_iff}
use litehive.Domain.Common.{PipelineStatus}
use litehive.Domain.Status.{
  TaskStatus, TaskOutcomeKind, execution_value, is_queued, is_in_progress, is_interrupted,
  is_flagged, at_done,
}
use litehive.Domain.Runtime.{RuntimeFailedRunRecord}
use litehive.Domain.Task.{TaskRecord}
use litehive.Tasks.FailedRuns.{
  record_leb, insert_sorted, sorted, blocks, values, nonempty, blocking_failed_run_records,
  has_blocking_failed_run_history,
}
use litehive.Tasks.Eligibility.{
  has_terminal_execution_status, has_terminal_outcome_kind, reason_in, manual_reasons,
  exhausted_reasons, needs_manual_intervention, is_recovery_budget_exhausted,
  terminal_execution_statuses, terminal_outcome_kind, is_task_eligible_for_execution,
}

-- The failure has happened once at most, or as often as the operator has accepted.
abbrev pub Accepted : RuntimeFailedRunRecord → Type 0
Accepted r = (r.count ≤ 1) ⊎ (r.count ≤ r.operator_override_count)

absurd_of : {P : Type 0} → true ≡ false → P
absurd_of h = cc

nonempty-insert_sorted :
    (r : RuntimeFailedRunRecord) (rs : List RuntimeFailedRunRecord)
    → nonempty (insert_sorted r rs) ≡ true
unfolding insert_sorted
nonempty-insert_sorted r [] = refl
nonempty-insert_sorted r (x ∷ xs) = elim (Bool-cases (record_leb r x)) [
  | inl first ↦ rw first refl
  | inr later ↦ rw later refl
]

nonempty-sorted : (rs : List RuntimeFailedRunRecord) → nonempty (sorted rs) ≡ nonempty rs
unfolding sorted
nonempty-sorted [] = refl
nonempty-sorted (r ∷ rs) = nonempty-insert_sorted r (sorted rs)

blocks-Accepted : (r : RuntimeFailedRunRecord) → (blocks r ≡ false) ↔ Accepted r
blocks-Accepted r = elim (Bool-cases (leb r.count 1)) [
  | inl few ↦ rw few ((λ _. inl (leb→le r.count 1 few)), (λ _. refl))
  | inr many ↦ elim (Bool-cases (leb r.count r.operator_override_count)) [
    | inl over ↦
        rw (many, over) ((λ _. inr (leb→le r.count r.operator_override_count over)), (λ _. refl))
    | inr under ↦
        rw (many, under)
          (
            (λ h. cc),
            (λ ok. elim ok [
              | inl one ↦ ground (arith, one, many)
              | inr all ↦ ground (arith, all, under)
            ]),
          )
  ]
]

blocks-All :
    (rs : List RuntimeFailedRunRecord) → (nonempty (filter blocks rs) ≡ false) ↔ All Accepted rs
blocks-All [] = ((λ _. tt), (λ _. refl))
blocks-All (r ∷ rs) = elim (Bool-cases (blocks r)) [
  | inl stop ↦ rw stop ((λ h. cc), (λ ok. absurd_of (sym stop ∙ (blocks-Accepted r).1 ok.0)))
  | inr go ↦
      rw go ((λ h. ((blocks-Accepted r).0 go, (blocks-All rs).0 h)), (λ ok. (blocks-All rs).1 ok.1))
]

has_blocking_failed_run_history-All :
    (t : TaskRecord)
    → (has_blocking_failed_run_history t ≡ false)
      ↔ All Accepted (values t.runtime.pipeline.failed_run_history)
unfolding has_blocking_failed_run_history blocking_failed_run_records
has_blocking_failed_run_history-All t =
    let rs = values t.runtime.pipeline.failed_run_history in
    rw (nonempty-sorted (filter blocks rs)) (blocks-All rs)

-- The texts of the execution statuses with which a run is over.
abbrev pub Ended : Text → Type 0
Ended status =
    (status ≡ lit "done")
    ⊎ ((status ≡ lit "cancelled")
        ⊎ ((status ≡ lit "failed") ⊎ ((status ≡ lit "blocked") ⊎ (status ≡ lit "interrupted"))))

-- The outcomes with which a task is closed.
pub data Closed : Option TaskOutcomeKind → Type 0 where
  closed : Closed (some TaskOutcomeKind.closed)
  duplicate : Closed (some TaskOutcomeKind.duplicate)
  deferred : Closed (some TaskOutcomeKind.deferred)
  wont_do : Closed (some TaskOutcomeKind.wont_do)

-- The reasons of a flag that an operator must settle.
abbrev pub Manual : Text → Type 0
Manual reason =
    (reason ≡ lit "hook_reject_loop")
    ⊎ ((reason ≡ lit "merge_failed")
        ⊎ ((reason ≡ lit "rejection_loop_detected")
            ⊎ ((reason ≡ lit "semantic_reject") ⊎ (reason ≡ lit "time_budget_exceeded"))))

-- The reasons of a flag that leave no recovery.
abbrev pub Exhausted : Text → Type 0
Exhausted reason =
    (reason ≡ lit "crash_budget_exhausted")
    ⊎ ((reason ≡ lit "recovery_budget_exhausted") ⊎ (reason ≡ lit "recovery_failed"))

-- The statuses from which a task may run; of a flagged task it depends on how often and why.
abbrev pub Open : TaskStatus → ℕ → Option Text → Type 0
Open TaskStatus.queued flags reason = Unit
Open TaskStatus.in_progress flags reason = Unit
Open TaskStatus.interrupted flags reason = Unit
Open TaskStatus.flagged flags reason =
    (flags < 3) × ((r : Text) → reason ≡ some r → (¬ Manual r) × (¬ Exhausted r))
Open _ flags reason = ⊥

pub record Runnable (t : TaskRecord) : Type 0 where
  pub accepted : All Accepted (values t.runtime.pipeline.failed_run_history)
  pub not_ended : ¬ Ended t.runtime.pipeline.execution_status
  pub not_closed : ¬ Closed t.runtime.pipeline.last_outcome.kind
  pub not_done : t.pipeline_status ≢ PipelineStatus.done
  pub open_ : Open t.status t.flag_count t.flag_reason

-- A test that holds exactly of `P` fails exactly of what is not `P`.
false_iff : {P : Type 0} (b : Bool) → (b ≡ true) ↔ P → (b ≡ false) ↔ (¬ P)
false_iff true iff = ((λ h. cc), (λ no. absurd (no (iff.0 refl))))
false_iff false iff = ((λ _ p. absurd_of (sym (iff.1 p))), (λ _. refl))

or_iff : {P Q : Type 0} (a b : Bool) → (a ≡ true) ↔ P → (b ≡ true) ↔ Q → (a || b ≡ true) ↔ (P ⊎ Q)
or_iff true b p q = ((λ _. inl (p.0 refl)), (λ _. refl))
or_iff false b p q = (
  (λ h. inr (q.0 h)),
  (λ ok. elim ok [ inl left ↦ absurd_of (sym (p.1 left)) | inr right ↦ q.1 right ]),
)

last_iff : (x a : Text) → (elem x (a ∷ []) ≡ true) ↔ (x ≡ a)
last_iff x a = ((λ h. (text_beq_iff x a).0 (or_false _ h)), (λ e. rw ((text_beq_iff x a).1 e) refl))
  where
    or_false : (b : Bool) → b || false ≡ true → b ≡ true
    or_false true h = refl
    or_false false h = h

elem_iff :
    {Q : Type 0} (x a : Text) (others : List Text)
    → (elem x others ≡ true) ↔ Q
    → (elem x (a ∷ others) ≡ true) ↔ ((x ≡ a) ⊎ Q)
elem_iff x a others q = or_iff (x == a) (elem x others) (text_beq_iff x a) q

one_of_3 :
    (x a b c : Text) → (elem x (a ∷ b ∷ c ∷ []) ≡ false) ↔ (¬ ((x ≡ a) ⊎ ((x ≡ b) ⊎ (x ≡ c))))
one_of_3 x a b c =
    false_iff (elem x (a ∷ b ∷ c ∷ []))
      (elem_iff x a (b ∷ c ∷ []) (elem_iff x b (c ∷ []) (last_iff x c)))

one_of_5 :
    (x a b c d e : Text)
    → (elem x (a ∷ b ∷ c ∷ d ∷ e ∷ []) ≡ false)
      ↔ (¬ ((x ≡ a) ⊎ ((x ≡ b) ⊎ ((x ≡ c) ⊎ ((x ≡ d) ⊎ (x ≡ e))))))
one_of_5 x a b c d e = false_iff (elem x (a ∷ b ∷ c ∷ d ∷ e ∷ [])) (
    elem_iff x a (b ∷ c ∷ d ∷ e ∷ []) (
      elem_iff x b (c ∷ d ∷ e ∷ [])
        (elem_iff x c (d ∷ e ∷ []) (elem_iff x d (e ∷ []) (last_iff x e)))))

Ended-iff :
    (t : TaskRecord)
    → (has_terminal_execution_status t ≡ false) ↔ (¬ Ended t.runtime.pipeline.execution_status)
unfolding has_terminal_execution_status terminal_execution_statuses execution_value
Ended-iff t =
    one_of_5 t.runtime.pipeline.execution_status (lit "done") (lit "cancelled") (lit "failed")
      (lit "blocked") (lit "interrupted")

Closed-iff : (o : Option TaskOutcomeKind) → (terminal_outcome_kind o ≡ false) ↔ (¬ Closed o)
Closed-iff (some TaskOutcomeKind.closed) = ((λ h. cc), (λ no. absurd (no Closed.closed)))
Closed-iff (some TaskOutcomeKind.duplicate) = ((λ h. cc), (λ no. absurd (no Closed.duplicate)))
Closed-iff (some TaskOutcomeKind.deferred) = ((λ h. cc), (λ no. absurd (no Closed.deferred)))
Closed-iff (some TaskOutcomeKind.wont_do) = ((λ h. cc), (λ no. absurd (no Closed.wont_do)))
Closed-iff (some TaskOutcomeKind.done) = ((λ _ c. elim c [ ]), (λ _. refl))
Closed-iff (some TaskOutcomeKind.flagged) = ((λ _ c. elim c [ ]), (λ _. refl))
Closed-iff (some TaskOutcomeKind.blocked) = ((λ _ c. elim c [ ]), (λ _. refl))
Closed-iff (some TaskOutcomeKind.interrupted) = ((λ _ c. elim c [ ]), (λ _. refl))
Closed-iff (some TaskOutcomeKind.cancelled) = ((λ _ c. elim c [ ]), (λ _. refl))
Closed-iff none = ((λ _ c. elim c [ ]), (λ _. refl))

done_iff : (p : PipelineStatus) → (at_done p ≡ false) ↔ (p ≢ PipelineStatus.done)
done_iff PipelineStatus.done = ((λ h. cc), (λ no. absurd (no refl)))
done_iff _ = ((λ _ e. cc), (λ _. refl))

reasons_iff :
    (reason : Option Text)
    → ((reason_in reason manual_reasons ≡ false) × (reason_in reason exhausted_reasons ≡ false))
      ↔ ((r : Text) → reason ≡ some r → (¬ Manual r) × (¬ Exhausted r))
unfolding manual_reasons exhausted_reasons
reasons_iff none = ((λ _ r e. cc), (λ _. (refl, refl)))
reasons_iff (some reason) =
    let manual =
      one_of_5 reason (lit "hook_reject_loop") (lit "merge_failed") (lit "rejection_loop_detected")
        (lit "semantic_reject") (lit "time_budget_exceeded") in
    let exhausted =
      one_of_3 reason (lit "crash_budget_exhausted") (lit "recovery_budget_exhausted")
        (lit "recovery_failed") in
    (
      (λ h r e.
          subst (λ x. (¬ Manual x) × (¬ Exhausted x)) (some-injective reason r e)
            (manual.0 h.0, exhausted.0 h.1)),
      (λ h. let ok = h reason refl in (manual.1 ok.0, exhausted.1 ok.1)),
    )

-- The tests of the code on the status.
abbrev status_tests : TaskStatus → ℕ → Bool → Bool → Bool
status_tests s flags manual exhausted =
    if is_flagged s && (leb 3 flags || manual)
    then false
    else if is_flagged s && exhausted
    then false
    else if is_queued s || is_in_progress s || is_flagged s
    then true
    else if is_interrupted s
    then true
    else false

flagged_tests :
    (flags : ℕ) (manual exhausted : Bool)
    → (status_tests TaskStatus.flagged flags manual exhausted ≡ true)
      ↔ ((flags < 3) × (manual ≡ false) × (exhausted ≡ false))
flagged_tests flags manual exhausted = ground (arith, ltb→lt flags 3)

status_tests-Open :
    (s : TaskStatus) (flags : ℕ) (reason : Option Text)
    → (status_tests s flags (reason_in reason manual_reasons) (reason_in reason exhausted_reasons)
        ≡ true)
      ↔ Open s flags reason
status_tests-Open TaskStatus.flagged flags reason =
    let reasons = reasons_iff reason in
    let tests =
      flagged_tests flags (reason_in reason manual_reasons) (reason_in reason exhausted_reasons) in
    (
      (λ h. let k = tests.0 h in (k.0, reasons.0 (k.1, k.2))),
      (λ ok. let r = reasons.1 ok.1 in tests.1 (ok.0, r.0, r.1)),
    )
status_tests-Open TaskStatus.queued flags reason = ((λ _. tt), (λ _. refl))
status_tests-Open TaskStatus.in_progress flags reason = ((λ _. tt), (λ _. refl))
status_tests-Open TaskStatus.interrupted flags reason = ((λ _. tt), (λ _. refl))
status_tests-Open TaskStatus.parked flags reason = ((λ h. cc), (λ h. elim h [ ]))
status_tests-Open TaskStatus.done flags reason = ((λ h. cc), (λ h. elim h [ ]))
status_tests-Open TaskStatus.closed flags reason = ((λ h. cc), (λ h. elim h [ ]))

tests_shape :
    (b e o d manual rest : Bool)
    → (if b
        then false
        else if e
        then false
        else if o
        then false
        else if d
        then false
        else if b || manual
        then false
        else rest)
      ≡ not b && (not e && (not o && (not d && (if manual then false else rest))))
tests_shape true e o d manual rest = refl
tests_shape false true o d manual rest = refl
tests_shape false false true d manual rest = refl
tests_shape false false false true manual rest = refl
tests_shape false false false false manual rest = refl

eligible_tests :
    (t : TaskRecord)
    → is_task_eligible_for_execution t
      ≡ not (has_blocking_failed_run_history t)
        && (not (has_terminal_execution_status t)
            && (not (has_terminal_outcome_kind t)
                && (not (at_done t.pipeline_status)
                    && status_tests t.status t.flag_count
                        (reason_in t.flag_reason manual_reasons)
                        (reason_in t.flag_reason exhausted_reasons))))
unfolding is_task_eligible_for_execution needs_manual_intervention is_recovery_budget_exhausted
eligible_tests t =
    tests_shape (has_blocking_failed_run_history t) (has_terminal_execution_status t)
      (has_terminal_outcome_kind t) (at_done t.pipeline_status)
      (is_flagged t.status && (leb 3 t.flag_count || reason_in t.flag_reason manual_reasons))
      (if is_flagged t.status && reason_in t.flag_reason exhausted_reasons
        then false
        else if is_queued t.status || is_in_progress t.status || is_flagged t.status
        then true
        else if is_interrupted t.status
        then true
        else false)

all_tests_iff :
    (b e o d s : Bool)
    → (not b && (not e && (not o && (not d && s))) ≡ true)
      ↔ ((b ≡ false) × (e ≡ false) × (o ≡ false) × (d ≡ false) × (s ≡ true))
all_tests_iff true e o d s = ((λ h. cc), (λ h. cc))
all_tests_iff false true o d s = ((λ h. cc), (λ h. cc))
all_tests_iff false false true d s = ((λ h. cc), (λ h. cc))
all_tests_iff false false false true s = ((λ h. cc), (λ h. cc))
all_tests_iff false false false false s = ((λ h. (refl, refl, refl, refl, h)), (λ h. h.4))

-- A task may run exactly when each of its recurring failures is accepted, neither its last run nor
-- its outcome ended it, its pipeline is not done, and it is queued, in progress or interrupted, or
-- flagged fewer than three times and for none of the reasons that an operator must settle.
pub is_task_eligible_for_execution-Runnable :
    (t : TaskRecord) → (is_task_eligible_for_execution t ≡ true) ↔ Runnable t
unfolding has_terminal_outcome_kind
is_task_eligible_for_execution-Runnable t =
    let accepted = has_blocking_failed_run_history-All t in
    let b = has_blocking_failed_run_history t in
    let e = has_terminal_execution_status t in
    let o = has_terminal_outcome_kind t in
    let d = at_done t.pipeline_status in
    let s =
      status_tests t.status t.flag_count (reason_in t.flag_reason manual_reasons)
        (reason_in t.flag_reason exhausted_reasons) in
    let status = status_tests-Open t.status t.flag_count t.flag_reason in
    (
      (λ h.
          let all = (all_tests_iff b e o d s).0 (sym (eligible_tests t) ∙ h) in
          record {
            accepted = accepted.0 all.0;
            not_ended = (Ended-iff t).0 all.1;
            not_closed = (Closed-iff t.runtime.pipeline.last_outcome.kind).0 all.2;
            not_done = (done_iff t.pipeline_status).0 all.3;
            open_ = status.0 all.4;
          }),
      (λ ok.
          eligible_tests t
          ∙ (all_tests_iff b e o d s).1 (
            accepted.1 ok.accepted,
            (Ended-iff t).1 ok.not_ended,
            (Closed-iff t.runtime.pipeline.last_outcome.kind).1 ok.not_closed,
            (done_iff t.pipeline_status).1 ok.not_done,
            status.1 ok.open_,
          )),
    )
