-- ===== src/Lifecycle/Rules/Refinement.antt =====
-- litehive/lifecycle/rules.py: every transition of the table is a move of `Edge`.
use litehive.Base.{
  ◌≡◌, ◌≢◌, refl, sym, ◌∙◌, inl, inr, Bool-cases, true, false, ◌==◌, subst, none, some, All,
  and_left, and_right,
}
use litehive.Base.Text.{Text}
use litehive.Domain.Common.{PipelineMode, PipelineState, state_eq, state_beq_iff}
use litehive.Lifecycle.Events.{Event, EventClass, DispositionHint, class_of}
use litehive.Lifecycle.State.{FailedReason, TaskState}
use litehive.Lifecycle.Deltas.Effects.{fail}
use litehive.Lifecycle.Guards.{
  both, mode, zero_change_shortcut, stage_retries_exhausted, last_hook_ok,
  recovery_resume_is_concrete,
}
use litehive.Lifecycle.Transitions.{
  ok, applies, resume_from_origin, retry_epoch_rules, Transition, fire, evaluate,
  entry_from_worktree_sync,
}
use litehive.Lifecycle.Transitions.First.{evaluate_all}
use litehive.Lifecycle.Rules.{
  rules, entry_rules, worktree_sync_rules, pre_exec_rules, grooming_rules, implementing_rules,
  testing_rules, accepting_rules, commit_rules, merge_rules, grooming_reject_rules, retry_rules,
  commit_reject_rules, blocked_rules, escalation_rules, recovering_rules, wildcard_rules,
}
use litehive.Lifecycle.Rules.Parts.{
  recovery_rules, terminal_reject_rules, epoch_terminal_reject_rules, grooming_epoch,
  implementing_epoch, testing_epoch, accepting_epoch, commit_epoch,
}
use litehive.Lifecycle.Rules.Edge.{
  Edge, Plain, Counts, Passes, Leaves, Recoverable, Starts, Refuses, Fails,
}
use litehive.Lifecycle.Rules.Soundness.{
  Follows, resume_rule, resume-Follows, recovered_rule, recovered-Follows, Sound, static, at, plain,
  pass, leave, fails, fails_anywhere, recovery-Sound, recovery_at, any_of-in_phase, terminal-Sound,
  epoch_terminal-Sound, retry_epoch-Sound, join,
}

-- At `recovering`, the event names no stage to resume at.
abbrev Unnamed : PipelineState → Event → Type 0
Unnamed from e =
    from ≡ PipelineState.recovering
    → (target : PipelineState) (hint : DispositionHint)
    → e ≢ Event.recovery_succeeded (some target) hint

no_target-Fails :
    (s : TaskState) (e : Event)
    → class_of e ≡ EventClass.recovery_succeeded
    → ((target : PipelineState) (hint : DispositionHint)
        → e ≢ Event.recovery_succeeded (some target) hint)
    → Fails s e PipelineState.recovering FailedReason.recovery_missing_target_stage
no_target-Fails s (Event.recovery_succeeded none hint) cls unnamed = Fails.no_target hint refl
no_target-Fails s (Event.recovery_succeeded (some target) hint) cls unnamed =
    absurd (unnamed target hint refl)
no_target-Fails s _ cls unnamed = cc

module _ (now : Text) (from : PipelineState) (e : Event) (s : TaskState) where
  entry-Sound : All (Sound now from e s) entry_rules
  unfolding entry_rules
  entry-Sound = (
    plain now from e s Plain.clean,
    (static now from e s _ _ _ none _ (λ same cls _. Edge.probe same cls refl refl), tt),
  )

  worktree_sync-Sound : All (Sound now from e s) worktree_sync_rules
  unfolding worktree_sync_rules
  worktree_sync-Sound = (
    at now from e s _ PipelineState.worktree_sync refl
        (λ cls _. unfold fire entry_from_worktree_sync in Edge.enter refl cls refl refl),
    join now from e s _ _ (terminal-Sound now from e s Refuses.worktree_sync) (
        join now from e s _ _ (recovery_at now from e s Recoverable.crash Starts.sync_crash)
          (recovery_at now from e s Recoverable.timeout Starts.sync_timeout)),
  )

  pre_exec-Sound : All (Sound now from e s) pre_exec_rules
  unfolding pre_exec_rules
  pre_exec-Sound = (
    at now from e s resume_rule _ refl (λ cls _. resume-Follows now s e cls),
    (
      fails now from e s _ _ none _ (λ cls _. Fails.pre_exec_failed cls),
      (
        fails now from e s _ _ none _ (λ cls _. Fails.pre_exec_budget cls),
        (
          fails now from e s _ _ none _ (λ cls _. Fails.pre_exec_crash cls),
          (fails now from e s _ _ none _ (λ cls _. Fails.pre_exec_timeout cls), tt),
        ),
      ),
    ),
  )

  grooming-Sound : All (Sound now from e s) grooming_rules
  unfolding grooming_rules
  grooming-Sound = (
    plain now from e s Plain.groom,
    (pass now from e s Passes.grooming, (plain now from e s Plain.groomed, tt)),
  )

  implementing-Sound : All (Sound now from e s) implementing_rules
  unfolding implementing_rules
  implementing-Sound = (
    plain now from e s Plain.implement,
    (
      pass now from e s Passes.implementing,
      (
        leave now from e s _ (both (mode PipelineMode.single) zero_change_shortcut) (λ ok.
            Leaves.unchanged (and_left _ _ ok) (and_right (mode PipelineMode.single s e) _ ok)),
        (
          leave now from e s _ (mode PipelineMode.single) (λ ok. Leaves.changed ok),
          (leave now from e s _ (mode PipelineMode.full) (λ ok. Leaves.to_test ok), tt),
        ),
      ),
    ),
  )

  testing-Sound : All (Sound now from e s) testing_rules
  unfolding testing_rules
  testing-Sound = (
    plain now from e s Plain.test,
    (pass now from e s Passes.testing, (plain now from e s Plain.tested, tt)),
  )

  accepting-Sound : All (Sound now from e s) accepting_rules
  unfolding accepting_rules
  accepting-Sound = (
    plain now from e s Plain.accept,
    (pass now from e s Passes.accepting, (plain now from e s Plain.accepted, tt)),
  )

  commit-Sound : All (Sound now from e s) commit_rules
  unfolding commit_rules
  commit-Sound = (plain now from e s Plain.land, (plain now from e s Plain.finish, tt))

  merge-Sound : All (Sound now from e s) merge_rules
  unfolding merge_rules
  merge-Sound = (
    static now from e s _ _ _ none _ (λ same cls _. Edge.conflict same cls refl refl),
    (
      plain now from e s Plain.merge,
      join now from e s _ _ (terminal-Sound now from e s Refuses.merge_resolving) (
          join now from e s _ _ (recovery_at now from e s Recoverable.blocked Starts.merge_blocked)
            (join now from e s _ _ (recovery_at now from e s Recoverable.crash Starts.merge_crash)
              (recovery_at now from e s Recoverable.timeout Starts.merge_timeout))),
    ),
  )

  retry-Sound : All (Sound now from e s) retry_rules
  unfolding retry_rules
  retry-Sound =
      join now from e s _ _
        (retry_epoch-Sound now from e s _ implementing_epoch
          (Counts.before_implementing, (Counts.implementing, (Counts.after_implementing, tt))))
        (
          static now from e s _ _ _
              (some (both (stage_retries_exhausted PipelineState.testing) last_hook_ok)) _
              (λ same cls ok.
                Edge.override same cls (and_left _ _ ok)
                  (and_right (stage_retries_exhausted PipelineState.testing s e) _ ok) refl refl),
          join now from e s _ _
              (retry_epoch-Sound now from e s _ testing_epoch
                (Counts.before_testing, (Counts.testing, (Counts.after_testing, tt))))
              (retry_epoch-Sound now from e s _ accepting_epoch
                (Counts.before_accepting, (Counts.accepting, (Counts.after_accepting, tt)))),
        )

  blocked-Sound : All (Sound now from e s) blocked_rules
  unfolding blocked_rules
  blocked-Sound =
      join now from e s _ _ (recovery_at now from e s Recoverable.blocked Starts.grooming_blocked) (
        join now from e s _ _
          (recovery_at now from e s Recoverable.blocked Starts.implementing_blocked)
          (join now from e s _ _
            (recovery_at now from e s Recoverable.blocked Starts.testing_blocked)
            (recovery_at now from e s Recoverable.blocked Starts.accepting_blocked)))

  escalation-Sound : All (Sound now from e s) escalation_rules
  unfolding escalation_rules
  escalation-Sound = (
    fails_anywhere now from e s _ _ Fails.stage_limit,
    (
      fails_anywhere now from e s _ _ Fails.overall_limit,
      (
        fails_anywhere now from e s _ _ Fails.overtime,
        (fails now from e s _ _ none _ (λ cls _. Fails.recovery_overtime cls), tt),
      ),
    ),
  )

  -- That no stage is named is only known where the rule for a named one did not apply.
  recovering-Sound : Unnamed from e → All (Sound now from e s) recovering_rules
  unfolding recovering_rules
  recovering-Sound unnamed = (
    at now from e s recovered_rule _ refl (λ _ ok. recovered-Follows now s e ok),
    (
      static now from e s PipelineState.recovering _ _ none
          (some (fail FailedReason.recovery_missing_target_stage))
          (λ same cls _.
            Edge.fails FailedReason.recovery_missing_target_stage
              (subst (λ q. Fails s e q FailedReason.recovery_missing_target_stage) (sym same)
                (no_target-Fails s e cls (unnamed same)))
              refl refl),
      (
        fails now from e s _ _ none _ (λ cls _. Fails.gave_up cls),
        (
          fails now from e s _ _ none _ (λ cls _. Fails.recovery_budget cls),
          (
            fails now from e s _ _ none _ (λ cls _. Fails.recovery_crash cls),
            (fails now from e s _ _ none _ (λ cls _. Fails.recovery_timeout cls), tt),
          ),
        ),
      ),
    ),
  )

  wildcard-Sound : All (Sound now from e s) wildcard_rules
  unfolding wildcard_rules
  wildcard-Sound =
      join now from e s _ _
        (recovery-Sound now from e s _ Recoverable.crash
          (λ same. Starts.phase_crash (any_of-in_phase from same)))
        (recovery-Sound now from e s _ Recoverable.timeout
          (λ same. Starts.phase_timeout (any_of-in_phase from same)))

  rules-Sound : Unnamed from e → All (Sound now from e s) rules
  unfolding rules grooming_reject_rules commit_reject_rules
  rules-Sound unnamed = join now from e s _ _ entry-Sound (
      join now from e s _ _ worktree_sync-Sound (
        join now from e s _ _ pre_exec-Sound (
          join now from e s _ _ grooming-Sound (
            join now from e s _ _ implementing-Sound (
              join now from e s _ _ testing-Sound (
                join now from e s _ _ accepting-Sound (
                  join now from e s _ _ commit-Sound (
                    join now from e s _ _ merge-Sound (
                      join now from e s _ _
                        (epoch_terminal-Sound now from e s grooming_epoch (
                          Refuses.before_grooming,
                          (Refuses.grooming, (Refuses.after_grooming, tt)),
                        ))
                        (join now from e s _ _ retry-Sound (
                          join now from e s _ _
                            (epoch_terminal-Sound now from e s commit_epoch
                              (Refuses.commit, (Refuses.after_commit, tt)))
                            (join now from e s _ _ blocked-Sound (
                              join now from e s _ _ escalation-Sound (
                                join now from e s _ _ (recovering-Sound unnamed)
                                  wildcard-Sound))))))))))))))

  evaluate-Unnamed : Unnamed from e → Follows now from e s (evaluate rules now from e s)
  evaluate-Unnamed unnamed =
      evaluate_all now from e s (Follows now from e s) rules (rules-Sound unnamed) tt

-- A recovery to a named stage takes the rule for it, which stands first.
evaluate-named :
    (now : Text) (s : TaskState) (target : PipelineState) (hint : DispositionHint)
    → let e = Event.recovery_succeeded (some target) hint in
      Follows now PipelineState.recovering e s (evaluate rules now PipelineState.recovering e s)
unfolding evaluate applies fire rules entry_rules worktree_sync_rules pre_exec_rules grooming_rules
    implementing_rules testing_rules accepting_rules commit_rules merge_rules grooming_reject_rules
    retry_rules commit_reject_rules blocked_rules escalation_rules recovering_rules wildcard_rules
    recovery_rules terminal_reject_rules epoch_terminal_reject_rules retry_epoch_rules
    recovery_resume_is_concrete resume_from_origin
evaluate-named now s PipelineState.done hint =
    Edge.recovered PipelineState.done hint refl refl refl refl
evaluate-named now s target hint = Edge.recovered target hint refl refl refl refl

evaluate_at :
    (now : Text) (from : PipelineState) (s : TaskState) (target : PipelineState)
    (hint : DispositionHint)
    → let e = Event.recovery_succeeded (some target) hint in
      Follows now from e s (evaluate rules now from e s)
evaluate_at now from s target hint =
    let e = Event.recovery_succeeded (some target) hint in
    elim (Bool-cases (from == PipelineState.recovering)) [
      | inl same ↦
          subst (λ q. Follows now q e s (evaluate rules now q e s))
            (sym ((state_beq_iff from PipelineState.recovering).0 same))
            (evaluate-named now s target hint)
      | inr other ↦ evaluate-Unnamed now from e s λ same.
          absurd (differs (sym ((state_beq_iff from PipelineState.recovering).1 same) ∙ other))
    ]
  where
    differs : true ≡ false → ⊥
    differs h = cc

pub evaluate-Follows :
    (now : Text) (from : PipelineState) (e : Event) (s : TaskState)
    → Follows now from e s (evaluate rules now from e s)
evaluate-Follows now from (Event.recovery_succeeded (some target) hint) s =
    evaluate_at now from s target hint
evaluate-Follows now from (Event.recovery_succeeded none hint) s =
    evaluate-Unnamed now from (Event.recovery_succeeded none hint) s λ _ target other h. cc
evaluate-Follows now from e s = evaluate-Unnamed now from e s λ _ target hint h. cc

-- Every transition that the table gives, from any stage, by any event and on any state, is a move
-- of the relation `Edge`: from the stages, by the class of events, under the guard and with the patch
-- that `Edge` states of its kind, and, if it fails the task, for the reason that `Fails` states.
pub evaluate-Edge :
    (now : Text) (from : PipelineState) (e : Event) (s : TaskState) (t : Transition)
    → evaluate rules now from e s ≡ ok t
    → Edge now s e from t.next t.delta
evaluate-Edge now from e s t h = subst (Follows now from e s) h (evaluate-Follows now from e s)
