-- ===== src/Lifecycle/Nodes/Returns.antt =====
-- litehive/lifecycle/nodes: what the nodes return, put together with the table of rules.
use litehive.Base.{
  ℕ, Bool, true, ◌≡◌, refl, sym, subst, Option, none, some, List, [], ◌∷◌, arith, Bool-cases, inl,
  inr,
}
use litehive.Base.Text.{Text, truthy, text_eq}
use litehive.Base.Json.{Fields}
use litehive.Domain.Common.{PipelineState}
use litehive.Lifecycle.Events.{Event, DispositionHint}
use litehive.Lifecycle.State.{TaskState}
use litehive.Lifecycle.Stages.{NodeType, node_type, is_agent_stage}
use litehive.Lifecycle.Transitions.{Transition, ok, evaluate}
use litehive.Lifecycle.Rules.{rules}
use litehive.Lifecycle.Rules.Emits.{hook_events, agent_events, emits, is_one_of}
use litehive.Lifecycle.Rules.Cover.{evaluate-covers}
use litehive.Lifecycle.Nodes.System.{
  Probe, Git, ready_run, worktree_sync_run, pre_exec_recovery_run, commit_run,
}
use litehive.Lifecycle.Nodes.Engines.{TurnEnd, AgentConfig, EngineEnd, of_verdict, run_agent}
use litehive.Lifecycle.Nodes.Resolved.{Resolves, run_agent-Resolves}
use litehive.Lifecycle.Nodes.Hook.{HookSpec, Failed, hook_run, hook_reject}
use litehive.Lifecycle.Nodes.Agent.{
  Verdict, canonical_pipeline_state, parse_verdict, AgentVerdict, verdict_to_event, event_for,
  reject_event, recovery_verdict_to_event, recovery_event_for, resume_event,
}

-- What an agent's node is given: its budgets, its prompts, the engines and their selector.
pub record Visit (P : Type 0) : Type 0 where
  pub config : AgentConfig
  pub nudge : P → P
  pub run_turn : Text → ℕ → P → TurnEnd
  pub select : List Text → Option Text
  pub prompt : P

-- What the visit of an agent's node comes to, with fuel for so many engines.
unfoldable pub visited : {P : Type 0} → (AgentVerdict → Option Event) → Visit P → ℕ → EngineEnd
visited to_event a fuel =
    run_agent a.config to_event a.nudge a.run_turn a.select a.prompt fuel [] none

abbrev pub of_agent : AgentVerdict → Option Event
of_agent v = some (verdict_to_event v)

-- What the node of a stage returns on a state.
pub data Returns (P : Type 0) (s : TaskState) : PipelineState → Event → Type 0 where
  ready : (probes : List (TaskState → Probe)) → Returns P s PipelineState.ready (ready_run probes s)
  worktree_sync : (git : Git Bool) → Returns P s PipelineState.worktree_sync (worktree_sync_run git)
  pre_exec : Returns P s PipelineState.recovering_pre_exec (pre_exec_recovery_run s)
  commit : (git : Git (Option Fields)) → Returns P s PipelineState.commit (commit_run git)
  hook :
      (point : PipelineState)
      → node_type point ≡ NodeType.hook
      → (runner : HookSpec → TaskState → Option Failed) (specs : List HookSpec)
      → Returns P s point (hook_run point runner specs s)
  agent :
      (stage : PipelineState)
      → is_agent_stage stage ≡ true
      → (a : Visit P) (fuel : ℕ) (e : Event) → visited of_agent a fuel ≡ EngineEnd.resolved e
      → Returns P s stage e
  merge :
      (a : Visit P) (fuel : ℕ) (e : Event)
      → visited of_agent a fuel ≡ EngineEnd.resolved e
      → Returns P s PipelineState.merge_resolving e
  recovery :
      (a : Visit P) (fuel : ℕ) (e : Event)
      → visited recovery_verdict_to_event a fuel ≡ EngineEnd.resolved e
      → Returns P s PipelineState.recovering e

abbrev Emitted : PipelineState → Event → Type 0
Emitted from e = is_one_of e (emits from) ≡ true

ready-Emitted :
    (probes : List (TaskState → Probe)) (s : TaskState)
    → Emitted PipelineState.ready (ready_run probes s)
unfolding ready_run emits
ready-Emitted [] s = refl
ready-Emitted (p ∷ ps) s = ground (arith, ready-Emitted ps s)

hook_stage : (point : PipelineState) → node_type point ≡ NodeType.hook → emits point ≡ hook_events
unfolding emits node_type
hook_stage PipelineState.before_grooming p = refl
hook_stage PipelineState.after_grooming p = refl
hook_stage PipelineState.before_implementing p = refl
hook_stage PipelineState.after_implementing p = refl
hook_stage PipelineState.before_testing p = refl
hook_stage PipelineState.after_testing p = refl
hook_stage PipelineState.before_accepting p = refl
hook_stage PipelineState.after_accepting p = refl
hook_stage PipelineState.after_commit p = refl
hook_stage _ p = cc

hook_run-events :
    (point : PipelineState) (runner : HookSpec → TaskState → Option Failed) (specs : List HookSpec)
    (s : TaskState)
    → is_one_of (hook_run point runner specs s) hook_events ≡ true
unfolding hook_run hook_reject
hook_run-events point runner [] s = refl
hook_run-events point runner (spec ∷ specs) s = ground (arith, hook_run-events point runner specs s)

verdict-Emitted :
    (v : AgentVerdict) (o : Option Verdict) → is_one_of (event_for v o) agent_events ≡ true
unfolding event_for reject_event
verdict-Emitted v none = refl
verdict-Emitted v (some Verdict.pass) = refl
verdict-Emitted v (some Verdict.reject) = refl
verdict-Emitted v (some Verdict.blocked) = refl
verdict-Emitted v (some _) = refl

-- The events of a visit, if those of its verdicts and its crashes are in `Q`.
visited-Resolves :
    {P : Type 0} (Q : Event → Type 0) (to_event : AgentVerdict → Option Event) (a : Visit P)
    (fuel : ℕ)
    → ((x m : Text) → Q (Event.crash x m))
    → ((v : AgentVerdict) → Resolves Q (of_verdict (to_event v)))
    → Resolves Q (visited to_event a fuel)
unfolding visited
visited-Resolves Q to_event a fuel crashes verdicts =
    run_agent-Resolves a.config to_event a.nudge a.run_turn Q crashes verdicts a.select a.prompt
      fuel [] none

abbrev AgentEvent : Event → Type 0
AgentEvent e = is_one_of e agent_events ≡ true

agent-events :
    {P : Type 0} (a : Visit P) (fuel : ℕ) (e : Event)
    → visited of_agent a fuel ≡ EngineEnd.resolved e
    → AgentEvent e
unfolding verdict_to_event
agent-events a fuel e h = subst (Resolves AgentEvent) h (
    visited-Resolves AgentEvent of_agent a fuel (λ x m. refl)
      (λ v. verdict-Emitted v (parse_verdict v.outcome)))

agent_stage-emits :
    (stage : PipelineState) → is_agent_stage stage ≡ true → emits stage ≡ agent_events
unfolding emits
agent_stage-emits PipelineState.grooming h = refl
agent_stage-emits PipelineState.implementing h = refl
agent_stage-emits PipelineState.testing h = refl
agent_stage-emits PipelineState.accepting h = refl
agent_stage-emits _ h = cc

abbrev AllEmitted : Option Event → Type 0
AllEmitted none = Unit
AllEmitted (some e) = Emitted PipelineState.recovering e

resume_at :
    (hint : DispositionHint) (o : Option PipelineState)
    → AllEmitted
        (elim o [ none ↦ none | some stage ↦ some (Event.recovery_succeeded (some stage) hint) ])
unfolding emits
resume_at hint none = tt
resume_at hint (some stage) = refl

resume-Emitted :
    (missing : Text) (hint : DispositionHint) (target : Text)
    → AllEmitted (resume_event missing hint target)
unfolding resume_event emits
resume-Emitted missing hint target = elim (Bool-cases (truthy target)) [
  | inl y ↦ rw (y, AllEmitted) (resume_at hint (canonical_pipeline_state target))
  | inr n ↦ rw (n, AllEmitted) refl
]

recovery-Emitted : (v : AgentVerdict) (o : Option Verdict) → AllEmitted (recovery_event_for v o)
unfolding recovery_event_for emits
recovery-Emitted v (some Verdict.resume) = resume-Emitted _ _ _
recovery-Emitted v (some Verdict.advance) = resume-Emitted _ _ _
recovery-Emitted v (some Verdict.done) = refl
recovery-Emitted v (some Verdict.budget_hit) = refl
recovery-Emitted v _ = refl

verdict_of-Emitted :
    (o : Option Event) → AllEmitted o → Resolves (Emitted PipelineState.recovering) (of_verdict o)
verdict_of-Emitted none h = tt
verdict_of-Emitted (some e) h = h

recovery-events :
    {P : Type 0} (a : Visit P) (fuel : ℕ) (e : Event)
    → visited recovery_verdict_to_event a fuel ≡ EngineEnd.resolved e
    → Emitted PipelineState.recovering e
unfolding recovery_verdict_to_event emits
recovery-events a fuel e h = subst (Resolves (Emitted PipelineState.recovering)) h (
    visited-Resolves (Emitted PipelineState.recovering) recovery_verdict_to_event a fuel
      (λ x m. refl) (λ v. verdict_of-Emitted _ (recovery-Emitted v (parse_verdict v.outcome))))

Returns-Emitted :
    {P : Type 0} (from : PipelineState) (s : TaskState) (e : Event)
    → Returns P s from e
    → Emitted from e
unfolding worktree_sync_run pre_exec_recovery_run commit_run verdict_to_event
    recovery_verdict_to_event emits
Returns-Emitted _ s _ (Returns.ready probes) = ready-Emitted probes s
Returns-Emitted _ s _ (Returns.worktree_sync (Git.merged c)) = refl
Returns-Emitted _ s _ (Returns.worktree_sync (Git.conflicts fs)) = refl
Returns-Emitted _ s _ (Returns.worktree_sync (Git.git_error m)) = refl
Returns-Emitted _ s _ Returns.pre_exec = ground arith
Returns-Emitted _ s _ (Returns.commit (Git.merged c)) = refl
Returns-Emitted _ s _ (Returns.commit (Git.conflicts fs)) = refl
Returns-Emitted _ s _ (Returns.commit (Git.git_error m)) = refl
Returns-Emitted _ s _ (Returns.hook point h runner specs) =
    subst (λ cs. is_one_of (hook_run point runner specs s) cs ≡ true) (sym (hook_stage point h))
      (hook_run-events point runner specs s)
Returns-Emitted from s e (Returns.agent stage h a fuel _ r) =
    subst (λ cs. is_one_of e cs ≡ true) (sym (agent_stage-emits from h)) (agent-events a fuel e r)
Returns-Emitted _ s e (Returns.merge a fuel _ r) = agent-events a fuel e r
Returns-Emitted _ s e (Returns.recovery a fuel _ r) = recovery-events a fuel e r

-- Whatever a node returns at its stage (the system nodes for every outcome of their git work, the
-- hooks for every result of their commands, the agents for every answer of their engines), the table has a
-- transition for it: no event of a node leaves a task without a next stage.
pub returned-evaluate :
    {P : Type 0} (now : Text) (from : PipelineState) (s : TaskState) (e : Event)
    → Returns P s from e
    → (t : Transition) × (evaluate rules now from e s ≡ ok t)
returned-evaluate now from s e r = evaluate-covers now from e s (Returns-Emitted from s e r)
