-- ===== src/Lib.antt =====
-- litehive drives coding tasks through a pipeline of agents. This library models the pipeline's state
-- machine (litehive/lifecycle, litehive/domain) and the queue from which the runner takes its tasks
-- (litehive/tasks), with the lock files that keep one runner and one daemon (litehive/state), and
-- proves what they keep. The queue hands a task over in progress; the state
-- machine runs it to done or failed; what its failures leave in the task decides whether the queue
-- hands it over again.
--
-- The parts and their files:
--  * Base: Boolean tests, lists over native numbers, texts, dictionaries and untyped metadata values.
--  * Domain/Common: the states of the pipeline and what is derived from them (domain/common.py).
--    Domain/Recovery: triggers, budget keys and outcomes of recoveries (domain/recovery.py).
--  * Domain/Status, Domain/Runtime, Domain/Task: a task, the slices of its runtime and the state of a
--    workspace (domain/common.py, domain/outcomes.py, domain/runtime.py, domain/task.py).
--    Domain/Storage splits a task into its two rows; Domain/Consistency is about that and about the
--    end of a task.
--  * Lifecycle/Events: the events that nodes return (lifecycle/events.py). Lifecycle/State: the state
--    of a task and its recovery budget (lifecycle/persistence.py, lifecycle/types.py).
--  * Lifecycle/Deltas: the effects that build patches (domain/lifecycle_deltas.py): Tracking for
--    streaks and loops of rejects, Failure for fingerprints and records, Effects for the effects.
--  * Lifecycle/Guards, Lifecycle/Transitions: guards.py, transitions.py. `evaluate` goes through the
--    rules in order and raises `no_transition` if none applies. Lifecycle/Rules is the table of
--    rules.py, block by block.
--  * Rules/Edge is an independent account of the pipeline by kinds of move. Rules/Soundness and
--    Rules/Refinement relate the table to it, Rules/Gates reads off what leads to the stages that matter, Rules/Cover and its
--    neighbours Emits, Working, Failing and Opening show that no event is left without a rule, and
--    Rules/Terminal is about the ends.
--  * Lifecycle/Stages: the kinds of nodes, the terminal stages, those that reached the commit.
--  * Lifecycle/Runner: Apply is `_apply_delta`, Step is `_apply_transition`, Loop is `run_task`
--    (lifecycle/runner.py). Moves, Bounds, Window, Budget, Runs, Ranks, Termination,
--    Fuel, History and Overtime hold the proofs.
--  * Lifecycle/Nodes: what nodes return: System (nodes/system.py), Hook (nodes/hook.py, feedback.py),
--    Agent and Engines (nodes/agent.py, roles/recovery.py). Attempts, Visits and Resolved are about the
--    loops of Engines; Returns, Streak and Resuming put the nodes together with the table.
--  * Tasks/FailedRuns, Tasks/Normalization, Tasks/Eligibility: the tests on one task
--    (tasks/failed_runs.py, tasks/normalization.py, tasks/queue_eligibility.py). Tasks/Runnable and
--    Tasks/Gate say what they amount to.
--  * Tasks/Graph: the walks with a stack and a seen set, and what they find. Tasks/Dependencies: the
--    blockers of a task and the validator of dependencies (tasks/queue_eligibility.py), with Blockers
--    and Validation for the proofs.
--  * Tasks/Queue: the orders of the operator (tasks/queue.py), Guard the refusal of tasks that a runner
--    uses (state/locking.py); Lists, Repeats, Busy and Orders hold the proofs.
--  * Tasks/Mutations: tasks put back or dropped (tasks/queue_mutations.py, parts of tasks/runtime.py and
--    state/records.py); Slots and Rewind hold the proofs.
--  * Tasks/Selection: Normalize, Ranking and Resolve choose the next task (tasks/queue_selection.py);
--    Scanning, Restoring, Order and Ready hold the proofs. Tasks/Dequeue: the runner takes it, after
--    the check that one task at most is active; Keys, Got and Taking hold the proofs.
--  * Engines: which engine a task runs on next (config/engine_models.py, engine_quota.py,
--    engine_freezes.py, time_parsing.py). Select is `EngineRoutingPolicy.select`; Usable,
--    Frozen and Visits hold the proofs.
--  * Locks: the lock files of the runner and the daemon. Files is what the operating system does,
--    Manager is state/lock_manager.py, Daemon the registration of daemon/registry.py; Exclusion and
--    Overlap hold the proofs.
--  * Lifecycle/Samples, Runner/Samples, Nodes/Samples, Base/Samples, Tasks/Samples, Tasks/Examples,
--    Locks/Samples, Engines/Samples,
--    Lifecycle/Sessions/Samples: tests and concrete runs.
--
-- How the model reads the source. A text is a list of code points, and `lower` is that of ASCII.
-- Numbers are natural numbers and seconds are counted in tenths. The clock's text (`utcnow`) and the
-- `repr` of nested values are arguments, one reading for each transition. A blank resume target of a
-- recovery is `none`. Values of a hook's metadata that are no text read as empty. Descriptions of
-- rules and guards are left out. What persistence, journal, state sync and the observer get is the
-- `Outcome` of a transition; of the sessions, only which stage's are dropped is modelled.
--
-- The nodes, the clock and the stop requests are an argument of `run_task`, a function of the round
-- and the state (`Outside`), so that a theorem about all of them is one about every behaviour of the
-- outside. The loop runs on fuel: twenty rounds for each retry left of the three counters, and the
-- rank of the stage, are enough between two recoveries. The loops of an agent's node run on fuel for
-- the retries and nudges left, and for the engines that are not excluded. What an engine answers, the
-- prompts and the selector are arguments; a theorem that needs what the selector promises (`Selects`)
-- says so. The loops leave out pauses between attempts and the session of a turn. The table of sessions
-- (Lifecycle/Sessions) is a list of rows without the time of the last write.
--
-- A status that the source holds as an enumeration or any string is its text, as the source compares
-- it. A function that changes a task or the state in place returns it, `now` is the text of the clock,
-- and what it raises is a value of its result. A call on the queue runs under the workspace's locks, so
-- that it is one step; the repair of stale runs before it, the store of intents and the reports are
-- outside. The orders of the operator get the state and the tasks as they are loaded; `get` and
-- `require` look a task up in that list. The walk of the dependencies has fuel for every edge, and the theorems on it have no
-- condition. A subagent's record, a continuation and the diagnostics of a failure, which the code of
-- the queue only passes on, are the JSON objects they serialise to.
--
-- Of the choice of an engine, the freezes are those of the configuration in memory, as a map from names
-- to texts of times; times are seconds, and the library's parsers and printer of times, the clock, the
-- presence of an engine and what a vendor says of its quota are fields of `Outside`, fixed during one
-- selection.
--
-- Of files, only the lock files are modelled: a file has the handle that holds its lock and its text as
-- a JSON object, and the path names a file or none. A handle is numbered by who opens it. Waiting for
-- a lock is not modelled, nor are failures of the file system.
--
-- Not modelled: the engines' processes, git, the database, the prompts, the audit and
-- event logs, the recovery of stale runs, the daemon and the command line.
pub mod Base
pub mod Domain
pub mod Engines
pub mod Lifecycle
pub mod Locks
pub mod Tasks
