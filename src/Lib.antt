-- ===== src/Lib.antt =====
-- Verification of the agent kernel of SunPilot. A path without its package is below
-- packages/core/src/agent-kernel.
--
-- A run of the agent is a record whose status moves along a table; the ReAct loop asks a model for tool
-- calls, has the guard check a turn's calls, and executes those that need no approval; the permission
-- policy, the task-scoped grants and the approval gate decide who may do what; and the token budgeter
-- fits the context of a model call into a limit. Time, random ids and what a model returns are
-- arguments. An asynchronous method is one step, since it awaits nothing between its first read and its
-- last write.
--
--   * Base, Json, Text: what the parts share. `Dict` is a JavaScript `Map` in insertion order. `Json`
--     has the values of `JSON.parse` with natural numbers only; `Json.Print` is `JSON.stringify`, and
--     `Json.Stable` is `stableStringify`, whose order of the keys is a parameter in place of
--     `localeCompare`. A text is the list of its codes where the program looks into it.
--     `Text.Pattern` matches the regular expressions that the program uses, by backtracking over the
--     text; it is structural, so no fuel is needed.
--   * Run.Status: state/run-state-machine.ts and RUN_STATUSES of packages/protocol/src/types.ts.
--   * Run.State, Run.Manager: RunState and InMemoryRunStateManager of run-state-manager.ts (createRun,
--     markStatus, markFailed, markCompleted, markCancelled, acquireExecution, getRun, saveTaskState,
--     recordHistory, getHistory), with AgentLoopInput of loop-types.ts. `Run.Manager.Step` has the
--     calls as data and one step; its children follow the status, the terminal runs, the lease and the
--     history over sequences of calls. That a caller of acquireExecution expects only statuses that
--     may run (`CanRun`) is a hypothesis, since the method does not test it.
--   * Run.Store, Run.Repository: RepositoryRunStateManager of
--     persistence/repository-run-state-manager.ts over the tables `runs` and `run_status_history`, with
--     the statements that it uses of packages/storage/src/postgres/postgres.run.repository.ts. A method
--     is its read, what it plans from it, and its transaction. `Run.Repository.Trace` plays the calls of
--     Run.Manager on both managers; `Run.Repository.Races` lets a transaction run on tables that others
--     changed since the read. The repository has all its optional methods and transactions.
--   * Run.Abort: abort-registry.ts. The controllers stand in a store, since the registry and the run
--     share them.
--   * Safety.Types, Safety.Risk: safety/safety-types.ts (classifyRisk, the pattern lists,
--     APPROVAL_EXPIRY_MINUTES).
--   * Safety.Policy: safety/permission-policy.ts (evaluate, categoryFromSkillId, riskOrder).
--   * Safety.Grants: safety/task-scoped-permission-manager.ts (check, createApprovedGrant,
--     requiresFreshApproval, shouldReapproveForArgs, createGrant, argsMatch).
--   * Safety.Approval: InMemoryApprovalGate of safety/approval-gate.ts; a clean-up timer is the time
--     at which it fires, and its firing is the operation `cleanup`.
--   * Context.Chunk, Context.Budget: context/context-types.ts and TokenBudgeter of
--     context/context-budgeter.ts. Token counts are natural numbers, and the reserve is added to what
--     is used in place of being taken from the limit, so a reserve above the limit is covered as well.
--   * Tools.Schema, Tools.Validator: tools/tool-argument-validator.ts. The engine of regular expressions
--     and the order of keys are the fields of `Platform`, of which the theorems assume nothing. The
--     fuel of `validate_node` is how deep it descends into a schema, one more than the schema's depth,
--     which `Tools.Validator.Depth` shows to be enough. An object has the fields that it was parsed
--     with, so the names that every JavaScript object inherits count as absent.
--   * React.Calls, React.Observations, React.Counts, React.Guard: ToolCallGuard of
--     react-loop/tool-call-guard.ts with ObservationBuilder of react-loop/observation-builder.ts,
--     SkillSummary of tools/tool-types.ts and ToolCall of llm/llm.types.ts (from packages/core/src). A
--     text for a model is the list of its UTF-16 units (`Text.Units`), which its limit counts.
--   * React.Control, React.Limits, React.Transcript: react-loop/control-tools.ts,
--     react-loop/loop-limits.ts, and the functions of react-loop/react-loop-runner.ts on the messages
--     (injectObservations, appendSummariesToTranscript, closeUnresolvedToolCalls,
--     collectSeenSignatures).
--   * React.Session, React.Turn, React.Loop, React.Loop.Run: ReactLoopRunner of
--     react-loop/react-loop-runner.ts. `round` is one pass of the loop of `run`; `LoopState` has the
--     variables of `run` and the list of what it does to the outside; `World` has what the outside does
--     in each round, by the number of model calls made so far. `run` starts from a catalog of tools
--     that is given (`Session`), and its fuel is one more than maxModelCalls, since a round that is not
--     the last one finds a model call left. Run also has resumeAfterApprovedTools,
--     resumeAfterRejection, resumeWithUserInput and resumeInterrupted. `React.Loop.View` lists the ways
--     in which a round goes, on which the proofs about the loop rest.
--   * Events.Throttle: DeltaThrottle of agent-event-bus.ts. `fire` is the callback of its timer, which
--     runs only where one is set.
--   * Memory.Retry: MemoryRetryWrapper.writeFromTurn of memory/memory-retry.ts; what the attempts of
--     the inner writer do is an argument, and the loop is recursion on the attempts left.
--
-- Not modelled: console output, the repository-backed services over the database, the
-- retrieval of tools with the definitions that a provider is given, the first transcript of a run and
-- its rich cards, the executors of model turns and tools, retrieval and the writing of memories, and the
-- server, storage and interface packages.
pub mod Base
pub mod Json
pub mod Text
pub mod Run
pub mod Safety
pub mod Tools
pub mod Context
pub mod React
pub mod Memory
pub mod Events
pub mod Tests
